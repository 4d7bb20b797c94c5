-- ===== src/Observability/Page/Live/Wire.antt =====
-- The messages that the page hears of the frames of the stream.
use sql_gateway_poc.Base.{
  true, Option, none, some, List, [], ◌∷◌, ◌++◌, map, ◌≡◌, refl, sym, ap, ◌∙◌, All, All-append_left,
  All-append_right,
}
use sql_gateway_poc.Base.Text.{Text, codes}
use sql_gateway_poc.Base.Dict.{Dict}
use sql_gateway_poc.Core.Entry.{ObservabilityEntryDto, PayloadValue, to_json_payload}
use sql_gateway_poc.Observability.Stream.{
  Turn, format_server_sent_event, entry_frame, keepalive, turn_frame,
}
use sql_gateway_poc.Observability.Page.{Page, add_entry}
use sql_gateway_poc.Observability.Page.Events.{on_message}
use sql_gateway_poc.Observability.Page.Cards.{add_all}
use sql_gateway_poc.Observability.Page.Live.{LivePage, listen, listen_all, deliveries}

-- The text has no end of line.
abbrev pub IsUnbroken : Text → Type 0
IsUnbroken = All (λ c. (¬ (c ≡ 10)) × (¬ (c ≡ 13)))

abbrev pub given : Option ObservabilityEntryDto → List ObservabilityEntryDto
given none = []
given (some entry) = entry ∷ []

-- The entries that the turns of the loop took from the queue.
abbrev pub taken : List Turn → List ObservabilityEntryDto
taken [] = []
taken (turn ∷ turns) = given turn.waited ++ taken turns

-- The entry's text is read back.
abbrev pub Parses :
    (Dict PayloadValue → Text)
    → (Text → Option ObservabilityEntryDto)
    → ObservabilityEntryDto
    → Type 0
Parses dumps parse entry = parse (dumps (to_json_payload entry true)) ≡ some entry

-- What is known of json.dumps, of EventSource and of JSON.parse: JSON is written on one line; a
-- comment is not reported, and the data of a frame of one line is; the text of an entry is read back.
pub record IsWire (dumps : Dict PayloadValue → Text) (frame_data : Text → Option Text)
    (parse : Text → Option ObservabilityEntryDto) (entries : List ObservabilityEntryDto)
    : Type 0 where
  pub dumps_unbroken : (payload : Dict PayloadValue) → IsUnbroken (dumps payload)
  pub comment_is_silent : frame_data (keepalive dumps) ≡ none
  pub data_arrives :
      (data_ : Text)
      → IsUnbroken data_
      → frame_data (codes "data: " ++ (data_ ++ 10 ∷ 10 ∷ [])) ≡ some data_
  pub parse_dumps : All (Parses dumps parse) entries

pub add_all-append :
    (es fs : List ObservabilityEntryDto) (p : Page)
    → add_all (es ++ fs) p ≡ add_all fs (add_all es p)
add_all-append [] fs p = refl
add_all-append (e ∷ es) fs p = add_all-append es fs (add_entry e p)

-- The page after these frames.
abbrev pub shown :
    (Text → Option Text) → (Text → Option ObservabilityEntryDto) → List Text → LivePage → LivePage
shown frame_data parse frames l = listen_all parse (deliveries frame_data frames) l

abbrev pub with_page : Page → LivePage → LivePage
with_page p l = record l { page = p }

module _ (dumps : Dict PayloadValue → Text) (frame_data : Text → Option Text)
    (parse : Text → Option ObservabilityEntryDto) (all_entries : List ObservabilityEntryDto)
    (wire : IsWire dumps frame_data parse all_entries) where
  one_frame :
      (entry : ObservabilityEntryDto) (frames : List Text) (l : LivePage)
      → Parses dumps parse entry
      → shown frame_data parse (entry_frame dumps entry ∷ frames) l
        ≡ shown frame_data parse frames (with_page (add_entry entry l.page) l)
  unfolding format_server_sent_event codes listen on_message
  one_frame entry frames l h =
      let payload = to_json_payload entry true in
      simp (wire.data_arrives (dumps payload) (wire.dumps_unbroken payload), h) refl

  pub entry_frames :
      (entries : List ObservabilityEntryDto) (frames : List Text) (l : LivePage)
      → All (Parses dumps parse) entries
      → shown frame_data parse (map (entry_frame dumps) entries ++ frames) l
        ≡ shown frame_data parse frames (with_page (add_all entries l.page) l)
  entry_frames [] frames l h = refl
  entry_frames (entry ∷ entries) frames l h =
      one_frame entry (map (entry_frame dumps) entries ++ frames) l h.0
      ∙ entry_frames entries frames (with_page (add_entry entry l.page) l) h.1

  waited_frame :
      (o : Option ObservabilityEntryDto) (frames : List Text) (l : LivePage)
      → All (Parses dumps parse) (given o)
      → shown frame_data parse (turn_frame dumps o ∷ frames) l
        ≡ shown frame_data parse frames (with_page (add_all (given o) l.page) l)
  waited_frame none frames l h = simp wire.comment_is_silent refl
  waited_frame (some entry) frames l h = one_frame entry frames l h.0

  pub turn_frames :
      (turns : List Turn) (l : LivePage)
      → All (Parses dumps parse) (taken turns)
      → shown frame_data parse (map (λ turn. turn_frame dumps turn.waited) turns) l
        ≡ with_page (add_all (taken turns) l.page) l
  turn_frames [] l h = refl
  turn_frames (turn ∷ turns) l h =
      let rest = map (λ t. turn_frame dumps t.waited) turns in
      waited_frame turn.waited rest l
        (All-append_left (Parses dumps parse) (given turn.waited) (taken turns) h)
      ∙ turn_frames turns (with_page (add_all (given turn.waited) l.page) l)
          (All-append_right (Parses dumps parse) (given turn.waited) (taken turns) h)
      ∙ ap (λ p. with_page p l) (sym (add_all-append (given turn.waited) (taken turns) l.page))
