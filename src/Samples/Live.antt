-- ===== src/Samples/Live.antt =====
-- A page that connects to the stream: one entry before it, one before its snapshot, and one after.
use mathlib.Core.List.{Perm}
use sql_gateway_poc.Base.{
  ℕ, zero, suc, true, false, Option, none, some, List, [], ◌∷◌, ◌++◌, map, ◌==◌, ==_iff,
  if◌then◌else◌, ◌≡◌, refl, ap, subst, arith, length, drop, Bool-cases, inl, inr,
}
use sql_gateway_poc.Base.Text.{Text, codes, text_eq}
use sql_gateway_poc.Base.Dict.{Dict}
use sql_gateway_poc.Core.Dtos.{allowed}
use sql_gateway_poc.Core.Entry.{
  ObservabilityEntryDto, PayloadValue, string, code, verdict, amount, int, names, table, flag,
  to_json_payload,
}
use sql_gateway_poc.Observability.Subscriber.{Subscriber, deliver, run_scheduled, get}
use sql_gateway_poc.Observability.Subscriber.Order.{NothingDropped}
use sql_gateway_poc.Observability.InMemory.{record_in_memory, deliver_in_memory, subscribe}
use sql_gateway_poc.Observability.InMemory.Buffer.{RecorderCall, records, delivers, after}
use sql_gateway_poc.Observability.InMemory.Clients.{SystemStep, calls, runs, reads}
use sql_gateway_poc.Observability.InMemory.Clients.Snapshots.{in_the_end}
use sql_gateway_poc.Observability.Stream.{Turn}
use sql_gateway_poc.Observability.Page.{new_page}
use sql_gateway_poc.Observability.Page.Cards.{add_all}
use sql_gateway_poc.Observability.Page.Live.{new_live_page, on_open, opened, listen_all, deliveries}
use sql_gateway_poc.Observability.Page.Live.Wire.{IsUnbroken, IsWire, with_page}
use sql_gateway_poc.Observability.Page.Live.Complete.{
  IsAttentive, IsStay, IsCalm, recorded_first, recorded_later, sent, live_page-shows,
}
use sql_gateway_poc.Samples.Ports.{one_entry}

abbrev ticks : ℕ → Text
ticks zero = []
ticks (suc n) = b'1' ∷ ticks n

abbrev numbered : ℕ → ObservabilityEntryDto
numbered n = record one_entry { request_id = ticks n }

-- A payload is written as its first text, each character as a 1.
dump_value : PayloadValue → Text
dump_value (string t) = map (λ c. b'1') t
dump_value _ = []

unfoldable pub dumps : Dict PayloadValue → Text
unfolding dump_value
dumps [] = []
dumps ((key, value) ∷ payload) = dump_value value

abbrev parse : Text → Option ObservabilityEntryDto
parse data_ = some (numbered (length data_))

line : Text → Text
line [] = []
line (c ∷ t) = let rest = line t in if c == 10 then [] else c ∷ rest

-- The data of a frame of one line.
frame_data : Text → Option Text
unfolding line
frame_data [] = none
frame_data (c ∷ t) = if c == b':' then none else some (line (drop 5 t))

line-unbroken : (data_ : Text) → IsUnbroken data_ → line (data_ ++ 10 ∷ 10 ∷ []) ≡ data_
unfolding line
line-unbroken [] h = refl
line-unbroken (c ∷ data_) h = elim (Bool-cases (c == 10)) [
  | inl e ↦ absurd (h.0.0 ((==_iff c 10).0 e))
  | inr e ↦ rw e (ap (λ t. c ∷ t) (line-unbroken data_ h.1))
]

ones-IsUnbroken : (t : Text) → IsUnbroken (map (λ c. b'1') t)
ones-IsUnbroken [] = tt
ones-IsUnbroken (c ∷ t) = ((λ e. omega (arith, e), λ e. omega (arith, e)), ones-IsUnbroken t)

dumps-IsUnbroken : (payload : Dict PayloadValue) → IsUnbroken (dumps payload)
unfolding dumps dump_value
dumps-IsUnbroken [] = tt
dumps-IsUnbroken ((key, string t) ∷ payload) = ones-IsUnbroken t
dumps-IsUnbroken ((key, code c) ∷ payload) = tt
dumps-IsUnbroken ((key, verdict d) ∷ payload) = tt
dumps-IsUnbroken ((key, amount n) ∷ payload) = tt
dumps-IsUnbroken ((key, int z) ∷ payload) = tt
dumps-IsUnbroken ((key, names l) ∷ payload) = tt
dumps-IsUnbroken ((key, table l) ∷ payload) = tt
dumps-IsUnbroken ((key, flag b) ∷ payload) = tt

abbrev before : List RecorderCall
before = records (numbered 1) ∷ []

abbrev early : List SystemStep
early = calls (records (numbered 2)) ∷ []

-- The entry that was recorded last is delivered first.
abbrev late : List SystemStep
late =
    calls (records (numbered 3))
    ∷ calls (delivers 1)
    ∷ calls (delivers 0)
    ∷ runs 0
    ∷ reads
    ∷ runs 0
    ∷ reads
    ∷ []

abbrev waits : Option ObservabilityEntryDto → Turn
waits o = record { is_disconnected = false; waited = o }

abbrev replayed : List Turn
replayed = waits none ∷ waits none ∷ []

abbrev turns : List Turn
turns = waits (some (numbered 3)) ∷ waits none ∷ waits (some (numbered 2)) ∷ []

abbrev gone : Turn
gone = record { is_disconnected = true; waited = none }

wire :
    IsWire dumps frame_data parse
      (recorded_first 7 before early late ++ (in_the_end 7 before early late).read)
unfolding dumps dump_value frame_data codes to_json_payload after record_in_memory deliver_in_memory
    subscribe deliver run_scheduled get
wire = record {
  dumps_unbroken = dumps-IsUnbroken;
  comment_is_silent = refl;
  data_arrives = λ data_ h. ap some (line-unbroken data_ h);
  parse_dumps = (refl, (refl, (refl, (refl, tt))));
}

-- The client, if there is one, has read all, and nothing was dropped.
abbrev IsRead : Option Subscriber → Type 0
IsRead none = Unit
IsRead (some c) = NothingDropped c × (c.queue ++ c.scheduled ≡ [])

session-IsAttentive : IsAttentive 7 before early late
unfolding after record_in_memory deliver_in_memory subscribe deliver run_scheduled get
session-IsAttentive = record {
  others_before = (tt, tt);
  others_early = (tt, tt);
  others_late = (tt, (tt, (tt, (tt, (tt, (tt, (tt, tt)))))));
  nothing_dropped = λ c e. subst IsRead e ((refl, refl), refl);
  nothing_owed = refl;
}

session-IsStay : IsStay 7 before early late replayed turns gone
unfolding after record_in_memory deliver_in_memory subscribe deliver run_scheduled get
session-IsStay = record {
  one_each = refl;
  there_first = (refl, (refl, tt));
  there_then = (refl, (refl, (refl, tt)));
  leaves = refl;
  took = refl;
}

session-IsCalm : IsCalm 7 before early late
unfolding after record_in_memory deliver_in_memory subscribe deliver run_scheduled get text_eq
session-IsCalm = record {
  room = omega arith;
  named_first = (refl, (refl, tt));
  named_read = (refl, (refl, tt));
  apart = ((refl, tt), ((refl, tt), tt));
}

live_page-shows_example :
    (order : List ObservabilityEntryDto) × Perm order (recorded_later 7 before early late)
    × (listen_all parse
          (opened
            ∷ deliveries frame_data
                (sent 7 before early late dumps frame_data parse wire replayed turns gone []))
          (new_live_page (allowed ∷ []))
        ≡ with_page
            (add_all (recorded_first 7 before early late ++ order) (new_page (allowed ∷ [])))
            (on_open (new_live_page (allowed ∷ []))))
live_page-shows_example =
    live_page-shows 7 before early late dumps frame_data parse wire replayed turns gone []
      session-IsAttentive session-IsStay session-IsCalm (allowed ∷ [])
