-- ===== src/Observability/Page/Live/Complete.antt =====
-- From the recorder to the page: what the page shows of what was recorded.
use mathlib.Core.List.{append-nil, Perm}
use sql_gateway_poc.Base.{
  ℕ, ◌+◌, ◌-◌, ◌≤◌, true, Option, some, List, [], ◌∷◌, ◌++◌, map, ◌≡◌, sym, ap, ◌∙◌, subst, arith,
  All, All-append_left, All-append_right, length, drop,
}
use sql_gateway_poc.Base.Text.{Text}
use sql_gateway_poc.Base.Dict.{Dict}
use sql_gateway_poc.Core.Dtos.{DecisionEnum}
use sql_gateway_poc.Core.Entry.{ObservabilityEntryDto, PayloadValue}
use sql_gateway_poc.Observability.Subscriber.{Subscriber}
use sql_gateway_poc.Observability.Subscriber.Order.{NothingDropped}
use sql_gateway_poc.Observability.InMemory.{max_buffered_entries, snapshot}
use sql_gateway_poc.Observability.InMemory.Buffer.{RecorderCall, recorded, last_of}
use sql_gateway_poc.Observability.InMemory.Clients.{SystemStep, calls, client_in, calls_of}
use sql_gateway_poc.Observability.InMemory.Clients.Delivery.{owed}
use sql_gateway_poc.Observability.InMemory.Clients.Serving.{IsOther}
use sql_gateway_poc.Observability.InMemory.Clients.Snapshots.{
  at_snapshot, in_the_end, clients-HasEverything,
}
use sql_gateway_poc.Observability.Stream.{Turn, entry_frame, turn_frame, event_generator}
use sql_gateway_poc.Observability.Stream.Frames.{AreConnected, event_generator_frames}
use sql_gateway_poc.Observability.Page.{max_cards_on_page, new_page}
use sql_gateway_poc.Observability.Page.Cards.{add_all}
use sql_gateway_poc.Observability.Page.Replay.{HasId, IsSeen, add_all-AreSeen}
use sql_gateway_poc.Observability.Page.Latest.{none_seen}
use sql_gateway_poc.Observability.Page.Live.{
  LivePage, new_live_page, on_open, opened, listen, listen_all, deliveries,
}
use sql_gateway_poc.Observability.Page.Live.Wire.{
  taken, IsWire, Parses, add_all-append, shown, with_page, entry_frames, turn_frames,
}
use sql_gateway_poc.Observability.Page.Live.Arrivals.{
  fresh, fresh-append, fresh-seen, fresh-unseen, fresh-perm, length-perm, add_all-fresh,
  add_all-few, AreApart, add_all-AreUnseen,
}

module _ (k : ℕ) (before : List RecorderCall) (early late : List SystemStep) where
  abbrev pub recorded_first : List ObservabilityEntryDto
  recorded_first = recorded before ++ recorded (calls_of early)

  abbrev pub recorded_later : List ObservabilityEntryDto
  recorded_later = recorded (calls_of late)

  -- The identity of the client is its own; its queue was never full, and it has read all that was
  -- delivered to it; no delivery to it is still to be made.
  pub record IsAttentive : Type 0 where
    pub others_before : All (λ c. IsOther k (calls c)) before
    pub others_early : All (IsOther k) early
    pub others_late : All (IsOther k) late
    pub nothing_dropped :
        (c : Subscriber)
        → client_in k (in_the_end k before early late).recorder.subscribers ≡ some c
        → NothingDropped c × (c.queue ++ c.scheduled ≡ [])
    pub nothing_owed : owed k (in_the_end k before early late).recorder.pending ≡ []

  -- What the loops of the stream meet: a turn for each entry of the snapshot, then the turns that
  -- take what the client read, and then the client is gone.
  pub record IsStay (replayed turns : List Turn) (gone : Turn) : Type 0 where
    pub one_each : length replayed ≡ length (snapshot (at_snapshot k before early late).recorder)
    pub there_first : AreConnected replayed
    pub there_then : AreConnected turns
    pub leaves : gone.is_disconnected ≡ true
    pub took : taken turns ≡ (in_the_end k before early late).read

  -- The page has room for all entries, all have ids, and the later ones have ids of their own.
  pub record IsCalm : Type 0 where
    pub room : length recorded_first + length recorded_later ≤ max_cards_on_page
    pub named_first : All HasId recorded_first
    pub named_read : All HasId (in_the_end k before early late).read
    pub apart : AreApart recorded_first recorded_later

  -- What the client has read is what was recorded since it subscribed, in some order.
  reads_all :
      IsAttentive
      → Perm (in_the_end k before early late).read (recorded (calls_of early) ++ recorded_later)
  reads_all a =
      let has =
        clients-HasEverything k before early late a.others_before a.others_early a.others_late in
      let h = a.nothing_dropped has.client has.is_client in
      let read = (in_the_end k before early late).read in
      let all : (read ++ (has.client.queue ++ has.client.scheduled))
            ++ owed k (in_the_end k before early late).recorder.pending
          ≡ read =
        ap (λ l. (read ++ l) ++ owed k (in_the_end k before early late).recorder.pending) h.1
        ∙ ap (λ l. (read ++ []) ++ l) a.nothing_owed
        ∙ append-nil (read ++ [])
        ∙ append-nil read in
      subst (λ l. Perm l (recorded (calls_of early) ++ recorded_later)) all (has.has_queued h.0)

  -- The whole snapshot, as there is room for it.
  snapshot_whole : IsCalm → last_of max_buffered_entries recorded_first ≡ recorded_first
  snapshot_whole calm =
      let none_lost : length recorded_first - max_buffered_entries ≡ 0 = omega (arith, calm.room) in
      ap (λ n. drop n recorded_first) none_lost

  -- The later entries in the order in which they come to the page.
  abbrev pub arrivals : List DecisionEnum → List ObservabilityEntryDto
  arrivals active_filters =
      fresh (add_all recorded_first (new_page active_filters)).seen_request_ids
        (in_the_end k before early late).read

  arrivals-perm :
      IsAttentive
      → IsCalm
      → (active_filters : List DecisionEnum) → Perm (arrivals active_filters) recorded_later
  arrivals-perm a calm active_filters =
      let start = new_page active_filters in
      let p = add_all recorded_first start in
      let new = recorded (calls_of early) in
      let seen =
        (add_all-AreSeen recorded_first start (omega (arith, calm.room)) calm.named_first).0 in
      let seen_new = All-append_right (λ e. IsSeen p e.request_id) (recorded before) new seen in
      let unseen =
        add_all-AreUnseen recorded_first recorded_later start calm.named_first calm.apart
          (none_seen recorded_later) in
      subst (Perm (arrivals active_filters))
        (fresh-append p.seen_request_ids new recorded_later
          ∙ ap (λ l. l ++ fresh p.seen_request_ids recorded_later) (fresh-seen p new seen_new)
          ∙ fresh-unseen p.seen_request_ids recorded_later unseen)
        (fresh-perm p.seen_request_ids (reads_all a))

  -- The page ignores what comes with the snapshot and again with the queue.
  known_twice :
      IsAttentive
      → IsCalm
      → (active_filters : List DecisionEnum)
      → add_all (recorded_first ++ (in_the_end k before early late).read) (new_page active_filters)
        ≡ add_all (recorded_first ++ arrivals active_filters) (new_page active_filters)
  known_twice a calm active_filters =
      let start = new_page active_filters in
      let p = add_all recorded_first start in
      let read = (in_the_end k before early late).read in
      let few = add_all-few recorded_first start calm.named_first (omega (arith, calm.room)) in
      let same = length-perm (arrivals-perm a calm active_filters) in
      add_all-append recorded_first read start
      ∙ add_all-fresh p p read (λ id s. s) calm.named_read (omega (arith, calm.room, few, same))
      ∙ sym (add_all-append recorded_first (arrivals active_filters) start)

  module _ (dumps : Dict PayloadValue → Text) (frame_data : Text → Option Text)
      (parse : Text → Option ObservabilityEntryDto)
      (wire : IsWire dumps frame_data parse
        (recorded_first ++ (in_the_end k before early late).read))
      (replayed turns : List Turn) (gone : Turn) (later : List Turn) where
    -- What the server sends to the client.
    abbrev pub sent : List Text
    sent =
        event_generator dumps (snapshot (at_snapshot k before early late).recorder)
          (replayed ++ (turns ++ gone ∷ later))

    sent_is_shown :
        IsAttentive
        → IsStay replayed turns gone
        → IsCalm
        → (l : LivePage)
        → shown frame_data parse sent l
          ≡ with_page (add_all (recorded_first ++ (in_the_end k before early late).read) l.page) l
    sent_is_shown a stay calm l =
        let has =
          clients-HasEverything k before early late a.others_before a.others_early a.others_late in
        let read = (in_the_end k before early late).read in
        let turned = map (λ turn. turn_frame dumps turn.waited) turns in
        ap (λ frames. shown frame_data parse frames l)
          (event_generator_frames dumps _ replayed turns gone later stay.one_each stay.there_first
            stay.there_then stay.leaves)
        ∙ ap (λ es. shown frame_data parse (map (entry_frame dumps) es ++ turned) l)
            (has.snapshot_taken ∙ snapshot_whole calm)
        ∙ entry_frames dumps frame_data parse _ wire recorded_first turned l
            (All-append_left (Parses dumps parse) recorded_first read wire.parse_dumps)
        ∙ turn_frames dumps frame_data parse _ wire turns
            (with_page (add_all recorded_first l.page) l)
            (subst (All (Parses dumps parse)) (sym stay.took)
              (All-append_right (Parses dumps parse) recorded_first read wire.parse_dumps))
        ∙ ap (λ es. with_page (add_all es (add_all recorded_first l.page)) l) stay.took
        ∙ ap (λ p. with_page p l) (sym (add_all-append recorded_first read l.page))

    -- A new page connects to the stream: its client subscribes, takes its snapshot later, reads all
    -- that is delivered to it, never lets its queue fill up, and stays until it has all of that;
    -- meanwhile threads record entries and make the deliveries in any order, other clients come and
    -- go, and the event loop runs. At most 500 entries are recorded, all with ids, and those
    -- recorded after the snapshot have ids that the others do not have; JSON and the EventSource do
    -- what `IsWire` says. Then the page says that it is connected, and shows what a page shows to
    -- which the entries recorded before the snapshot are added in their order, and then those
    -- recorded later, each as often as it was recorded, in some order: what comes with both the
    -- snapshot and the queue is not shown twice, wherever in the queue it comes, and nothing is
    -- missing.
    pub live_page-shows :
        IsAttentive
        → IsStay replayed turns gone
        → IsCalm
        → (active_filters : List DecisionEnum)
        → (order : List ObservabilityEntryDto) × Perm order recorded_later
          × (listen_all parse (opened ∷ deliveries frame_data sent) (new_live_page active_filters)
              ≡ with_page
                  (add_all (recorded_first ++ order) (new_page active_filters))
                  (on_open (new_live_page active_filters)))
    unfolding listen on_open
    live_page-shows a stay calm active_filters = (
      arrivals active_filters,
      arrivals-perm a calm active_filters,
      sent_is_shown a stay calm (on_open (new_live_page active_filters))
          ∙ ap (λ p. with_page p (on_open (new_live_page active_filters)))
              (known_twice a calm active_filters),
    )
