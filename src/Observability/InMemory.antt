-- ===== src/Observability/InMemory.antt =====
-- The recorder behind the live page: the last entries, and the subscribers.
-- infrastructure/observability/in_memory_observability_recorder_adapter.py
pub mod Buffer
pub mod Clients
use sql_gateway_poc.Base.{
  ℕ, zero, suc, Bool, Option, none, some, List, [], ◌∷◌, ◌++◌, map, ltb, ◌==◌, if◌then◌else◌,
  length, drop,
}
use sql_gateway_poc.Core.Entry.{ObservabilityEntryDto}
use sql_gateway_poc.Observability.Subscriber.{Subscriber, new_subscriber, deliver}

-- _MAX_BUFFERED_ENTRIES
abbrev pub max_buffered_entries : ℕ
max_buffered_entries = 500

-- InMemoryObservabilityRecorderAdapter; a subscriber has a number as its identity. `pending` are the
-- deliveries, an entry to a subscriber each, that calls of record in some threads have still to
-- make: they are made outside the lock, so in any order between threads.
pub record InMemory : Type 0 where
  pub entries : List ObservabilityEntryDto
  pub subscribers : List (ℕ × Subscriber)
  pub pending : List (ObservabilityEntryDto × ℕ)

abbrev pub empty_recorder : InMemory
empty_recorder = record { entries = []; subscribers = []; pending = [] }

-- deque(maxlen).append: a full deque loses its first element.
append_bounded : ObservabilityEntryDto → List ObservabilityEntryDto → List ObservabilityEntryDto
append_bounded entry entries =
    if ltb (length entries) max_buffered_entries
    then entries ++ entry ∷ []
    else drop 1 entries ++ entry ∷ []

-- A delivery of the entry to each of the subscribers.
abbrev pub deliveries_of :
    ObservabilityEntryDto → List (ℕ × Subscriber) → List (ObservabilityEntryDto × ℕ)
deliveries_of entry subscribers = map (λ (k, s). (entry, k)) subscribers

-- record, up to the end of its locked block: the deliveries of its loop are then to be made.
unfoldable pub record_in_memory : ObservabilityEntryDto → InMemory → InMemory
unfolding append_bounded
record_in_memory entry r = record {
  entries = append_bounded entry r.entries;
  subscribers = r.subscribers;
  pending = r.pending ++ deliveries_of entry r.subscribers;
}

-- The subscriber `k` gets the entry.
abbrev pub deliver_to : ℕ → ObservabilityEntryDto → List (ℕ × Subscriber) → List (ℕ × Subscriber)
deliver_to k entry [] = []
deliver_to k entry ((j, s) ∷ subscribers) =
    let rest = deliver_to k entry subscribers in
    if j == k then (j, deliver entry s) ∷ rest else (j, s) ∷ rest

abbrev pub pick : ℕ → List (ObservabilityEntryDto × ℕ) → Option (ObservabilityEntryDto × ℕ)
pick n [] = none
pick zero (d ∷ pending) = some d
pick (suc n) (d ∷ pending) = pick n pending

abbrev pub without_at : ℕ → List (ObservabilityEntryDto × ℕ) → List (ObservabilityEntryDto × ℕ)
without_at n [] = []
without_at zero (d ∷ pending) = pending
without_at (suc n) (d ∷ pending) = d ∷ without_at n pending

make_delivery : ℕ → Option (ObservabilityEntryDto × ℕ) → InMemory → InMemory
make_delivery n none r = r
make_delivery n (some (entry, k)) r = record r {
  subscribers = deliver_to k entry r.subscribers;
  pending = without_at n r.pending;
}

-- One round of the loop of record, in the thread whose delivery is this one of the pending ones.
unfoldable pub deliver_in_memory : ℕ → InMemory → InMemory
unfolding make_delivery
deliver_in_memory n r = make_delivery n (pick n r.pending) r

abbrev pub snapshot : InMemory → List ObservabilityEntryDto
snapshot r = r.entries

pub without : ℕ → List (ℕ × Subscriber) → List (ℕ × Subscriber)
without k [] = []
without k ((j, s) ∷ subscribers) =
    let rest = without k subscribers in if j == k then rest else (j, s) ∷ rest

-- The two ends of the context manager `subscribe`.
unfoldable pub subscribe : ℕ → InMemory → InMemory
subscribe k r = record r { subscribers = (k, new_subscriber) ∷ r.subscribers }

unfoldable pub unsubscribe : ℕ → InMemory → InMemory
unfolding without
unsubscribe k r = record r { subscribers = without k r.subscribers }

abbrev pub subscriber_count : InMemory → ℕ
subscriber_count r = length r.subscribers
