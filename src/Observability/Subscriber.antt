-- ===== src/Observability/Subscriber.antt =====
-- One live client of the stream: its bounded queue, and the warnings about a slow one.
-- infrastructure/observability/in_memory_observability_recorder_adapter.py
pub mod Accounts
pub mod Order
use sql_gateway_poc.Base.{
  ℕ, suc, ◌+◌, ◌-◌, Bool, true, false, List, [], ◌∷◌, ◌++◌, ltb, if◌then◌else◌, length,
}
use sql_gateway_poc.Core.Entry.{ObservabilityEntryDto}

-- _MAX_PER_SUBSCRIBER_QUEUE_SIZE
abbrev pub max_per_subscriber_queue_size : ℕ
max_per_subscriber_queue_size = 1000

-- _SLOW_CONSUMER_WARNING_INTERVAL_SECONDS, in nanoseconds
abbrev pub slow_consumer_warning_interval : ℕ
slow_consumer_warning_interval = 30000000000

-- A logged warning: when, and how many drops it reports.
pub record Warning : Type 0 where
  pub at : ℕ
  pub dropped : ℕ

-- _Subscriber, with its event loop: whether it is closed, and the deliveries that
-- call_soon_threadsafe scheduled on it and that have not run yet, oldest first.
pub record Subscriber : Type 0 where
  pub queue : List ObservabilityEntryDto
  pub is_closed : Bool
  pub scheduled : List ObservabilityEntryDto
  pub drops_since_last_warning : ℕ
  pub last_warning_at : ℕ
  pub warnings : List Warning

abbrev pub new_subscriber : Subscriber
new_subscriber = record {
  queue = [];
  is_closed = false;
  scheduled = [];
  drops_since_last_warning = 0;
  last_warning_at = 0;
  warnings = [];
}

-- deliver: a closed loop, also one that closes at this moment, takes nothing.
unfoldable pub deliver : ObservabilityEntryDto → Subscriber → Subscriber
deliver entry s = if s.is_closed then s else record s { scheduled = s.scheduled ++ entry ∷ [] }

-- _maybe_warn_about_slow_consumer, at the time `now_monotonic`
unfoldable pub maybe_warn_about_slow_consumer : ℕ → Subscriber → Subscriber
maybe_warn_about_slow_consumer now_monotonic s =
    if ltb (now_monotonic - s.last_warning_at) slow_consumer_warning_interval then s else record s {
      last_warning_at = now_monotonic;
      drops_since_last_warning = 0;
      warnings = record { at = now_monotonic; dropped = s.drops_since_last_warning } ∷ s.warnings;
    }

-- _put_if_possible: put_nowait raises QueueFull if the queue has its size
unfoldable pub put_if_possible : ℕ → ObservabilityEntryDto → Subscriber → Subscriber
unfolding maybe_warn_about_slow_consumer
put_if_possible now entry s =
    if ltb (length s.queue) max_per_subscriber_queue_size
    then record s { queue = s.queue ++ entry ∷ [] }
    else maybe_warn_about_slow_consumer now
        (record s { drops_since_last_warning = suc s.drops_since_last_warning })

run_next : ℕ → List ObservabilityEntryDto → Subscriber → Subscriber
unfolding put_if_possible
run_next now [] s = s
run_next now (entry ∷ later) s = put_if_possible now entry (record s { scheduled = later })

-- The event loop runs the delivery that was scheduled first.
unfoldable pub run_scheduled : ℕ → Subscriber → Subscriber
unfolding run_next
run_scheduled now s = run_next now s.scheduled s

get_next : List ObservabilityEntryDto → Subscriber → List ObservabilityEntryDto × Subscriber
get_next [] s = ([], s)
get_next (entry ∷ later) s = (entry ∷ [], record s { queue = later })

-- What the client reads: the entry, and the queue without it. Nothing, where it would wait.
unfoldable pub get : Subscriber → List ObservabilityEntryDto × Subscriber
unfolding get_next
get s = get_next s.queue s

unfoldable pub close_loop : Subscriber → Subscriber
close_loop s = record s { is_closed = true }
