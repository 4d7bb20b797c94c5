-- ===== src/Observability/InMemory/Clients.antt =====
-- What a client of the event stream gets of the entries that are recorded: it subscribes first and
-- takes the snapshot then, while other threads go on recording.
-- application/controllers/http/observability/observability_http_controller.py
pub mod Delivery
pub mod Serving
pub mod Newcomer
pub mod Snapshots
use sql_gateway_poc.Base.{ℕ, Option, none, some, List, [], ◌∷◌, ◌++◌, ◌==◌, if◌then◌else◌, map}
use sql_gateway_poc.Core.Entry.{ObservabilityEntryDto}
use sql_gateway_poc.Observability.Subscriber.{Subscriber, run_scheduled, get}
use sql_gateway_poc.Observability.InMemory.{InMemory, subscribe}
use sql_gateway_poc.Observability.InMemory.Buffer.{RecorderCall, perform}

-- What may happen while the client with this identity is there, its event loop open: a call of the
-- recorder, a run of a delivery on the event loop, or a read of the client's queue.
pub data SystemStep : Type 0 where
  calls : RecorderCall → SystemStep
  runs : ℕ → SystemStep
  reads : SystemStep

-- The recorder, and the entries that the client has read from its queue.
pub record Session : Type 0 where
  pub recorder : InMemory
  pub read : List ObservabilityEntryDto

abbrev pub client_in : ℕ → List (ℕ × Subscriber) → Option Subscriber
client_in k [] = none
client_in k ((j, s) ∷ subscribers) =
    let rest = client_in k subscribers in if j == k then some s else rest

-- The client's own subscriber is changed.
abbrev pub put_client : ℕ → Subscriber → List (ℕ × Subscriber) → List (ℕ × Subscriber)
put_client k new [] = []
put_client k new ((j, s) ∷ subscribers) =
    let rest = put_client k new subscribers in
    if j == k then (j, new) ∷ subscribers else (j, s) ∷ rest

abbrev pub run_client : ℕ → ℕ → Option Subscriber → Session → Session
run_client k now none s = s
run_client k now (some c) s = record s {
  recorder = record s.recorder {
    subscribers = put_client k (run_scheduled now c) s.recorder.subscribers;
  };
}

abbrev pub read_client : ℕ → Option Subscriber → Session → Session
read_client k none s = s
read_client k (some c) s =
    let (entries, c') = get c in
    record {
      recorder = record s.recorder { subscribers = put_client k c' s.recorder.subscribers };
      read = s.read ++ entries;
    }

abbrev pub system_step : ℕ → SystemStep → Session → Session
system_step k (calls c) s = record s { recorder = perform c s.recorder }
system_step k (runs now) s = run_client k now (client_in k s.recorder.subscribers) s
system_step k reads s = read_client k (client_in k s.recorder.subscribers) s

abbrev pub system_steps : ℕ → List SystemStep → Session → Session
system_steps k [] s = s
system_steps k (st ∷ steps) s = system_steps k steps (system_step k st s)

-- The session of a client that has just subscribed.
abbrev pub new_session : ℕ → InMemory → Session
new_session k r = record { recorder = subscribe k r; read = [] }

abbrev pub calls_of : List SystemStep → List RecorderCall
calls_of [] = []
calls_of (calls c ∷ steps) = c ∷ calls_of steps
calls_of (runs now ∷ steps) = calls_of steps
calls_of (reads ∷ steps) = calls_of steps
