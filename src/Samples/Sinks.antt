-- ===== src/Samples/Sinks.antt =====
-- The theorems on the observability sinks, at work on a few calls.
use sql_gateway_poc.Base.{ℕ, true, false, none, List, [], ◌∷◌, ◌++◌, map, ◌≡◌, refl}
use sql_gateway_poc.Base.Text.{Text}
use sql_gateway_poc.Base.Dict.{Dict}
use sql_gateway_poc.Base.Exec.{returned, throw, foreign}
use sql_gateway_poc.Core.Entry.{PayloadValue}
use sql_gateway_poc.Core.Ports.{ObservabilityRecorder}
use sql_gateway_poc.Observability.Subscriber.Accounts.{
  Step, delivers, runs, reads, closes, watched_at_first, follow, IsAccounted,
  subscriber-IsAccounted,
}
use sql_gateway_poc.Observability.InMemory.{empty_recorder, snapshot, max_buffered_entries}
use sql_gateway_poc.Observability.InMemory.Buffer.{
  RecorderCall, records, subscribes, after, recorded, last_of, snapshot-after,
}
use sql_gateway_poc.Observability.Sinks.{TextIo, FileSystem, record_in_all}
use sql_gateway_poc.Observability.Sinks.Isolation.{in_turn, failures, record_in_all_isolates}
use sql_gateway_poc.Observability.Stream.{Turn, entry_frame, turn_frame, event_generator}
use sql_gateway_poc.Observability.Stream.Frames.{event_generator_frames}
use sql_gateway_poc.Samples.Ports.{tick, one_entry, silent_recorder}

abbrev steps : List Step
steps = delivers one_entry ∷ runs 5 ∷ reads ∷ closes ∷ delivers one_entry ∷ []

subscriber-IsAccounted_example : IsAccounted (follow steps watched_at_first)
subscriber-IsAccounted_example = subscriber-IsAccounted steps

abbrev calls : List RecorderCall
calls = records one_entry ∷ subscribes 1 ∷ records one_entry ∷ []

snapshot-after_example :
    snapshot (after calls empty_recorder) ≡ last_of max_buffered_entries (recorded calls)
snapshot-after_example = snapshot-after calls

abbrev broken_recorder : ObservabilityRecorder ℕ
broken_recorder = record { record_entry = λ _. throw (foreign "OSError") }

abbrev recorders : List (Text × ObservabilityRecorder ℕ)
recorders = (b'a' ∷ [], broken_recorder) ∷ (b'b' ∷ [], silent_recorder) ∷ []

record_in_all_isolates_example :
    record_in_all recorders one_entry (0, [])
    ≡ (returned tt, (in_turn recorders one_entry 0, failures recorders one_entry 0 ++ []))
record_in_all_isolates_example = record_in_all_isolates recorders one_entry 0 []

abbrev dumps : Dict PayloadValue → Text
dumps [] = b'0' ∷ []
dumps (i ∷ payload) = b'1' ∷ dumps payload

abbrev out : TextIo ℕ
out = record { write = λ _. tick tt; flush = tick tt }

abbrev files : FileSystem ℕ
files = record {
  open_append = λ _. tick tt;
  close = λ _. tick tt;
  file = out;
  make_parent = λ _. tick tt;
}

abbrev waits : Turn
waits = record { is_disconnected = false; waited = none }

abbrev gone : Turn
gone = record { is_disconnected = true; waited = none }

event_generator_frames_example :
    event_generator dumps (one_entry ∷ []) ((waits ∷ []) ++ ((waits ∷ []) ++ gone ∷ []))
    ≡ map (entry_frame dumps) (one_entry ∷ [])
      ++ map (λ turn. turn_frame dumps turn.waited) (waits ∷ [])
event_generator_frames_example =
    event_generator_frames dumps (one_entry ∷ []) (waits ∷ []) (waits ∷ []) gone [] refl (refl, tt)
      (refl, tt) refl
