-- ===== src/Observability/Sinks.antt =====
-- The recorders that write JSON lines, and the one that forwards to all of them.
-- infrastructure/observability/{stdout,jsonl_file,multi_sink}_observability_recorder_adapter.py
pub mod Isolation
pub mod Lines
use sql_gateway_poc.Base.{Bool, true, false, Option, none, some, List, [], ◌∷◌, ◌++◌}
use sql_gateway_poc.Base.Text.{Text, codes, strip}
use sql_gateway_poc.Base.Dict.{Dict}
use sql_gateway_poc.Base.Exec.{Exec, Outcome, returned, raised, pure, ◌>>=◌, ◌>>◌, using}
use sql_gateway_poc.Core.Entry.{ObservabilityEntryDto, PayloadValue, to_json_payload}
use sql_gateway_poc.Core.Ports.{ObservabilityRecorder}

-- The output stream: sys.stdout, or an open file.
pub record TextIo (S : Type 0) : Type 0 where
  pub write : Text → Exec S Unit
  pub flush : Exec S Unit

-- The file system: path.open("a"), the exit of its with block, and path.parent.mkdir.
pub record FileSystem (S : Type 0) : Type 0 where
  pub open_append : Text → Exec S Unit
  pub close : Bool → Exec S Unit
  pub file : TextIo S
  pub make_parent : Text → Exec S Unit

-- json.dumps(entry.to_json_payload(include_result_data=False)) + "\n"
abbrev pub json_line : (Dict PayloadValue → Text) → ObservabilityEntryDto → Text
json_line dumps entry = dumps (to_json_payload entry false) ++ 10 ∷ []

module _ {S : Type 0} (dumps : Dict PayloadValue → Text) where
  -- StdoutObservabilityRecorderAdapter
  abbrev pub stdout_recorder : TextIo S → ObservabilityRecorder S
  stdout_recorder output_stream = record {
    record_entry = λ entry. output_stream.write (json_line dumps entry) >> output_stream.flush;
  }

  unfoldable pub record_in_file : FileSystem S → Option Text → ObservabilityEntryDto → Exec S Unit
  unfolding using
  record_in_file files none entry = pure tt
  record_in_file files (some file_path) entry =
      using (files.open_append file_path) files.close (files.file.write (json_line dumps entry))

  -- JsonlFileObservabilityRecorderAdapter
  abbrev pub jsonl_file_recorder : FileSystem S → Option Text → ObservabilityRecorder S
  jsonl_file_recorder files file_path = record { record_entry = record_in_file files file_path }

-- (configured or "").strip()
abbrev stripped : Option Text → Text
stripped none = strip []
stripped (some path) = strip path

abbrev non_empty : Text → Option Text
non_empty [] = none
non_empty (c ∷ path) = some (c ∷ path)

-- The path of create_jsonl_file_observability_recorder_adapter: nothing if it is blank.
unfoldable pub configured_path : Option Text → Option Text
unfolding strip
configured_path observability_jsonl_path = non_empty (stripped observability_jsonl_path)

module _ {S : Type 0} (dumps : Dict PayloadValue → Text) (files : FileSystem S) where
  prepare : Option Text → Exec S Unit
  prepare none = pure tt
  prepare (some file_path) = files.make_parent file_path

  -- create_jsonl_file_observability_recorder_adapter
  unfoldable pub create_jsonl_file_recorder : Option Text → Exec S (ObservabilityRecorder S)
  unfolding configured_path prepare
  create_jsonl_file_recorder observability_jsonl_path = do
    let file_path = configured_path observability_jsonl_path
    prepare file_path
    pure (jsonl_file_recorder dumps files file_path)

-- _logger.exception: the class name of the recorder that failed
abbrev pub note : Text → Outcome {0} Unit → List Text → List Text
note name (returned _) log = log
note name (raised e) log = name ∷ log

module _ {S : Type 0} where
  -- MultiSinkObservabilityRecorderAdapter.record; a recorder comes with the name of its class.
  unfoldable pub record_in_all :
      List (Text × ObservabilityRecorder S) → ObservabilityEntryDto → Exec (S × List Text) Unit
  record_in_all [] entry s = (returned tt, s)
  record_in_all ((name, recorder) ∷ recorders) entry (s, log) =
      let (o, s') = recorder.record_entry entry s in
      record_in_all recorders entry (s', note name o log)

-- create_multi_sink_observability_recorder_adapter
unfoldable pub create_multi_sink_recorder :
    {S : Type 0}
    → ObservabilityRecorder S
    → ObservabilityRecorder S
    → ObservabilityRecorder S
    → ObservabilityRecorder (S × List Text)
unfolding codes
create_multi_sink_recorder stdout in_memory jsonl_file = record {
  record_entry = record_in_all (
      (codes "StdoutObservabilityRecorderAdapter", stdout)
      ∷ (codes "InMemoryObservabilityRecorderAdapter", in_memory)
      ∷ (codes "JsonlFileObservabilityRecorderAdapter", jsonl_file)
      ∷ []);
}
