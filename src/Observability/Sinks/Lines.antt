-- ===== src/Observability/Sinks/Lines.antt =====
-- What the written lines tell, and when there is a file.
use sql_gateway_poc.Base.{Option, none, some, List, [], ◌∷◌, ◌++◌, ◌≡◌, ◌↔◌, refl, ap}
use sql_gateway_poc.Base.Text.{Text, strip, strip-eq-nil, IsBlank}
use sql_gateway_poc.Base.Dict.{Dict}
use sql_gateway_poc.Base.Exec.{using, ◌>>◌}
use sql_gateway_poc.Core.Values.{Cell}
use sql_gateway_poc.Core.Entry.{ObservabilityEntryDto, PayloadValue}
use sql_gateway_poc.Core.Entry.Privacy.{with_result_data, to_json_payload_private}
use sql_gateway_poc.Observability.Sinks.{
  TextIo, FileSystem, json_line, stdout_recorder, record_in_file, jsonl_file_recorder, non_empty,
  configured_path,
}

same_line :
    (dumps : Dict PayloadValue → Text) (e : ObservabilityEntryDto) (columns : Option (List Text))
    (rows : Option (List (List Cell)))
    → json_line dumps (with_result_data e columns rows) ≡ json_line dumps e
same_line dumps e columns rows =
    ap (λ p. dumps p ++ 10 ∷ []) (to_json_payload_private e columns rows "").0

same_in_file :
    {S : Type 0} (dumps : Dict PayloadValue → Text) (files : FileSystem S) (path : Option Text)
    (e : ObservabilityEntryDto) (columns : Option (List Text)) (rows : Option (List (List Cell)))
    → record_in_file dumps files path (with_result_data e columns rows)
      ≡ record_in_file dumps files path e
unfolding record_in_file
same_in_file dumps files none e columns rows = refl
same_in_file dumps files (some path) e columns rows =
    ap (λ line. using (files.open_append path) files.close (files.file.write line))
      (same_line dumps e columns rows)

-- What the stdout sink and the file sink do with an entry is the same whatever rows and columns it
-- holds: the result data of a query reaches neither.
sinks-private :
    {S : Type 0} (dumps : Dict PayloadValue → Text) (out : TextIo S) (files : FileSystem S)
    (path : Option Text) (e : ObservabilityEntryDto) (columns : Option (List Text))
    (rows : Option (List (List Cell)))
    → ((stdout_recorder dumps out).record_entry (with_result_data e columns rows)
        ≡ (stdout_recorder dumps out).record_entry e)
      × ((jsonl_file_recorder dumps files path).record_entry (with_result_data e columns rows)
          ≡ (jsonl_file_recorder dumps files path).record_entry e)
sinks-private dumps out files path e columns rows = (
  ap (λ line. out.write line >> out.flush) (same_line dumps e columns rows),
  same_in_file dumps files path e columns rows,
)

non_empty_iff : (t : Text) → (non_empty t ≡ none) ↔ (t ≡ [])
non_empty_iff [] = (λ _. refl, λ _. refl)
non_empty_iff (c ∷ t) = (λ h. cc, λ h. cc)

-- The file sink is off exactly if its setting is absent or has nothing but white space.
configured_path_iff :
    (t : Text) → (configured_path none ≡ none) × ((configured_path (some t) ≡ none) ↔ IsBlank t)
unfolding configured_path strip
configured_path_iff t = (
  refl,
  (
    λ h. (strip-eq-nil t).0 ((non_empty_iff (strip t)).0 h),
    λ h. (non_empty_iff (strip t)).1 ((strip-eq-nil t).1 h),
  ),
)
