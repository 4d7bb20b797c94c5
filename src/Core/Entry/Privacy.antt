-- ===== src/Core/Entry/Privacy.antt =====
-- The payload without result data says nothing of the rows and the columns.
use text.Mathlib.Text.{◌==◌ as str_eq}
use sql_gateway_poc.Base.{
  true, false, Option, none, some, List, ◌∷◌, String, ◌≡◌, refl, ap, ◌∙◌, sym, arith, if◌then◌else◌,
}
use sql_gateway_poc.Base.Text.{Text}
use sql_gateway_poc.Base.Dict.{Dict, remove, lookup, lookup-remove}
use sql_gateway_poc.Core.Values.{Cell}
use sql_gateway_poc.Core.Entry.{
  ObservabilityEntryDto, PayloadValue, string, code, verdict, amount, int, names, table, flag,
  add_item, present_fields, to_json_payload,
}

abbrev pub with_result_data :
    ObservabilityEntryDto → Option (List Text) → Option (List (List Cell)) → ObservabilityEntryDto
with_result_data e columns rows = record e { columns = columns; rows = rows }

abbrev without_result_data : Dict PayloadValue → Dict PayloadValue
without_result_data payload = remove "columns" (remove "rows" payload)

-- Any other item stays where it is.
keep_item :
    {A : Type 0} (key : String) (wrap : A → PayloadValue) (o : Option A) (p : Dict PayloadValue)
    {q : Dict PayloadValue}
    → str_eq key "rows" ≡ false
    → str_eq key "columns" ≡ false
    → without_result_data p ≡ q
    → without_result_data (add_item key wrap o p) ≡ add_item key wrap o q
unfolding add_item remove
keep_item key wrap none p not_rows not_columns same = same
keep_item key wrap (some value) p not_rows not_columns same = ground (arith, same)

drop_result_data :
    (columns : Option (List Text)) (rows : Option (List (List Cell))) (p : Dict PayloadValue)
    {q : Dict PayloadValue}
    → without_result_data p ≡ q
    → without_result_data (add_item "columns" names columns (add_item "rows" table rows p)) ≡ q
unfolding add_item remove
drop_result_data none none p same = same
drop_result_data none (some r) p same = same
drop_result_data (some c) none p same = same
drop_result_data (some c) (some r) p same = same

to_json_payload-false :
    (e : ObservabilityEntryDto)
    → to_json_payload e false ≡ present_fields (with_result_data e none none)
unfolding to_json_payload
to_json_payload-false e =
    ap
      (λ rest.
        ("request_id", string e.request_id)
        ∷ ("decision", verdict e.decision)
        ∷ ("redacted_query", string e.redacted_query)
        ∷ rest)
      (keep_item "rejection_code" code e.rejection_code _ refl refl (
        keep_item "rejection_detail" string e.rejection_detail _ refl refl (
          keep_item "db_error_message" string e.db_error_message _ refl refl (
            keep_item "db_error_code" string e.db_error_code _ refl refl (
              keep_item "duration_ms" amount e.duration_ms _ refl refl (
                keep_item "rows_affected" int e.rows_affected _ refl refl (
                  keep_item "rows_returned" amount e.rows_returned _ refl refl (
                    drop_result_data e.columns e.rows _ (
                      keep_item "rows_were_truncated" flag e.rows_were_truncated _ refl refl
                        refl)))))))))

-- The payload for the log and the file is the same whatever rows and columns the entry holds, so it
-- tells nothing of them; it has no item for either; and it agrees with the full payload on every
-- other key.
pub to_json_payload_private :
    (e : ObservabilityEntryDto) (columns : Option (List Text)) (rows : Option (List (List Cell)))
    (key : String)
    → (to_json_payload (with_result_data e columns rows) false ≡ to_json_payload e false)
      × (lookup key (to_json_payload e false) ≡ (
          if str_eq "columns" key
          then none
          else if str_eq "rows" key
          then none
          else lookup key (to_json_payload e true)))
to_json_payload_private e columns rows key = (
  to_json_payload-false (with_result_data e columns rows) ∙ sym (to_json_payload-false e),
  unfold to_json_payload in simp lookup-remove,
)
