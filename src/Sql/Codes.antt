-- ===== src/Sql/Codes.antt =====
-- The rejection codes of infrastructure/persistence/sql/query_validator.py.
use text.Mathlib.Text.{◌==◌ as str_eq}
use sql_gateway_poc.Base.{Bool, true, false, none, some, List, [], ◌∷◌, String, ◌≡◌, ◌||◌}
use sql_gateway_poc.Core.Dtos.{ValidationResultDto}

-- SqlRejectionCode
abbrev pub rejection_codes : List String
rejection_codes =
    "empty_query" ∷ "parse_error" ∷ "multi_statement" ∷ "root_not_allowed" ∷ "forbidden_construct"
    ∷ "select_into" ∷ "data_modifying_cte" ∷ "unbounded_write" ∷ "dangerous_function"
    ∷ "payload_type_mismatch" ∷ []

abbrev pub is_listed : String → List String → Bool
is_listed code [] = false
is_listed code (c ∷ codes) = str_eq c code || is_listed code codes

-- The verdict allows the query, or rejects it with one of the codes.
abbrev pub is_coded : ValidationResultDto → Bool
is_coded v =
    v.is_allowed
    || elim v.rejection_code [ none ↦ false | some code ↦ is_listed code rejection_codes ]

abbrev pub IsCoded : ValidationResultDto → Type 0
IsCoded v = is_coded v ≡ true
