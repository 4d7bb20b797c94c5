-- ===== src/Http/Gateway/Messages.antt =====
-- Each rejection of the Postgres validator has a message of its own.
use mathlib.Core.Bool.{Bool-set}
use mathlib.Core.List.{Perm}
use mathlib.Core.List.Perm
use text.Mathlib.Text.{◌==◌ as str_eq}
use text.Mathlib.TextEquality.{eq_iff}
use sql_gateway_poc.Base.{
  true, false, Option, none, some, List, [], ◌∷◌, String, ◌≡◌, refl, arith, All, All-perm, subst,
  Bool-cases, inl, inr,
}
use sql_gateway_poc.Base.Dict.{lookup}
use sql_gateway_poc.Base.Exec.{returned}
use sql_gateway_poc.Core.Values.{QueryPayload}
use sql_gateway_poc.Core.Dtos.{ValidationResultDto}
use sql_gateway_poc.Sql.Ast.{Sqlglot}
use sql_gateway_poc.Sql.Codes.{rejection_codes, is_listed, IsCoded}
use sql_gateway_poc.Sql.Registry.{
  RuleClass, empty_registry, shared_dialect_key, instantiate, rules_for,
}
use sql_gateway_poc.Sql.Registry.History.{RegistryCall, after, registered}
use sql_gateway_poc.Sql.Rules.Coded.{checks-IsCoded}
use sql_gateway_poc.Sql.Validator.Coded.{IsCodedOnReturn, validate-IsCoded}
use sql_gateway_poc.Postgres.Validator.{postgres, rule_classes, validate_postgres}
use sql_gateway_poc.Postgres.Validator.Safety.{rules_are_registered}
use sql_gateway_poc.Http.Gateway.{or_empty, humanise_rejection}

-- What holds of each code in a list holds of a code that is listed.
All-is_listed :
    (P : String → Type 0) (code : String) (codes : List String)
    → All P codes
    → is_listed code codes ≡ true
    → P code
All-is_listed P code [] h e = cc
All-is_listed P code (c ∷ codes) h e = elim (Bool-cases (str_eq c code)) [
  | inl same ↦ subst P ((eq_iff c code).0 same) h.0
  | inr other ↦ All-is_listed P code codes h.1 (ground arith)
]

-- The message is not the one for any code.
abbrev HasOwnMessage : String → Type 0
HasOwnMessage code = str_eq (humanise_rejection (some code)) "Query rejected." ≡ false

codes-HasOwnMessage : All HasOwnMessage rejection_codes
unfolding humanise_rejection lookup
codes-HasOwnMessage =
    (refl, (refl, (refl, (refl, (refl, (refl, (refl, (refl, (refl, (refl, tt))))))))))

-- A rejection that shows the agent a message made for its code.
abbrev pub IsExplained : ValidationResultDto → Type 0
IsExplained v =
    (code : String) × (v.rejection_code ≡ some code)
    × (str_eq (humanise_rejection (some (or_empty v.rejection_code))) "Query rejected." ≡ false)

coded_by :
    (v : ValidationResultDto) (o : Option String)
    → v.rejection_code ≡ o
    → IsCoded v
    → v.is_allowed ≡ false
    → IsExplained v
coded_by v none e h refusal = cc
coded_by v (some code) e h refusal = (
  code,
  e,
  rw e (All-is_listed HasOwnMessage code rejection_codes codes-HasOwnMessage (ground arith)),
)

module _ (sqlglot : Sqlglot) (calls : List (RegistryCall sqlglot.Node))
    (none_shared : registered shared_dialect_key calls ≡ [])
    (all_six : Perm (registered postgres calls) (rule_classes sqlglot)) where
  open sqlglot use {Node}

  All-instantiate :
      (s : Node) (classes : List (RuleClass Node))
      → All (λ cls. IsCoded ((cls tt).check s)) classes
      → All (λ rule. IsCoded (rule.check s)) (instantiate classes)
  unfolding instantiate
  All-instantiate s [] h = tt
  All-instantiate s (cls ∷ classes) h = (h.0, All-instantiate s classes h.1)

  rules_for-IsCoded :
      (s : Node)
      → All (λ rule. IsCoded (rule.check s)) (rules_for postgres (after calls empty_registry)).0
  rules_for-IsCoded s = rw (rules_are_registered sqlglot calls none_shared all_six) (
      All-instantiate s (registered postgres calls) (
        All-perm (λ cls. IsCoded ((cls tt).check s)) (λ cls. Bool-set _ true) (Perm.symm all_six)
          (checks-IsCoded sqlglot s)))

  -- If the six rules of the package are registered for Postgres, in any order and with any lookups
  -- between, and none for all dialects, then a rejection that the validator returns has a code, and the
  -- message that the controller shows for this code is not the one that it shows for any code.
  pub rejection-IsExplained :
      (query : QueryPayload)
      → (verdict : ValidationResultDto)
      → (validate_postgres sqlglot query (after calls empty_registry)).0 ≡ returned verdict
      → verdict.is_allowed ≡ false
      → IsExplained verdict
  unfolding validate_postgres
  rejection-IsExplained query verdict e refusal =
      coded_by verdict verdict.rejection_code refl
        (subst IsCodedOnReturn e
          (validate-IsCoded sqlglot postgres (after calls empty_registry) rules_for-IsCoded query))
        refusal
