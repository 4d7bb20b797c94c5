-- ===== src/Sql/Validator/Coded.antt =====
-- The validator rejects with the codes of SqlRejectionCode, if its rules do.
use sql_gateway_poc.Base.{
  ◌||◌, Option, List, [], ◌∷◌, String, refl, arith, All, Bool-cases, inl, inr,
}
use sql_gateway_poc.Base.Text.{Text, is_empty, strip}
use sql_gateway_poc.Base.Exec.{Outcome, returned, raised}
use sql_gateway_poc.Core.Dtos.{ValidationResultDto}
use sql_gateway_poc.Core.Values.{QueryPayload, str, dict, list}
use sql_gateway_poc.Sql.Ast.{Sqlglot, Parsed, parsed, sqlglot_error, other_exception}
use sql_gateway_poc.Sql.Codes.{IsCoded}
use sql_gateway_poc.Sql.Registry.{SqlValidationRule, RuleRegistry, rules_for}
use sql_gateway_poc.Sql.Validator.{
  apply_rules, non_null, judge, after_parsing, validate_text, type_mismatch, validate,
}

module _ {Node : Type 0} (s : Node) where
  apply_rules-IsCoded :
      (rules : List (SqlValidationRule Node))
      → All (λ rule. IsCoded (rule.check s)) rules
      → IsCoded (apply_rules rules s)
  unfolding apply_rules
  apply_rules-IsCoded [] h = refl
  apply_rules-IsCoded (rule ∷ rules) h = ground (arith, apply_rules-IsCoded rules h.1)

-- What the validator returns, if it returns, has a code of the list or is no rejection.
abbrev pub IsCodedOnReturn : Outcome ValidationResultDto → Type 0
IsCodedOnReturn (returned verdict) = IsCoded verdict
IsCodedOnReturn (raised e) = Unit

module _ (sqlglot : Sqlglot) (dialect : String) (r : RuleRegistry sqlglot.Node)
    (rules_for-IsCoded : (s : sqlglot.Node)
      → All (λ rule. IsCoded (rule.check s)) (rules_for dialect r).0) where
  open sqlglot use {Node, parse}

  judge-IsCoded : (nodes : List Node) → IsCodedOnReturn (judge sqlglot dialect nodes r).0
  unfolding judge
  judge-IsCoded [] = refl
  judge-IsCoded (s ∷ []) = apply_rules-IsCoded s (rules_for dialect r).0 (rules_for-IsCoded s)
  judge-IsCoded (s ∷ t ∷ nodes) = refl

  after_parsing-IsCoded :
      (p : Parsed (List (Option Node))) → IsCodedOnReturn (after_parsing sqlglot dialect p r).0
  unfolding after_parsing
  after_parsing-IsCoded (sqlglot_error message) = refl
  after_parsing-IsCoded (other_exception name) = tt
  after_parsing-IsCoded (parsed statements) = judge-IsCoded (non_null statements)

  validate_text-IsCoded : (t : Text) → IsCodedOnReturn (validate_text sqlglot dialect t r).0
  unfolding validate_text
  validate_text-IsCoded t = elim (Bool-cases (is_empty t || is_empty (strip t))) [
    | inl blank ↦ rw blank refl
    | inr other ↦ rw other (after_parsing-IsCoded (parse dialect t))
  ]

  pub validate-IsCoded :
      (query : QueryPayload) → IsCodedOnReturn (validate sqlglot dialect query r).0
  unfolding validate type_mismatch
  validate-IsCoded (str t) = validate_text-IsCoded t
  validate-IsCoded (dict d) = refl
  validate-IsCoded (list l) = refl
