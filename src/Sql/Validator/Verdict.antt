-- ===== src/Sql/Validator/Verdict.antt =====
-- When the validator allows a query, for any rules.
use sql_gateway_poc.Base.{
  true, ◌||◌, Option, List, [], ◌∷◌, String, ◌≡◌, ◌↔◌, refl, inl, inr, arith, Bool-cases, All,
}
use sql_gateway_poc.Base.Text.{Text, is_empty, strip, IsBlank, strip-eq-nil}
use sql_gateway_poc.Base.Exec.{Outcome, returned, raised}
use sql_gateway_poc.Core.Dtos.{ValidationResultDto}
use sql_gateway_poc.Core.Values.{QueryPayload, str, dict, list}
use sql_gateway_poc.Sql.Ast.{Sqlglot, Parsed, parsed, sqlglot_error, other_exception}
use sql_gateway_poc.Sql.Registry.{SqlValidationRule, RuleRegistry, rules_for}
use sql_gateway_poc.Sql.Rules.Safe.{IsAllowed}
use sql_gateway_poc.Sql.Validator.{
  apply_rules, non_null, judge, after_parsing, validate_text, type_mismatch, validate,
}

module _ {Node : Type 0} (s : Node) where
  abbrev pub Accepts : List (SqlValidationRule Node) → Type 0
  Accepts = All (λ rule. IsAllowed (rule.check s))

  apply_rules_iff :
      (rules : List (SqlValidationRule Node)) → IsAllowed (apply_rules rules s) ↔ Accepts rules
  unfolding apply_rules
  apply_rules_iff [] = (λ _. tt, λ _. refl)
  apply_rules_iff (rule ∷ rules) = (
    λ h. ground (arith, (apply_rules_iff rules).0),
    λ h. ground (arith, (apply_rules_iff rules).1),
  )

is_empty_iff : (s : Text) → (is_empty s ≡ true) ↔ (s ≡ [])
is_empty_iff [] = (λ _. refl, λ _. refl)
is_empty_iff (c ∷ s) = (λ h. cc, λ h. cc)

-- `if not query_text or not query_text.strip()`
IsBlank-iff : (s : Text) → ((is_empty s || is_empty (strip s)) ≡ true) ↔ IsBlank s
IsBlank-iff s = (
  λ h. ground (arith, is_empty_iff s, is_empty_iff (strip s), strip-eq-nil s),
  λ h. ground (arith, is_empty_iff (strip s), strip-eq-nil s),
)

module _ (sqlglot : Sqlglot) (dialect : String) where
  open sqlglot use {Node, parse}

  module _ (P : Node → Type 0) where
    -- One statement stands alone, and has `P`.
    abbrev pub IsAlone : List Node → Type 0
    IsAlone nodes = (statement : Node) × (nodes ≡ statement ∷ []) × P statement

    -- Beside empty statements there is one, and it has `P`.
    abbrev pub IsParsedAlone : Parsed (List (Option Node)) → Type 0
    IsParsedAlone p =
        (statements : List (Option Node)) × (p ≡ parsed statements) × IsAlone (non_null statements)

    -- A text that is not blank and parses to one statement, which has `P`.
    abbrev pub IsSingle : QueryPayload → Type 0
    IsSingle query =
        (query_text : Text) × (query ≡ str query_text)
        × ¬ IsBlank query_text
        × IsParsedAlone (parse dialect query_text)

-- The validator returns, and allows the query.
abbrev pub Allows : Outcome ValidationResultDto → Type 0
Allows (returned verdict) = IsAllowed verdict
Allows (raised e) = ⊥

module _ (sqlglot : Sqlglot) (dialect : String) (r : RuleRegistry sqlglot.Node) where
  open sqlglot use {Node, parse}

  -- The rules of the dialect accept the statement.
  abbrev pub AcceptedByRules : Node → Type 0
  AcceptedByRules s = Accepts s (rules_for dialect r).0

  judge_iff :
      (nodes : List Node)
      → Allows (judge sqlglot dialect nodes r).0 ↔ IsAlone sqlglot dialect AcceptedByRules nodes
  unfolding judge
  judge_iff [] = (λ h. cc, λ (s, e, _). cc)
  judge_iff (s ∷ []) = (
    λ h. (s, refl, (apply_rules_iff s (rules_for dialect r).0).0 h),
    λ (s', e, ok). (apply_rules_iff s (rules_for dialect r).0).1 (let p : s ≡ s' = cc in rw p ok),
  )
  judge_iff (s ∷ t ∷ nodes) = (λ h. cc, λ (s', e, _). cc)

  after_parsing_iff :
      (p : Parsed (List (Option Node)))
      → Allows (after_parsing sqlglot dialect p r).0
        ↔ IsParsedAlone sqlglot dialect AcceptedByRules p
  unfolding after_parsing
  after_parsing_iff (sqlglot_error message) = (λ h. cc, λ (statements, e, _). cc)
  after_parsing_iff (other_exception name) = (λ h. absurd h, λ (statements, e, _). cc)
  after_parsing_iff (parsed statements) = (
    λ h. (statements, refl, (judge_iff (non_null statements)).0 h),
    λ (others, e, ok).
        (judge_iff (non_null statements)).1 (let p : statements ≡ others = cc in rw p ok),
  )

  validate_text_iff :
      (t : Text)
      → Allows (validate_text sqlglot dialect t r).0
        ↔ (¬ IsBlank t × IsParsedAlone sqlglot dialect AcceptedByRules (parse dialect t))
  unfolding validate_text
  validate_text_iff t = elim (Bool-cases (is_empty t || is_empty (strip t))) [
    | inl blank ↦ rw blank (λ h. cc, λ (other, _). absurd (other ((IsBlank-iff t).0 blank)))
    | inr other ↦ rw other (
      λ h. (λ blank. cc ((IsBlank-iff t).1 blank), (after_parsing_iff (parse dialect t)).0 h),
      λ (_, ok). (after_parsing_iff (parse dialect t)).1 ok,
    )
  ]

  -- The validator returns and allows a query exactly if it is a text with more than white space that parses to
  -- one statement beside empty ones, and each rule of the dialect accepts that statement.
  pub validate_iff :
      (query : QueryPayload)
      → Allows (validate sqlglot dialect query r).0 ↔ IsSingle sqlglot dialect AcceptedByRules query
  unfolding validate type_mismatch
  validate_iff (str t) = (
    λ h. let (visible, ok) = (validate_text_iff t).0 h in (t, refl, visible, ok),
    λ (t', e, visible, ok). (validate_text_iff t).1 (let p : t ≡ t' = cc in rw p (visible, ok)),
  )
  validate_iff (dict d) = (λ h. cc, λ (t, e, visible, ok). cc)
  validate_iff (list l) = (λ h. cc, λ (t, e, visible, ok). cc)
