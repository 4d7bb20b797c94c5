-- ===== src/Sql/Validator/Returns.antt =====
-- The validator and the scrubber return where sqlglot raises only SqlglotError.
use sql_gateway_poc.Base.{◌||◌, Option, List, [], ◌∷◌, String, Bool-cases, inl, inr}
use sql_gateway_poc.Base.Text.{Text, is_empty, strip}
use sql_gateway_poc.Base.Exec.{Outcome, returned, raised}
use sql_gateway_poc.Core.Values.{QueryPayload, str, dict, list}
use sql_gateway_poc.Sql.Ast.{
  Sqlglot, Parsed, parsed, sqlglot_error, other_exception, IsKnown, IsParser,
}
use sql_gateway_poc.Sql.Registry.{RuleRegistry}
use sql_gateway_poc.Sql.Validator.{non_null, judge, after_parsing, validate_text, validate}

abbrev pub IsReturned : {A : Type 0} → Outcome A → Type 0
IsReturned (returned a) = Unit
IsReturned (raised e) = ⊥

module _ (sqlglot : Sqlglot) (dialect : String) (parser : IsParser sqlglot dialect)
    (r : RuleRegistry sqlglot.Node) where
  open sqlglot use {Node, parse}

  judge-IsReturned : (nodes : List Node) → IsReturned (judge sqlglot dialect nodes r).0
  unfolding judge
  judge-IsReturned [] = tt
  judge-IsReturned (s ∷ []) = tt
  judge-IsReturned (s ∷ t ∷ nodes) = tt

  after_parsing-IsReturned :
      (p : Parsed (List (Option Node)))
      → IsKnown p
      → IsReturned (after_parsing sqlglot dialect p r).0
  unfolding after_parsing
  after_parsing-IsReturned (parsed statements) h = judge-IsReturned (non_null statements)
  after_parsing-IsReturned (sqlglot_error message) h = tt
  after_parsing-IsReturned (other_exception name) h = h

  validate_text-IsReturned : (t : Text) → IsReturned (validate_text sqlglot dialect t r).0
  unfolding validate_text
  validate_text-IsReturned t = elim (Bool-cases (is_empty t || is_empty (strip t))) [
    | inl blank ↦ rw blank tt
    | inr other ↦ rw other (after_parsing-IsReturned (parse dialect t) (parser.parse t))
  ]

  pub validate-IsReturned : (query : QueryPayload) → IsReturned (validate sqlglot dialect query r).0
  unfolding validate
  validate-IsReturned (str t) = validate_text-IsReturned t
  validate-IsReturned (dict d) = tt
  validate-IsReturned (list l) = tt
