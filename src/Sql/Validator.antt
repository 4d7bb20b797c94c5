-- ===== src/Sql/Validator.antt =====
-- The validator that all SQL dialects share: infrastructure/persistence/sql/query_validator.py.
pub mod Verdict
pub mod Detail
pub mod Coded
pub mod Returns
use sql_gateway_poc.Base.{
  ℕ, ◌-◌, Bool, true, false, ◌||◌, Option, none, some, List, [], ◌∷◌, ◌++◌, String, leb,
  if◌then◌else◌, length, take,
}
use sql_gateway_poc.Base.Text.{Text, codes, is_empty, strip, first_line, split, join_by_space}
use sql_gateway_poc.Base.Exec.{Outcome, returned, raised, foreign}
use sql_gateway_poc.Core.Values.{QueryPayload, str, dict, list}
use sql_gateway_poc.Core.Dtos.{ValidationResultDto, allow, reject}
use sql_gateway_poc.Sql.Ast.{Sqlglot, Parsed, parsed, sqlglot_error, other_exception}
use sql_gateway_poc.Sql.Registry.{SqlValidationRule, RuleRegistry, rules_for}

-- _MAX_REJECTION_DETAIL_LENGTH
abbrev pub max_rejection_detail_length : ℕ
max_rejection_detail_length = 120

-- _compact_first_line(message, limit); 8230 is the ellipsis
unfoldable pub compact_first_line : Text → ℕ → Text
compact_first_line message limit =
    let whitespace_collapsed = join_by_space (split (first_line message)) in
    if leb (length whitespace_collapsed) limit
    then whitespace_collapsed
    else take (limit - 1) whitespace_collapsed ++ 8230 ∷ []

-- type(query_text).__name__
abbrev pub payload_type_name : QueryPayload → String
payload_type_name (str _) = "str"
payload_type_name (dict _) = "dict"
payload_type_name (list _) = "list"

module _ {Node : Type 0} where
  -- The first rejection by a rule, or else `allow`.
  unfoldable pub apply_rules : List (SqlValidationRule Node) → Node → ValidationResultDto
  apply_rules [] statement = allow
  apply_rules (rule ∷ rules) statement =
      let rule_result = rule.check statement in
      if rule_result.is_allowed then apply_rules rules statement else rule_result

  unfoldable pub non_null : List (Option Node) → List Node
  non_null [] = []
  non_null (none ∷ statements) = non_null statements
  non_null (some statement ∷ statements) = statement ∷ non_null statements

module _ (sqlglot : Sqlglot) (dialect : String) where
  open sqlglot use {Node, parse}

  -- What follows the parsing. The registry is asked only when there is one statement.
  judge : List Node → RuleRegistry Node → Outcome ValidationResultDto × RuleRegistry Node
  judge [] r = (returned (reject "empty_query" none), r)
  judge (root_statement ∷ []) r =
      let (rules, r') = rules_for dialect r in (returned (apply_rules rules root_statement), r')
  judge (_ ∷ _ ∷ _) r = (returned (reject "multi_statement" none), r)

  after_parsing :
      Parsed (List (Option Node))
      → RuleRegistry Node
      → Outcome ValidationResultDto × RuleRegistry Node
  unfolding judge non_null
  after_parsing (sqlglot_error message) r =
      let detail = compact_first_line message max_rejection_detail_length in
      (returned (reject "parse_error" (some detail)), r)
  after_parsing (other_exception name) r = (raised (foreign name), r)
  after_parsing (parsed statements) r = judge (non_null statements) r

  validate_text : Text → RuleRegistry Node → Outcome ValidationResultDto × RuleRegistry Node
  unfolding after_parsing
  validate_text query_text r =
      if is_empty query_text || is_empty (strip query_text)
      then (returned (reject "empty_query" none), r)
      else after_parsing (parse dialect query_text) r

  type_mismatch : String → ValidationResultDto
  type_mismatch name =
      reject "payload_type_mismatch"
        (some (codes "SQL adapter expects a string, got " ++ codes name))

  unfoldable pub validate :
      QueryPayload → RuleRegistry Node → Outcome ValidationResultDto × RuleRegistry Node
  unfolding validate_text type_mismatch
  validate (str query_text) r = validate_text query_text r
  validate (dict fields) r = (returned (type_mismatch (payload_type_name (dict fields))), r)
  validate (list items) r = (returned (type_mismatch (payload_type_name (list items))), r)
