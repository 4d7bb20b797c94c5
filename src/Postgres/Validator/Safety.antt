-- ===== src/Postgres/Validator/Safety.antt =====
-- The Postgres validator allows exactly the safe statements, in whatever order its rules are
-- imported.
use mathlib.Core.Bool.{Bool-set}
use mathlib.Core.List.{Perm}
use mathlib.Core.List.Perm
use sql_gateway_poc.Base.{true, List, [], ◌∷◌, ◌≡◌, ◌↔◌, ◌∙◌, All, All-perm}
use sql_gateway_poc.Core.Values.{QueryPayload}
use sql_gateway_poc.Sql.Ast.{Sqlglot}
use sql_gateway_poc.Sql.Registry.{
  RuleClass, empty_registry, shared_dialect_key, instantiate, rules_for,
}
use sql_gateway_poc.Sql.Registry.History.{RegistryCall, after, registered, rules_for-after}
use sql_gateway_poc.Sql.Rules.Safe.{IsAllowed, IsSafe, checks-IsSafe}
use sql_gateway_poc.Sql.Validator.Verdict.{IsSingle, Allows, AcceptedByRules, validate_iff}
use sql_gateway_poc.Postgres.Validator.{postgres, rule_classes, validate_postgres}

module _ (sqlglot : Sqlglot) where
  open sqlglot use {Node}

  -- Each class makes a rule that accepts the statement.
  abbrev ClassesAccept : Node → List (RuleClass Node) → Type 0
  ClassesAccept s = All (λ cls. IsAllowed ((cls tt).check s))

  All-instantiate :
      (s : Node) (classes : List (RuleClass Node))
      → All (λ rule. IsAllowed (rule.check s)) (instantiate classes) ↔ ClassesAccept s classes
  unfolding instantiate
  All-instantiate s [] = (λ h. h, λ h. h)
  All-instantiate s (cls ∷ classes) =
      (λ h. (h.0, (All-instantiate s classes).0 h.1), λ h. (h.0, (All-instantiate s classes).1 h.1))

  module _ (calls : List (RegistryCall Node))
      (none_shared : registered shared_dialect_key calls ≡ [])
      (all_six : Perm (registered postgres calls) (rule_classes sqlglot)) where
    registered-IsSafe : (s : Node) → ClassesAccept s (registered postgres calls) ↔ IsSafe sqlglot s
    registered-IsSafe s =
        let accept = λ (cls : RuleClass Node). IsAllowed ((cls tt).check s) in
        let prop = λ (cls : RuleClass Node). Bool-set ((cls tt).check s).is_allowed true in
        (
          λ h. (checks-IsSafe sqlglot s).0 (All-perm accept prop all_six h),
          λ h. All-perm accept prop (Perm.symm all_six) ((checks-IsSafe sqlglot s).1 h),
        )

    pub rules_are_registered :
        (rules_for postgres (after calls empty_registry)).0
        ≡ instantiate (registered postgres calls)
    rules_are_registered = rules_for-after calls postgres ∙ simp none_shared

    accepted_iff :
        (s : Node)
        → AcceptedByRules sqlglot postgres (after calls empty_registry) s ↔ IsSafe sqlglot s
    accepted_iff s = rw rules_are_registered (
      λ h. (registered-IsSafe s).0 ((All-instantiate s (registered postgres calls)).0 h),
      λ h. (All-instantiate s (registered postgres calls)).1 ((registered-IsSafe s).1 h),
    )

    -- If all six rules of the package are registered for Postgres, in any order of import and with
    -- any lookups between, and no rule is registered for all dialects, then the validator returns and allows a
    -- query exactly if it is a text with more than white space that parses to one statement
    -- beside empty ones, and that statement is safe: its root is a SELECT, INSERT, UPDATE or
    -- DELETE; nothing in its tree is DDL or transaction control; no write stands below the root;
    -- no blocked function is called; a SELECT has no INTO; an UPDATE or DELETE has a WHERE.
    pub validate_postgres_iff :
        (query : QueryPayload)
        → Allows (validate_postgres sqlglot query (after calls empty_registry)).0
          ↔ IsSingle sqlglot postgres (IsSafe sqlglot) query
    unfolding validate_postgres
    validate_postgres_iff query = (
      λ h.
          let (t, e, visible, (statements, p, (s, alone, ok))) =
            (validate_iff sqlglot postgres (after calls empty_registry) query).0 h in
          (t, e, visible, (statements, p, (s, alone, (accepted_iff s).0 ok))),
      λ (t, e, visible, (statements, p, (s, alone, safe))).
          (validate_iff sqlglot postgres (after calls empty_registry) query).1
            (t, e, visible, (statements, p, (s, alone, (accepted_iff s).1 safe))),
    )
