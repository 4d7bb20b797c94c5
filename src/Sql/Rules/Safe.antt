-- ===== src/Sql/Rules/Safe.antt =====
-- What each of the six rules accepts, said of the syntax tree without the rules.
use sql_gateway_poc.Base.{
  true, false, none, some, List, [], ◌∷◌, ◌≡◌, ◌≢◌, ◌↔◌, ◌⊎◌, inl, inr, refl, arith, All,
  Bool-cases, Option-cases,
}
use sql_gateway_poc.Base.Text.{Text, lower, is_member, text_eq_iff}
use sql_gateway_poc.Core.Dtos.{ValidationResultDto}
use sql_gateway_poc.Sql.Ast.{
  NodeClass, select, insert, update, delete, drop, alter, create, truncate_table, transaction,
  commit, rollback, func, Sqlglot,
}
use sql_gateway_poc.Sql.Rules.{
  dangerous_function_names, allowed_root_statement, first_forbidden, no_forbidden_constructs,
  no_select_into, first_mutation, no_data_modifying_cte, first_dangerous, no_dangerous_functions,
  bounded_write,
}

abbrev pub IsAllowed : ValidationResultDto → Type 0
IsAllowed result = result.is_allowed ≡ true

is_member-eq-false :
    (s : Text) (texts : List Text) → (is_member s texts ≡ false) ↔ All (λ t. s ≢ t) texts
unfolding is_member
is_member-eq-false s [] = (λ _. tt, λ _. refl)
is_member-eq-false s (t ∷ texts) = (
  λ h. ground (arith, text_eq_iff s t, (is_member-eq-false s texts).0),
  λ h. ground (arith, text_eq_iff s t, (is_member-eq-false s texts).1),
)

module _ (sqlglot : Sqlglot) where
  open sqlglot use {Node, Arg, is_same, is_instance, name, args_get, truthy, walk}

  abbrev Is : Node → NodeClass → Type 0
  Is node c = is_instance node c ≡ true

  abbrev IsNot : Node → NodeClass → Type 0
  IsNot node c = is_instance node c ≡ false

  abbrev HasAllowedRoot : Node → Type 0
  HasAllowedRoot s = Is s select ⊎ Is s insert ⊎ Is s update ⊎ Is s delete

  allowed_root_statement_iff :
      (s : Node) → IsAllowed (allowed_root_statement sqlglot s) ↔ HasAllowedRoot s
  unfolding allowed_root_statement
  allowed_root_statement_iff s = (λ h. ground arith, λ h. ground arith)

  abbrev IsPermitted : Node → Type 0
  IsPermitted n =
      IsNot n drop
      × IsNot n alter
      × IsNot n create
      × IsNot n truncate_table
      × IsNot n transaction
      × IsNot n commit
      × IsNot n rollback

  first_forbidden_iff :
      (nodes : List Node) → IsAllowed (first_forbidden sqlglot nodes) ↔ All IsPermitted nodes
  unfolding first_forbidden
  first_forbidden_iff [] = (λ _. tt, λ _. refl)
  first_forbidden_iff (n ∷ nodes) = (
    λ h. ground (arith, (first_forbidden_iff nodes).0),
    λ h. ground (arith, (first_forbidden_iff nodes).1),
  )

  abbrev MakesNoTable : Node → Type 0
  MakesNoTable s = Is s select → args_get s "into" ≡ none

  no_select_into_iff : (s : Node) → IsAllowed (no_select_into sqlglot s) ↔ MakesNoTable s
  unfolding no_select_into
  no_select_into_iff s = (λ h is. ground arith, λ h. ground arith)

  -- A write may stand at the root only.
  abbrev IsNoNestedWrite : Node → Node → Type 0
  IsNoNestedWrite s n = is_same n s ≡ false → IsNot n insert × IsNot n update × IsNot n delete

  first_mutation_iff :
      (s : Node) (nodes : List Node)
      → IsAllowed (first_mutation sqlglot s nodes) ↔ All (IsNoNestedWrite s) nodes
  unfolding first_mutation
  first_mutation_iff s [] = (λ _. tt, λ _. refl)
  first_mutation_iff s (n ∷ nodes) = (
    λ h. (λ other. ground arith, (first_mutation_iff s nodes).0 (ground arith)),
    λ h. ground (arith, (first_mutation_iff s nodes).1),
  )

  abbrev IsHarmless : Node → Type 0
  IsHarmless n = Is n func → All (λ d. lower (name n) ≢ d) dangerous_function_names

  first_dangerous_iff :
      (nodes : List Node) → IsAllowed (first_dangerous sqlglot nodes) ↔ All IsHarmless nodes
  unfolding first_dangerous
  first_dangerous_iff [] = (λ _. tt, λ _. refl)
  first_dangerous_iff (n ∷ nodes) = (
    λ h. (
      λ called. (is_member-eq-false (lower (name n)) dangerous_function_names).0 (ground arith),
      (first_dangerous_iff nodes).0 (ground arith),
    ),
    λ h. elim (Bool-cases (is_instance n func)) [
      | inl called ↦ ground (
        arith,
        (is_member-eq-false (lower (name n)) dangerous_function_names).1 (h.0 called),
        (first_dangerous_iff nodes).1 h.1,
      )
      | inr other ↦ ground (arith, (first_dangerous_iff nodes).1 h.1)
    ],
  )

  abbrev IsBounded : Node → Type 0
  IsBounded s =
      Is s update ⊎ Is s delete → (w : Arg) × (args_get s "where" ≡ some w) × (truthy w ≡ true)

  bounded_write_iff : (s : Node) → IsAllowed (bounded_write sqlglot s) ↔ IsBounded s
  unfolding bounded_write
  bounded_write_iff s = (
    λ h write. elim (Option-cases (args_get s "where")) [
      | inl absent ↦ absurd (ground arith)
      | inr (w, given) ↦ (w, given, ground arith)
    ],
    λ h. ground arith,
  )

  -- A statement that all six rules accept.
  pub record IsSafe (s : Node) : Type 0 where
    pub root : HasAllowedRoot s
    pub permitted : All IsPermitted (walk s)
    pub no_table : MakesNoTable s
    pub no_nested_write : All (IsNoNestedWrite s) (walk s)
    pub harmless : All IsHarmless (walk s)
    pub bounded : IsBounded s

  -- The six rules, in the order of the README.
  abbrev pub checks : List (Node → ValidationResultDto)
  checks =
      allowed_root_statement sqlglot
      ∷ no_forbidden_constructs sqlglot
      ∷ no_select_into sqlglot
      ∷ no_data_modifying_cte sqlglot
      ∷ no_dangerous_functions sqlglot
      ∷ bounded_write sqlglot
      ∷ []

  pub checks-IsSafe : (s : Node) → All (λ check. IsAllowed (check s)) checks ↔ IsSafe s
  unfolding no_forbidden_constructs no_data_modifying_cte no_dangerous_functions
  checks-IsSafe s = (
    λ ok. record {
      root = (allowed_root_statement_iff s).0 ok.0;
      permitted = (first_forbidden_iff (walk s)).0 ok.1.0;
      no_table = (no_select_into_iff s).0 ok.1.1.0;
      no_nested_write = (first_mutation_iff s (walk s)).0 ok.1.1.1.0;
      harmless = (first_dangerous_iff (walk s)).0 ok.1.1.1.1.0;
      bounded = (bounded_write_iff s).0 ok.1.1.1.1.1.0;
    },
    λ safe. (
      (allowed_root_statement_iff s).1 safe.root,
      (
        (first_forbidden_iff (walk s)).1 safe.permitted,
        (
          (no_select_into_iff s).1 safe.no_table,
          (
            (first_mutation_iff s (walk s)).1 safe.no_nested_write,
            (
              (first_dangerous_iff (walk s)).1 safe.harmless,
              ((bounded_write_iff s).1 safe.bounded, tt),
            ),
          ),
        ),
      ),
    ),
  )
