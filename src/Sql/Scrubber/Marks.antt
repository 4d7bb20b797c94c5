-- ===== src/Sql/Scrubber/Marks.antt =====
-- Which literals the scrubber takes for sensitive, said without its loops, indexes and sets.
use text.Mathlib.TextEquality.{eq_iff}
use sql_gateway_poc.Base.{
  Bool, true, false, ◌&&◌, some, List, [], ◌∷◌, ◌≡◌, ◌↔◌, ◌⊎◌, refl, inl, inr, arith, Option-cases,
  if◌then◌else◌,
}
use sql_gateway_poc.Base.Adds.{
  Adds, Adds-nothing, Adds-one, Adds-then, Adds-as, Adds-if, Adds-when, Adds-unless, Some, Occurs,
}
use sql_gateway_poc.Sql.Ast.{update, literal, column, tuple, Sqlglot}
use sql_gateway_poc.Sql.Sensitive.{is_sensitive_column_name}
use sql_gateway_poc.Sql.Scrubber.{
  add_each, mark_all_literals_in, mark_tuple_assignment, is_set_assignment, mark_assignment,
  mark_assignments,
}

module _ (sqlglot : Sqlglot) where
  open sqlglot use {
    Node, is_same, is_instance, name, find_all, parent, arg_key, this, expression, expressions,
    left, right,
  }

  -- The node is a literal, or has it below.
  abbrev pub Holds : Node → Node → Type 0
  Holds node l =
      ((is_instance node literal ≡ true) × (l ≡ node))
      ⊎ ((is_instance node literal ≡ false) × Occurs l (find_all node literal))

  -- A value under a sensitive column, the columns and the values taken side by side.
  abbrev pub HoldsUnder : List Node → List Node → Node → Type 0
  HoldsUnder [] row l = ⊥
  HoldsUnder (c ∷ columns) [] l = ⊥
  HoldsUnder (c ∷ columns) (value ∷ row) l =
      ((is_sensitive_column_name (name c) ≡ true) × Holds value l) ⊎ HoldsUnder columns row l

  add_each-Adds :
      (nodes ids : List Node) → Adds (λ l. Occurs l nodes) ids (add_each sqlglot nodes ids)
  unfolding add_each
  add_each-Adds [] ids = Adds-nothing ids
  add_each-Adds (n ∷ nodes) ids = Adds-then (Adds-one n ids) (add_each-Adds nodes (n ∷ ids))

  pub mark_all-Adds :
      (node : Node) (ids : List Node)
      → Adds (Holds node) ids (mark_all_literals_in sqlglot node ids)
  unfolding mark_all_literals_in
  mark_all-Adds node ids =
      Adds-if (is_instance node literal) (Adds-one node ids)
        (add_each-Adds (find_all node literal) ids)

  mark_tuple-Adds :
      (columns row ids : List Node)
      → Adds (HoldsUnder columns row) ids (mark_tuple_assignment sqlglot columns row ids)
  unfolding mark_tuple_assignment
  mark_tuple-Adds [] row ids = Adds-nothing ids
  mark_tuple-Adds (c ∷ columns) [] ids = Adds-nothing ids
  mark_tuple-Adds (c ∷ columns) (value ∷ row) ids =
      Adds-then (Adds-when (is_sensitive_column_name (name c)) (mark_all-Adds value ids))
        (mark_tuple-Adds columns row _)

  -- `equality` is an assignment of an UPDATE.
  abbrev pub IsSetAssignment : Node → Type 0
  IsSetAssignment e =
      (p : Node) × (parent e ≡ some p)
      × (is_instance p update ≡ true)
      × (arg_key e ≡ some "expressions")

  -- The assignment gives a sensitive column a value that holds the literal.
  abbrev pub MarkedByAssignment : Node → Node → Type 0
  MarkedByAssignment e l =
      IsSetAssignment e
      × ((((is_instance (left e) column && is_sensitive_column_name (name (left e))) ≡ true)
            × Holds (right e) l)
          ⊎ (((is_instance (left e) column && is_sensitive_column_name (name (left e))) ≡ false)
              × ((is_instance (left e) tuple ≡ true)
                  × ((is_instance (right e) tuple ≡ true)
                      × HoldsUnder (expressions (left e)) (expressions (right e)) l))))

  is_set_assignment_iff : (e : Node) → (is_set_assignment sqlglot e ≡ true) ↔ IsSetAssignment e
  unfolding is_set_assignment
  is_set_assignment_iff e = (
    λ h. elim (Option-cases (parent e)) [
      | inl root ↦ absurd (ground arith)
      | inr (p, at) ↦ (
        p,
        at,
        ground arith,
        elim (Option-cases (arg_key e)) [
          | inl unnamed ↦ absurd (ground arith)
          | inr (key, named) ↦ ground (arith, eq_iff key "expressions")
        ],
      )
    ],
    λ (p, at, up, key). ground (arith, eq_iff "expressions" "expressions"),
  )

  -- Where no tuple stands on the right there is nothing to pair the columns with.
  tuple_branch-Adds :
      (b : Bool) (columns row ids : List Node)
      → Adds
          (λ l. (b ≡ true) × HoldsUnder columns row l)
          ids
          (mark_tuple_assignment sqlglot columns (if b then row else []) ids)
  unfolding mark_tuple_assignment
  tuple_branch-Adds true columns row ids =
      Adds-as (λ l. (λ h. (refl, h), λ h. h.1)) (mark_tuple-Adds columns row ids)
  tuple_branch-Adds false [] row ids =
      Adds-as (λ l. (λ p. absurd p, λ (e, _). cc)) (Adds-nothing ids)
  tuple_branch-Adds false (c ∷ columns) row ids =
      Adds-as (λ l. (λ p. absurd p, λ (e, _). cc)) (Adds-nothing ids)

  mark_assignment-Adds :
      (e : Node) (ids : List Node) → Adds (MarkedByAssignment e) ids (mark_assignment sqlglot e ids)
  unfolding mark_assignment
  mark_assignment-Adds e ids =
      Adds-as
        (λ l. (
          λ (set, h). ((is_set_assignment_iff e).0 set, h),
          λ (set, h). ((is_set_assignment_iff e).1 set, h),
        ))
        (Adds-unless (is_set_assignment sqlglot e) (
          Adds-if (is_instance (left e) column && is_sensitive_column_name (name (left e)))
            (mark_all-Adds (right e) ids)
            (Adds-when (is_instance (left e) tuple) (
              tuple_branch-Adds (is_instance (right e) tuple) (expressions (left e))
                (expressions (right e)) ids))))

  pub mark_assignments-Adds :
      (equalities ids : List Node)
      → Adds
          (λ l. Some (λ e. MarkedByAssignment e l) equalities)
          ids
          (mark_assignments sqlglot equalities ids)
  unfolding mark_assignments
  mark_assignments-Adds [] ids = Adds-nothing ids
  mark_assignments-Adds (e ∷ equalities) ids =
      Adds-then (mark_assignment-Adds e ids) (mark_assignments-Adds equalities _)
