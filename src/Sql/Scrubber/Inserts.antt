-- ===== src/Sql/Scrubber/Inserts.antt =====
-- The literals that the scrubber takes for sensitive in the rows of an INSERT: those under a
-- sensitive column, by position.
use sql_gateway_poc.Base.{
  ℕ, ◌+◌, ◌≤◌, ◌<◌, Bool, true, false, Option, none, some, List, [], ◌∷◌, map, ◌≡◌, ◌↔◌, ◌⊎◌, refl,
  inl, inr, arith, ◌==◌, any, sym, ◌∙◌,
}
use sql_gateway_poc.Base.Text.{Text}
use sql_gateway_poc.Base.Adds.{
  Adds, Adds-nothing, Adds-then, Adds-as, Adds-if, Adds-when, Adds-unless, Some,
}
use sql_gateway_poc.Sql.Ast.{select, tuple, schema, values, Sqlglot}
use sql_gateway_poc.Sql.Sensitive.{is_sensitive_column_name}
use sql_gateway_poc.Sql.Scrubber.{
  sensitive_indexes, mark_row, mark_values_clause, mark_select_projections, mark_value_source,
  mark_indexed, mark_target, mark_insert, mark_inserts,
}
use sql_gateway_poc.Sql.Scrubber.Marks.{Holds, HoldsUnder, mark_all-Adds}

abbrev has_index : ℕ → List ℕ → Bool
has_index j indexes = any (λ i. i == j) indexes

sensitive_indexes-above :
    (j k : ℕ) (names : List Text) → j < k → has_index j (sensitive_indexes k names) ≡ false
unfolding sensitive_indexes any
sensitive_indexes-above j k [] h = refl
sensitive_indexes-above j k (n ∷ names) h = ground (arith, sensitive_indexes-above j (k + 1) names)

sensitive_indexes-at :
    (k : ℕ) (n : Text) (names : List Text)
    → has_index k (sensitive_indexes k (n ∷ names)) ≡ is_sensitive_column_name n
unfolding sensitive_indexes any
sensitive_indexes-at k n names = ground (arith, sensitive_indexes-above k (k + 1) names)

sensitive_indexes-behind :
    (j k : ℕ) (n : Text) (names : List Text)
    → k < j
    → has_index j (sensitive_indexes k (n ∷ names)) ≡ has_index j (sensitive_indexes (k + 1) names)
unfolding sensitive_indexes any
sensitive_indexes-behind j k n names h = ground arith

module _ (sqlglot : Sqlglot) where
  open sqlglot use {Node, is_instance, name, this, expression, expressions}

  -- A value whose index is in the list.
  abbrev HoldsAt : ℕ → List Node → List ℕ → Node → Type 0
  HoldsAt k [] indexes l = ⊥
  HoldsAt k (value ∷ row) indexes l =
      ((has_index k indexes ≡ true) × Holds sqlglot value l) ⊎ HoldsAt (k + 1) row indexes l

  mark_row-Adds :
      (k : ℕ) (row : List Node) (indexes : List ℕ) (ids : List Node)
      → Adds (HoldsAt k row indexes) ids (mark_row sqlglot k row indexes ids)
  unfolding mark_row
  mark_row-Adds k [] indexes ids = Adds-nothing ids
  mark_row-Adds k (value ∷ row) indexes ids =
      Adds-then (Adds-when (has_index k indexes) (mark_all-Adds sqlglot value ids))
        (mark_row-Adds (k + 1) row indexes _)

  not-HoldsAt :
      (k : ℕ) (row : List Node) (indexes : List ℕ) (l : Node)
      → ((j : ℕ) → k ≤ j → has_index j indexes ≡ false)
      → ¬ HoldsAt k row indexes l
  not-HoldsAt k [] indexes l none_at h = h
  not-HoldsAt k (value ∷ row) indexes l none_at h = elim h [
    | inl (at, _) ↦ cc (none_at k (omega arith), at)
    | inr later ↦ not-HoldsAt (k + 1) row indexes l (λ j le. none_at j (omega arith)) later
  ]

  -- The indexes agree with the columns from the `k`-th on.
  abbrev AgreeFrom : ℕ → List Node → List ℕ → Type 0
  AgreeFrom k columns indexes =
      (j : ℕ) → k ≤ j → has_index j indexes ≡ has_index j (sensitive_indexes k (map name columns))

  HoldsAt-iff :
      (k : ℕ) (columns row : List Node) (indexes : List ℕ) (l : Node)
      → AgreeFrom k columns indexes
      → HoldsAt k row indexes l ↔ HoldsUnder sqlglot columns row l
  unfolding sensitive_indexes any
  HoldsAt-iff k [] row indexes l agree =
      ((λ h. not-HoldsAt k row indexes l agree h), (λ h. absurd h))
  HoldsAt-iff k (c ∷ columns) [] indexes l agree = ((λ h. h), (λ h. h))
  HoldsAt-iff k (c ∷ columns) (value ∷ row) indexes l agree =
      let names = map name columns in
      let here : has_index k indexes ≡ is_sensitive_column_name (name c) =
        agree k (omega arith) ∙ sensitive_indexes-at k (name c) names in
      let rest = HoldsAt-iff (k + 1) columns row indexes l (λ j le.
        agree j (omega arith) ∙ sensitive_indexes-behind j k (name c) names (omega arith)) in
      (
        λ h. elim h [ inl (at, v) ↦ inl (sym here ∙ at, v) | inr later ↦ inr (rest.0 later) ],
        λ h. elim h [ inl (at, v) ↦ inl (here ∙ at, v) | inr later ↦ inr (rest.1 later) ],
      )

  Some-map :
      (P Q : Node → Type 0) (nodes : List Node)
      → ((n : Node) → P n → Q n)
      → Some P nodes
      → Some Q nodes
  Some-map P Q [] f h = h
  Some-map P Q (n ∷ nodes) f h = elim h [
    | inl p ↦ inl (f n p)
    | inr later ↦ inr (Some-map P Q nodes f later)
  ]

  not-Some : {P : Node → Type 0} (nodes : List Node) → ((n : Node) → ¬ P n) → ¬ Some P nodes
  not-Some [] f h = h
  not-Some (n ∷ nodes) f h = elim h [ inl p ↦ f n p | inr later ↦ not-Some nodes f later ]

  -- What one row holds (`held`), for each row of VALUES, or for the row of a SELECT.
  abbrev HoldsInSource : (Node → Node → Type 0) → Option Node → Node → Type 0
  HoldsInSource held none l = ⊥
  HoldsInSource held (some source) l =
      ((is_instance source values ≡ true)
        × Some (λ row. (is_instance row tuple ≡ true) × held row l) (expressions source))
      ⊎ ((is_instance source values ≡ false) × ((is_instance source select ≡ true) × held source l))

  abbrev HeldAt : List ℕ → Node → Node → Type 0
  HeldAt indexes row l = HoldsAt 0 (expressions row) indexes l

  mark_values-Adds :
      (rows : List Node) (indexes : List ℕ) (ids : List Node)
      → Adds
          (λ l. Some (λ row. (is_instance row tuple ≡ true) × HeldAt indexes row l) rows)
          ids
          (mark_values_clause sqlglot rows indexes ids)
  unfolding mark_values_clause
  mark_values-Adds [] indexes ids = Adds-nothing ids
  mark_values-Adds (row ∷ rows) indexes ids =
      Adds-then
        (Adds-unless (is_instance row tuple) (mark_row-Adds 0 (expressions row) indexes ids))
        (mark_values-Adds rows indexes _)

  mark_value_source-Adds :
      (source : Option Node) (indexes : List ℕ) (ids : List Node)
      → Adds
          (HoldsInSource (HeldAt indexes) source)
          ids
          (mark_value_source sqlglot source indexes ids)
  unfolding mark_value_source mark_select_projections
  mark_value_source-Adds none indexes ids = Adds-nothing ids
  mark_value_source-Adds (some source) indexes ids =
      Adds-if (is_instance source values) (mark_values-Adds (expressions source) indexes ids)
        (Adds-when (is_instance source select) (mark_row-Adds 0 (expressions source) indexes ids))

  HoldsInSource-map :
      (held kept : Node → Node → Type 0) (source : Option Node) (l : Node)
      → ((row : Node) → held row l → kept row l)
      → HoldsInSource held source l
      → HoldsInSource kept source l
  HoldsInSource-map held kept none l f h = h
  HoldsInSource-map held kept (some source) l f h = elim h [
    | inl (is_values, rows) ↦
        inl (is_values, Some-map _ _ (expressions source) (λ row (t, x). (t, f row x)) rows)
    | inr (other, (is_select, x)) ↦ inr (other, (is_select, f source x))
  ]

  not-HoldsInSource : (source : Option Node) (l : Node) → ¬ HoldsInSource (HeldAt []) source l
  unfolding any
  not-HoldsInSource none l h = h
  not-HoldsInSource (some source) l h = elim h [
    | inl (_, rows) ↦ not-Some (expressions source) (λ row (_, x). no_index row x) rows
    | inr (_, (_, x)) ↦ no_index source x
  ]
    where
      no_index : (row : Node) → ¬ HeldAt [] row l
      no_index row = not-HoldsAt 0 (expressions row) [] l (λ j le. refl)

  -- The rows have a literal under a sensitive column of the schema.
  abbrev HoldsInRows : Node → Option Node → Node → Type 0
  HoldsInRows target =
      HoldsInSource (λ row. HoldsUnder sqlglot (expressions target) (expressions row))

  indexed-Adds :
      (source : Option Node) (indexes : List ℕ) (ids : List Node)
      → Adds (HoldsInSource (HeldAt indexes) source) ids (mark_indexed sqlglot indexes source ids)
  unfolding mark_indexed
  indexed-Adds source [] ids =
      Adds-as (λ l. (λ h. absurd h, not-HoldsInSource source l)) (Adds-nothing ids)
  indexed-Adds source (i ∷ indexes) ids = mark_value_source-Adds source (i ∷ indexes) ids

  columns_iff :
      (target row l : Node)
      → HeldAt (sensitive_indexes 0 (map name (expressions target))) row l
        ↔ HoldsUnder sqlglot (expressions target) (expressions row) l
  columns_iff target row l = HoldsAt-iff 0 (expressions target) (expressions row) _ l (λ j le. refl)

  mark_indexed-Adds :
      (target : Node) (source : Option Node) (ids : List Node)
      → Adds
          (HoldsInRows target source)
          ids
          (mark_indexed sqlglot (sensitive_indexes 0 (map name (expressions target))) source ids)
  mark_indexed-Adds target source ids =
      Adds-as
        (λ l. (
          HoldsInSource-map _ _ source l (λ row. (columns_iff target row l).0),
          HoldsInSource-map _ _ source l (λ row. (columns_iff target row l).1),
        ))
        (indexed-Adds source _ ids)

  abbrev HoldsInTarget : Option Node → Option Node → Node → Type 0
  HoldsInTarget this_node source l =
      (target : Node) × (this_node ≡ some target)
      × (is_instance target schema ≡ true)
      × HoldsInRows target source l

  mark_target-Adds :
      (this_node source : Option Node) (ids : List Node)
      → Adds (HoldsInTarget this_node source) ids (mark_target sqlglot this_node source ids)
  unfolding mark_target
  mark_target-Adds none source ids =
      Adds-as (λ l. (λ h. absurd h, λ (t, e, is, h). cc)) (Adds-nothing ids)
  mark_target-Adds (some target) source ids =
      Adds-as
        (λ l. (
          λ (is, h). (target, refl, is, h),
          λ (t, e, is, h). let p : target ≡ t = cc in rw p (is, h),
        ))
        (Adds-unless (is_instance target schema) (mark_indexed-Adds target source ids))

  -- The INSERT names its columns, and one of its rows has the literal under a sensitive one.
  abbrev pub MarkedByInsert : Node → Node → Type 0
  MarkedByInsert n = HoldsInTarget (this n) (expression n)

  pub mark_inserts-Adds :
      (inserts ids : List Node)
      → Adds (λ l. Some (λ n. MarkedByInsert n l) inserts) ids (mark_inserts sqlglot inserts ids)
  unfolding mark_inserts mark_insert
  mark_inserts-Adds [] ids = Adds-nothing ids
  mark_inserts-Adds (n ∷ inserts) ids =
      Adds-then (mark_target-Adds (this n) (expression n) ids) (mark_inserts-Adds inserts _)
