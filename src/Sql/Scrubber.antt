-- ===== src/Sql/Scrubber.antt =====
-- The scrubber: every literal of a statement is replaced before the statement is logged.
-- infrastructure/persistence/sql/query_scrubber_adapter.py. A set of ids is a list of nodes that is
-- only asked for membership.
pub mod Edits
pub mod Marks
pub mod Inserts
pub mod Returns
use text.Mathlib.Text.{◌==◌ as str_eq}
use sql_gateway_poc.Base.{
  ℕ, ◌+◌, Bool, true, false, not, ◌&&◌, Option, none, some, List, [], ◌∷◌, ◌++◌, map, String, ◌==◌,
  if◌then◌else◌, any,
}
use sql_gateway_poc.Base.Text.{Text, codes}
use sql_gateway_poc.Base.Decimal.{decimal}
use sql_gateway_poc.Base.Exec.{Outcome, returned, raised, foreign}
use sql_gateway_poc.Core.Values.{QueryPayload, str, dict, list}
use sql_gateway_poc.Sql.Ast.{
  NodeClass, select, insert, update, literal, eq, column, tuple, schema, values, Parsed, parsed,
  sqlglot_error, other_exception, Replacement, string_literal, placeholder, Sqlglot,
}
use sql_gateway_poc.Sql.Sensitive.{is_sensitive_column_name}

abbrev pub unparseable_marker : Text
unfolding codes
unparseable_marker = codes "<unparseable>"

-- REDACTION_MARKER_TEMPLATE.format(index=index)
unfoldable pub redaction_marker : ℕ → Text
redaction_marker index = codes "[REDACTED:$" ++ (decimal index ++ codes "]")

-- {index for index, name in enumerate(names) if sensitive(name)}, counted from `index`
sensitive_indexes : ℕ → List Text → List ℕ
sensitive_indexes index [] = []
sensitive_indexes index (column_name ∷ names) =
    let rest = sensitive_indexes (index + 1) names in
    if is_sensitive_column_name column_name then index ∷ rest else rest

module _ (sqlglot : Sqlglot) where
  open sqlglot use {
    Node, is_same, is_instance, name, find_all, parent, arg_key, this, expression, expressions,
    left, right,
  }

  add_each : List Node → List Node → List Node
  add_each [] ids = ids
  add_each (node ∷ nodes) ids = add_each nodes (node ∷ ids)

  pub mark_all_literals_in : Node → List Node → List Node
  unfolding add_each
  mark_all_literals_in node ids =
      if is_instance node literal then node ∷ ids else add_each (find_all node literal) ids

  -- The two lists of a tuple assignment, side by side: a column without a value is passed over.
  mark_tuple_assignment : List Node → List Node → List Node → List Node
  unfolding mark_all_literals_in
  mark_tuple_assignment [] value_list ids = ids
  mark_tuple_assignment (c ∷ column_list) [] ids = ids
  mark_tuple_assignment (c ∷ column_list) (value ∷ value_list) ids =
      mark_tuple_assignment column_list value_list
        (if is_sensitive_column_name (name c) then mark_all_literals_in value ids else ids)

  -- `equality` stands in the SET list of an UPDATE.
  is_set_assignment : Node → Bool
  is_set_assignment equality = elim (parent equality) [
    | none ↦ false
    | some p ↦
        if not (is_instance p update)
        then false
        else elim (arg_key equality) [ none ↦ false | some key ↦ str_eq key "expressions" ]
  ]

  mark_assignment : Node → List Node → List Node
  unfolding mark_all_literals_in mark_tuple_assignment is_set_assignment
  mark_assignment equality ids =
      if not (is_set_assignment equality)
      then ids
      else if is_instance (left equality) column && is_sensitive_column_name (name (left equality))
      then mark_all_literals_in (right equality) ids
      else if is_instance (left equality) tuple
      then mark_tuple_assignment (expressions (left equality))
          (if is_instance (right equality) tuple then expressions (right equality) else []) ids
      else ids

  pub mark_assignments : List Node → List Node → List Node
  unfolding mark_assignment
  mark_assignments [] ids = ids
  mark_assignments (equality ∷ equalities) ids =
      mark_assignments equalities (mark_assignment equality ids)

  mark_update_set_assignments : Node → List Node → List Node
  unfolding mark_assignments
  mark_update_set_assignments statement = mark_assignments (find_all statement eq)

  -- Marks the values at the given indexes of one row, counted from `index`.
  mark_row : ℕ → List Node → List ℕ → List Node → List Node
  unfolding mark_all_literals_in any
  mark_row index [] indexes ids = ids
  mark_row index (value ∷ row) indexes ids =
      mark_row (index + 1) row indexes
        (if any (λ i. i == index) indexes then mark_all_literals_in value ids else ids)

  mark_values_clause : List Node → List ℕ → List Node → List Node
  unfolding mark_row
  mark_values_clause [] indexes ids = ids
  mark_values_clause (value_tuple ∷ tuples) indexes ids = mark_values_clause tuples indexes (
      if not (is_instance value_tuple tuple)
      then ids
      else mark_row 0 (expressions value_tuple) indexes ids)

  mark_select_projections : Node → List ℕ → List Node → List Node
  unfolding mark_row
  mark_select_projections select_node = mark_row 0 (expressions select_node)

  -- The rows of an INSERT: VALUES or SELECT.
  mark_value_source : Option Node → List ℕ → List Node → List Node
  unfolding mark_values_clause mark_select_projections
  mark_value_source none indexes ids = ids
  mark_value_source (some value_source) indexes ids =
      if is_instance value_source values
      then mark_values_clause (expressions value_source) indexes ids
      else if is_instance value_source select
      then mark_select_projections value_source indexes ids
      else ids

  -- `if not sensitive_column_indexes: continue`
  mark_indexed : List ℕ → Option Node → List Node → List Node
  unfolding mark_value_source
  mark_indexed [] value_source ids = ids
  mark_indexed (i ∷ indexes) value_source ids = mark_value_source value_source (i ∷ indexes) ids

  mark_target : Option Node → Option Node → List Node → List Node
  unfolding mark_indexed sensitive_indexes
  mark_target none value_source ids = ids
  mark_target (some target_schema) value_source ids =
      if not (is_instance target_schema schema)
      then ids
      else mark_indexed (sensitive_indexes 0 (map name (expressions target_schema))) value_source
          ids

  mark_insert : Node → List Node → List Node
  unfolding mark_target
  mark_insert insert_node = mark_target (this insert_node) (expression insert_node)

  pub mark_inserts : List Node → List Node → List Node
  unfolding mark_insert
  mark_inserts [] ids = ids
  mark_inserts (insert_node ∷ inserts) ids = mark_inserts inserts (mark_insert insert_node ids)

  mark_insert_values : Node → List Node → List Node
  unfolding mark_inserts
  mark_insert_values statement = mark_inserts (find_all statement insert)

  unfoldable pub collect_sensitive_literal_ids : Node → List Node
  unfolding mark_insert_values mark_update_set_assignments
  collect_sensitive_literal_ids statement =
      mark_insert_values statement (mark_update_set_assignments statement [])

  -- `id(node) in ids`
  unfoldable pub contains : Node → List Node → Bool
  unfolding any
  contains node = any (λ id. is_same node id)

  -- The calls of `replace`, from the literal with this index on.
  replacements : ℕ → List Node → List Node → List (Node × Replacement)
  unfolding contains redaction_marker
  replacements placeholder_index [] ids = []
  replacements placeholder_index (l ∷ literals) ids =
      (
        l,
        if contains l ids
            then string_literal (redaction_marker placeholder_index)
            else placeholder (decimal placeholder_index),
      )
      ∷ replacements (placeholder_index + 1) literals ids

  unfoldable pub replace_all_literals : Node → List Node → List (Node × Replacement)
  unfolding replacements
  replace_all_literals statement = replacements 1 (find_all statement literal)

  -- statement.sql(dialect), or the marker where it raises.
  written : Option Text → Outcome Text
  written none = returned unparseable_marker
  written (some redacted) = returned redacted

  -- What follows the parsing.
  scrub_parsed : String → Parsed (Option Node) → Outcome Text
  unfolding replace_all_literals collect_sensitive_literal_ids written
  scrub_parsed dialect (sqlglot_error _) = returned unparseable_marker
  scrub_parsed dialect (other_exception name) = raised (foreign name)
  scrub_parsed dialect (parsed none) = returned unparseable_marker
  scrub_parsed dialect (parsed (some statement)) = written (
      sqlglot.sql dialect statement
        (replace_all_literals statement (collect_sensitive_literal_ids statement)))

  unfoldable pub scrub : String → QueryPayload → Outcome Text
  unfolding scrub_parsed
  scrub dialect (str query_text) = scrub_parsed dialect (sqlglot.parse_one dialect query_text)
  scrub dialect (dict d) = returned unparseable_marker
  scrub dialect (list l) = returned unparseable_marker
