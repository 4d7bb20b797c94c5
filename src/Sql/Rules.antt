-- ===== src/Sql/Rules.antt =====
-- The six rules of the Postgres adapter: infrastructure/persistence/postgres/rules/*.py.
-- Each is the `check` method of the class of its name.
pub mod Safe
pub mod Coded
use sql_gateway_poc.Base.{
  Bool, true, false, not, Option, none, some, List, [], ◌∷◌, String, map, if◌then◌else◌, any, ◌&&◌,
}
use sql_gateway_poc.Base.Text.{Text, codes, lower, is_member}
use sql_gateway_poc.Core.Dtos.{ValidationResultDto, allow, reject}
use sql_gateway_poc.Sql.Ast.{
  NodeClass, select, insert, update, delete, drop, alter, create, truncate_table, transaction,
  commit, rollback, func, Sqlglot, is_any_instance,
}

-- NoForbiddenConstructsRule.FORBIDDEN_TYPES
abbrev pub forbidden_types : List NodeClass
forbidden_types = drop ∷ alter ∷ create ∷ truncate_table ∷ transaction ∷ commit ∷ rollback ∷ []

-- NoDangerousFunctionsRule.DANGEROUS_FUNCTION_NAMES
abbrev pub dangerous_function_names : List Text
unfolding codes
dangerous_function_names =
    codes "pg_read_file"
    ∷ codes "pg_read_binary_file"
    ∷ codes "pg_write_file"
    ∷ codes "pg_ls_dir"
    ∷ codes "pg_stat_file"
    ∷ codes "pg_read_server_files"
    ∷ codes "pg_execute_server_program"
    ∷ codes "dblink"
    ∷ codes "dblink_exec"
    ∷ codes "dblink_connect"
    ∷ codes "dblink_send_query"
    ∷ codes "lo_import"
    ∷ codes "lo_export"
    ∷ codes "copy_from_program"
    ∷ []

module _ (sqlglot : Sqlglot) where
  open sqlglot use {Node, is_same, is_instance, type_name, name, args_get, truthy, walk}

  unfoldable pub allowed_root_statement : Node → ValidationResultDto
  unfolding is_any_instance
  allowed_root_statement statement =
      if not (is_any_instance sqlglot statement (select ∷ insert ∷ update ∷ delete ∷ []))
      then reject "root_not_allowed" (some (type_name statement))
      else allow

  first_forbidden : List Node → ValidationResultDto
  unfolding is_any_instance
  first_forbidden [] = allow
  first_forbidden (node ∷ nodes) =
      if is_any_instance sqlglot node forbidden_types
      then reject "forbidden_construct" (some (type_name node))
      else first_forbidden nodes

  unfoldable pub no_forbidden_constructs : Node → ValidationResultDto
  unfolding first_forbidden
  no_forbidden_constructs statement = first_forbidden (walk statement)

  unfoldable pub no_select_into : Node → ValidationResultDto
  no_select_into statement =
      if not (is_instance statement select)
      then allow
      else elim (args_get statement "into") [ some _ ↦ reject "select_into" none | none ↦ allow ]

  first_mutation : Node → List Node → ValidationResultDto
  unfolding is_any_instance
  first_mutation statement [] = allow
  first_mutation statement (node ∷ nodes) =
      let rest = first_mutation statement nodes in
      if is_same node statement
      then rest
      else if is_any_instance sqlglot node (insert ∷ update ∷ delete ∷ [])
      then reject "data_modifying_cte" none
      else rest

  unfoldable pub no_data_modifying_cte : Node → ValidationResultDto
  unfolding first_mutation
  no_data_modifying_cte statement = first_mutation statement (walk statement)

  first_dangerous : List Node → ValidationResultDto
  unfolding is_member
  first_dangerous [] = allow
  first_dangerous (node ∷ nodes) =
      let rest = first_dangerous nodes in
      if not (is_instance node func)
      then rest
      else if is_member (lower (name node)) dangerous_function_names
      then reject "dangerous_function" (some (lower (name node)))
      else rest

  unfoldable pub no_dangerous_functions : Node → ValidationResultDto
  unfolding first_dangerous
  no_dangerous_functions statement = first_dangerous (walk statement)

  -- `if not statement.args.get("where")`
  has_where : Node → Bool
  has_where statement = elim (args_get statement "where") [ none ↦ false | some w ↦ truthy w ]

  unfoldable pub bounded_write : Node → ValidationResultDto
  unfolding is_any_instance has_where
  bounded_write statement =
      if not (is_any_instance sqlglot statement (update ∷ delete ∷ []))
      then allow
      else if not (has_where statement)
      then reject "unbounded_write" none
      else allow
