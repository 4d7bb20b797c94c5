-- ===== src/Sql/Rules/Coded.antt =====
-- The rules reject with the codes of SqlRejectionCode.
use sql_gateway_poc.Base.{List, [], ◌∷◌, refl, arith, All}
use sql_gateway_poc.Sql.Ast.{Sqlglot}
use sql_gateway_poc.Sql.Codes.{IsCoded}
use sql_gateway_poc.Sql.Rules.{
  allowed_root_statement, first_forbidden, no_forbidden_constructs, no_select_into, first_mutation,
  no_data_modifying_cte, first_dangerous, no_dangerous_functions, bounded_write,
}
use sql_gateway_poc.Sql.Rules.Safe.{checks}

module _ (sqlglot : Sqlglot) where
  open sqlglot use {Node, walk}

  allowed_root_statement-IsCoded : (s : Node) → IsCoded (allowed_root_statement sqlglot s)
  unfolding allowed_root_statement
  allowed_root_statement-IsCoded s = ground arith

  first_forbidden-IsCoded : (nodes : List Node) → IsCoded (first_forbidden sqlglot nodes)
  unfolding first_forbidden
  first_forbidden-IsCoded [] = refl
  first_forbidden-IsCoded (n ∷ nodes) = ground (arith, first_forbidden-IsCoded nodes)

  no_select_into-IsCoded : (s : Node) → IsCoded (no_select_into sqlglot s)
  unfolding no_select_into
  no_select_into-IsCoded s = ground arith

  first_mutation-IsCoded : (s : Node) (nodes : List Node) → IsCoded (first_mutation sqlglot s nodes)
  unfolding first_mutation
  first_mutation-IsCoded s [] = refl
  first_mutation-IsCoded s (n ∷ nodes) = ground (arith, first_mutation-IsCoded s nodes)

  first_dangerous-IsCoded : (nodes : List Node) → IsCoded (first_dangerous sqlglot nodes)
  unfolding first_dangerous
  first_dangerous-IsCoded [] = refl
  first_dangerous-IsCoded (n ∷ nodes) = ground (arith, first_dangerous-IsCoded nodes)

  bounded_write-IsCoded : (s : Node) → IsCoded (bounded_write sqlglot s)
  unfolding bounded_write
  bounded_write-IsCoded s = ground arith

  pub checks-IsCoded : (s : Node) → All (λ check. IsCoded (check s)) (checks sqlglot)
  unfolding no_forbidden_constructs no_data_modifying_cte no_dangerous_functions
  checks-IsCoded s = (
    allowed_root_statement-IsCoded s,
    (
      first_forbidden-IsCoded (walk s),
      (
        no_select_into-IsCoded s,
        (
          first_mutation-IsCoded s (walk s),
          (first_dangerous-IsCoded (walk s), (bounded_write-IsCoded s, tt)),
        ),
      ),
    ),
  )
