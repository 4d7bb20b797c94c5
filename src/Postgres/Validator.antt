-- ===== src/Postgres/Validator.antt =====
-- The Postgres validator, with the rules that its package registers.
-- infrastructure/persistence/postgres/query_validator_adapter.py
pub mod Safety
use sql_gateway_poc.Base.{List, [], ◌∷◌, String, map}
use sql_gateway_poc.Base.Exec.{Outcome}
use sql_gateway_poc.Core.Values.{QueryPayload}
use sql_gateway_poc.Core.Dtos.{ValidationResultDto}
use sql_gateway_poc.Sql.Ast.{Sqlglot}
use sql_gateway_poc.Sql.Registry.{RuleClass, RuleRegistry}
use sql_gateway_poc.Sql.Registry.History.{RegistryCall, register}
use sql_gateway_poc.Sql.Rules.Safe.{checks}
use sql_gateway_poc.Sql.Validator.{validate}

-- PostgresQueryValidatorAdapter._dialect
abbrev pub postgres : String
postgres = "postgres"

module _ (sqlglot : Sqlglot) where
  open sqlglot use {Node}

  -- The six classes of infrastructure/persistence/postgres/rules.
  abbrev pub rule_classes : List (RuleClass Node)
  rule_classes = map (λ check _. record { check = check }) (checks sqlglot)

  -- What importing the modules of the classes does, in the order of import.
  abbrev pub imports : List (RuleClass Node) → List (RegistryCall Node)
  imports = map (register (postgres ∷ []))

  unfoldable pub validate_postgres :
      QueryPayload → RuleRegistry Node → Outcome ValidationResultDto × RuleRegistry Node
  validate_postgres = validate sqlglot postgres
