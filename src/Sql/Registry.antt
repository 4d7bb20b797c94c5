-- ===== src/Sql/Registry.antt =====
-- The rules that are registered for a dialect, and their cached instances.
-- infrastructure/persistence/sql/rule_registry.py
pub mod History
use sql_gateway_poc.Base.{Bool, true, false, Option, none, some, List, [], ◌∷◌, ◌++◌, String, map}
use sql_gateway_poc.Base.Dict.{Dict, lookup, insert}
use sql_gateway_poc.Core.Dtos.{ValidationResultDto}

-- SqlValidationRule: an object with a method `check`.
pub record SqlValidationRule (Node : Type 0) : Type 0 where
  pub check : Node → ValidationResultDto

-- A class is what a call of it makes.
abbrev pub RuleClass : Type 0 → Type 0
RuleClass Node = Unit {0} → SqlValidationRule Node

pub record RuleRegistry (Node : Type 0) : Type 0 where
  pub classes_by_dialect : Dict (List (RuleClass Node))
  pub instance_cache : Dict (List (SqlValidationRule Node))

abbrev pub shared_dialect_key : String
shared_dialect_key = "_shared_"

module _ {Node : Type 0} where
  abbrev pub empty_registry : RuleRegistry Node
  empty_registry = record { classes_by_dialect = []; instance_cache = [] }

  -- classes.get(dialect, [])
  classes_for : String → Dict (List (RuleClass Node)) → List (RuleClass Node)
  classes_for dialect classes = elim (lookup dialect classes) [ none ↦ [] | some cs ↦ cs ]

  -- classes.setdefault(dialect, []).append(cls)
  append_class :
      RuleClass Node → String → Dict (List (RuleClass Node)) → Dict (List (RuleClass Node))
  unfolding classes_for
  append_class cls dialect classes =
      insert dialect (classes_for dialect classes ++ cls ∷ []) classes

  append_to_all :
      RuleClass Node → List String → Dict (List (RuleClass Node)) → Dict (List (RuleClass Node))
  unfolding append_class
  append_to_all cls [] classes = classes
  append_to_all cls (dialect ∷ dialects) classes =
      append_to_all cls dialects (append_class cls dialect classes)

  -- What `@sql_rule(dialects=dialects)` does above a class; no dialects means all of them.
  unfoldable pub sql_rule : List String → RuleClass Node → RuleRegistry Node → RuleRegistry Node
  unfolding append_to_all append_class
  sql_rule [] cls r = record {
    classes_by_dialect = append_class cls shared_dialect_key r.classes_by_dialect;
    instance_cache = [];
  }
  sql_rule (d ∷ ds) cls r = record {
    classes_by_dialect = append_to_all cls (d ∷ ds) r.classes_by_dialect;
    instance_cache = [];
  }

  unfoldable pub instantiate : List (RuleClass Node) → List (SqlValidationRule Node)
  instantiate = map (λ cls. cls tt)

  -- rules_for(dialect): the rules, and the registry with its cache filled
  unfoldable pub rules_for :
      String → RuleRegistry Node → List (SqlValidationRule Node) × RuleRegistry Node
  unfolding instantiate classes_for
  rules_for dialect r = elim (lookup dialect r.instance_cache) [
    | some rules ↦ (rules, r)
    | none ↦
        let rules = instantiate (
          classes_for shared_dialect_key r.classes_by_dialect
          ++ classes_for dialect r.classes_by_dialect) in
        (rules, record r { instance_cache = insert dialect rules r.instance_cache })
  ]
