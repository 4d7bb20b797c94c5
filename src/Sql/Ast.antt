-- ===== src/Sql/Ast.antt =====
-- What the gateway reads of sqlglot, which is a third-party package: the parameter of all modules
-- that look at syntax trees. A `Node` is the identity of an expression object.
use sql_gateway_poc.Base.{Bool, Option, List, String, any}
use sql_gateway_poc.Base.Text.{Text}

-- The classes of sqlglot.exp that the gateway names.
pub data NodeClass : Type 0 where
  select insert update delete : NodeClass
  drop alter create truncate_table transaction commit rollback : NodeClass
  func literal eq column tuple schema values : NodeClass

-- A call that returns, or that raises an `SqlglotError` with this text, or another exception of the
-- class with this name: RecursionError, for a statement that is nested too deep.
pub data Parsed {ℓ} (A : Type ℓ) : Type ℓ where
  parsed : A → Parsed A
  sqlglot_error : Text → Parsed A
  other_exception : String → Parsed A

-- The call returned, or it raised an SqlglotError.
abbrev pub IsKnown : {A : Type 0} → Parsed A → Type 0
IsKnown (parsed a) = Unit
IsKnown (sqlglot_error message) = Unit
IsKnown (other_exception name) = ⊥

-- What a literal is replaced by: exp.Literal.string(text) or exp.Placeholder(this=text).
pub data Replacement : Type 0 where
  string_literal placeholder : Text → Replacement

pub record Sqlglot : Type 1 where
  -- expression objects, and the values that `args` holds
  pub Node : Type 0
  pub Arg : Type 0
  -- `m is n`
  pub is_same : Node → Node → Bool
  pub is_instance : Node → NodeClass → Bool
  -- type(node).__name__, and node.name (empty where there is none)
  pub type_name : Node → Text
  pub name : Node → Text
  -- node.args.get(key), `none` for None; and the truth of such a value
  pub args_get : Node → String → Option Arg
  pub truthy : Arg → Bool
  pub walk : Node → List Node
  pub find_all : Node → NodeClass → List Node
  -- node.parent, node.arg_key, and children by name; `none` for None or what is no expression
  pub parent : Node → Option Node
  pub arg_key : Node → Option String
  pub this : Node → Option Node
  pub expression : Node → Option Node
  pub expressions : Node → List Node
  -- the operands of a binary expression
  pub left : Node → Node
  pub right : Node → Node
  -- sqlglot.parse(text, dialect) and sqlglot.parse_one(text, dialect)
  pub parse : String → Text → Parsed (List (Option Node))
  pub parse_one : String → Text → Parsed (Option Node)
  -- statement.sql(dialect), after `node.replace(replacement)` was called for the given pairs in
  -- order; `none` for an exception
  pub sql : String → Node → List (Node × Replacement) → Option Text

module _ (sqlglot : Sqlglot) where
  open sqlglot use {Node, is_instance}

  -- isinstance(node, classes), for a tuple of classes
  unfoldable pub is_any_instance : Node → List NodeClass → Bool
  unfolding any
  is_any_instance node = any (λ c. is_instance node c)

-- sqlglot parses each text of the dialect, or raises SqlglotError.
pub record IsParser (sqlglot : Sqlglot) (dialect : String) : Type 0 where
  pub parse : (t : Text) → IsKnown (sqlglot.parse dialect t)
  pub parse_one : (t : Text) → IsKnown (sqlglot.parse_one dialect t)
