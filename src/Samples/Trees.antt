-- ===== src/Samples/Trees.antt =====
-- A parser for three statements:
--   UPDATE users SET token = 'x' WHERE id = 1
--   DELETE FROM users
--   SELECT pg_read_file('x')
-- A node is a number; the root of a statement, then its eq, column, literal and function nodes.
use sql_gateway_poc.Base.{
  ℕ, Bool, true, false, Option, none, some, List, [], ◌∷◌, ◌++◌, ◌==◌, if◌then◌else◌,
}
use sql_gateway_poc.Base.Text.{Text, codes, text_eq}
use sql_gateway_poc.Sql.Ast.{
  NodeClass, select, update, delete, eq, column, literal, func, Parsed, parsed, sqlglot_error,
  other_exception, IsKnown, IsParser, Replacement, string_literal, placeholder, Sqlglot,
}

-- The nodes of the UPDATE.
abbrev pub update_root : ℕ
update_root = 0

abbrev pub set_token : ℕ
set_token = 1

abbrev pub token_column : ℕ
token_column = 2

abbrev pub token_value : ℕ
token_value = 3

abbrev pub where_id : ℕ
where_id = 4

abbrev pub id_column : ℕ
id_column = 5

abbrev pub id_value : ℕ
id_value = 6

-- Those of the DELETE and of the SELECT.
abbrev pub delete_root : ℕ
delete_root = 7

abbrev pub select_root : ℕ
select_root = 8

abbrev pub read_file : ℕ
read_file = 9

abbrev pub file_name : ℕ
file_name = 10

abbrev pub is_instance : ℕ → NodeClass → Bool
is_instance n update = n == update_root
is_instance n delete = n == delete_root
is_instance n select = n == select_root
is_instance n eq = if n == set_token then true else n == where_id
is_instance n column = if n == token_column then true else n == id_column
is_instance n literal =
    if n == token_value then true else if n == id_value then true else n == file_name
is_instance n func = n == read_file
is_instance n _ = false

abbrev pub walk : ℕ → List ℕ
walk n =
    if n == update_root
    then update_root ∷ set_token ∷ where_id ∷ token_column ∷ token_value ∷ id_column ∷ id_value ∷ []
    else if n == select_root
    then select_root ∷ read_file ∷ file_name ∷ []
    else n ∷ []

abbrev pub keep : NodeClass → List ℕ → List ℕ
keep c [] = []
keep c (n ∷ nodes) = let rest = keep c nodes in if is_instance n c then n ∷ rest else rest

unfoldable pub name_of : ℕ → Text
unfolding codes
name_of n =
    if n == token_column
    then codes "token"
    else if n == id_column
    then codes "id"
    else if n == read_file
    then codes "pg_read_file"
    else []

unfoldable pub update_text : Text
unfolding codes
update_text = codes "UPDATE users SET token = 'x' WHERE id = 1"

unfoldable pub delete_text : Text
unfolding codes
delete_text = codes "DELETE FROM users"

unfoldable pub select_text : Text
unfolding codes
select_text = codes "SELECT pg_read_file('x')"

unfoldable pub root_of : Text → Parsed (Option ℕ)
unfolding text_eq codes update_text delete_text select_text
root_of t =
    if text_eq t update_text
    then parsed (some update_root)
    else if text_eq t delete_text
    then parsed (some delete_root)
    else if text_eq t select_text
    then parsed (some select_root)
    else sqlglot_error (codes "Invalid expression")

abbrev pub alone : Parsed (Option ℕ) → Parsed (List (Option ℕ))
alone (parsed s) = parsed (s ∷ [])
alone (sqlglot_error message) = sqlglot_error message
alone (other_exception name_) = other_exception name_

abbrev pub pieces : List (ℕ × Replacement) → Text
pieces [] = []
pieces ((_, string_literal t) ∷ edits) = 32 ∷ t ++ pieces edits
pieces ((_, placeholder t) ∷ edits) = 32 ∷ 36 ∷ t ++ pieces edits

abbrev pub trees : Sqlglot
trees = record {
  Node = ℕ;
  Arg = Text;
  is_same = λ m n. m == n;
  is_instance = is_instance;
  type_name = λ n. name_of n;
  name = name_of;
  args_get = λ n key. if n == update_root then some update_text else none;
  truthy = λ _. true;
  walk = walk;
  find_all = λ n c. keep c (walk n);
  parent = λ n. if n == set_token then some update_root else none;
  arg_key = λ n. if n == set_token then some "expressions" else none;
  this = λ _. none;
  expression = λ _. none;
  expressions = λ _. [];
  left = λ n. if n == set_token then token_column else id_column;
  right = λ n. if n == set_token then token_value else id_value;
  parse = λ dialect t. alone (root_of t);
  parse_one = λ dialect t. root_of t;
  sql = λ dialect n edits. some (pieces edits);
}

if-IsKnown :
    {A : Type 0} (b : Bool) (p q : Parsed A) → IsKnown p → IsKnown q → IsKnown (if b then p else q)
if-IsKnown true p q h k = h
if-IsKnown false p q h k = k

root_of-IsKnown : (t : Text) → IsKnown (root_of t)
unfolding root_of
root_of-IsKnown t =
    if-IsKnown (text_eq t update_text) _ _ tt
      (if-IsKnown (text_eq t delete_text) _ _ tt (if-IsKnown (text_eq t select_text) _ _ tt tt))

alone-IsKnown : (p : Parsed (Option ℕ)) → IsKnown p → IsKnown (alone p)
alone-IsKnown (parsed s) h = tt
alone-IsKnown (sqlglot_error message) h = tt
alone-IsKnown (other_exception name_) h = h

pub trees-IsParser : IsParser trees "postgres"
trees-IsParser = record {
  parse = λ t. alone-IsKnown (root_of t) (root_of-IsKnown t);
  parse_one = root_of-IsKnown;
}
