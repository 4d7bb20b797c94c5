-- ===== src/Observability/Page/Titles.antt =====
-- The title of a card: deriveTitle of the script of the live page, for a query that is a text. A
-- text of the script is the list of its UTF-16 code units.
-- application/controllers/http/observability/observability_http_controller.py
pub mod Starts
use mathlib.Core.List.{reverse}
use sql_gateway_poc.Base.{
  ℕ, ◌-◌, Bool, false, not, ◌&&◌, ◌||◌, Option, none, some, List, [], ◌∷◌, ◌++◌, String, leb, ◌==◌,
  if◌then◌else◌, length, take,
}
use sql_gateway_poc.Base.Text.{Text, codes, is_empty}
use sql_gateway_poc.Observability.Page.Patterns.{
  is_js_space, is_name_start, is_word, skip_spaces, trim, spaces, same_letter, word, word_run,
  after_run, name, starts_with_word, first_some, ◌>>=◌, search_at, name_after, starts_with,
  selects_star, selected_function, kind_of_object, object_after, is_stacked,
}

-- SQL_KEYWORDS
pub data SqlKeyword : Type 0 where
  select insert update delete drop alter create truncate vacuum with_ : SqlKeyword

abbrev pub keyword_text : SqlKeyword → String
keyword_text select = "SELECT"
keyword_text insert = "INSERT"
keyword_text update = "UPDATE"
keyword_text delete = "DELETE"
keyword_text drop = "DROP"
keyword_text alter = "ALTER"
keyword_text create = "CREATE"
keyword_text truncate = "TRUNCATE"
keyword_text vacuum = "VACUUM"
keyword_text with_ = "WITH"

abbrev pub sql_keywords : List SqlKeyword
sql_keywords =
    select ∷ insert ∷ update ∷ delete ∷ drop ∷ alter ∷ create ∷ truncate ∷ vacuum ∷ with_ ∷ []

-- The keyword, and \b behind it.
whole_word : SqlKeyword → Text → Option SqlKeyword
unfolding word starts_with_word codes
whole_word keyword s = do
  after ← word (codes (keyword_text keyword)) s
  if starts_with_word after then none else some keyword

first_keyword : List SqlKeyword → Text → Option SqlKeyword
unfolding whole_word
first_keyword [] s = none
first_keyword (keyword ∷ keywords) s = first_some (whole_word keyword s) (first_keyword keywords s)

-- What a branch for a keyword comes to: a title that is returned, or a table, perhaps "".
pub data Finding : Type 0 where
  title : Text → Finding
  table : Text → Finding

-- m ? m[1] : ""
or_none : Option Text → Text
or_none none = []
or_none (some t) = t

called_title : Option Text → Finding
unfolding codes
called_title none = table []
called_title (some called) = title (codes "SELECT " ++ (called ++ codes "(…)"))

star_title : Text → Option {0} Unit → Finding
unfolding codes
star_title from none = table from
star_title from (some found) = title (codes "SELECT * FROM " ++ from)

select_from : Text → Text → Finding
unfolding selects_star selected_function called_title star_title
select_from trimmed [] = called_title (selected_function trimmed)
select_from trimmed (c ∷ from) = star_title (c ∷ from) (selects_star trimmed)

select_title : Text → Option Text → Finding
unfolding codes or_none name_after select_from
select_title trimmed (some into) = title (codes "SELECT INTO " ++ into)
select_title trimmed none = select_from trimmed (or_none (name_after "FROM" trimmed))

by_keyword : SqlKeyword → Text → Finding
unfolding codes or_none name_after object_after select_title
by_keyword select trimmed = select_title trimmed (name_after "INTO" trimmed)
by_keyword insert trimmed = table (or_none (name_after "INTO" trimmed))
by_keyword update trimmed = table (or_none (name_after "UPDATE" trimmed))
by_keyword delete trimmed = table (or_none (name_after "FROM" trimmed))
by_keyword drop trimmed =
    table (or_none (object_after "DROP" ("TABLE" ∷ "VIEW" ∷ "INDEX" ∷ "SEQUENCE" ∷ []) trimmed))
by_keyword truncate trimmed =
    table (or_none (object_after "TRUNCATE" ("TABLE" ∷ "VIEW" ∷ "INDEX" ∷ "SEQUENCE" ∷ []) trimmed))
by_keyword alter trimmed =
    table (or_none (object_after "ALTER" ("TABLE" ∷ "VIEW" ∷ "INDEX" ∷ "SEQUENCE" ∷ []) trimmed))
by_keyword create trimmed =
    table (or_none (object_after "CREATE" ("TABLE" ∷ "VIEW" ∷ "INDEX" ∷ []) trimmed))
by_keyword vacuum trimmed = table (or_none (name_after "VACUUM" trimmed))
by_keyword with_ trimmed = title (codes "WITH (CTE)")

-- The two returns behind the branches.
settle_title : SqlKeyword → Text → Finding → Text
unfolding codes is_stacked
settle_title keyword trimmed (title t) = t
settle_title keyword trimmed (table t) =
    if is_stacked trimmed
    then codes (keyword_text keyword) ++ codes " + stacked stmt"
    else if is_empty t
    then codes (keyword_text keyword)
    else codes (keyword_text keyword) ++ 32 ∷ t

-- A text without a keyword is its own title, or the beginning of it.
abbrev shorten : Text → Text
shorten trimmed = if leb (length trimmed) 48 then trimmed else take 45 trimmed ++ 0x2026 ∷ []

titled : Text → Option SqlKeyword → Text
unfolding by_keyword settle_title
titled trimmed none = shorten trimmed
titled trimmed (some keyword) = settle_title keyword trimmed (by_keyword keyword trimmed)

-- deriveTitle, of a text
unfoldable pub derive_title : Text → Text
unfolding trim titled first_keyword skip_spaces codes
derive_title query =
    let trimmed = trim query in
    if is_empty trimmed
    then codes "Empty query"
    else titled trimmed (first_keyword sql_keywords (skip_spaces trimmed))
