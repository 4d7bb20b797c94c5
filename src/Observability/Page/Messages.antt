-- ===== src/Observability/Page/Messages.antt =====
-- The messages for rejections that the script of the page keeps.
-- application/controllers/http/observability/observability_http_controller.py
use text.Mathlib.Text.{◌==◌ as str_eq}
use sql_gateway_poc.Base.{Option, none, some, [], ◌∷◌, String, ◌≡◌, refl, if◌then◌else◌}
use sql_gateway_poc.Base.Dict.{Dict, lookup}
use sql_gateway_poc.Http.Gateway.{humanise_rejection}

-- REJECTION_MESSAGES of the script
abbrev pub page_rejection_messages : Dict String
page_rejection_messages =
    ("empty_query", "The query was empty.")
    ∷ ("parse_error", "The query could not be parsed.")
    ∷ ("multi_statement", "Multiple statements in one request are not allowed.")
    ∷ (
      "root_not_allowed",
      "Only SELECT, INSERT, UPDATE, or DELETE are allowed at the statement root.",
    )
    ∷ (
      "forbidden_construct",
      "DDL or transaction-control statements are not allowed anywhere in the tree.",
    )
    ∷ ("select_into", "SELECT ... INTO new_table is not allowed.")
    ∷ ("data_modifying_cte", "CTEs that INSERT, UPDATE, or DELETE are not allowed.")
    ∷ ("unbounded_write", "UPDATE and DELETE must include a WHERE clause.")
    ∷ (
      "dangerous_function",
      "The query uses a filesystem, process, or network function that is blocked.",
    )
    ∷ (
      "payload_type_mismatch",
      "The query payload shape does not match the selected database adapter.",
    )
    ∷ []

-- humaniseRejection of the script
unfoldable pub humanise_rejection_on_page : Option String → String
unfolding lookup
humanise_rejection_on_page none = "Query rejected."
humanise_rejection_on_page (some code) =
    if str_eq code "" then "Query rejected." else elim (lookup code page_rejection_messages) [
      | none ↦ "Query rejected."
      | some message ↦ message
    ]

-- The page shows the same message for a rejection as the response to the request, for any code and
-- for none.
humanise_rejection_alike :
    (code : Option String) → humanise_rejection_on_page code ≡ humanise_rejection code
unfolding humanise_rejection_on_page humanise_rejection
humanise_rejection_alike none = refl
humanise_rejection_alike (some code) = refl
