-- ===== src/Samples/Pages.antt =====
-- The theorems on the live page, at work on a few entries.
use sql_gateway_poc.Base.{take, some, [], ◌∷◌, ◌≡◌, All}
use sql_gateway_poc.Base.Text.{Text, text_eq}
use sql_gateway_poc.Core.Dtos.{allowed}
use sql_gateway_poc.Observability.Page.{new_page}
use sql_gateway_poc.Observability.Page.Cards.{add_all}
use sql_gateway_poc.Base.{refl}
use sql_gateway_poc.Base.Text.{codes}
use sql_gateway_poc.Base.Decimal.{decimal}
use sql_gateway_poc.Base.{Option, none, map, List, true, false}
use sql_gateway_poc.Core.Dtos.{rejected}
use sql_gateway_poc.Core.Entry.{ObservabilityEntryDto, entry}
use sql_gateway_poc.Observability.Page.{Card, is_active, add_entry}
use sql_gateway_poc.Observability.Page.Events.{
  PageEvent, message, change, handle_all, on_message, change_filter,
}
use sql_gateway_poc.Observability.Page.Events.Settings.{last_setting}
use sql_gateway_poc.Observability.Page.Events.Filtered.{page-IsFiltered}
use sql_gateway_poc.Observability.Page.Html.{build_card_html}
use sql_gateway_poc.Observability.Page.Html.Marks.{marks}
use sql_gateway_poc.Observability.Page.Html.Shapes.{SameShape}
use sql_gateway_poc.Observability.Page.Html.Markup.{build_card_html_alike}
use sql_gateway_poc.Observability.Page.Titles.{derive_title}
use sql_gateway_poc.Observability.Page.Labels.{derive_description}
use sql_gateway_poc.Observability.Page.Unique.{IsTracked, page-IsTracked}
use sql_gateway_poc.Observability.Page.{max_cards_on_page}
use sql_gateway_poc.Observability.Page.Latest.{newest_first, add_all-latest}
use sql_gateway_poc.Observability.Page.Titles.Starts.{IsTitle, derive_title-IsTitle}
use sql_gateway_poc.Samples.Ports.{one_entry}

abbrev tag : Text
tag = b'<' ∷ b'b' ∷ b'>' ∷ []

described : derive_description one_entry ≡ codes "Allowed. No data returned."
unfolding derive_description codes
described = refl

page-IsTracked_example : IsTracked (add_all (one_entry ∷ one_entry ∷ []) (new_page (allowed ∷ [])))
page-IsTracked_example =
    page-IsTracked (one_entry ∷ one_entry ∷ []) (allowed ∷ []) (refl, (refl, tt))

titles :
    (derive_title (codes "  ") ≡ codes "Empty query")
    × (derive_title (codes " select * from\n users where id = 1") ≡ codes "SELECT * FROM users")
    × (derive_title (codes "SELECT now ()") ≡ codes "SELECT now(…)")
    × (derive_title (codes "select a into t2 from t") ≡ codes "SELECT INTO t2")
    × (derive_title (codes "DROP TABLE users") ≡ codes "DROP users")
    × (derive_title (codes "DROP TABLE 1") ≡ codes "DROP TABLE")
    × (derive_title (codes "delete from t; drop table t") ≡ codes "DELETE + stacked stmt")
    × (derive_title (codes "explain select 1") ≡ codes "explain select 1")
unfolding derive_title codes
titles = (refl, refl, refl, refl, refl, refl, refl, refl)

-- Two rejections that differ in their texts.
abbrev rejection : Text → ObservabilityEntryDto
rejection detail = record (entry (b'r' ∷ []) rejected detail (b't' ∷ [])) {
  rejection_code = some "select_into";
  rejection_detail = some (b'd' ∷ detail);
}

rejections-SameShape : SameShape (rejection tag) (rejection [])
unfolding codes
rejections-SameShape = record {
  decision = refl;
  rows = refl;
  columns = refl;
  affected = refl;
  truncated = refl;
  code = refl;
  detail = refl;
  db_code = refl;
  db_message = refl;
}

build_card_html_alike_example :
    marks (build_card_html decimal (λ e. e.redacted_query) (rejection tag) 7)
    ≡ marks (build_card_html decimal (λ e. e.redacted_query) (rejection []) 12)
build_card_html_alike_example =
    build_card_html_alike decimal (λ e. e.redacted_query) (rejection tag) (rejection []) 7 12
      rejections-SameShape

abbrev parse : Text → Option ObservabilityEntryDto
parse [] = none
parse (c ∷ data_) = some one_entry

abbrev events : List PageEvent
events = message (b'{' ∷ []) ∷ message [] ∷ change allowed true ∷ change rejected false ∷ []

page-IsFiltered_example :
    All
      (λ (c : Card).
        c.is_shown ≡ last_setting c.outcome (is_active c.outcome (rejected ∷ [])) events)
      (handle_all parse events (new_page (rejected ∷ []))).cards
page-IsFiltered_example = page-IsFiltered parse events (rejected ∷ [])

card_is_shown :
    map (λ (c : Card). c.is_shown) (handle_all parse events (new_page (rejected ∷ []))).cards
    ≡ true ∷ []
unfolding on_message change_filter add_entry
card_is_shown = refl

-- Two entries of different requests.
abbrev two_entries : List ObservabilityEntryDto
two_entries = one_entry ∷ record one_entry { request_id = b's' ∷ [] } ∷ []

two_differ : text_eq (b's' ∷ []) one_entry.request_id ≡ false
unfolding text_eq
two_differ = refl

add_all-latest_example :
    (add_all two_entries (new_page (allowed ∷ []))).cards
    ≡ take max_cards_on_page (newest_first (allowed ∷ []) 0 two_entries [])
add_all-latest_example =
    add_all-latest two_entries (allowed ∷ []) (refl, (refl, tt)) ((two_differ, tt), (tt, tt))

derive_title-IsTitle_example : IsTitle (derive_title (codes "DROP TABLE users"))
derive_title-IsTitle_example = derive_title-IsTitle (codes "DROP TABLE users")
