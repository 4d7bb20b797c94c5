-- ===== src/Observability/Page.antt =====
-- The script of the live page: which cards it shows, its counts, and the escaping of what it shows.
-- application/controllers/http/observability/observability_http_controller.py
pub mod Escaping
pub mod Cards
pub mod Messages
pub mod Labels
pub mod Events
pub mod Patterns
pub mod Titles
pub mod Html
pub mod Unique
pub mod Replay
pub mod Live
pub mod Latest
use sql_gateway_poc.Base.{
  ℕ, zero, suc, ◌+◌, ◌-◌, Bool, true, false, not, ◌&&◌, ◌||◌, List, [], ◌∷◌, ◌++◌, ◌==◌,
  if◌then◌else◌, any, length,
}
use sql_gateway_poc.Base.Text.{Text, codes, is_empty, text_eq, is_member}
use sql_gateway_poc.Core.Dtos.{DecisionEnum, allowed, rejected, db_error}
use sql_gateway_poc.Core.Entry.{ObservabilityEntryDto}

-- value.replaceAll(c, by), for a search text of one character
unfoldable pub replace_all : ℕ → Text → Text → Text
replace_all c by [] = []
replace_all c by (d ∷ s) = (if d == c then by else d ∷ []) ++ replace_all c by s

-- escapeHtml, of a text
unfoldable pub escape_html : Text → Text
escape_html value = replace_all b'\'' (codes "&#039;") (
    replace_all b'"' (codes "&quot;") (
      replace_all b'>' (codes "&gt;")
        (replace_all b'<' (codes "&lt;") (replace_all b'&' (codes "&amp;") value))))

-- MAX_CARDS_ON_PAGE
abbrev pub max_cards_on_page : ℕ
max_cards_on_page = 500

-- A card: its data set, its number, and whether its style shows it.
pub record Card : Type 0 where
  pub request_id : Text
  pub outcome : DecisionEnum
  pub index : ℕ
  pub is_shown : Bool

pub record Counts : Type 0 where
  pub of_allowed : ℕ
  pub of_rejected : ℕ
  pub of_db_error : ℕ

-- The state of the script, and the cards in the document, newest first.
pub record Page : Type 0 where
  pub cards : List Card
  pub seen_request_ids : List Text
  pub counts : Counts
  pub total_ever_received : ℕ
  pub active_filters : List DecisionEnum

abbrev pub new_page : List DecisionEnum → Page
new_page active_filters = record {
  cards = [];
  seen_request_ids = [];
  counts = record { of_allowed = 0; of_rejected = 0; of_db_error = 0 };
  total_ever_received = 0;
  active_filters = active_filters;
}

abbrev pub same_decision : DecisionEnum → DecisionEnum → Bool
same_decision allowed allowed = true
same_decision rejected rejected = true
same_decision db_error db_error = true
same_decision _ _ = false

-- state.activeFilters.has(outcome)
pub is_active : DecisionEnum → List DecisionEnum → Bool
unfolding any
is_active outcome = any (same_decision outcome)

-- state.counts[decision] += 1
count_one : DecisionEnum → Counts → Counts
count_one allowed c = record c { of_allowed = suc c.of_allowed }
count_one rejected c = record c { of_rejected = suc c.of_rejected }
count_one db_error c = record c { of_db_error = suc c.of_db_error }

-- state.seenRequestIds.delete(id)
delete_id : Text → List Text → List Text
delete_id id [] = []
delete_id id (s ∷ seen) = let rest = delete_id id seen in if text_eq s id then rest else s ∷ rest

-- The ids without that of the oldest card, if it has one.
forget_oldest : List Card → List Text → List Text
unfolding delete_id
forget_oldest [] seen = seen
forget_oldest (c ∷ []) seen = if is_empty c.request_id then seen else delete_id c.request_id seen
forget_oldest (c ∷ d ∷ cards) seen = forget_oldest (d ∷ cards) seen

pub without_oldest : List Card → List Card
without_oldest [] = []
without_oldest (c ∷ []) = []
without_oldest (c ∷ d ∷ cards) = c ∷ without_oldest (d ∷ cards)

-- The body of the loop that removes the oldest card, this many times.
pub evict : ℕ → Page → Page
unfolding forget_oldest without_oldest
evict zero p = p
evict (suc n) p = evict n (record p {
  cards = without_oldest p.cards;
  seen_request_ids = forget_oldest p.cards p.seen_request_ids;
})

pub insert_card : ObservabilityEntryDto → Page → Page
unfolding count_one is_active
insert_card entry p = record {
  cards =
      record {
        request_id = entry.request_id;
        outcome = entry.decision;
        index = suc p.total_ever_received;
        is_shown = is_active entry.decision p.active_filters;
      }
      ∷ p.cards;
  seen_request_ids =
      if is_empty entry.request_id
      then p.seen_request_ids
      else entry.request_id ∷ p.seen_request_ids;
  counts = count_one entry.decision p.counts;
  total_ever_received = suc p.total_ever_received;
  active_filters = p.active_filters;
}

-- The `while` loop: it runs as long as there are more cards than the page keeps.
pub keep_bounded : Page → Page
unfolding evict
keep_bounded p = evict (length p.cards - max_cards_on_page) p

-- addEntry
unfoldable pub add_entry : ObservabilityEntryDto → Page → Page
unfolding insert_card keep_bounded is_member
add_entry entry p =
    if not (is_empty entry.request_id) && is_member entry.request_id p.seen_request_ids
    then p
    else keep_bounded (insert_card entry p)
