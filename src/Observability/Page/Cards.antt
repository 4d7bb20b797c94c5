-- ===== src/Observability/Page/Cards.antt =====
-- The cards and the counts after any entries.
use sql_gateway_poc.Base.{ℕ, zero, suc, ◌+◌, ◌-◌, ◌≤◌, List, [], ◌∷◌, ◌≡◌, refl, arith, length}
use sql_gateway_poc.Core.Entry.{ObservabilityEntryDto}
use sql_gateway_poc.Observability.Page.{
  max_cards_on_page, Card, Counts, Page, without_oldest, evict, add_entry,
}

abbrev pub add_all : List ObservabilityEntryDto → Page → Page
add_all [] p = p
add_all (entry ∷ entries) p = add_all entries (add_entry entry p)

abbrev pub all_counts : Counts → ℕ
all_counts c = c.of_allowed + c.of_rejected + c.of_db_error

pub record IsBounded (p : Page) : Type 0 where
  pub few : length p.cards ≤ max_cards_on_page
  pub counted : all_counts p.counts ≡ p.total_ever_received

pub length-without_oldest : (cards : List Card) → length (without_oldest cards) ≡ length cards - 1
unfolding without_oldest
length-without_oldest [] = omega arith
length-without_oldest (c ∷ []) = omega arith
length-without_oldest (c ∷ d ∷ cards) = omega (arith, length-without_oldest (d ∷ cards))

pub total-evict : (n : ℕ) (p : Page) → (evict n p).total_ever_received ≡ p.total_ever_received
unfolding evict
total-evict zero p = refl
total-evict (suc n) p = total-evict n _

pub filters-evict : (n : ℕ) (p : Page) → (evict n p).active_filters ≡ p.active_filters
unfolding evict
filters-evict zero p = refl
filters-evict (suc n) p = filters-evict n _
