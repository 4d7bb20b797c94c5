-- ===== src/Observability/Page/Events/Filtered.antt =====
-- The page shows the cards of the active filters, and keeps its bounds, whatever happens.
use sql_gateway_poc.Base.{
  ℕ, zero, suc, ◌-◌, not, ◌&&◌, Option, none, some, List, [], ◌∷◌, map, ◌≡◌, refl, ap, ◌∙◌, All,
  Bool-cases, inl, inr, length,
}
use sql_gateway_poc.Base.Text.{Text, is_empty, is_member}
use sql_gateway_poc.Core.Dtos.{DecisionEnum}
use sql_gateway_poc.Core.Entry.{ObservabilityEntryDto}
use sql_gateway_poc.Observability.Page.{
  max_cards_on_page, Card, Page, new_page, is_active, without_oldest, evict, insert_card,
  keep_bounded, add_entry,
}
use sql_gateway_poc.Observability.Page.Cards.{filters-evict}
use sql_gateway_poc.Observability.Page.Events.{
  apply_filters, change_filter, receive, on_message, PageEvent, message, change, handle, handle_all,
}
use sql_gateway_poc.Observability.Page.Events.Settings.{last_setting, change_filter-is_active}

-- A card is shown exactly if its outcome is among the active filters.
abbrev pub IsFiltered : Page → Type 0
IsFiltered p = All (λ (c : Card). c.is_shown ≡ is_active c.outcome p.active_filters) p.cards

module _ (P : Card → Type 0) where
  All-without_oldest : (cards : List Card) → All P cards → All P (without_oldest cards)
  unfolding without_oldest
  All-without_oldest [] h = tt
  All-without_oldest (c ∷ []) h = tt
  All-without_oldest (c ∷ d ∷ cards) h = (h.0, All-without_oldest (d ∷ cards) h.1)

  All-evict : (n : ℕ) (p : Page) → All P p.cards → All P (evict n p).cards
  unfolding evict
  All-evict zero p h = h
  All-evict (suc n) p h = All-evict n _ (All-without_oldest p.cards h)

keep_bounded-IsFiltered : (p : Page) → IsFiltered p → IsFiltered (keep_bounded p)
unfolding keep_bounded
keep_bounded-IsFiltered p h =
    let n = length p.cards - max_cards_on_page in
    rw (filters-evict n p)
      (All-evict (λ c. c.is_shown ≡ is_active c.outcome p.active_filters) n p h)

add_entry-IsFiltered :
    (entry : ObservabilityEntryDto) (p : Page) → IsFiltered p → IsFiltered (add_entry entry p)
unfolding add_entry insert_card
add_entry-IsFiltered entry p h =
    elim (Bool-cases
      (not (is_empty entry.request_id) && is_member entry.request_id p.seen_request_ids)) [
        | inl known ↦ simp known h
        | inr new ↦ simp new (keep_bounded-IsFiltered (insert_card entry p) (refl, h))
      ]

add_entry-filters :
    (entry : ObservabilityEntryDto) (p : Page)
    → (add_entry entry p).active_filters ≡ p.active_filters
unfolding add_entry insert_card keep_bounded
add_entry-filters entry p =
    elim (Bool-cases
      (not (is_empty entry.request_id) && is_member entry.request_id p.seen_request_ids)) [
        | inl known ↦ simp known
        | inr new ↦ simp (new, filters-evict)
      ]

receive-filters :
    (o : Option ObservabilityEntryDto) (p : Page) → (receive o p).active_filters ≡ p.active_filters
unfolding receive
receive-filters none p = refl
receive-filters (some entry) p = add_entry-filters entry p

receive-IsFiltered :
    (o : Option ObservabilityEntryDto) (p : Page) → IsFiltered p → IsFiltered (receive o p)
unfolding receive
receive-IsFiltered none p h = h
receive-IsFiltered (some entry) p h = add_entry-IsFiltered entry p h

handle_all-is_active :
    (parse : Text → Option ObservabilityEntryDto) (d : DecisionEnum) (events : List PageEvent)
    (p : Page)
    → is_active d (handle_all parse events p).active_filters
      ≡ last_setting d (is_active d p.active_filters) events
unfolding on_message
handle_all-is_active parse d [] p = refl
handle_all-is_active parse d (message data_ ∷ events) p =
    handle_all-is_active parse d events (on_message parse data_ p)
    ∙ ap (λ f. last_setting d (is_active d f) events) (receive-filters (parse data_) p)
handle_all-is_active parse d (change o checked ∷ events) p =
    handle_all-is_active parse d events (change_filter o checked p)
    ∙ ap (λ b. last_setting d b events) (change_filter-is_active o d checked p)

All-apply :
    (filters : List DecisionEnum) (cards : List Card)
    → All
        (λ (c : Card). c.is_shown ≡ is_active c.outcome filters)
        (map (λ (c : Card). record c { is_shown = is_active c.outcome filters }) cards)
All-apply filters [] = tt
All-apply filters (c ∷ cards) = (refl, All-apply filters cards)

handle-IsFiltered :
    (parse : Text → Option ObservabilityEntryDto) (event : PageEvent) (p : Page)
    → IsFiltered p
    → IsFiltered (handle parse event p)
unfolding on_message change_filter apply_filters
handle-IsFiltered parse (message data_) p h = receive-IsFiltered (parse data_) p h
handle-IsFiltered parse (change outcome checked) p h = All-apply _ p.cards

handle_all-IsFiltered :
    (parse : Text → Option ObservabilityEntryDto) (events : List PageEvent) (p : Page)
    → IsFiltered p
    → IsFiltered (handle_all parse events p)
handle_all-IsFiltered parse [] p h = h
handle_all-IsFiltered parse (event ∷ events) p h =
    handle_all-IsFiltered parse events (handle parse event p) (handle-IsFiltered parse event p h)

-- After any messages of the stream and clicks on the filters, in any order: a card is shown if its
-- outcome's filter was switched on last, and hidden if it was switched off last; if the filter was
-- never touched, the card is shown exactly if the filter is on from the start.
pub page-IsFiltered :
    (parse : Text → Option ObservabilityEntryDto) (events : List PageEvent)
    (active_filters : List DecisionEnum)
    → All
        (λ (c : Card).
          c.is_shown ≡ last_setting c.outcome (is_active c.outcome active_filters) events)
        (handle_all parse events (new_page active_filters)).cards
page-IsFiltered parse events active_filters =
    All-map_eq (handle_all parse events (new_page active_filters)).cards
      (handle_all-IsFiltered parse events (new_page active_filters) tt)
  where
    All-map_eq :
        (cards : List Card)
        → All
            (λ (c : Card).
              c.is_shown
              ≡ is_active c.outcome
                  (handle_all parse events (new_page active_filters)).active_filters)
            cards
        → All
            (λ (c : Card).
              c.is_shown ≡ last_setting c.outcome (is_active c.outcome active_filters) events)
            cards
    All-map_eq [] h = tt
    All-map_eq (c ∷ cards) h = (
      h.0 ∙ handle_all-is_active parse c.outcome events (new_page active_filters),
      All-map_eq cards h.1,
    )
