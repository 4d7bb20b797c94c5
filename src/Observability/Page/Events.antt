-- ===== src/Observability/Page/Events.antt =====
-- What happens to the live page: messages of the stream, and clicks on the filters.
-- application/controllers/http/observability/observability_http_controller.py
pub mod Settings
pub mod Filtered
use sql_gateway_poc.Base.{
  Bool, true, false, ◌||◌, Option, none, some, List, [], ◌∷◌, map, if◌then◌else◌, any,
}
use sql_gateway_poc.Base.Text.{Text}
use sql_gateway_poc.Core.Dtos.{DecisionEnum}
use sql_gateway_poc.Core.Entry.{ObservabilityEntryDto}
use sql_gateway_poc.Observability.Page.{Card, Page, same_decision, is_active, add_entry}

-- state.activeFilters.add(outcome)
add_filter : DecisionEnum → List DecisionEnum → List DecisionEnum
unfolding is_active
add_filter outcome filters = if is_active outcome filters then filters else outcome ∷ filters

-- state.activeFilters.delete(outcome)
delete_filter : DecisionEnum → List DecisionEnum → List DecisionEnum
delete_filter outcome [] = []
delete_filter outcome (d ∷ filters) =
    let rest = delete_filter outcome filters in if same_decision outcome d then rest else d ∷ rest

-- applyFilters: the style of each card
apply_filters : Page → Page
unfolding is_active
apply_filters p = record p {
  cards = map (λ (c : Card). record c { is_shown = is_active c.outcome p.active_filters }) p.cards;
}

-- The listener of a filter's input; what it stores for the next visit are the active filters.
unfoldable pub change_filter : DecisionEnum → Bool → Page → Page
unfolding add_filter delete_filter apply_filters
change_filter outcome checked p = apply_filters (record p {
  active_filters =
      if checked
      then add_filter outcome p.active_filters
      else delete_filter outcome p.active_filters;
})

-- The body of the `try`: a message that does not parse is dropped.
receive : Option ObservabilityEntryDto → Page → Page
receive none p = p
receive (some entry) p = add_entry entry p

-- source.onmessage; `parse` is JSON.parse, none where it throws.
unfoldable pub on_message : (Text → Option ObservabilityEntryDto) → Text → Page → Page
unfolding receive
on_message parse data_ p = receive (parse data_) p

pub data PageEvent : Type 0 where
  message : Text → PageEvent
  change : DecisionEnum → Bool → PageEvent

abbrev pub handle : (Text → Option ObservabilityEntryDto) → PageEvent → Page → Page
handle parse (message data_) p = on_message parse data_ p
handle parse (change outcome checked) p = change_filter outcome checked p

abbrev pub handle_all : (Text → Option ObservabilityEntryDto) → List PageEvent → Page → Page
handle_all parse [] p = p
handle_all parse (event ∷ events) p = handle_all parse events (handle parse event p)
