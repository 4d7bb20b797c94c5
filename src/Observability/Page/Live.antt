-- ===== src/Observability/Page/Live.antt =====
-- The connection of the live page to the event stream, and the line that shows its state.
-- application/controllers/http/observability/observability_http_controller.py
pub mod Wire
pub mod Arrivals
pub mod Complete
use sql_gateway_poc.Base.{Bool, true, false, Option, none, some, List, [], ◌∷◌, ◌++◌}
use sql_gateway_poc.Base.Text.{Text, codes}
use sql_gateway_poc.Core.Dtos.{DecisionEnum}
use sql_gateway_poc.Core.Entry.{ObservabilityEntryDto}
use sql_gateway_poc.Observability.Page.{Page, new_page}
use sql_gateway_poc.Observability.Page.Events.{on_message}

-- The page, and its line on the connection: whether that has the class `disconnected`, and its text.
pub record LivePage : Type 0 where
  pub page : Page
  pub is_disconnected : Bool
  pub status_text : Text

-- The page as it is loaded.
abbrev pub new_live_page : List DecisionEnum → LivePage
unfolding codes
new_live_page active_filters = record {
  page = new_page active_filters;
  is_disconnected = false;
  status_text = codes "Connecting…";
}

-- source.onopen
unfoldable pub on_open : LivePage → LivePage
unfolding codes
on_open l = record l { is_disconnected = false; status_text = codes "Connected · streaming live" }

-- source.onerror
unfoldable pub on_error : LivePage → LivePage
unfolding codes
on_error l = record l { is_disconnected = true; status_text = codes "Disconnected · retrying…" }

-- What the EventSource reports.
pub data SourceEvent : Type 0 where
  opened failed : SourceEvent
  delivered : Text → SourceEvent

-- The listeners that connect() sets; `parse` is JSON.parse, none where it throws.
unfoldable pub listen : (Text → Option ObservabilityEntryDto) → SourceEvent → LivePage → LivePage
unfolding on_open on_error
listen parse opened l = on_open l
listen parse failed l = on_error l
listen parse (delivered data_) l = record l { page = on_message parse data_ l.page }

abbrev pub listen_all :
    (Text → Option ObservabilityEntryDto) → List SourceEvent → LivePage → LivePage
listen_all parse [] l = l
listen_all parse (event ∷ events) l = listen_all parse events (listen parse event l)

abbrev delivery : Option Text → List SourceEvent
delivery none = []
delivery (some data_) = delivered data_ ∷ []

-- What the EventSource reports of these frames; `frame_data` is the data of a frame, none for a
-- comment.
abbrev pub deliveries : (Text → Option Text) → List Text → List SourceEvent
deliveries frame_data [] = []
deliveries frame_data (frame ∷ frames) = delivery (frame_data frame) ++ deliveries frame_data frames
