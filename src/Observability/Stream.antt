-- ===== src/Observability/Stream.antt =====
-- GET /observability/events: what was recorded before, then what is recorded from now on.
-- application/controllers/http/observability/observability_http_controller.py
pub mod Frames
use sql_gateway_poc.Base.{
  ℕ, Bool, true, false, Option, none, some, List, [], ◌∷◌, ◌++◌, if◌then◌else◌,
}
use sql_gateway_poc.Base.Text.{Text, codes}
use sql_gateway_poc.Base.Dict.{Dict}
use sql_gateway_poc.Core.Entry.{ObservabilityEntryDto, PayloadValue, to_json_payload}

-- _SSE_HEARTBEAT_INTERVAL_SECONDS
abbrev pub sse_heartbeat_interval_seconds : ℕ
sse_heartbeat_interval_seconds = 15

-- What the generator meets at one turn of a loop: whether the client is gone, and what the wait for
-- the queue gives, `none` for the heartbeat's timeout.
pub record Turn : Type 0 where
  pub is_disconnected : Bool
  pub waited : Option ObservabilityEntryDto

module _ (dumps : Dict PayloadValue → Text) where
  -- _format_server_sent_event
  unfoldable pub format_server_sent_event : Dict PayloadValue → Text
  unfolding codes
  format_server_sent_event payload = codes "data: " ++ (dumps payload ++ 10 ∷ 10 ∷ [])

  abbrev pub entry_frame : ObservabilityEntryDto → Text
  entry_frame entry = format_server_sent_event (to_json_payload entry true)

  abbrev pub keepalive : Text
  unfolding codes
  keepalive = codes ": keepalive" ++ 10 ∷ 10 ∷ []

  abbrev pub turn_frame : Option ObservabilityEntryDto → Text
  turn_frame none = keepalive
  turn_frame (some entry) = entry_frame entry

  -- The `while True` loop, as far as the turns go.
  live : List Turn → List Text
  live [] = []
  live (turn ∷ turns) =
      let rest = live turns in if turn.is_disconnected then [] else turn_frame turn.waited ∷ rest

  -- event_generator, for a snapshot: the frames that it yields.
  unfoldable pub event_generator : List ObservabilityEntryDto → List Turn → List Text
  unfolding live
  event_generator [] turns = live turns
  event_generator (entry ∷ entries) [] = []
  event_generator (entry ∷ entries) (turn ∷ turns) =
      let rest = event_generator entries turns in
      if turn.is_disconnected then [] else entry_frame entry ∷ rest
