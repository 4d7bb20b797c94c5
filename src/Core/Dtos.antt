-- ===== src/Core/Dtos.antt =====
-- The objects that the ports exchange.
-- core/model/decision_enum.py, core/ports/outbound/{validation_result,query_outcome}_dto.py,
-- core/ports/inbound/{execute_query_result,readiness_report}_dto.py
use sql_gateway_poc.Base.{ℕ, Bool, true, false, Option, none, some, List, [], String}
use sql_gateway_poc.Base.Text.{Text}
use sql_gateway_poc.Core.Values.{ℤ, Cell}

pub data DecisionEnum : Type 0 where
  allowed rejected db_error : DecisionEnum

pub record ValidationResultDto : Type 0 where
  pub is_allowed : Bool
  pub rejection_code : Option String
  pub rejection_detail : Option Text

-- ValidationResultDto.allow()
abbrev pub allow : ValidationResultDto
allow = record { is_allowed = true; rejection_code = none; rejection_detail = none }

-- ValidationResultDto.reject(code, detail)
abbrev pub reject : String → Option Text → ValidationResultDto
reject code detail = record {
  is_allowed = false;
  rejection_code = some code;
  rejection_detail = detail;
}

pub record QueryOutcomeDto : Type 0 where
  pub succeeded : Bool
  pub columns : List Text
  pub rows : List (List Cell)
  pub rows_were_truncated : Bool
  pub rows_affected : Option ℤ
  pub error_message : Option Text
  pub error_code : Option Text

-- The fields that `QueryOutcomeDto(succeeded=...)` fills in by default.
abbrev pub outcome : Bool → QueryOutcomeDto
outcome succeeded = record {
  succeeded = succeeded;
  columns = [];
  rows = [];
  rows_were_truncated = false;
  rows_affected = none;
  error_message = none;
  error_code = none;
}

-- Durations are in hundredths of a millisecond, the precision that the program rounds to.
pub record ExecuteQueryResultDto : Type 0 where
  pub decision : DecisionEnum
  pub request_id : Text
  pub redacted_query : Text
  pub duration_ms : Option ℕ
  pub validation_result : Option ValidationResultDto
  pub query_outcome : Option QueryOutcomeDto

pub record ReadinessReportDto : Type 0 where
  pub is_ready : Bool
