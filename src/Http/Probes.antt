-- ===== src/Http/Probes.antt =====
-- GET /health and GET /readiness, and the use case behind the latter.
-- application/controllers/http/probes, application/use_cases/check_readiness_use_case.py
pub mod Readiness
use sql_gateway_poc.Base.{Bool, true, false, if◌then◌else◌}
use sql_gateway_poc.Base.Exec.{Exec, pure, ◌>>=◌}
use sql_gateway_poc.Core.Dtos.{ReadinessReportDto}
use sql_gateway_poc.Core.Ports.{QueryExecutor, AccessGuard}
use sql_gateway_poc.Http.Response
use sql_gateway_poc.Http.Response.{service_unavailable, JsonResponse}

pub data HealthEnum : Type 0 where
  ok : HealthEnum

pub record HealthResponse : Type 0 where
  pub status : HealthEnum

pub data ReadinessEnum : Type 0 where
  ready not_ready : ReadinessEnum

pub data DatabaseStatusEnum : Type 0 where
  up down : DatabaseStatusEnum

pub record ReadinessResponse : Type 0 where
  pub status : ReadinessEnum
  pub database : DatabaseStatusEnum

-- CheckReadinessUseCase.check
unfoldable pub check : {S : Type 0} → AccessGuard S → Exec S ReadinessReportDto
check guard = do is_ready ← guard.executor.ping; pure (record { is_ready = is_ready })

-- _health_endpoint
abbrev pub health_endpoint : HealthResponse
health_endpoint = record { status = HealthEnum.ok }

unfoldable pub build_readiness_response : ReadinessReportDto → JsonResponse ReadinessResponse
build_readiness_response report = record {
  status_code = if report.is_ready then Response.ok else service_unavailable;
  content = record {
    status = if report.is_ready then ready else not_ready;
    database = if report.is_ready then up else down;
  };
}

-- _readiness_endpoint
unfoldable pub readiness_endpoint :
    {S : Type 0} → AccessGuard S → Exec S (JsonResponse ReadinessResponse)
readiness_endpoint guard = do report ← check guard; pure (build_readiness_response report)
