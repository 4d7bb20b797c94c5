-- ===== src/Http/Gateway/Json.antt =====
-- Which bodies JSON can hold.
use sql_gateway_poc.Base.{Option, none, some, All}
use sql_gateway_poc.Base.Text.{Text}
use sql_gateway_poc.Http.Response.{text_error, cell_error, or_error, first_error}
use sql_gateway_poc.Http.Response.Rendering.{
  IsEncodable, IsJsonCell, Renders, text_error-Renders, cell_error-Renders, or_error-Renders,
  first_error-Renders,
}
use sql_gateway_poc.Http.Gateway.{
  QueryResultPayload, QueryResponse, rejected_body, allowed_body, db_error_body,
  optional_text_error, render_error,
}

abbrev IsOptional : Option Text → Type 0
IsOptional none = Unit
IsOptional (some t) = IsEncodable t

abbrev IsJsonResult : QueryResultPayload → Type 0
IsJsonResult p = All IsEncodable p.columns × All (All IsJsonCell) p.rows

-- JSON can hold the body: its texts have an encoding, and no cell is NaN or an infinity.
abbrev pub IsJson : QueryResponse → Type 0
IsJson (rejected_body b) = IsEncodable b.request_id × IsOptional b.detail
IsJson (allowed_body b) = IsEncodable b.request_id × IsJsonResult b.result
IsJson (db_error_body b) =
    IsEncodable b.request_id × (IsOptional b.reason × IsOptional b.error_code)

optional_text_error-Renders : (o : Option Text) → Renders (IsOptional o) (optional_text_error o)
unfolding optional_text_error
optional_text_error-Renders none = tt
optional_text_error-Renders (some t) = text_error-Renders t

result-Renders :
    (p : QueryResultPayload)
    → Renders
        (IsJsonResult p)
        (or_error (first_error text_error p.columns) (first_error (first_error cell_error) p.rows))
result-Renders p =
    or_error-Renders (All IsEncodable p.columns) (All (All IsJsonCell) p.rows) _ _
      (first_error-Renders IsEncodable text_error p.columns text_error-Renders)
      (first_error-Renders (All IsJsonCell) (first_error cell_error) p.rows
        (λ row. first_error-Renders IsJsonCell cell_error row cell_error-Renders))

pub render_error-Renders : (b : QueryResponse) → Renders (IsJson b) (render_error b)
unfolding render_error
render_error-Renders (rejected_body b) =
    or_error-Renders (IsEncodable b.request_id) (IsOptional b.detail) _ _
      (text_error-Renders b.request_id) (optional_text_error-Renders b.detail)
render_error-Renders (allowed_body b) =
    or_error-Renders (IsEncodable b.request_id) (IsJsonResult b.result) _ _
      (text_error-Renders b.request_id) (result-Renders b.result)
render_error-Renders (db_error_body b) =
    or_error-Renders (IsEncodable b.request_id) (IsOptional b.reason × IsOptional b.error_code) _ _
      (text_error-Renders b.request_id)
      (or_error-Renders (IsOptional b.reason) (IsOptional b.error_code) _ _
        (optional_text_error-Renders b.reason) (optional_text_error-Renders b.error_code))
