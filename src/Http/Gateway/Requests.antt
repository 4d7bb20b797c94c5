-- ===== src/Http/Gateway/Requests.antt =====
-- Which payloads get as far as the use case.
use sql_gateway_poc.Base.{◌≤◌, ◌≡◌, ◌↔◌, refl, arith, length}
use sql_gateway_poc.Core.Values.{QueryPayload, str, dict, list, nil, item, end, field}
use sql_gateway_poc.Http.Gateway.{
  min_query_text_length, max_query_text_length, accepted, reject_empty_and_oversize,
}

-- A text of 1 to 64000 characters, or an object or an array that is not empty.
abbrev pub IsSized : QueryPayload → Type 0
IsSized (str value) =
    (min_query_text_length ≤ length value) × (length value ≤ max_query_text_length)
IsSized (dict end) = ⊥
IsSized (dict (field key value rest)) = Unit
IsSized (list nil) = ⊥
IsSized (list (item value rest)) = Unit

-- The check of the request accepts a payload, unchanged, exactly if it is a text of 1 to 64000
-- characters or an object or an array that is not empty.
pub reject_empty_and_oversize_iff :
    (value : QueryPayload) → (reject_empty_and_oversize value ≡ accepted value) ↔ IsSized value
unfolding reject_empty_and_oversize
reject_empty_and_oversize_iff (str value) = (λ h. ground arith, λ h. ground arith)
reject_empty_and_oversize_iff (dict end) = (λ h. cc, λ h. absurd h)
reject_empty_and_oversize_iff (dict (field key value rest)) = (λ h. tt, λ h. refl)
reject_empty_and_oversize_iff (list nil) = (λ h. cc, λ h. absurd h)
reject_empty_and_oversize_iff (list (item value rest)) = (λ h. tt, λ h. refl)
