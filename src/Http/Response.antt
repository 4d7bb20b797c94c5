-- ===== src/Http/Response.antt =====
-- The status codes of http.HTTPStatus that the controllers use, and JSONResponse.
pub mod Rendering
use sql_gateway_poc.Base.{
  ℕ, ◌/◌, ◌%◌, Bool, true, false, not, ◌&&◌, Option, none, some, List, [], ◌∷◌, ◌==◌, leb, any,
  if◌then◌else◌,
}
use sql_gateway_poc.Base.Text.{Text}
use sql_gateway_poc.Base.Exec.{Exception, foreign, Outcome, returned, raised}
use sql_gateway_poc.Core.Values.{
  Cell, none_value, string, int, float, bool, datetime, date, time, decimal_number, uuid, bytes,
  bytearray, memoryview, other,
}

abbrev pub ok : ℕ
ok = 200

abbrev pub bad_request : ℕ
bad_request = 400

abbrev pub bad_gateway : ℕ
bad_gateway = 502

abbrev pub service_unavailable : ℕ
service_unavailable = 503

pub record JsonResponse (Body : Type 0) : Type 0 where
  pub status_code : ℕ
  pub content : Body

-- A ValueError, or an exception of a class below it: UnicodeEncodeError, ValidationError.
abbrev pub value_error : Exception
value_error = foreign "ValueError"

abbrev pub type_error : Exception
type_error = foreign "TypeError"

-- A double, by its bits: its exponent is not that of NaN and of the infinities.
pub is_finite : ℕ → Bool
is_finite bits = not ((bits / 4503599627370496) % 2048 == 2047)

-- No character is a surrogate, so the text has an encoding.
pub is_encodable : Text → Bool
unfolding any
is_encodable t = not (any (λ c. leb 0xd800 c && leb c 0xdfff) t)

refuse_unless : Bool → Option Exception
refuse_unless true = none
refuse_unless false = some value_error

-- What the rendering of a text raises, and that of a cell: JSONResponse calls json.dumps with
-- allow_nan=False and then encodes the text. Of several faults in a body the first is taken.
unfoldable pub text_error : Text → Option Exception
unfolding refuse_unless is_encodable
text_error t = refuse_unless (is_encodable t)

unfoldable pub cell_error : Cell → Option Exception
unfolding refuse_unless is_finite text_error
cell_error none_value = none
cell_error (string t) = text_error t
cell_error (int z) = none
cell_error (float bits) = refuse_unless (is_finite bits)
cell_error (bool b) = none
cell_error (datetime t) = some type_error
cell_error (date t) = some type_error
cell_error (time t) = some type_error
cell_error (decimal_number t) = some type_error
cell_error (uuid t) = some type_error
cell_error (bytes bs) = some type_error
cell_error (bytearray bs) = some type_error
cell_error (memoryview bs) = some type_error
cell_error (other t) = some type_error

unfoldable pub or_error : Option Exception → Option Exception → Option Exception
or_error none later = later
or_error (some e) later = some e

unfoldable pub first_error : {A : Type 0} → (A → Option Exception) → List A → Option Exception
unfolding or_error
first_error error [] = none
first_error error (x ∷ xs) = or_error (error x) (first_error error xs)

-- JSONResponse(status_code, content): the constructor renders the content.
unfoldable pub json_response :
    {Body : Type 0} → ℕ → Body → Option Exception → Outcome (JsonResponse Body)
json_response status content none = returned (record { status_code = status; content = content })
json_response status content (some e) = raised e
