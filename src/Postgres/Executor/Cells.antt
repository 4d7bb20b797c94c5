-- ===== src/Postgres/Executor/Cells.antt =====
-- The values of a row, made fit for JSON.
-- infrastructure/persistence/postgres/query_executor_adapter.py
use sql_gateway_poc.Base.{◌<◌, ◌≡◌, refl, All}
use sql_gateway_poc.Base.Decimal.{hex, from_hex, from_hex-hex}
use sql_gateway_poc.Core.Values.{
  Cell, none_value, string, int, float, bool, datetime, date, time, decimal_number, uuid, bytes,
  bytearray, memoryview, other,
}

-- _coerce_cell_to_json_safe
unfoldable pub coerce_cell_to_json_safe : Cell → Cell
coerce_cell_to_json_safe none_value = none_value
coerce_cell_to_json_safe (string t) = string t
coerce_cell_to_json_safe (int n) = int n
coerce_cell_to_json_safe (float bits) = float bits
coerce_cell_to_json_safe (bool b) = bool b
coerce_cell_to_json_safe (datetime isoformat) = string isoformat
coerce_cell_to_json_safe (date isoformat) = string isoformat
coerce_cell_to_json_safe (time isoformat) = string isoformat
coerce_cell_to_json_safe (decimal_number digits) = string digits
coerce_cell_to_json_safe (uuid digits) = string digits
coerce_cell_to_json_safe (bytes bs) = string (hex bs)
coerce_cell_to_json_safe (bytearray bs) = string (hex bs)
coerce_cell_to_json_safe (memoryview bs) = string (hex bs)
coerce_cell_to_json_safe (other t) = string t

-- A value that json.dumps knows.
abbrev pub IsJsonSafe : Cell → Type 0
IsJsonSafe none_value = Unit
IsJsonSafe (string t) = Unit
IsJsonSafe (int n) = Unit
IsJsonSafe (float bits) = Unit
IsJsonSafe (bool b) = Unit
IsJsonSafe _ = ⊥

-- The text that is shown gives back the bytes.
abbrev pub KeepsBytes : Cell → Cell → Type 0
KeepsBytes (bytes bs) (string t) = from_hex t ≡ bs
KeepsBytes (bytearray bs) (string t) = from_hex t ≡ bs
KeepsBytes (memoryview bs) (string t) = from_hex t ≡ bs
KeepsBytes _ _ = Unit

-- The bytes of a cell are below 256.
abbrev pub HasBytes : Cell → Type 0
HasBytes (bytes bs) = All (λ b. b < 256) bs
HasBytes (bytearray bs) = All (λ b. b < 256) bs
HasBytes (memoryview bs) = All (λ b. b < 256) bs
HasBytes _ = Unit

abbrev pub IsWellCoerced : Cell → Type 0
IsWellCoerced c =
    IsJsonSafe (coerce_cell_to_json_safe c)
    × (coerce_cell_to_json_safe (coerce_cell_to_json_safe c) ≡ coerce_cell_to_json_safe c)
    × KeepsBytes c (coerce_cell_to_json_safe c)

-- A coerced cell is None, a text, a number or a truth value; coercing it again changes nothing;
-- and the text for a cell of bytes, each below 256, gives these bytes back.
pub coerce_cell-IsWellCoerced : (c : Cell) → HasBytes c → IsWellCoerced c
unfolding coerce_cell_to_json_safe
coerce_cell-IsWellCoerced none_value h = (tt, refl, tt)
coerce_cell-IsWellCoerced (string t) h = (tt, refl, tt)
coerce_cell-IsWellCoerced (int n) h = (tt, refl, tt)
coerce_cell-IsWellCoerced (float b) h = (tt, refl, tt)
coerce_cell-IsWellCoerced (bool b) h = (tt, refl, tt)
coerce_cell-IsWellCoerced (datetime t) h = (tt, refl, tt)
coerce_cell-IsWellCoerced (date t) h = (tt, refl, tt)
coerce_cell-IsWellCoerced (time t) h = (tt, refl, tt)
coerce_cell-IsWellCoerced (decimal_number t) h = (tt, refl, tt)
coerce_cell-IsWellCoerced (uuid t) h = (tt, refl, tt)
coerce_cell-IsWellCoerced (bytes bs) h = (tt, refl, from_hex-hex bs h)
coerce_cell-IsWellCoerced (bytearray bs) h = (tt, refl, from_hex-hex bs h)
coerce_cell-IsWellCoerced (memoryview bs) h = (tt, refl, from_hex-hex bs h)
coerce_cell-IsWellCoerced (other t) h = (tt, refl, tt)
