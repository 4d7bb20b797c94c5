-- ===== src/Core/Values.antt =====
-- The values that pass through the gateway: request payloads, database cells, numbers.
-- core/model/query_payload.py, and the Python types that query_executor_adapter.py tells apart.
use sql_gateway_poc.Base.{ℕ, Bool, List}
use sql_gateway_poc.Base.Text.{Text}

-- A Python `int`; `negsuc n` is -(n + 1).
pub data ℤ : Type 0 where
  pos : ℕ → ℤ
  negsuc : ℕ → ℤ

-- A JSON document. A number that is no integer is kept as the bits of its double.
mutual
  pub data Json : Type 0 where
    null : Json
    boolean : Bool → Json
    integer : ℤ → Json
    double : ℕ → Json
    string : Text → Json
    array : Items → Json
    object : Fields → Json

  pub data Items : Type 0 where
    nil : Items
    item : Json → Items → Items

  pub data Fields : Type 0 where
    end : Fields
    field : Text → Json → Fields → Fields

-- QueryPayload: str | dict | list
pub data QueryPayload : Type 0 where
  str : Text → QueryPayload
  dict : Fields → QueryPayload
  list : Items → QueryPayload

-- A value that the driver hands out for one column of one row. The last constructors hold what
-- the gateway reads of the object: its `isoformat`, its `str`, or its bytes.
pub data Cell : Type 0 where
  none_value : Cell
  string : Text → Cell
  int : ℤ → Cell
  float : ℕ → Cell
  bool : Bool → Cell
  datetime date time : Text → Cell
  decimal_number uuid : Text → Cell
  bytes bytearray memoryview : List ℕ → Cell
  other : Text → Cell
