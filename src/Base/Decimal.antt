-- ===== src/Base/Decimal.antt =====
-- `str` of a nonnegative `int`, and `bytes.hex`.
use Prim.Native.Nat.{ℕ, zero, suc, ◌+◌, ◌*◌, ◌/◌, ◌%◌, ◌-◌, ◌<◌, ◌≤◌}
use mathlib.Core.Path.{◌≡◌, refl, ap, ◌∙◌}
use mathlib.Core.Logic.{inl, inr}
use mathlib.Core.List.{List, [], ◌∷◌}
use native.Mathlib.Omega.{arith}
use sql_gateway_poc.Base.Tests.{ltb, if◌then◌else◌, Bool-cases}
use sql_gateway_poc.Base.Lists.{All}
use sql_gateway_poc.Base.Text.{Text}

-- The digits of `n` in front of `rest`, with a bound on their number.
digits : ℕ → ℕ → Text → Text
digits zero n rest = rest
digits (suc bound) n rest =
    let longer = digits bound (n / 10) ((48 + n % 10) ∷ rest) in
    if ltb n 10 then (48 + n % 10) ∷ rest else longer

-- str(n)
unfoldable pub decimal : ℕ → Text
unfolding digits
decimal n = digits (suc n) n []

-- The number that a text of digits reads as, after `n`.
read_from : ℕ → Text → ℕ
read_from n [] = n
read_from n (c ∷ s) = read_from (n * 10 + (c - 48)) s

read_from-digits :
    (bound n : ℕ) (rest : Text) → n < bound → read_from 0 (digits bound n rest) ≡ read_from n rest
unfolding digits read_from
read_from-digits zero n rest h = elim h [ ]
read_from-digits (suc bound) n rest h = elim (Bool-cases (ltb n 10)) [
  | inl small ↦ rw small (ap (λ m. read_from m rest) (ground arith))
  | inr large ↦ rw large (
      read_from-digits bound (n / 10) ((48 + n % 10) ∷ rest) (ground arith)
      ∙ ap (λ m. read_from m rest) (omega arith))
]

-- Printing loses nothing, so two numbers that print alike are equal.
pub decimal-injective : (m n : ℕ) → decimal m ≡ decimal n → m ≡ n
unfolding decimal read_from
decimal-injective m n h = cc (
  read_from-digits (suc m) m [] (omega arith),
  read_from-digits (suc n) n [] (omega arith),
  ap (read_from 0) h,
)

hex_digit : ℕ → ℕ
hex_digit n = if ltb n 10 then 48 + n else 87 + n

-- bytes(value).hex()
unfoldable pub hex : List ℕ → Text
unfolding hex_digit
hex [] = []
hex (b ∷ bytes) = hex_digit (b / 16) ∷ hex_digit (b % 16) ∷ hex bytes

digit_value : ℕ → ℕ
digit_value c = if ltb c 58 then c - 48 else c - 87

-- bytes.fromhex, on what `hex` prints.
pub from_hex : Text → List ℕ
unfolding digit_value
from_hex (c ∷ d ∷ s) = (digit_value c * 16 + digit_value d) ∷ from_hex s
from_hex _ = []

digit_value-hex_digit : (n : ℕ) → n < 16 → digit_value (hex_digit n) ≡ n
unfolding digit_value hex_digit
digit_value-hex_digit n h = ground arith

pub from_hex-hex : (bytes : List ℕ) → All (λ b. b < 256) bytes → from_hex (hex bytes) ≡ bytes
unfolding from_hex hex
from_hex-hex [] h = refl
from_hex-hex (b ∷ bytes) h =
    ground
      (arith, digit_value-hex_digit (b / 16), digit_value-hex_digit (b % 16), from_hex-hex bytes)

abbrev pub IsDigit : ℕ → Type 0
IsDigit c = (48 ≤ c) × (c ≤ 57)

digits-IsDigit : (bound n : ℕ) (rest : Text) → All IsDigit rest → All IsDigit (digits bound n rest)
unfolding digits
digits-IsDigit zero n rest h = h
digits-IsDigit (suc bound) n rest h =
    let digit : IsDigit (48 + n % 10) = (omega arith, omega arith) in
    elim (Bool-cases (ltb n 10)) [
      | inl small ↦ rw small (digit, h)
      | inr large ↦ rw large (digits-IsDigit bound (n / 10) ((48 + n % 10) ∷ rest) (digit, h))
    ]

pub decimal-IsDigit : (n : ℕ) → All IsDigit (decimal n)
unfolding decimal
decimal-IsDigit n = digits-IsDigit (suc n) n [] tt
