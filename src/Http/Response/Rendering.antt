-- ===== src/Http/Response/Rendering.antt =====
-- Which texts and cells are rendered.
use sql_gateway_poc.Base.{
  ◌/◌, ◌%◌, ◌<◌, Bool, true, false, Option, none, some, List, [], ◌∷◌, ◌≡◌, ◌↔◌, ◌⊎◌, refl, inl,
  inr, arith, ==_iff, any, All,
}
use sql_gateway_poc.Base.Text.{Text}
use sql_gateway_poc.Base.Exec.{Exception}
use sql_gateway_poc.Core.Values.{
  Cell, none_value, string, int, float, bool, datetime, date, time, decimal_number, uuid, bytes,
  bytearray, memoryview, other,
}
use sql_gateway_poc.Http.Response.{
  value_error, type_error, is_finite, is_encodable, refuse_unless, text_error, cell_error, or_error,
  first_error,
}

-- No character is a surrogate.
abbrev pub IsEncodable : Text → Type 0
IsEncodable = All (λ c. (c < 0xd800) ⊎ (0xdfff < c))

-- The cell is JSON: no NaN, no infinity, and of a class that json.dumps knows.
abbrev pub IsJsonCell : Cell → Type 0
IsJsonCell none_value = Unit
IsJsonCell (string t) = IsEncodable t
IsJsonCell (int z) = Unit
IsJsonCell (float bits) = ¬ ((bits / 4503599627370496) % 2048 ≡ 2047)
IsJsonCell (bool b) = Unit
IsJsonCell _ = ⊥

abbrev pub IsRefusal : Exception → Type 0
IsRefusal e = (e ≡ value_error) ⊎ (e ≡ type_error)

-- Rendering raises nothing exactly if `P`, and else it raises a refusal.
abbrev pub Renders : Type 0 → Option Exception → Type 0
Renders P none = P
Renders P (some e) = (¬ P) × IsRefusal e

refuse_unless-Renders : {P : Type 0} (b : Bool) → (b ≡ true) ↔ P → Renders P (refuse_unless b)
unfolding refuse_unless
refuse_unless-Renders true h = h.0 refl
refuse_unless-Renders false h = (λ p. cc (h.1 p), inl refl)

is_encodable_iff : (t : Text) → (is_encodable t ≡ true) ↔ IsEncodable t
unfolding is_encodable any
is_encodable_iff [] = (λ h. tt, λ h. refl)
is_encodable_iff (c ∷ t) = (
  λ h. (ground (arith, h), (is_encodable_iff t).0 (ground (arith, h))),
  λ h. ground (arith, h.0, (is_encodable_iff t).1 h.1),
)

pub text_error-Renders : (t : Text) → Renders (IsEncodable t) (text_error t)
unfolding text_error
text_error-Renders t = refuse_unless-Renders (is_encodable t) (is_encodable_iff t)

pub cell_error-Renders : (c : Cell) → Renders (IsJsonCell c) (cell_error c)
unfolding cell_error is_finite
cell_error-Renders none_value = tt
cell_error-Renders (string t) = text_error-Renders t
cell_error-Renders (int z) = tt
cell_error-Renders (float bits) =
    refuse_unless-Renders {P = IsJsonCell (float bits)} (is_finite bits)
      (λ h e. cc (h, (==_iff ((bits / 4503599627370496) % 2048) 2047).1 e), λ h. ground (arith, h))
cell_error-Renders (bool b) = tt
cell_error-Renders (datetime t) = (λ f. f, inr refl)
cell_error-Renders (date t) = (λ f. f, inr refl)
cell_error-Renders (time t) = (λ f. f, inr refl)
cell_error-Renders (decimal_number t) = (λ f. f, inr refl)
cell_error-Renders (uuid t) = (λ f. f, inr refl)
cell_error-Renders (bytes bs) = (λ f. f, inr refl)
cell_error-Renders (bytearray bs) = (λ f. f, inr refl)
cell_error-Renders (memoryview bs) = (λ f. f, inr refl)
cell_error-Renders (other t) = (λ f. f, inr refl)

pub or_error-Renders :
    (P Q : Type 0) (o o' : Option Exception)
    → Renders P o
    → Renders Q o'
    → Renders (P × Q) (or_error o o')
unfolding or_error
or_error-Renders P Q none none h h' = (h, h')
or_error-Renders P Q none (some e) h h' = (λ p. h'.0 p.1, h'.1)
or_error-Renders P Q (some e) o' h h' = (λ p. h.0 p.0, h.1)

pub first_error-Renders :
    {A : Type 0} (P : A → Type 0) (error : A → Option Exception) (xs : List A)
    → ((x : A) → Renders (P x) (error x))
    → Renders (All P xs) (first_error error xs)
unfolding first_error
first_error-Renders P error [] h = tt
first_error-Renders P error (x ∷ xs) h =
    or_error-Renders (P x) (All P xs) (error x) (first_error error xs) (h x)
      (first_error-Renders P error xs h)
