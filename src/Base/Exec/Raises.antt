-- ===== src/Base/Exec/Raises.antt =====
-- Which exceptions an action may raise, from any state.
use mathlib.Core.Bool.{Bool, true, false}
use sql_gateway_poc.Base.Tests.{if◌then◌else◌}
use sql_gateway_poc.Base.Exec.{
  Exception, Outcome, returned, raised, Exec, pure, ◌>>=◌, settle, leave_with, using,
}
use sql_gateway_poc.Base.Exec.Ensures.{Ensures, Ensures-pure, Ensures-bind, Ensures-if}

abbrev pub IsRaisedIn : (Exception → Type 0) → {S A : Type 0} → Outcome A → S → Type 0
IsRaisedIn E (returned a) s = Unit
IsRaisedIn E (raised e) s = E e

-- From each state with `P` the action returns, or raises an exception in `E`.
abbrev pub RaisesFrom : {S A : Type 0} → (S → Type 0) → (Exception → Type 0) → Exec S A → Type 0
RaisesFrom P E m = Ensures P m (IsRaisedIn E)

abbrev pub Raises : {S A : Type 0} → (Exception → Type 0) → Exec S A → Type 0
Raises E m = RaisesFrom (λ s. Unit) E m

abbrev pub Returns : {S A : Type 0} → Exec S A → Type 0
Returns m = Raises (λ e. ⊥) m

module _ {S A : Type 0} (E : Exception → Type 0) where
  pub Raises-pure : (a : A) → Raises {S = S} E (pure a)
  Raises-pure a = Ensures-pure a (λ s p. tt)

  pub Raises-if :
      (b : Bool) (m n : Exec S A) → Raises E m → Raises E n → Raises E (if b then m else n)
  Raises-if b m n km kn = Ensures-if b m n (λ _. km) (λ _. kn)

module _ {S A B : Type 0} (E : Exception → Type 0) where
  pub Raises-bind :
      (m : Exec S A) (f : A → Exec S B)
      → Raises E m
      → ((a : A) → Raises E (f a))
      → Raises E (m >>= f)
  Raises-bind m f h k = Ensures-bind (IsRaisedIn E) m f h k (λ e s r. r)

module _ {S A : Type 0} (E : Exception → Type 0) where
  leave_with-Raises :
      (exit : Bool → Exec S Unit) (o : Outcome A) (s : S)
      → ((failing : Bool) → Raises E (exit failing))
      → IsRaisedIn E o s
      → Raises E (leave_with exit o)
  leave_with-Raises exit (returned a) s exits h =
      Raises-bind E (exit false) (λ _. settle (returned a)) (exits false)
        (λ _. record { at = λ s p. tt })
  leave_with-Raises exit (raised e) s exits h =
      Raises-bind E (exit true) (λ _. settle (raised e)) (exits true)
        (λ _. record { at = λ s p. h })

  pub Raises-using :
      (enter : Exec S Unit) (exit : Bool → Exec S Unit) (body : Exec S A)
      → Raises E enter
      → ((failing : Bool) → Raises E (exit failing))
      → Raises E body
      → Raises E (using enter exit body)
  unfolding using
  Raises-using enter exit body enters exits inside = Raises-bind E enter _ enters λ _. record {
    at = λ s p.
        (leave_with-Raises exit (body s).0 (body s).1 exits (inside.at s tt)).at (body s).1 tt;
  }

-- Whether an outcome is allowed does not depend on the state beside it.
pub elsewhere :
    {S T A : Type 0} (E : Exception → Type 0) (o : Outcome A) (s : S) (t : T)
    → IsRaisedIn E o s
    → IsRaisedIn E o t
elsewhere E (returned a) s t h = tt
elsewhere E (raised e) s t h = h

-- An action that runs on a part of the state.
pub Raises-inside :
    {S T A : Type 0} (E : Exception → Type 0) (m : Exec S A) (part : T → S) (put : T → S → T)
    → Raises E m
    → Raises E (λ (t : T). ((m (part t)).0, put t (m (part t)).1))
Raises-inside E m part put h = record {
  at = λ t p. elsewhere E (m (part t)).0 (m (part t)).1 (put t (m (part t)).1) (h.at (part t) tt);
}
