-- ===== src/Base/Exec/Ensures.antt =====
-- Triples for actions: from a state with `P` the action ends, by a return or a raise, with `Q`.
use mathlib.Core.Path.{◌≡◌, refl}
use mathlib.Core.Bool.{Bool, true, false}
use sql_gateway_poc.Base.Tests.{if◌then◌else◌}
use sql_gateway_poc.Base.Exec
use sql_gateway_poc.Base.Exec.{Exception, Outcome, returned, raised, Exec, pure, ◌>>=◌}

pub record Ensures {S A : Type 0} (P : S → Type 0) (m : Exec S A) (Q : Outcome A → S → Type 0)
    : Type 0 where
  pub at : (s : S) → P s → Q (m s).0 (m s).1

module _ {S A : Type 0} {P : S → Type 0} {Q : Outcome A → S → Type 0} where
  pub Ensures-pure : (a : A) → ((s : S) → P s → Q (returned a) s) → Ensures P (pure a) Q
  Ensures-pure a h = record { at = h }

  pub Ensures-if :
      (b : Bool) (m n : Exec S A)
      → (b ≡ true → Ensures P m Q)
      → (b ≡ false → Ensures P n Q)
      → Ensures P (if b then m else n) Q
  Ensures-if true m n km kn = km refl
  Ensures-if false m n km kn = kn refl

module _ {S A B : Type 0} {Q : Outcome B → S → Type 0} where
  after_step :
      (R : Outcome A → S → Type 0) (f : A → Exec S B) (o : Outcome A) (s : S)
      → ((a : A) → Ensures (R (returned a)) (f a) Q)
      → ((e : Exception) (s' : S) → R (raised e) s' → Q (raised e) s')
      → R o s
      → Q (Exec.continue o f s).0 (Exec.continue o f s).1
  after_step R f (returned a) s next failed r = (next a).at s r
  after_step R f (raised e) s next failed r = failed e s r

  -- A step, and what follows it if it returns.
  pub Ensures-bind :
      {P : S → Type 0} (R : Outcome A → S → Type 0) (m : Exec S A) (f : A → Exec S B)
      → Ensures P m R
      → ((a : A) → Ensures (R (returned a)) (f a) Q)
      → ((e : Exception) (s : S) → R (raised e) s → Q (raised e) s)
      → Ensures P (m >>= f) Q
  unfolding ◌>>=◌
  Ensures-bind R m f first next failed = record {
    at = λ s p. after_step R f (m s).0 (m s).1 next failed (first.at s p);
  }
