-- ===== src/Base/Exec/Log.antt =====
-- Actions that leave an event in a log, newest first, and triples for them.
use mathlib.Core.Path.{◌≡◌, ap, sym, subst}
use mathlib.Core.List.{List, ◌∷◌}
use sql_gateway_poc.Base.Exec.{Exception, Outcome, returned, raised, Exec, ◌>>=◌}
use sql_gateway_poc.Base.Exec.Ensures.{Ensures, Ensures-bind}

module _ {S A E : Type 0} where
  -- The action `m`, and its outcome at the head of the log.
  abbrev pub logged : (Outcome A → E) → Exec S A → Exec (S × List E) A
  logged event m (s, log) = ((m s).0, ((m s).1, event (m s).0 ∷ log))

  abbrev pub quiet : Exec S A → Exec (S × List E) A
  quiet m (s, log) = ((m s).0, ((m s).1, log))

abbrev pub LogIs : {S E : Type 0} → List E → S × List E → Type 0
LogIs log s = s.1 ≡ log

module _ {S A B E : Type 0} {Q : Outcome B → S × List E → Type 0} (log : List E) where
  -- A call that leaves an event, then what follows it.
  pub logged_step :
      (event : Outcome A → E) (m : Exec S A) (f : A → Exec (S × List E) B)
      → ((a : A) → Ensures (LogIs (event (returned a) ∷ log)) (f a) Q)
      → ((e : Exception) (s : S × List E) → LogIs (event (raised e) ∷ log) s → Q (raised e) s)
      → Ensures (LogIs log) (logged event m >>= f) Q
  logged_step event m f next failed =
      Ensures-bind (λ o s. LogIs (event o ∷ log) s) (logged event m) f
        (record { at = λ s p. ap (λ l. event (m s.0).0 ∷ l) p }) next failed

  -- A call that leaves none.
  pub quiet_step :
      (m : Exec S A) (f : A → Exec (S × List E) B)
      → ((a : A) → Ensures (LogIs log) (f a) Q)
      → ((e : Exception) (s : S × List E) → LogIs log s → Q (raised e) s)
      → Ensures (LogIs log) (quiet m >>= f) Q
  quiet_step m f next failed =
      Ensures-bind (λ o s. LogIs log s) (quiet m) f (record { at = λ s p. p }) next failed

  -- An action that changes nothing, then what follows it.
  pub still_step :
      (m : Exec (S × List E) A) (f : A → Exec (S × List E) B)
      → ((s : S × List E) → (m s).1 ≡ s)
      → ((a : A) → Ensures (LogIs log) (f a) Q)
      → ((e : Exception) (s : S × List E) → LogIs log s → Q (raised e) s)
      → Ensures (LogIs log) (m >>= f) Q
  still_step m f keeps next failed =
      Ensures-bind (λ o s. LogIs log s) m f
        (record { at = λ s p. subst (LogIs log) (sym (keeps s)) p }) next failed
