-- ===== src/Postgres/Executor/Calls/Blocks.antt =====
-- Triples for the with blocks.
use sql_gateway_poc.Base.{Bool, true, false, List, ◌∷◌, refl, sym, subst}
use sql_gateway_poc.Base.Exec.{
  Exec, Outcome, returned, raised, Exception, settle, leave_with, using,
}
use sql_gateway_poc.Base.Exec.Ensures.{Ensures}
use sql_gateway_poc.Base.Exec.Log.{LogIs, logged, logged_step}

-- What a with block ends with, after the exit with this outcome.
abbrev pub after_exit : {A : Type 0} → Outcome {0} Unit → Outcome A → Outcome A
after_exit (returned _) o = o
after_exit (raised e) o = raised e

abbrev is_failing : {A : Type 0} → Outcome A → Bool
is_failing (returned _) = false
is_failing (raised _) = true

module _ {S A E : Type 0} (left : Bool → Outcome {0} Unit → E) (exit : Bool → Exec S Unit)
    (R Q : Outcome A → List E → Type 0) where
  -- The exit turns `R` into `Q`.
  abbrev pub Leaves : Type 0
  Leaves =
      (o : Outcome A) (exited : Outcome {0} Unit) (log : List E)
      → R o log
      → Q (after_exit exited o) (left (is_failing o) exited ∷ log)

  -- The triple for the rest of the block, once its body has ended.
  abbrev OnLog : (Outcome A → List E → Type 0) → Outcome A → S × List E → Type 0
  OnLog P o s = P o s.1

  exits :
      (o : Outcome A) (log : List E)
      → Leaves
      → R o log
      → Ensures (LogIs log) (leave_with (λ b. logged (left b) (exit b)) o) (OnLog Q)
  exits (returned a) log leaves r =
      logged_step log (left false) (exit false) (λ _. settle (returned a))
        (λ u. record {
          at = λ s p. subst (Q (returned a)) (sym p) (leaves (returned a) (returned u) log r);
        })
        (λ e s p. subst (Q (raised e)) (sym p) (leaves (returned a) (raised e) log r))
  exits (raised e) log leaves r =
      logged_step log (left true) (exit true) (λ _. settle (raised e))
        (λ u. record {
          at = λ s p. subst (Q (raised e)) (sym p) (leaves (raised e) (returned u) log r);
        })
        (λ e' s p. subst (Q (raised e')) (sym p) (leaves (raised e) (raised e') log r))

  pub Ensures-using :
      (log : List E) (entered : Outcome {0} Unit → E) (enter : Exec S Unit)
      (body : Exec (S × List E) A)
      → Ensures (LogIs (entered (returned tt) ∷ log)) body (OnLog R)
      → ((e : Exception) → Q (raised e) (entered (raised e) ∷ log))
      → Leaves
      → Ensures
          (LogIs log)
          (using (logged entered enter) (λ b. logged (left b) (exit b)) body)
          (OnLog Q)
  unfolding using
  Ensures-using log entered enter body inside failed leaves =
      logged_step log entered enter _
        (λ u. record {
          at = λ s p. (exits (body s).0 (body s).1.1 leaves (inside.at s p)).at (body s).1 refl;
        })
        (λ e s p. subst (Q (raised e)) (sym p) (failed e))
