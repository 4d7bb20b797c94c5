-- ===== src/Base/Exec.antt =====
-- Python methods that change a state and may raise. What was done before a raise stays done, so
-- the state comes back beside the exception too.
pub mod Ensures
pub mod Log
pub mod Raises
use Prim.Native.String.{String}
use Prim.Native.Nat.{ℕ}
use mathlib.Core.Bool.{Bool, true, false}
use mathlib.Core.Option.{Option}
use mathlib.Core.List.{List}

-- What the gateway reads of a psycopg.Error: diag.sqlstate, diag.message_primary, str(exception).
pub record DbError : Type 0 where
  pub sqlstate : Option (List ℕ)
  pub message_primary : Option (List ℕ)
  pub text : List ℕ

-- `foreign` stands for an exception that other code raised, by its class name.
pub data Exception : Type 0 where
  assertion_error : Exception
  psycopg_error : DbError → Exception
  foreign : String → Exception

pub data Outcome {ℓ} (A : Type ℓ) : Type ℓ where
  returned : A → Outcome A
  raised : Exception → Outcome A

abbrev pub Exec : Type 0 → Type 0 → Type 0
Exec S A = S → Outcome A × S

module _ {S A : Type 0} where
  abbrev pub pure : A → Exec S A
  pure a s = (returned a, s)

  abbrev pub throw : Exception → Exec S A
  throw e s = (raised e, s)

module _ {S A B : Type 0} where
  abbrev pub continue : Outcome A → (A → Exec S B) → Exec S B
  continue (returned a) f s = f a s
  continue (raised e) f s = (raised e, s)

  infixl 5 ◌>>=◌ ◌>>◌
  unfoldable pub ◌>>=◌ : Exec S A → (A → Exec S B) → Exec S B
  ◌>>=◌ m f s = let (r, s') = m s in continue r f s'

  abbrev pub ◌>>◌ : Exec S A → Exec S B → Exec S B
  m >> n = m >>= λ _. n

module _ {S A : Type 0} where
  abbrev pub settle : Outcome A → Exec S A
  settle o s = (o, s)

  abbrev pub leave_with : (Bool → Exec S Unit) → Outcome A → Exec S A
  leave_with exit (returned a) = exit false >> settle (returned a)
  leave_with exit (raised e) = exit true >> settle (raised e)

  -- `with` a context manager: its exit runs whether the body returns or raises.
  unfoldable pub using : Exec S Unit → (Bool → Exec S Unit) → Exec S A → Exec S A
  using enter exit body = enter >> λ s. let (o, s') = body s in leave_with exit o s'
