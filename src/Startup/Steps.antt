-- ===== src/Startup/Steps.antt =====
-- Steps of the start-up: actions on a state that end with a value or stop the program.
-- main.py
use sql_gateway_poc.Base.{ℕ, ◌≡◌, refl}
use sql_gateway_poc.Base.Text.{Text}

-- What stops the start-up: SystemExit with what was printed before it, an ImportError by its text,
-- AdapterImportFailed by the parts of its message, or another exception, by its text.
pub data Stop : Type 0 where
  system_exit : ℕ → Text → Stop
  import_error : Text → Stop
  adapter_import_failed : (module_path cause adapter_directory : Text) → Stop
  other_error : Text → Stop

pub data Ending (A : Type 0) : Type 0 where
  ended : A → Ending A
  stopped : Stop → Ending A

abbrev pub Step : Type 0 → Type 0 → Type 0
Step S A = S → Ending A × S

abbrev pub value_step : {S A : Type 0} → A → Step S A
value_step a s = (ended a, s)

abbrev pub stop : {S A : Type 0} → Stop → Step S A
stop e s = (stopped e, s)

module _ {S A B : Type 0} where
  abbrev go_on : Ending A → (A → Step S B) → Step S B
  go_on (ended a) f s = f a s
  go_on (stopped e) f s = (stopped e, s)

  infixl 5 ◌>>=◌ ◌>>◌
  unfoldable pub ◌>>=◌ : Step S A → (A → Step S B) → Step S B
  ◌>>=◌ m f s = let (r, s') = m s in go_on r f s'

  abbrev pub ◌>>◌ : Step S A → Step S B → Step S B
  m >> n = m >>= λ _. n

-- From the state `s` the step ends with `a` and leaves `s'`.
abbrev pub EndsWith : {S A : Type 0} → Step S A → S → A → S → Type 0
EndsWith m s a s' = m s ≡ (ended a, s')

module _ {S A B : Type 0} where
  ended_first :
      (r : Ending A) (s1 : S) (f : A → Step S B) (b : B) (s' : S)
      → go_on r f s1 ≡ (ended b, s')
      → (a : A) × (r ≡ ended a) × EndsWith (f a) s1 b s'
  ended_first (ended a) s1 f b s' e = (a, refl, e)
  ended_first (stopped x) s1 f b s' e = cc

  -- Two steps that end have both ended.
  pub bind-EndsWith :
      (m : Step S A) (f : A → Step S B) (s : S) (b : B) (s' : S)
      → EndsWith (m >>= f) s b s'
      → (a : A) × (s1 : S) × EndsWith m s a s1 × EndsWith (f a) s1 b s'
  unfolding ◌>>=◌
  bind-EndsWith m f s b s' e =
      let (a, p, q) = ended_first (m s).0 (m s).1 f b s' e in (a, (m s).1, cc, q)

pub value-EndsWith :
    {S A : Type 0} (a b : A) (s s' : S) → EndsWith (value_step a) s b s' → (a ≡ b) × (s ≡ s')
value-EndsWith a b s s' e = (cc, cc)
