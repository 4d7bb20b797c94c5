-- ===== src/Startup/Report/Names.antt =====
-- The report names the required variables that are absent, each once, in order.
use sql_gateway_poc.Base.{
  true, Option, none, some, List, [], ◌∷◌, ◌≡◌, ◌⊎◌, ◌↔◌, inl, inr, ◌∙◌, Bool-cases,
}
use sql_gateway_poc.Base.Adds.{Some, Occurs}
use sql_gateway_poc.Base.Text.{Text, codes, text_eq, text_eq_iff}
use sql_gateway_poc.Config.Settings.{
  Environment, GatewaySettings, FieldError, missing, too_small, Loaded, loaded, failed,
}
use sql_gateway_poc.Startup.Order.{text_ltb, text_ltb_total}
use sql_gateway_poc.Startup.Steps.{Ending, ended, stopped, system_exit}
use sql_gateway_poc.Startup.Report.{upper, insert_text, missing_names, report}

-- Strictly ascending.
abbrev pub IsAscending : List Text → Type 0
IsAscending [] = Unit
IsAscending (s ∷ []) = Unit
IsAscending (s ∷ t ∷ texts) = (text_ltb s t ≡ true) × IsAscending (t ∷ texts)

insert_behind :
    (s t : Text) (texts : List Text)
    → text_ltb t s ≡ true
    → IsAscending (t ∷ texts)
    → IsAscending (insert_text s texts)
    → IsAscending (t ∷ insert_text s texts)
unfolding insert_text
insert_behind s t [] below h k = (below, tt)
insert_behind s t (u ∷ texts) below h k = elim (Bool-cases (text_eq s u)) [
  | inl same ↦ rw same h
  | inr other ↦ elim (Bool-cases (text_ltb s u)) [
    | inl less ↦ rw (other, less) (below, (less, h.1))
    | inr more ↦ rw (other, more) (h.0, rw (other, more) at k)
  ]
]

IsAscending-tail : (t : Text) (texts : List Text) → IsAscending (t ∷ texts) → IsAscending texts
IsAscending-tail t [] h = tt
IsAscending-tail t (u ∷ texts) h = h.1

insert_text-IsAscending :
    (s : Text) (texts : List Text) → IsAscending texts → IsAscending (insert_text s texts)
unfolding insert_text
insert_text-IsAscending s [] h = tt
insert_text-IsAscending s (t ∷ texts) h = elim (Bool-cases (text_eq s t)) [
  | inl same ↦ rw same h
  | inr other ↦ elim (Bool-cases (text_ltb s t)) [
    | inl less ↦ rw (other, less) (less, h)
    | inr more ↦
        rw (other, more)
          (insert_behind s t texts (text_ltb_total s t other more) h
            (insert_text-IsAscending s texts (IsAscending-tail t texts h)))
  ]
]

-- A text stands in the list after the insertion, if it is the inserted one or stood there before.
Occurs-iff :
    (s : Text) (texts : List Text) (a : Text)
    → Occurs a (insert_text s texts) ↔ ((a ≡ s) ⊎ Occurs a texts)
unfolding insert_text
Occurs-iff s [] a = (λ h. h, λ h. h)
Occurs-iff s (t ∷ texts) a = elim (Bool-cases (text_eq s t)) [
  | inl same ↦
      rw same (λ h. inr h, λ h. elim h [ inl e ↦ inl (e ∙ (text_eq_iff s t).0 same) | inr o ↦ o ])
  | inr other ↦ elim (Bool-cases (text_ltb s t)) [
    | inl less ↦ rw (other, less) (λ h. h, λ h. h)
    | inr more ↦
        rw (other, more)
          (
            λ h. elim h [
              | inl e ↦ inr (inl e)
              | inr o ↦ elim ((Occurs-iff s texts a).0 o) [ inl e ↦ inl e | inr o' ↦ inr (inr o') ]
            ],
            λ h. elim h [
              | inl e ↦ inr ((Occurs-iff s texts a).1 (inl e))
              | inr (inl e) ↦ inl e
              | inr (inr o) ↦ inr ((Occurs-iff s texts a).1 (inr o))
            ],
          )
  ]
]

-- The name is that of a missing field, in capitals.
abbrev pub IsMissing : Text → FieldError → Type 0
IsMissing a (missing name) = a ≡ upper (codes name)
IsMissing a (too_small name) = ⊥

-- The names that the report gives for any errors are strictly ascending, so each stands there
-- once; and a name is among them exactly if it is that of a missing field, in capitals.
missing_names-IsAscending :
    (errors : List FieldError)
    → IsAscending (missing_names errors)
      × ((a : Text) → Occurs a (missing_names errors) ↔ Some (IsMissing a) errors)
unfolding missing_names
missing_names-IsAscending [] = (tt, λ a. (λ h. h, λ h. h))
missing_names-IsAscending (missing name ∷ errors) =
    let (ascending, names) = missing_names-IsAscending errors in
    let s = upper (codes name) in
    (
      insert_text-IsAscending s (missing_names errors) ascending,
      λ a. (
        λ h. elim ((Occurs-iff s (missing_names errors) a).0 h) [
          | inl e ↦ inl e
          | inr o ↦ inr ((names a).0 o)
        ],
        λ h.
            (Occurs-iff s (missing_names errors) a).1
              (elim h [ inl e ↦ inl e | inr m ↦ inr ((names a).1 m) ]),
      ),
    )
missing_names-IsAscending (too_small name ∷ errors) =
    let (ascending, names) = missing_names-IsAscending errors in
    (
      ascending,
      λ a. (λ h. inr ((names a).0 h), λ h. elim h [ inl e ↦ absurd e | inr m ↦ (names a).1 m ]),
    )

-- The required variables that the environment lacks.
abbrev pub absent : Option Text → Option Text → List Text
unfolding codes
absent none none = codes "DATABASE_ADAPTER" ∷ codes "DATABASE_URL" ∷ []
absent none (some url) = codes "DATABASE_ADAPTER" ∷ []
absent (some adapter) none = codes "DATABASE_URL" ∷ []
absent (some adapter) (some url) = []

abbrev pub IsReported :
    {S : Type 0}
    → (List FieldError → Text)
    → Environment
    → S
    → Loaded GatewaySettings
    → Ending GatewaySettings × S
    → Type 0
IsReported render environment s (loaded settings) r = r ≡ (ended settings, s)
IsReported render environment s (failed errors) r = r ≡ (
  stopped (
      system_exit 1
        (report (render errors) (absent environment.database_adapter environment.database_url))),
  s,
)
