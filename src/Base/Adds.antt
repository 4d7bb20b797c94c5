-- ===== src/Base/Adds.antt =====
-- Reasoning about sets that grow: what a set has after a step is what the step adds and what the
-- set had before.
use mathlib.Core.Path.{◌≡◌, refl}
use mathlib.Core.Logic.{◌↔◌, ◌⊎◌, inl, inr}
use mathlib.Core.Bool.{Bool, true, false, not}
use mathlib.Core.List.{List, [], ◌∷◌}
use sql_gateway_poc.Base.Tests.{if◌then◌else◌}

-- Some element satisfies `P`, by recursion.
abbrev pub Some {ℓ} : {A : Type ℓ} → (A → Type 0) → List A → Type 0
Some P [] = ⊥
Some P (x ∷ xs) = P x ⊎ Some P xs

-- The element stands in the list: a proof says where.
abbrev pub Occurs : {A : Type 0} → A → List A → Type 0
Occurs a = Some (λ x. a ≡ x)

-- `f` adds to a set the elements with `P`, and takes none away.
pub record Adds {A : Type 0} (P : A → Type 0) (before after : List A) : Type 0 where
  pub parts : (a : A) → Occurs a after → P a ⊎ Occurs a before
  pub new : (a : A) → P a → Occurs a after
  pub old : (a : A) → Occurs a before → Occurs a after

module _ {A : Type 0} where
  pub Adds-nothing : (l : List A) → Adds (λ _. ⊥) l l
  Adds-nothing l = record { parts = λ a h. inr h; new = λ a h. absurd h; old = λ a h. h }

  pub Adds-one : (x : A) (l : List A) → Adds (λ a. a ≡ x) l (x ∷ l)
  Adds-one x l = record { parts = λ a h. h; new = λ a h. inl h; old = λ a h. inr h }

  -- Two steps.
  pub Adds-then :
      {P Q : A → Type 0} {l m n : List A} → Adds P l m → Adds Q m n → Adds (λ a. P a ⊎ Q a) l n
  Adds-then first second = record {
    parts = λ a h. elim (second.parts a h) [
      | inl q ↦ inl (inr q)
      | inr o ↦ elim (first.parts a o) [ inl p ↦ inl (inl p) | inr o' ↦ inr o' ]
    ];
    new = λ a h. elim h [ inl p ↦ second.old a (first.new a p) | inr q ↦ second.new a q ];
    old = λ a h. second.old a (first.old a h);
  }

  -- The same step, said in other words.
  pub Adds-as : {P Q : A → Type 0} {l m : List A} → ((a : A) → P a ↔ Q a) → Adds P l m → Adds Q l m
  Adds-as same step = record {
    parts = λ a h. elim (step.parts a h) [ inl p ↦ inl ((same a).0 p) | inr o ↦ inr o ];
    new = λ a h. step.new a ((same a).1 h);
    old = step.old;
  }

  -- A step that depends on a test.
  pub Adds-if :
      {P Q : A → Type 0} {l m n : List A} (b : Bool)
      → Adds P l m
      → Adds Q l n
      → Adds (λ a. ((b ≡ true) × P a) ⊎ ((b ≡ false) × Q a)) l (if b then m else n)
  Adds-if true yes_step no_step =
      Adds-as (λ a. (λ p. inl (refl, p), λ h. elim h [ inl (_, p) ↦ p | inr (e, _) ↦ cc ])) yes_step
  Adds-if false yes_step no_step =
      Adds-as (λ a. (λ p. inr (refl, p), λ h. elim h [ inl (e, _) ↦ cc | inr (_, q) ↦ q ])) no_step

  pub Adds-when :
      {P : A → Type 0} {l m : List A} (b : Bool)
      → Adds P l m
      → Adds (λ a. (b ≡ true) × P a) l (if b then m else l)
  Adds-when true step = Adds-as (λ a. (λ p. (refl, p), λ h. h.1)) step
  Adds-when {l} false step = Adds-as (λ a. (λ p. absurd p, λ (e, _). cc)) (Adds-nothing l)

  pub Adds-unless :
      {P : A → Type 0} {l m : List A} (b : Bool)
      → Adds P l m
      → Adds (λ a. (b ≡ true) × P a) l (if not b then l else m)
  Adds-unless true step = Adds-as (λ a. (λ p. (refl, p), λ h. h.1)) step
  Adds-unless {l} false step = Adds-as (λ a. (λ p. absurd p, λ (e, _). cc)) (Adds-nothing l)
