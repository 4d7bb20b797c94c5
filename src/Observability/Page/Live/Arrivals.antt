-- ===== src/Observability/Page/Live/Arrivals.antt =====
-- Entries that arrive in any order, some of them for a second time.
use mathlib.Core.List.{Perm, Permᴰ}
use mathlib.Core.List.Permᴰ
use mathlib.Core.Logic.{∥∥₁_map, ∥∥₁_elim}
use sql_gateway_poc.Base.{
  ℕ, suc, ◌+◌, ◌≤◌, true, false, List, [], ◌∷◌, ◌++◌, ◌≡◌, refl, sym, ap, ◌∙◌, subst, arith, length,
  All, Bool-cases, inl, inr, if◌then◌else◌,
}
use sql_gateway_poc.Base.Text.{Text, is_member, text_eq}
use sql_gateway_poc.Core.Entry.{ObservabilityEntryDto}
use sql_gateway_poc.Observability.Page.{max_cards_on_page, Page, add_entry}
use sql_gateway_poc.Observability.Page.Cards.{add_all}
use sql_gateway_poc.Observability.Page.Replay.{
  HasId, IsSeen, Keeps, seen_is_ignored, add_entry-Adds,
}
use sql_gateway_poc.Observability.Page.Latest.{IsUnseen, keep_bounded-AreUnseen}
use sql_gateway_poc.Observability.Page.Latest as Latest

-- The entries whose ids are not among these.
abbrev pub fresh : List Text → List ObservabilityEntryDto → List ObservabilityEntryDto
fresh seen [] = []
fresh seen (entry ∷ entries) =
    let rest = fresh seen entries in if is_member entry.request_id seen then rest else entry ∷ rest

pub fresh-append :
    (seen : List Text) (es fs : List ObservabilityEntryDto)
    → fresh seen (es ++ fs) ≡ fresh seen es ++ fresh seen fs
fresh-append seen [] fs = refl
fresh-append seen (e ∷ es) fs = elim (Bool-cases (is_member e.request_id seen)) [
  | inl known ↦ rw known (fresh-append seen es fs)
  | inr new ↦ rw new (ap (λ l. e ∷ l) (fresh-append seen es fs))
]

pub fresh-seen :
    (p : Page) (es : List ObservabilityEntryDto)
    → All (λ e. IsSeen p e.request_id) es
    → fresh p.seen_request_ids es ≡ []
fresh-seen p [] h = refl
fresh-seen p (e ∷ es) h = rw h.0 (fresh-seen p es h.1)

pub fresh-unseen :
    (seen : List Text) (es : List ObservabilityEntryDto)
    → All (λ e. IsUnseen e.request_id seen) es
    → fresh seen es ≡ es
fresh-unseen seen [] h = refl
fresh-unseen seen (e ∷ es) h = rw h.0 (ap (λ l. e ∷ l) (fresh-unseen seen es h.1))

fresh-swap :
    (seen : List Text) (a b : ObservabilityEntryDto) (l : List ObservabilityEntryDto)
    → Permᴰ (fresh seen (a ∷ b ∷ l)) (fresh seen (b ∷ a ∷ l))
fresh-swap seen a b l = elim (Bool-cases (is_member a.request_id seen)) [
  | inl known ↦ rw known (Permᴰ.refl _)
  | inr new ↦ elim (Bool-cases (is_member b.request_id seen)) [
    | inl known ↦ rw (new, known) (Permᴰ.refl _)
    | inr other ↦ rw (new, other) (Permᴰ.swap refl refl)
  ]
]

fresh-permᴰ :
    (seen : List Text) {es fs : List ObservabilityEntryDto}
    → Permᴰ es fs
    → Permᴰ (fresh seen es) (fresh seen fs)
fresh-permᴰ seen Permᴰ.nil = Permᴰ.nil
fresh-permᴰ seen (Permᴰ.cons {a} {b} {l₁} {l₂} e d) =
    elim (Bool-cases (is_member b.request_id seen)) [
      | inl known ↦
          let also : is_member a.request_id seen ≡ true =
            ap (λ x. is_member x.request_id seen) e ∙ known in
          rw (also, known) (fresh-permᴰ seen d)
      | inr new ↦
          let also : is_member a.request_id seen ≡ false =
            ap (λ x. is_member x.request_id seen) e ∙ new in
          rw (also, new) (Permᴰ.cons e (fresh-permᴰ seen d))
    ]
fresh-permᴰ seen (Permᴰ.swap {a} {b} {a'} {b'} {l} e f) =
    subst (λ x. Permᴰ (fresh seen (a ∷ b ∷ l)) (fresh seen (x ∷ b' ∷ l))) f
      (subst (λ y. Permᴰ (fresh seen (a ∷ b ∷ l)) (fresh seen (b ∷ y ∷ l))) e
        (fresh-swap seen a b l))
fresh-permᴰ seen (Permᴰ.trans d d') = Permᴰ.trans (fresh-permᴰ seen d) (fresh-permᴰ seen d')

pub fresh-perm :
    (seen : List Text) {es fs : List ObservabilityEntryDto}
    → Perm es fs
    → Perm (fresh seen es) (fresh seen fs)
fresh-perm seen {es} {fs} p =
    ∥∥₁_map {B = Permᴰ (fresh seen es) (fresh seen fs)} p (fresh-permᴰ seen)

length-permᴰ : {A : Type 0} {xs ys : List A} → Permᴰ xs ys → length xs ≡ length ys
length-permᴰ Permᴰ.nil = refl
length-permᴰ (Permᴰ.cons e d) = ap suc (length-permᴰ d)
length-permᴰ (Permᴰ.swap e f) = refl
length-permᴰ (Permᴰ.trans d d') = length-permᴰ d ∙ length-permᴰ d'

same_length-prop : (m n : ℕ) → IsProp (m ≡ n)
same_length-prop m n = hlevel

pub length-perm : {A : Type 0} {xs ys : List A} → Perm xs ys → length xs ≡ length ys
length-perm {xs} {ys} p = ∥∥₁_elim p (same_length-prop (length xs) (length ys)) length-permᴰ

-- An entry that the page has seen before changes nothing, also where it comes late.
pub add_all-fresh :
    (start p : Page) (es : List ObservabilityEntryDto)
    → Keeps start p
    → All HasId es
    → length p.cards + length (fresh start.seen_request_ids es) ≤ max_cards_on_page
    → add_all es p ≡ add_all (fresh start.seen_request_ids es) p
add_all-fresh start p [] k h few = refl
add_all-fresh start p (e ∷ es) k h few =
    elim (Bool-cases (is_member e.request_id start.seen_request_ids)) [
      | inl known ↦
          let rest = add_all-fresh start p es k h.1 (rw known at few) in
          rw known (ap (add_all es) (seen_is_ignored e p h.0 (k e.request_id known)) ∙ rest)
      | inr new ↦
          let room : length p.cards + suc (length (fresh start.seen_request_ids es))
              ≤ max_cards_on_page =
            rw new at few in
          let adds = add_entry-Adds e p (omega (arith, room)) h.0 in
          rw new (
            add_all-fresh start (add_entry e p) es (λ id s. adds.keeps id (k id s)) h.1
              (omega (arith, room, adds.few)))
    ]

pub add_all-few :
    (es : List ObservabilityEntryDto) (p : Page)
    → All HasId es
    → length p.cards + length es ≤ max_cards_on_page
    → length (add_all es p).cards ≤ length p.cards + length es
add_all-few [] p h few = omega arith
add_all-few (e ∷ es) p h few =
    let adds = add_entry-Adds e p (omega (arith, few)) h.0 in
    let rest = add_all-few es (add_entry e p) h.1 (omega (arith, few, adds.few)) in
    omega (arith, rest, adds.few)

-- No entry of the one list has the id of one of the other.
abbrev pub AreApart : List ObservabilityEntryDto → List ObservabilityEntryDto → Type 0
AreApart [] fs = Unit
AreApart (e ∷ es) fs = All (λ f. text_eq f.request_id e.request_id ≡ false) fs × AreApart es fs

pub add_all-AreUnseen :
    (es fs : List ObservabilityEntryDto) (p : Page)
    → All HasId es
    → AreApart es fs
    → All (λ f. IsUnseen f.request_id p.seen_request_ids) fs
    → All (λ f. IsUnseen f.request_id (add_all es p).seen_request_ids) fs
add_all-AreUnseen [] fs p h a u = u
add_all-AreUnseen (e ∷ es) fs p h a u =
    add_all-AreUnseen es fs (add_entry e p) h.1 a.1
      (elim (Bool-cases (is_member e.request_id p.seen_request_ids)) [
        | inl known ↦
            subst (λ q. All (λ f. IsUnseen f.request_id q.seen_request_ids) fs)
              (sym (seen_is_ignored e p h.0 known)) u
        | inr new ↦
            subst (λ q. All (λ f. IsUnseen f.request_id q.seen_request_ids) fs)
              (sym (Latest.unseen_is_added e p h.0 new)) (keep_bounded-AreUnseen e p fs u a.0 h.0)
      ])
