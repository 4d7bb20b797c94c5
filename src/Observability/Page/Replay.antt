-- ===== src/Observability/Page/Replay.antt =====
-- A reconnect: the server sends its snapshot again, and the page ignores what it knows.
use sql_gateway_poc.Base.{
  ◌+◌, ◌-◌, ◌≤◌, true, false, List, [], ◌∷◌, ◌≡◌, refl, sym, ap, ◌∙◌, subst, arith, length, any,
  All, Bool-cases, inl, inr,
}
use sql_gateway_poc.Base.Text.{Text, is_empty, is_member, text_eq_iff}
use sql_gateway_poc.Core.Entry.{ObservabilityEntryDto}
use sql_gateway_poc.Observability.Page.{
  max_cards_on_page, Page, evict, insert_card, keep_bounded, add_entry,
}
use sql_gateway_poc.Observability.Page.Cards.{add_all}

-- The entry has an id.
abbrev pub HasId : ObservabilityEntryDto → Type 0
HasId entry = is_empty entry.request_id ≡ false

abbrev pub IsSeen : Page → Text → Type 0
IsSeen p id = is_member id p.seen_request_ids ≡ true

abbrev pub Keeps : Page → Page → Type 0
Keeps p q = (id : Text) → IsSeen p id → IsSeen q id

keep_bounded_few : (p : Page) → length p.cards ≤ max_cards_on_page → keep_bounded p ≡ p
unfolding keep_bounded evict
keep_bounded_few p h =
    let none_left : length p.cards - max_cards_on_page ≡ 0 = omega (arith, h) in rw none_left refl

pub seen_is_ignored :
    (entry : ObservabilityEntryDto) (p : Page)
    → HasId entry
    → IsSeen p entry.request_id
    → add_entry entry p ≡ p
unfolding add_entry
seen_is_ignored entry p h s = simp (h, s)

pub unseen_is_added :
    (entry : ObservabilityEntryDto) (p : Page)
    → length p.cards + 1 ≤ max_cards_on_page
    → is_member entry.request_id p.seen_request_ids ≡ false
    → HasId entry
    → add_entry entry p ≡ insert_card entry p
unfolding add_entry insert_card
unseen_is_added entry p few s h = simp (h, s) (keep_bounded_few _ (omega (arith, few)))

-- What one entry does to a page that has room.
pub record Adds (entry : ObservabilityEntryDto) (p q : Page) : Type 0 where
  pub few : length q.cards ≤ length p.cards + 1
  pub keeps : Keeps p q
  pub sees : IsSeen q entry.request_id

insert_card-Adds :
    (entry : ObservabilityEntryDto) (p : Page) → HasId entry → Adds entry p (insert_card entry p)
unfolding insert_card is_member any
insert_card-Adds entry p h = record {
  few = omega arith;
  keeps = λ id s. simp h (ground (arith, s));
  sees = simp h (ground (arith, (text_eq_iff entry.request_id entry.request_id).1 refl));
}

pub add_entry-Adds :
    (entry : ObservabilityEntryDto) (p : Page)
    → length p.cards + 1 ≤ max_cards_on_page
    → HasId entry
    → Adds entry p (add_entry entry p)
add_entry-Adds entry p few h = elim (Bool-cases (is_member entry.request_id p.seen_request_ids)) [
  | inl seen ↦
      subst (Adds entry p) (sym (seen_is_ignored entry p h seen))
        (record { few = omega arith; keeps = λ id s. s; sees = seen })
  | inr unseen ↦
      subst (Adds entry p) (sym (unseen_is_added entry p few unseen h)) (insert_card-Adds entry p h)
]

pub add_all-AreSeen :
    (entries : List ObservabilityEntryDto) (p : Page)
    → length p.cards + length entries ≤ max_cards_on_page
    → All HasId entries
    → All (λ entry. IsSeen (add_all entries p) entry.request_id) entries
      × Keeps p (add_all entries p)
add_all-AreSeen [] p few h = (tt, λ id s. s)
add_all-AreSeen (entry ∷ entries) p few h =
    let now = add_entry-Adds entry p (omega (arith, few)) h.0 in
    let (rest, keeps) =
      add_all-AreSeen entries (add_entry entry p) (omega (arith, few, now.few)) h.1 in
    ((keeps entry.request_id now.sees, rest), λ id s. keeps id (now.keeps id s))

known_are_ignored :
    (entries : List ObservabilityEntryDto) (p : Page)
    → All HasId entries
    → All (λ entry. IsSeen p entry.request_id) entries
    → add_all entries p ≡ p
known_are_ignored [] p h s = refl
known_are_ignored (entry ∷ entries) p h s =
    ap (add_all entries) (seen_is_ignored entry p h.0 s.0) ∙ known_are_ignored entries p h.1 s.1

-- Entries with request ids that come to a page with room for all of them, and come again after a
-- reconnect: the second time they change nothing on the page, neither its cards nor its counts.
add_all_twice :
    (entries : List ObservabilityEntryDto) (p : Page)
    → length p.cards + length entries ≤ max_cards_on_page
    → All HasId entries
    → add_all entries (add_all entries p) ≡ add_all entries p
add_all_twice entries p few h =
    known_are_ignored entries (add_all entries p) h (add_all-AreSeen entries p few h).0
