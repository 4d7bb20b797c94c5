-- ===== src/Observability/Page/Latest.antt =====
-- The cards of the page, against a list that forgets nothing.
use sql_gateway_poc.Base.{
  ℕ, zero, suc, ◌-◌, ◌≤◌, false, List, [], ◌∷◌, ◌≡◌, refl, sym, ap, ◌∙◌, subst, arith, leb, length,
  take, take-eq_self, any, All, Bool-cases, inl, inr,
}
use sql_gateway_poc.Base.Text.{Text, is_member, text_eq}
use sql_gateway_poc.Core.Dtos.{DecisionEnum}
use sql_gateway_poc.Core.Entry.{ObservabilityEntryDto}
use sql_gateway_poc.Observability.Page.{
  max_cards_on_page, Card, Page, new_page, is_active, delete_id, forget_oldest, without_oldest,
  evict, insert_card, keep_bounded, add_entry,
}
use sql_gateway_poc.Observability.Page.Cards.{
  add_all, length-without_oldest, total-evict, filters-evict,
}
use sql_gateway_poc.Observability.Page.Replay.{HasId}

-- The card of an entry, the one of this number.
abbrev pub card_of : List DecisionEnum → ℕ → ObservabilityEntryDto → Card
card_of filters n entry = record {
  request_id = entry.request_id;
  outcome = entry.decision;
  index = n;
  is_shown = is_active entry.decision filters;
}

-- A card for each entry, numbered on from `n`, before the cards that there are, newest first.
abbrev pub newest_first : List DecisionEnum → ℕ → List ObservabilityEntryDto → List Card → List Card
newest_first filters n [] cards = cards
newest_first filters n (entry ∷ entries) cards =
    newest_first filters (suc n) entries (card_of filters (suc n) entry ∷ cards)

-- No entry has the id of a later one.
abbrev pub AreNew : List ObservabilityEntryDto → Type 0
AreNew [] = Unit
AreNew (entry ∷ entries) =
    All (λ (e : ObservabilityEntryDto). text_eq e.request_id entry.request_id ≡ false) entries
    × AreNew entries

take-take : {A : Type 0} (m n : ℕ) (xs : List A) → m ≤ n → take m (take n xs) ≡ take m xs
take-take zero n xs h = refl
take-take (suc m) zero xs h = absurd (omega (arith, h))
take-take (suc m) (suc n) [] h = refl
take-take (suc m) (suc n) (x ∷ xs) h = ap (λ l. x ∷ l) (take-take m n xs (omega (arith, h)))

one_less : (n : ℕ) → suc (suc n - 1) ≡ suc (suc n) - 1
one_less n = omega arith

without_oldest-take : (cards : List Card) → without_oldest cards ≡ take (length cards - 1) cards
unfolding without_oldest
without_oldest-take [] = refl
without_oldest-take (c ∷ []) = refl
without_oldest-take (c ∷ d ∷ cards) =
    ap (λ l. c ∷ l) (without_oldest-take (d ∷ cards))
    ∙ ap (λ m. take m (c ∷ d ∷ cards)) (one_less (length cards))

evict-cards : (n : ℕ) (p : Page) → (evict n p).cards ≡ take (length p.cards - n) p.cards
unfolding evict
evict-cards zero p = sym (take-eq_self _ p.cards (omega arith))
evict-cards (suc n) p =
    let l = length p.cards in
    evict-cards n _
    ∙ ap (λ m. take (m - n) (without_oldest p.cards)) (length-without_oldest p.cards)
    ∙ ap (take (l - 1 - n)) (without_oldest-take p.cards)
    ∙ take-take (l - 1 - n) (l - 1) p.cards (omega arith)
    ∙ ap (λ m. take m p.cards) (omega arith)

newest : (m : ℕ) (cards : List Card) → take (length cards - (length cards - m)) cards ≡ take m cards
newest m cards = elim (Bool-cases (leb (length cards) m)) [
  | inl few ↦
      take-eq_self _ cards (ground (arith, few)) ∙ sym (take-eq_self m cards (ground (arith, few)))
  | inr many ↦ ap (λ n. take n cards) (ground (arith, many))
]

keep_bounded-cards : (p : Page) → (keep_bounded p).cards ≡ take max_cards_on_page p.cards
unfolding keep_bounded
keep_bounded-cards p =
    evict-cards (length p.cards - max_cards_on_page) p ∙ newest max_cards_on_page p.cards

abbrev pub IsUnseen : Text → List Text → Type 0
IsUnseen id seen = is_member id seen ≡ false

delete_id-IsUnseen :
    (id gone : Text) (seen : List Text) → IsUnseen id seen → IsUnseen id (delete_id gone seen)
unfolding delete_id is_member any
delete_id-IsUnseen id gone [] h = refl
delete_id-IsUnseen id gone (s ∷ seen) h =
    let rest = delete_id-IsUnseen id gone seen (ground (arith, h)) in ground (arith, h, rest)

forget_oldest-IsUnseen :
    (id : Text) (cards : List Card) (seen : List Text)
    → IsUnseen id seen
    → IsUnseen id (forget_oldest cards seen)
unfolding forget_oldest
forget_oldest-IsUnseen id [] seen h = h
forget_oldest-IsUnseen id (c ∷ []) seen h =
    ground (arith, h, delete_id-IsUnseen id c.request_id seen h)
forget_oldest-IsUnseen id (c ∷ d ∷ cards) seen h = forget_oldest-IsUnseen id (d ∷ cards) seen h

evict-IsUnseen :
    (id : Text) (n : ℕ) (p : Page)
    → IsUnseen id p.seen_request_ids
    → IsUnseen id (evict n p).seen_request_ids
unfolding evict
evict-IsUnseen id zero p h = h
evict-IsUnseen id (suc n) p h =
    evict-IsUnseen id n _ (forget_oldest-IsUnseen id p.cards p.seen_request_ids h)

pub unseen_is_added :
    (entry : ObservabilityEntryDto) (p : Page)
    → HasId entry
    → IsUnseen entry.request_id p.seen_request_ids
    → add_entry entry p ≡ keep_bounded (insert_card entry p)
unfolding add_entry
unseen_is_added entry p named unseen = simp (named, unseen) refl

-- The page has the newest cards, and has not seen the entries that are still to come.
record IsCaughtUp (filters : List DecisionEnum) (n : ℕ) (cards : List Card)
    (entries : List ObservabilityEntryDto) (p : Page) : Type 0 where
  filters_kept : p.active_filters ≡ filters
  total : p.total_ever_received ≡ n
  newest_kept : p.cards ≡ take max_cards_on_page cards
  unseen : All (λ entry. IsUnseen entry.request_id p.seen_request_ids) entries

take-cons :
    (m : ℕ) (card : Card) (cards : List Card)
    → take (suc m) (card ∷ take (suc m) cards) ≡ take (suc m) (card ∷ cards)
take-cons m card cards = ap (λ l. card ∷ l) (take-take m (suc m) cards (omega arith))

pub keep_bounded-AreUnseen :
    (entry : ObservabilityEntryDto) (p : Page) (entries : List ObservabilityEntryDto)
    → All (λ e. IsUnseen e.request_id p.seen_request_ids) entries
    → All (λ (e : ObservabilityEntryDto). text_eq e.request_id entry.request_id ≡ false) entries
    → HasId entry
    → All (λ e. IsUnseen e.request_id (keep_bounded (insert_card entry p)).seen_request_ids) entries
unfolding keep_bounded insert_card is_member any
keep_bounded-AreUnseen entry p [] h d named = tt
keep_bounded-AreUnseen entry p (e ∷ entries) h d named = (
  evict-IsUnseen e.request_id (length (insert_card entry p).cards - max_cards_on_page)
      (insert_card entry p) (simp named (ground (arith, h.0, d.0))),
  keep_bounded-AreUnseen entry p entries h.1 d.1 named,
)

added :
    (filters : List DecisionEnum) (n : ℕ) (cards : List Card) (entry : ObservabilityEntryDto)
    (entries : List ObservabilityEntryDto) (p : Page)
    → HasId entry
    → All (λ (e : ObservabilityEntryDto). text_eq e.request_id entry.request_id ≡ false) entries
    → IsCaughtUp filters n cards (entry ∷ entries) p
    → IsCaughtUp filters
        (suc n)
        (card_of filters (suc n) entry ∷ cards)
        entries
        (keep_bounded (insert_card entry p))
unfolding keep_bounded insert_card
added filters n cards entry entries p named new h =
    let k = length (insert_card entry p).cards - max_cards_on_page in
    let q = insert_card entry p in
    record {
      filters_kept = filters-evict k q ∙ h.filters_kept;
      total = total-evict k q ∙ ap suc h.total;
      newest_kept =
          keep_bounded-cards q
          ∙ ap (λ c. take max_cards_on_page (c ∷ p.cards))
              (ap (λ m. card_of p.active_filters (suc m) entry) h.total
                ∙ ap (λ f. card_of f (suc n) entry) h.filters_kept)
          ∙ ap (λ l. take max_cards_on_page (card_of filters (suc n) entry ∷ l)) h.newest_kept
          ∙ take-cons 499 (card_of filters (suc n) entry) cards;
      unseen = keep_bounded-AreUnseen entry p entries h.unseen.1 new named;
    }

add_entry-IsCaughtUp :
    (filters : List DecisionEnum) (n : ℕ) (cards : List Card) (entry : ObservabilityEntryDto)
    (entries : List ObservabilityEntryDto) (p : Page)
    → HasId entry
    → All (λ (e : ObservabilityEntryDto). text_eq e.request_id entry.request_id ≡ false) entries
    → IsCaughtUp filters n cards (entry ∷ entries) p
    → IsCaughtUp filters (suc n) (card_of filters (suc n) entry ∷ cards) entries (add_entry entry p)
add_entry-IsCaughtUp filters n cards entry entries p named new h =
    subst (IsCaughtUp filters (suc n) (card_of filters (suc n) entry ∷ cards) entries)
      (sym (unseen_is_added entry p named h.unseen.0))
      (added filters n cards entry entries p named new h)

add_all-newest :
    (filters : List DecisionEnum) (n : ℕ) (cards : List Card) (entries : List ObservabilityEntryDto)
    (p : Page)
    → All HasId entries
    → AreNew entries
    → IsCaughtUp filters n cards entries p
    → (add_all entries p).cards ≡ take max_cards_on_page (newest_first filters n entries cards)
add_all-newest filters n cards [] p named new h = h.newest_kept
add_all-newest filters n cards (entry ∷ entries) p named new h =
    add_all-newest filters (suc n) (card_of filters (suc n) entry ∷ cards) entries
      (add_entry entry p) named.1 new.1
      (add_entry-IsCaughtUp filters n cards entry entries p named.0 new.0 h)

pub none_seen :
    (entries : List ObservabilityEntryDto) → All (λ entry. IsUnseen entry.request_id []) entries
unfolding is_member any
none_seen [] = tt
none_seen (entry ∷ entries) = (refl, none_seen entries)

-- After any entries with ids that all differ, the cards of a new page are the 500 newest of a list
-- that keeps a card for each entry: newest first, numbered in the order in which the entries came,
-- with the outcome of the entry, and shown if the filter of this outcome is active.
pub add_all-latest :
    (entries : List ObservabilityEntryDto) (active_filters : List DecisionEnum)
    → All HasId entries
    → AreNew entries
    → (add_all entries (new_page active_filters)).cards
      ≡ take max_cards_on_page (newest_first active_filters 0 entries [])
add_all-latest entries active_filters named new =
    add_all-newest active_filters 0 [] entries (new_page active_filters) named new
      (record { filters_kept = refl; total = refl; newest_kept = refl; unseen = none_seen entries })
