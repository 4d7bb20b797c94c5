-- ===== src/Observability/Page/Unique.antt =====
-- No two cards are of the same request.
use sql_gateway_poc.Base.{
  ℕ, zero, suc, ◌-◌, false, not, ◌&&◌, List, [], ◌∷◌, ◌≡◌, refl, ap, ◌∙◌, arith, length, any, All,
  Bool-cases, inl, inr,
}
use sql_gateway_poc.Base.Text.{Text, is_empty, is_member, text_eq, text_eq_iff}
use sql_gateway_poc.Core.Dtos.{DecisionEnum}
use sql_gateway_poc.Core.Entry.{ObservabilityEntryDto}
use sql_gateway_poc.Observability.Page.{
  max_cards_on_page, Card, Page, new_page, delete_id, forget_oldest, without_oldest, evict,
  insert_card, keep_bounded, add_entry,
}
use sql_gateway_poc.Observability.Page.Cards.{add_all}

abbrev pub ids : List Card → List Text
ids [] = []
ids (c ∷ cards) = c.request_id ∷ ids cards

abbrev pub DiffersFrom : Text → List Text → Type 0
DiffersFrom s = All (λ t. text_eq s t ≡ false)

abbrev pub AreUnique : List Text → Type 0
AreUnique [] = Unit
AreUnique (s ∷ texts) = DiffersFrom s texts × AreUnique texts

abbrev HasId : Card → Type 0
HasId c = is_empty c.request_id ≡ false

-- The seen ids are those of the cards; all cards have one, and no two the same.
pub record IsTracked (p : Page) : Type 0 where
  pub seen : p.seen_request_ids ≡ ids p.cards
  pub unique : AreUnique (ids p.cards)
  pub named : All HasId p.cards

is_member-DiffersFrom :
    (s : Text) (texts : List Text) → is_member s texts ≡ false → DiffersFrom s texts
unfolding is_member any
is_member-DiffersFrom s [] h = tt
is_member-DiffersFrom s (t ∷ texts) h =
    (ground (arith, h), is_member-DiffersFrom s texts (ground (arith, h)))

-- What the oldest card forgets is not another id.
forget_oldest-cons :
    (s : Text) (cards : List Card) (seen : List Text)
    → DiffersFrom s (ids cards)
    → forget_oldest cards (s ∷ seen) ≡ s ∷ forget_oldest cards seen
unfolding forget_oldest delete_id
forget_oldest-cons s [] seen h = refl
forget_oldest-cons s (c ∷ []) seen h = ground (arith, h.0)
forget_oldest-cons s (c ∷ d ∷ cards) seen h = forget_oldest-cons s (d ∷ cards) seen h.1

forget_oldest-ids :
    (cards : List Card)
    → AreUnique (ids cards)
    → All HasId cards
    → forget_oldest cards (ids cards) ≡ ids (without_oldest cards)
unfolding forget_oldest without_oldest delete_id
forget_oldest-ids [] u h = refl
forget_oldest-ids (c ∷ []) u h = ground (arith, h.0, (text_eq_iff c.request_id c.request_id).1 refl)
forget_oldest-ids (c ∷ d ∷ cards) u h =
    forget_oldest-cons c.request_id (d ∷ cards) (ids (d ∷ cards)) u.0
    ∙ ap (λ l. c.request_id ∷ l) (forget_oldest-ids (d ∷ cards) u.1 h.1)

DiffersFrom-without_oldest :
    (s : Text) (cards : List Card)
    → DiffersFrom s (ids cards)
    → DiffersFrom s (ids (without_oldest cards))
unfolding without_oldest
DiffersFrom-without_oldest s [] h = tt
DiffersFrom-without_oldest s (c ∷ []) h = tt
DiffersFrom-without_oldest s (c ∷ d ∷ cards) h = (h.0, DiffersFrom-without_oldest s (d ∷ cards) h.1)

AreUnique-without_oldest :
    (cards : List Card) → AreUnique (ids cards) → AreUnique (ids (without_oldest cards))
unfolding without_oldest
AreUnique-without_oldest [] u = tt
AreUnique-without_oldest (c ∷ []) u = tt
AreUnique-without_oldest (c ∷ d ∷ cards) u = (
  DiffersFrom-without_oldest c.request_id (d ∷ cards) u.0,
  AreUnique-without_oldest (d ∷ cards) u.1,
)

HasId-without_oldest : (cards : List Card) → All HasId cards → All HasId (without_oldest cards)
unfolding without_oldest
HasId-without_oldest [] h = tt
HasId-without_oldest (c ∷ []) h = tt
HasId-without_oldest (c ∷ d ∷ cards) h = (h.0, HasId-without_oldest (d ∷ cards) h.1)

evict-IsTracked : (n : ℕ) (p : Page) → IsTracked p → IsTracked (evict n p)
unfolding evict
evict-IsTracked zero p h = h
evict-IsTracked (suc n) p h = evict-IsTracked n _ (record {
  seen = ap (forget_oldest p.cards) h.seen ∙ forget_oldest-ids p.cards h.unique h.named;
  unique = AreUnique-without_oldest p.cards h.unique;
  named = HasId-without_oldest p.cards h.named;
})

insert_card-IsTracked :
    (entry : ObservabilityEntryDto) (p : Page)
    → is_empty entry.request_id ≡ false
    → is_member entry.request_id p.seen_request_ids ≡ false
    → IsTracked p
    → IsTracked (insert_card entry p)
unfolding insert_card
insert_card-IsTracked entry p named new h = record {
  seen = rw named (ap (λ l. entry.request_id ∷ l) h.seen);
  unique = (is_member-DiffersFrom entry.request_id (ids p.cards) (rw⁻¹ h.seen new), h.unique);
  named = (named, h.named);
}

add_entry-IsTracked :
    (entry : ObservabilityEntryDto) (p : Page)
    → is_empty entry.request_id ≡ false
    → IsTracked p
    → IsTracked (add_entry entry p)
unfolding add_entry keep_bounded
add_entry-IsTracked entry p named h =
    elim (Bool-cases
      (not (is_empty entry.request_id) && is_member entry.request_id p.seen_request_ids)) [
        | inl known ↦ simp known h
        | inr new ↦ simp new (
            evict-IsTracked (length (insert_card entry p).cards - max_cards_on_page)
              (insert_card entry p)
              (insert_card-IsTracked entry p named (ground (arith, named, new)) h))
      ]

add_all-IsTracked :
    (entries : List ObservabilityEntryDto) (p : Page)
    → All (λ entry. is_empty entry.request_id ≡ false) entries
    → IsTracked p
    → IsTracked (add_all entries p)
add_all-IsTracked [] p named h = h
add_all-IsTracked (entry ∷ entries) p named h =
    add_all-IsTracked entries (add_entry entry p) named.1 (add_entry-IsTracked entry p named.0 h)

-- After any entries with request ids that are not empty, replayed ones included, no two cards are
-- of the same request, and the ids that the page takes for known are those of its cards: a request
-- whose card was removed can come back, and no id is kept longer than its card.
pub page-IsTracked :
    (entries : List ObservabilityEntryDto) (active_filters : List DecisionEnum)
    → All (λ entry. is_empty entry.request_id ≡ false) entries
    → IsTracked (add_all entries (new_page active_filters))
page-IsTracked entries active_filters named =
    add_all-IsTracked entries (new_page active_filters) named
      (record { seen = refl; unique = tt; named = tt })
