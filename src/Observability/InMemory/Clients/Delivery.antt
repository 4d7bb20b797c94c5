-- ===== src/Observability/InMemory/Clients/Delivery.antt =====
-- What reaches the queue of a client, and what it reads from there.
use mathlib.Core.List.{Perm}
use mathlib.Core.List.Perm
use sql_gateway_poc.Base.{
  ℕ, zero, suc, false, some, List, [], ◌∷◌, ◌++◌, ◌==◌, ==_iff, if◌then◌else◌, ◌≡◌, refl, ap, ◌∙◌,
  arith, Bool-cases, inl, inr,
}
use sql_gateway_poc.Core.Entry.{ObservabilityEntryDto}
use sql_gateway_poc.Observability.Subscriber.{Subscriber, deliver}
use sql_gateway_poc.Observability.Subscriber.Order.{HasAll}
use sql_gateway_poc.Observability.InMemory.{
  InMemory, deliveries_of, deliver_to, pick, without_at, without,
}
use sql_gateway_poc.Observability.InMemory.Clients.{client_in, put_client}

-- The entries that are still to be delivered to the client.
abbrev pub owed : ℕ → List (ObservabilityEntryDto × ℕ) → List ObservabilityEntryDto
owed k [] = []
owed k ((entry, j) ∷ pending) = let rest = owed k pending in if j == k then entry ∷ rest else rest

-- The client is among the subscribers one time.
abbrev pub IsThereOnce : ℕ → List (ℕ × Subscriber) → Type 0
IsThereOnce k subscribers =
    (entry : ObservabilityEntryDto) → owed k (deliveries_of entry subscribers) ≡ entry ∷ []

-- The client is subscribed, its loop is open, and what it has got and what is still owed to it are
-- these entries.
pub record IsServedBy (k : ℕ) (r : InMemory) (read entries : List ObservabilityEntryDto)
    : Type 0 where
  pub client : Subscriber
  pub arrived : List ObservabilityEntryDto
  pub is_client : client_in k r.subscribers ≡ some client
  pub once : IsThereOnce k r.subscribers
  pub is_open : client.is_closed ≡ false
  pub has_arrived : HasAll read client arrived
  pub accounted : Perm (arrived ++ owed k r.pending) entries

pub owed-append :
    (k : ℕ) (xs ys : List (ObservabilityEntryDto × ℕ)) → owed k (xs ++ ys) ≡ owed k xs ++ owed k ys
owed-append k [] ys = refl
owed-append k ((entry, j) ∷ xs) ys = elim (Bool-cases (j == k)) [
  | inl same ↦ rw same (ap (λ l. entry ∷ l) (owed-append k xs ys))
  | inr other ↦ rw other (owed-append k xs ys)
]

-- The delivery that is picked is owed no longer.
pub owed-picked :
    (k n : ℕ) (entry : ObservabilityEntryDto) (pending : List (ObservabilityEntryDto × ℕ))
    → pick n pending ≡ some (entry, k)
    → Perm (owed k pending) (entry ∷ owed k (without_at n pending))
owed-picked k n entry [] e = cc
owed-picked k zero entry ((d, j) ∷ pending) e =
    let same : j ≡ k = cc in
    let same_entry : d ≡ entry = cc in
    rw ((==_iff j k).1 same, same_entry) (Perm.refl (entry ∷ owed k pending))
owed-picked k (suc n) entry ((d, j) ∷ pending) e = elim (Bool-cases (j == k)) [
  | inl same ↦ rw same (
      Perm.trans (Perm.cons d (owed-picked k n entry pending e))
        (Perm.swap entry d (owed k (without_at n pending))))
  | inr other ↦ rw other (owed-picked k n entry pending e)
]

pub owed-others :
    (k i n : ℕ) (entry : ObservabilityEntryDto) (pending : List (ObservabilityEntryDto × ℕ))
    → pick n pending ≡ some (entry, i)
    → (i == k) ≡ false
    → owed k (without_at n pending) ≡ owed k pending
owed-others k i n entry [] e h = cc
owed-others k i zero entry ((d, j) ∷ pending) e h =
    let same : j ≡ i = cc in
    let other : (j == k) ≡ false = ap (λ x. x == k) same ∙ h in rw other refl
owed-others k i (suc n) entry ((d, j) ∷ pending) e h = elim (Bool-cases (j == k)) [
  | inl same ↦ rw same (ap (λ l. d ∷ l) (owed-others k i n entry pending e h))
  | inr other ↦ rw other (owed-others k i n entry pending e h)
]

pub client_in-deliver_to :
    (k : ℕ) (entry : ObservabilityEntryDto) (subscribers : List (ℕ × Subscriber)) (c : Subscriber)
    → client_in k subscribers ≡ some c
    → client_in k (deliver_to k entry subscribers) ≡ some (deliver entry c)
client_in-deliver_to k entry [] c e = cc
client_in-deliver_to k entry ((j, s) ∷ subscribers) c e = elim (Bool-cases (j == k)) [
  | inl same ↦
      let found : some s ≡ some c = rw same at e in
      let same_client : s ≡ c = cc in rw (same, same) (ap (λ o. some (deliver entry o)) same_client)
  | inr other ↦ rw (other, other) (client_in-deliver_to k entry subscribers c (rw other at e))
]

pub client_in-others :
    (k i : ℕ) (entry : ObservabilityEntryDto) (subscribers : List (ℕ × Subscriber))
    → (i == k) ≡ false
    → client_in k (deliver_to i entry subscribers) ≡ client_in k subscribers
client_in-others k i entry [] h = refl
client_in-others k i entry ((j, s) ∷ subscribers) h = elim (Bool-cases (j == i)) [
  | inl same ↦ ground (arith, same, h, client_in-others k i entry subscribers h)
  | inr other ↦ ground (arith, other, client_in-others k i entry subscribers h)
]

-- A delivery, a change of a client and what others do leave who is there.
pub deliveries_of-deliver_to :
    (i : ℕ) (entry d : ObservabilityEntryDto) (subscribers : List (ℕ × Subscriber))
    → deliveries_of d (deliver_to i entry subscribers) ≡ deliveries_of d subscribers
deliveries_of-deliver_to i entry d [] = refl
deliveries_of-deliver_to i entry d ((j, s) ∷ subscribers) = elim (Bool-cases (j == i)) [
  | inl same ↦ rw same (ap (λ l. (d, j) ∷ l) (deliveries_of-deliver_to i entry d subscribers))
  | inr other ↦ rw other (ap (λ l. (d, j) ∷ l) (deliveries_of-deliver_to i entry d subscribers))
]

pub deliveries_of-put_client :
    (k : ℕ) (new : Subscriber) (d : ObservabilityEntryDto) (subscribers : List (ℕ × Subscriber))
    → deliveries_of d (put_client k new subscribers) ≡ deliveries_of d subscribers
deliveries_of-put_client k new d [] = refl
deliveries_of-put_client k new d ((j, s) ∷ subscribers) = elim (Bool-cases (j == k)) [
  | inl same ↦ rw same refl
  | inr other ↦ rw other (ap (λ l. (d, j) ∷ l) (deliveries_of-put_client k new d subscribers))
]

pub owed-without :
    (k j : ℕ) (d : ObservabilityEntryDto) (subscribers : List (ℕ × Subscriber))
    → (j == k) ≡ false
    → owed k (deliveries_of d (without j subscribers)) ≡ owed k (deliveries_of d subscribers)
unfolding without
owed-without k j d [] h = refl
owed-without k j d ((i, s) ∷ subscribers) h = elim (Bool-cases (i == j)) [
  | inl same ↦
      let other : (i == k) ≡ false = ap (λ x. x == k) ((==_iff i j).0 same) ∙ h in
      rw (same, other) (owed-without k j d subscribers h)
  | inr other ↦ elim (Bool-cases (i == k)) [
    | inl mine ↦ rw (other, mine) (ap (λ l. d ∷ l) (owed-without k j d subscribers h))
    | inr not_mine ↦ rw (other, not_mine) (owed-without k j d subscribers h)
  ]
]

pub client_in-without :
    (k j : ℕ) (subscribers : List (ℕ × Subscriber))
    → (j == k) ≡ false
    → client_in k (without j subscribers) ≡ client_in k subscribers
unfolding without
client_in-without k j [] h = refl
client_in-without k j ((i, s) ∷ subscribers) h = elim (Bool-cases (i == j)) [
  | inl same ↦ ground (arith, same, h, client_in-without k j subscribers h)
  | inr other ↦ ground (arith, other, client_in-without k j subscribers h)
]

pub client_in-put_client :
    (k : ℕ) (new : Subscriber) (subscribers : List (ℕ × Subscriber)) (c : Subscriber)
    → client_in k subscribers ≡ some c
    → client_in k (put_client k new subscribers) ≡ some new
client_in-put_client k new [] c e = cc
client_in-put_client k new ((j, s) ∷ subscribers) c e = elim (Bool-cases (j == k)) [
  | inl same ↦ ground (arith, same)
  | inr other ↦ ground (arith, other, e, client_in-put_client k new subscribers c)
]
