-- ===== src/Observability/InMemory/Clients/Newcomer.antt =====
-- A client whose identity is new subscribes: nothing is on its way to it.
use mathlib.Core.List.{Perm}
use mathlib.Core.List.Perm
use sql_gateway_poc.Base.{
  ℕ, Option, none, some, List, [], ◌∷◌, ◌++◌, ◌==◌, ==_iff, ◌≡◌, refl, sym, ap, ◌∙◌, subst, All,
  Bool-cases, inl, inr,
}
use sql_gateway_poc.Core.Entry.{ObservabilityEntryDto}
use sql_gateway_poc.Observability.Subscriber.{new_subscriber}
use sql_gateway_poc.Observability.InMemory.{
  InMemory, empty_recorder, record_in_memory, deliveries_of, pick, without_at, make_delivery,
  deliver_in_memory, subscribe, unsubscribe,
}
use sql_gateway_poc.Observability.InMemory.Buffer.{
  RecorderCall, records, subscribes, unsubscribes, delivers, perform, after,
}
use sql_gateway_poc.Observability.InMemory.Clients.{calls, new_session}
use sql_gateway_poc.Observability.InMemory.Clients.Delivery.{
  owed, owed-append, owed-picked, owed-others, deliveries_of-deliver_to, owed-without,
}
use sql_gateway_poc.Observability.InMemory.Clients.Serving.{IsOther, IsServing}

module _ (k : ℕ) where
  -- Nothing is known of the client, and nothing is owed to it.
  record IsAbsent (r : InMemory) : Type 0 where
    not_there : (d : ObservabilityEntryDto) → owed k (deliveries_of d r.subscribers) ≡ []
    nothing_owed : owed k r.pending ≡ []

  delivered-IsAbsent :
      (n : ℕ) (o : Option (ObservabilityEntryDto × ℕ)) (r : InMemory)
      → pick n r.pending ≡ o
      → IsAbsent r
      → IsAbsent (make_delivery n o r)
  unfolding make_delivery
  delivered-IsAbsent n none r e h = h
  delivered-IsAbsent n (some (entry, i)) r e h = elim (Bool-cases (i == k)) [
    | inl mine ↦
        let same : i ≡ k = (==_iff i k).0 mine in
        let here : pick n r.pending ≡ some (entry, k) = e ∙ ap (λ x. some (entry, x)) same in
        let owed_one = owed-picked k n entry r.pending here in
        let none_owed : entry ∷ owed k (without_at n r.pending) ≡ [] = Perm.eq-nil (
          Perm.symm (
            subst (λ l. Perm l (entry ∷ owed k (without_at n r.pending))) h.nothing_owed
              owed_one)) in
        cc none_owed
    | inr other ↦ record {
      not_there =
          λ d. ap (owed k) (deliveries_of-deliver_to i entry d r.subscribers) ∙ h.not_there d;
      nothing_owed = owed-others k i n entry r.pending e other ∙ h.nothing_owed;
    }
  ]

  perform-IsAbsent :
      (c : RecorderCall) (r : InMemory) → IsOther k (calls c) → IsAbsent r → IsAbsent (perform c r)
  unfolding record_in_memory subscribe unsubscribe deliver_in_memory
  perform-IsAbsent (records entry) r o h = record {
    not_there = h.not_there;
    nothing_owed =
        owed-append k r.pending (deliveries_of entry r.subscribers)
        ∙ ap (λ l. l ++ owed k (deliveries_of entry r.subscribers)) h.nothing_owed
        ∙ h.not_there entry;
  }
  perform-IsAbsent (subscribes j) r o h = record {
    not_there = λ d. rw o (h.not_there d);
    nothing_owed = h.nothing_owed;
  }
  perform-IsAbsent (unsubscribes j) r o h = record {
    not_there = λ d. owed-without k j d r.subscribers o ∙ h.not_there d;
    nothing_owed = h.nothing_owed;
  }
  perform-IsAbsent (delivers n) r o h = delivered-IsAbsent n (pick n r.pending) r refl h

  after-IsAbsent :
      (before : List RecorderCall) (r : InMemory)
      → All (λ c. IsOther k (calls c)) before
      → IsAbsent r
      → IsAbsent (after before r)
  unfolding after
  after-IsAbsent [] r o h = h
  after-IsAbsent (c ∷ before) r o h =
      after-IsAbsent before (perform c r) o.1 (perform-IsAbsent c r o.0 h)

  -- A client whose identity is new subscribes.
  pub new-IsServing :
      (before : List RecorderCall)
      → All (λ c. IsOther k (calls c)) before
      → IsServing k (new_session k (after before empty_recorder)) []
  unfolding subscribe
  new-IsServing before o =
      let absent =
        after-IsAbsent before empty_recorder o
          (record { not_there = λ d. refl; nothing_owed = refl }) in
      record {
        client = new_subscriber;
        arrived = [];
        is_client = rw ((==_iff k k).1 refl) refl;
        once = λ d. rw ((==_iff k k).1 refl) (ap (λ l. d ∷ l) (absent.not_there d));
        is_open = refl;
        has_arrived = λ n. refl;
        accounted = subst (λ l. Perm l []) (sym absent.nothing_owed) (Perm.refl []);
      }
