-- ===== src/Observability/InMemory/Clients/Serving.antt =====
-- A client that stays has, or is owed, all that is recorded meanwhile.
use mathlib.Core.List.{append_assoc, append-nil, Perm}
use mathlib.Core.List.Perm
use sql_gateway_poc.Base.{
  ℕ, false, Option, none, some, List, [], ◌∷◌, ◌++◌, ◌==◌, ==_iff, ◌≡◌, refl, sym, ap, ◌∙◌, subst,
  All, Bool-cases, inl, inr,
}
use sql_gateway_poc.Core.Entry.{ObservabilityEntryDto}
use sql_gateway_poc.Observability.Subscriber.{Subscriber, deliver, run_scheduled, get}
use sql_gateway_poc.Observability.Subscriber.Order.{
  HasAll, deliver-HasAll, deliver-is_closed, run_scheduled-HasAll, get-HasAll,
  run_scheduled-is_closed, get-is_closed,
}
use sql_gateway_poc.Observability.InMemory.{
  InMemory, record_in_memory, deliveries_of, deliver_to, pick, without_at, make_delivery,
  deliver_in_memory, subscribe, unsubscribe,
}
use sql_gateway_poc.Observability.InMemory.Buffer.{
  RecorderCall, records, subscribes, unsubscribes, delivers, recorded,
}
use sql_gateway_poc.Observability.InMemory.Clients.{
  SystemStep, calls, runs, reads, Session, client_in, put_client, run_client, read_client,
  system_step, system_steps, calls_of,
}
use sql_gateway_poc.Observability.InMemory.Clients.Delivery.{
  owed, IsServedBy, owed-append, owed-picked, owed-others, client_in-deliver_to, client_in-others,
  client_in-without, client_in-put_client, deliveries_of-deliver_to, deliveries_of-put_client,
  owed-without,
}

-- The client itself does not subscribe again or leave.
abbrev pub IsOther : ℕ → SystemStep → Type 0
IsOther k (calls (records entry)) = Unit
IsOther k (calls (subscribes j)) = (j == k) ≡ false
IsOther k (calls (unsubscribes j)) = (j == k) ≡ false
IsOther k (calls (delivers n)) = Unit
IsOther k (runs now) = Unit
IsOther k reads = Unit

abbrev recorded_by : SystemStep → List ObservabilityEntryDto
recorded_by (calls c) = recorded (c ∷ [])
recorded_by (runs now) = []
recorded_by reads = []

recorded-cons :
    (c : RecorderCall) (cs : List RecorderCall)
    → recorded (c ∷ cs) ≡ recorded (c ∷ []) ++ recorded cs
recorded-cons (records entry) cs = refl
recorded-cons (subscribes j) cs = refl
recorded-cons (unsubscribes j) cs = refl
recorded-cons (delivers n) cs = refl

recorded-calls_of :
    (st : SystemStep) (steps : List SystemStep)
    → recorded (calls_of (st ∷ steps)) ≡ recorded_by st ++ recorded (calls_of steps)
recorded-calls_of (calls c) steps = recorded-cons c (calls_of steps)
recorded-calls_of (runs now) steps = refl
recorded-calls_of reads steps = refl

shift :
    (entry : ObservabilityEntryDto) (arrived later : List ObservabilityEntryDto)
    → Perm ((arrived ++ entry ∷ []) ++ later) (arrived ++ entry ∷ later)
shift entry arrived later =
    subst (λ l. Perm l (arrived ++ entry ∷ later)) (sym (append_assoc arrived (entry ∷ []) later))
      (Perm.refl (arrived ++ entry ∷ later))

module _ (k : ℕ) where
  abbrev pub IsServing : Session → List ObservabilityEntryDto → Type 0
  IsServing s entries = IsServedBy k s.recorder s.read entries

  -- A further entry is owed.
  recorded-IsServing :
      (entry : ObservabilityEntryDto) (s : Session) (entries : List ObservabilityEntryDto)
      → IsServing s entries
      → IsServing (system_step k (calls (records entry)) s) (entries ++ entry ∷ [])
  unfolding record_in_memory
  recorded-IsServing entry s entries h =
      let pending = s.recorder.pending in
      let more = deliveries_of entry s.recorder.subscribers in
      record {
        client = h.client;
        arrived = h.arrived;
        is_client = h.is_client;
        once = h.once;
        is_open = h.is_open;
        has_arrived = h.has_arrived;
        accounted =
            subst (λ l. Perm (h.arrived ++ l) (entries ++ entry ∷ []))
              (sym (owed-append k pending more ∙ ap (λ l. owed k pending ++ l) (h.once entry)))
              (subst (λ l. Perm l (entries ++ entry ∷ []))
                (append_assoc h.arrived (owed k pending) (entry ∷ []))
                (Perm.append_right (entry ∷ []) h.accounted));
      }

  delivered-IsServing :
      (n : ℕ) (o : Option (ObservabilityEntryDto × ℕ)) (r : InMemory)
      (read entries : List ObservabilityEntryDto)
      → pick n r.pending ≡ o
      → IsServedBy k r read entries
      → IsServedBy k (make_delivery n o r) read entries
  unfolding make_delivery
  delivered-IsServing n none r read entries e h = h
  delivered-IsServing n (some (entry, i)) r read entries e h = elim (Bool-cases (i == k)) [
    | inl mine ↦
        let same : i ≡ k = (==_iff i k).0 mine in
        let here : pick n r.pending ≡ some (entry, k) = e ∙ ap (λ x. some (entry, x)) same in
        record {
          client = deliver entry h.client;
          arrived = h.arrived ++ entry ∷ [];
          is_client =
              ap (λ x. client_in k (deliver_to x entry r.subscribers)) same
              ∙ client_in-deliver_to k entry r.subscribers h.client h.is_client;
          once = λ d. ap (owed k) (deliveries_of-deliver_to i entry d r.subscribers) ∙ h.once d;
          is_open = deliver-is_closed entry h.client h.is_open;
          has_arrived = deliver-HasAll entry read h.arrived h.client h.is_open h.has_arrived;
          accounted = Perm.trans (shift entry h.arrived (owed k (without_at n r.pending))) (
              Perm.trans
                (Perm.append_left h.arrived (Perm.symm (owed-picked k n entry r.pending here)))
                h.accounted);
        }
    | inr other ↦ record {
      client = h.client;
      arrived = h.arrived;
      is_client = client_in-others k i entry r.subscribers other ∙ h.is_client;
      once = λ d. ap (owed k) (deliveries_of-deliver_to i entry d r.subscribers) ∙ h.once d;
      is_open = h.is_open;
      has_arrived = h.has_arrived;
      accounted =
          subst (λ l. Perm (h.arrived ++ l) entries)
            (sym (owed-others k i n entry r.pending e other)) h.accounted;
    }
  ]

  without_news :
      (s : Session) (entries : List ObservabilityEntryDto)
      → IsServing s entries
      → IsServing s (entries ++ [])
  without_news s entries h = subst (IsServing s) (sym (append-nil entries)) h

  -- The client's own subscriber changes, and has what it had.
  changed-IsServing :
      (new : Subscriber) (r : InMemory) (read now_read entries : List ObservabilityEntryDto)
      (h : IsServedBy k r read entries)
      → new.is_closed ≡ false
      → HasAll now_read new h.arrived
      → IsServedBy k (record r { subscribers = put_client k new r.subscribers }) now_read entries
  changed-IsServing new r read now_read entries h p a = record {
    client = new;
    arrived = h.arrived;
    is_client = client_in-put_client k new r.subscribers h.client h.is_client;
    once = λ d. ap (owed k) (deliveries_of-put_client k new d r.subscribers) ∙ h.once d;
    is_open = p;
    has_arrived = a;
    accounted = h.accounted;
  }

  step-IsServing :
      (st : SystemStep) (s : Session) (entries : List ObservabilityEntryDto)
      → IsOther k st
      → IsServing s entries
      → IsServing (system_step k st s) (entries ++ recorded_by st)
  unfolding subscribe unsubscribe deliver_in_memory
  step-IsServing (calls (records entry)) s entries o h = recorded-IsServing entry s entries h
  step-IsServing (calls (delivers n)) s entries o h =
      without_news (system_step k (calls (delivers n)) s) entries
        (delivered-IsServing n (pick n s.recorder.pending) s.recorder s.read entries refl h)
  step-IsServing (calls (subscribes j)) s entries o h =
      without_news (system_step k (calls (subscribes j)) s) entries (record {
        client = h.client;
        arrived = h.arrived;
        is_client = rw o h.is_client;
        once = λ d. rw o (h.once d);
        is_open = h.is_open;
        has_arrived = h.has_arrived;
        accounted = h.accounted;
      })
  step-IsServing (calls (unsubscribes j)) s entries o h =
      without_news (system_step k (calls (unsubscribes j)) s) entries (record {
        client = h.client;
        arrived = h.arrived;
        is_client = client_in-without k j s.recorder.subscribers o ∙ h.is_client;
        once = λ d. owed-without k j d s.recorder.subscribers o ∙ h.once d;
        is_open = h.is_open;
        has_arrived = h.has_arrived;
        accounted = h.accounted;
      })
  step-IsServing (runs now) s entries o h =
      subst (λ c. IsServing (run_client k now c s) (entries ++ [])) (sym h.is_client)
        (without_news (run_client k now (some h.client) s) entries (
          changed-IsServing (run_scheduled now h.client) s.recorder s.read s.read entries h
            (run_scheduled-is_closed now h.client ∙ h.is_open)
            (run_scheduled-HasAll now s.read h.arrived h.client h.has_arrived)))
  step-IsServing reads s entries o h =
      subst (λ c. IsServing (read_client k c s) (entries ++ [])) (sym h.is_client)
        (without_news (read_client k (some h.client) s) entries (
          changed-IsServing (get h.client).1 s.recorder s.read (s.read ++ (get h.client).0) entries
            h (get-is_closed h.client ∙ h.is_open)
            (get-HasAll s.read h.arrived h.client h.has_arrived)))

  pub steps-IsServing :
      (steps : List SystemStep) (s : Session) (entries : List ObservabilityEntryDto)
      → All (IsOther k) steps
      → IsServing s entries
      → IsServing (system_steps k steps s) (entries ++ recorded (calls_of steps))
  steps-IsServing [] s entries o h = subst (IsServing s) (sym (append-nil entries)) h
  steps-IsServing (st ∷ steps) s entries o h =
      subst (IsServing (system_steps k (st ∷ steps) s))
        (append_assoc entries (recorded_by st) (recorded (calls_of steps))
          ∙ ap (λ l. entries ++ l) (sym (recorded-calls_of st steps)))
        (steps-IsServing steps (system_step k st s) (entries ++ recorded_by st) o.1
          (step-IsServing st s entries o.0 h))
