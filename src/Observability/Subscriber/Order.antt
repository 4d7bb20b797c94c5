-- ===== src/Observability/Subscriber/Order.antt =====
-- A subscriber that drops nothing gives its client the delivered entries in order.
use mathlib.Core.List.{append_assoc, append-nil}
use sql_gateway_poc.Base.{
  ℕ, suc, ◌-◌, false, List, [], ◌∷◌, ◌++◌, ltb, length, ◌≡◌, refl, sym, ap, ◌∙◌, Bool-cases, inl,
  inr,
}
use sql_gateway_poc.Core.Entry.{ObservabilityEntryDto}
use sql_gateway_poc.Observability.Subscriber.{
  Subscriber, max_per_subscriber_queue_size, slow_consumer_warning_interval, deliver,
  maybe_warn_about_slow_consumer, put_if_possible, run_next, run_scheduled, get_next, get,
}

-- No entry was dropped because the queue was full.
abbrev pub NothingDropped : Subscriber → Type 0
NothingDropped c = (c.drops_since_last_warning ≡ 0) × (c.warnings ≡ [])

-- What was read, waits in the queue or is scheduled on the loop are these entries, in order.
abbrev pub HasAll : List ObservabilityEntryDto → Subscriber → List ObservabilityEntryDto → Type 0
HasAll read c entries = NothingDropped c → read ++ (c.queue ++ c.scheduled) ≡ entries

pub deliver-HasAll :
    (entry : ObservabilityEntryDto) (read entries : List ObservabilityEntryDto) (c : Subscriber)
    → c.is_closed ≡ false
    → HasAll read c entries
    → HasAll read (deliver entry c) (entries ++ entry ∷ [])
unfolding deliver
deliver-HasAll entry read entries c e h = simp e λ n.
    ap (λ l. read ++ l) (sym (append_assoc c.queue c.scheduled (entry ∷ [])))
    ∙ sym (append_assoc read (c.queue ++ c.scheduled) (entry ∷ []))
    ∙ ap (λ l. l ++ entry ∷ []) (h n)

warned :
    (now : ℕ) (c : Subscriber) (n : ℕ)
    → c.drops_since_last_warning ≡ suc n
    → NothingDropped (maybe_warn_about_slow_consumer now c)
    → ⊥
unfolding maybe_warn_about_slow_consumer
warned now c n e =
    elim (Bool-cases (ltb (now - c.last_warning_at) slow_consumer_warning_interval)) [
      | inl soon ↦ simp soon (λ (d, w). cc)
      | inr long ↦ simp long (λ (d, w). cc)
    ]

put-HasAll :
    (now : ℕ) (entry : ObservabilityEntryDto) (later read entries : List ObservabilityEntryDto)
    (c : Subscriber)
    → (NothingDropped c → read ++ (c.queue ++ entry ∷ later) ≡ entries)
    → HasAll read (put_if_possible now entry (record c { scheduled = later })) entries
unfolding put_if_possible
put-HasAll now entry later read entries c h =
    elim (Bool-cases (ltb (length c.queue) max_per_subscriber_queue_size)) [
      | inl room ↦
          simp room (λ n. ap (λ l. read ++ l) (append_assoc c.queue (entry ∷ []) later) ∙ h n)
      | inr full ↦ simp full (λ n. absurd (
          warned now
            (record c {
              scheduled = later;
              drops_since_last_warning = suc c.drops_since_last_warning;
            })
            c.drops_since_last_warning refl n))
    ]

run_next-HasAll :
    (now : ℕ) (l read entries : List ObservabilityEntryDto) (c : Subscriber)
    → c.scheduled ≡ l
    → HasAll read c entries
    → HasAll read (run_next now l c) entries
unfolding run_next
run_next-HasAll now [] read entries c e h = h
run_next-HasAll now (entry ∷ later) read entries c e h =
    put-HasAll now entry later read entries c (λ n. ap (λ l. read ++ (c.queue ++ l)) (sym e) ∙ h n)

get_next-HasAll :
    (l read entries : List ObservabilityEntryDto) (c : Subscriber)
    → c.queue ≡ l
    → HasAll read c entries
    → HasAll (read ++ (get_next l c).0) (get_next l c).1 entries
unfolding get_next
get_next-HasAll [] read entries c e h n = rw (append-nil read) (h n)
get_next-HasAll (entry ∷ later) read entries c e h n =
    append_assoc read (entry ∷ []) (later ++ c.scheduled)
    ∙ ap (λ l. read ++ (l ++ c.scheduled)) (sym e)
    ∙ h n

pub run_scheduled-HasAll :
    (now : ℕ) (read entries : List ObservabilityEntryDto) (c : Subscriber)
    → HasAll read c entries
    → HasAll read (run_scheduled now c) entries
unfolding run_scheduled
run_scheduled-HasAll now read entries c h = run_next-HasAll now c.scheduled read entries c refl h

pub get-HasAll :
    (read entries : List ObservabilityEntryDto) (c : Subscriber)
    → HasAll read c entries
    → HasAll (read ++ (get c).0) (get c).1 entries
unfolding get
get-HasAll read entries c h = get_next-HasAll c.queue read entries c refl h

maybe_warn-is_closed :
    (now : ℕ) (c : Subscriber) → (maybe_warn_about_slow_consumer now c).is_closed ≡ c.is_closed
unfolding maybe_warn_about_slow_consumer
maybe_warn-is_closed now c =
    elim (Bool-cases (ltb (now - c.last_warning_at) slow_consumer_warning_interval)) [
      | inl soon ↦ simp soon
      | inr long ↦ simp long
    ]

put-is_closed :
    (now : ℕ) (entry : ObservabilityEntryDto) (c : Subscriber)
    → (put_if_possible now entry c).is_closed ≡ c.is_closed
unfolding put_if_possible
put-is_closed now entry c = elim (Bool-cases (ltb (length c.queue) max_per_subscriber_queue_size)) [
  | inl room ↦ simp room
  | inr full ↦ simp full (maybe_warn-is_closed now _)
]

run_next-is_closed :
    (now : ℕ) (l : List ObservabilityEntryDto) (c : Subscriber)
    → (run_next now l c).is_closed ≡ c.is_closed
unfolding run_next
run_next-is_closed now [] c = refl
run_next-is_closed now (entry ∷ later) c = put-is_closed now entry (record c { scheduled = later })

pub run_scheduled-is_closed :
    (now : ℕ) (c : Subscriber) → (run_scheduled now c).is_closed ≡ c.is_closed
unfolding run_scheduled
run_scheduled-is_closed now c = run_next-is_closed now c.scheduled c

get_next-is_closed :
    (l : List ObservabilityEntryDto) (c : Subscriber) → (get_next l c).1.is_closed ≡ c.is_closed
unfolding get_next
get_next-is_closed [] c = refl
get_next-is_closed (entry ∷ later) c = refl

pub get-is_closed : (c : Subscriber) → (get c).1.is_closed ≡ c.is_closed
unfolding get
get-is_closed c = get_next-is_closed c.queue c

pub deliver-is_closed :
    (entry : ObservabilityEntryDto) (c : Subscriber)
    → c.is_closed ≡ false
    → (deliver entry c).is_closed ≡ false
unfolding deliver
deliver-is_closed entry c e = simp e refl
