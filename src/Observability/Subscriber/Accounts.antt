-- ===== src/Observability/Subscriber/Accounts.antt =====
-- What becomes of the entries that are delivered to a subscriber.
use sql_gateway_poc.Base.{
  ℕ, suc, ◌+◌, ◌-◌, ◌≤◌, List, [], ◌∷◌, ◌≡◌, refl, sym, ap, arith, ltb, if◌then◌else◌, length,
  length-append, Bool-cases, inl, inr,
}
use sql_gateway_poc.Core.Entry.{ObservabilityEntryDto}
use sql_gateway_poc.Observability.Subscriber.{
  Warning, Subscriber, new_subscriber, max_per_subscriber_queue_size,
  slow_consumer_warning_interval, deliver, maybe_warn_about_slow_consumer, put_if_possible,
  run_next, run_scheduled, get_next, get, close_loop,
}

-- What may happen to a subscriber, with the time at which it happens.
pub data Step : Type 0 where
  delivers : ObservabilityEntryDto → Step
  runs : ℕ → Step
  reads closes : Step

-- A subscriber, with how many entries were scheduled for it and how many its client has read.
pub record Watched : Type 0 where
  pub subscriber : Subscriber
  pub taken : ℕ
  pub read : ℕ

abbrev pub watched_at_first : Watched
watched_at_first = record { subscriber = new_subscriber; taken = 0; read = 0 }

-- How many entries the steps have scheduled: `deliver` schedules one unless the loop is closed.
abbrev step : Step → Watched → Watched
step (delivers entry) w = record w {
  subscriber = deliver entry w.subscriber;
  taken = if w.subscriber.is_closed then w.taken else suc w.taken;
}
step (runs now) w = record w { subscriber = run_scheduled now w.subscriber }
step reads w =
    let (entries, s) = get w.subscriber in
    record w { subscriber = s; read = length entries + w.read }
step closes w = record w { subscriber = close_loop w.subscriber }

abbrev pub follow : List Step → Watched → Watched
follow [] w = w
follow (st ∷ steps) w = follow steps (step st w)

abbrev pub reported : List Warning → ℕ
reported [] = 0
reported (w ∷ warnings) = w.dropped + reported warnings

-- Between two warnings the interval passes; the newest stands first.
abbrev pub IsSpaced : ℕ → List Warning → Type 0
IsSpaced last [] = Unit
IsSpaced last (w ∷ []) = last ≡ w.at
IsSpaced last (w ∷ v ∷ warnings) =
    (last ≡ w.at) × (v.at + slow_consumer_warning_interval ≤ w.at) × IsSpaced v.at (v ∷ warnings)

pub record IsAccounted (w : Watched) : Type 0 where
  pub bounded : length w.subscriber.queue ≤ max_per_subscriber_queue_size
  pub balanced :
      w.taken
      ≡ w.read
        + length w.subscriber.queue
        + length w.subscriber.scheduled
        + w.subscriber.drops_since_last_warning
        + reported w.subscriber.warnings
  pub spaced : IsSpaced w.subscriber.last_warning_at w.subscriber.warnings

deliver-IsAccounted :
    (entry : ObservabilityEntryDto) (w : Watched)
    → IsAccounted w
    → IsAccounted (step (delivers entry) w)
unfolding deliver
deliver-IsAccounted entry w h = elim (Bool-cases w.subscriber.is_closed) [
  | inl e ↦ simp e h
  | inr e ↦ simp e (record {
    bounded = h.bounded;
    balanced = omega (arith, h.balanced, length-append w.subscriber.scheduled (entry ∷ []));
    spaced = h.spaced;
  })
]

restart :
    (last : ℕ) (w : Warning) (warnings : List Warning)
    → IsSpaced last (w ∷ warnings)
    → IsSpaced w.at (w ∷ warnings)
restart last w [] h = refl
restart last w (v ∷ warnings) (_, apart, rest) = (refl, apart, rest)

last_is :
    (last : ℕ) (w : Warning) (warnings : List Warning) → IsSpaced last (w ∷ warnings) → last ≡ w.at
last_is last w [] h = h
last_is last w (v ∷ warnings) (e, _, _) = e

warn-IsSpaced :
    (now last : ℕ) (new : Warning) (warnings : List Warning)
    → new.at ≡ now
    → slow_consumer_warning_interval ≤ now - last
    → IsSpaced last warnings
    → IsSpaced now (new ∷ warnings)
warn-IsSpaced now last new [] e long h = sym e
warn-IsSpaced now last new (w ∷ warnings) e long h =
    (sym e, omega (arith, e, last_is last w warnings h), restart last w warnings h)

maybe_warn-IsAccounted :
    (now : ℕ) (w : Watched)
    → IsAccounted w
    → IsAccounted (record w { subscriber = maybe_warn_about_slow_consumer now w.subscriber })
unfolding maybe_warn_about_slow_consumer
maybe_warn-IsAccounted now w h =
    let last = w.subscriber.last_warning_at in
    elim (Bool-cases (ltb (now - last) slow_consumer_warning_interval)) [
      | inl soon ↦ simp soon h
      | inr long ↦ simp long (record {
        bounded = h.bounded;
        balanced = omega (arith, h.balanced);
        spaced =
            warn-IsSpaced now last
              (record { at = now; dropped = w.subscriber.drops_since_last_warning })
              w.subscriber.warnings refl (ground (arith, long)) h.spaced;
      })
    ]

put-IsAccounted :
    (now : ℕ) (entry : ObservabilityEntryDto) (later : List ObservabilityEntryDto) (w : Watched)
    → w.subscriber.scheduled ≡ entry ∷ later
    → IsAccounted w
    → IsAccounted (record w {
      subscriber = put_if_possible now entry (record w.subscriber { scheduled = later });
    })
unfolding put_if_possible
put-IsAccounted now entry later w e h =
    elim (Bool-cases (ltb (length w.subscriber.queue) max_per_subscriber_queue_size)) [
      | inl room ↦ simp room (record {
        bounded = ground (arith, room, length-append w.subscriber.queue (entry ∷ []));
        balanced =
            omega (arith, h.balanced, ap length e, length-append w.subscriber.queue (entry ∷ []));
        spaced = h.spaced;
      })
      | inr full ↦ simp full (
          maybe_warn-IsAccounted now
            (record w {
              subscriber = record w.subscriber {
                scheduled = later;
                drops_since_last_warning = suc w.subscriber.drops_since_last_warning;
              };
            })
            (record {
              bounded = h.bounded;
              balanced = omega (arith, h.balanced, ap length e);
              spaced = h.spaced;
            }))
    ]

run-IsAccounted :
    (now : ℕ) (w : Watched) (l : List ObservabilityEntryDto)
    → w.subscriber.scheduled ≡ l
    → IsAccounted w
    → IsAccounted (record w { subscriber = run_next now l w.subscriber })
unfolding run_next
run-IsAccounted now w [] e h = h
run-IsAccounted now w (entry ∷ later) e h = put-IsAccounted now entry later w e h

get-IsAccounted :
    (w : Watched) (l : List ObservabilityEntryDto)
    → w.subscriber.queue ≡ l
    → IsAccounted w
    → let (entries, s) = get_next l w.subscriber in
      IsAccounted (record w { subscriber = s; read = length entries + w.read })
unfolding get_next
get-IsAccounted w [] e h = record {
  bounded = h.bounded;
  balanced = omega (arith, h.balanced);
  spaced = h.spaced;
}
get-IsAccounted w (entry ∷ later) e h = record {
  bounded = omega (arith, h.bounded, ap length e);
  balanced = omega (arith, h.balanced, ap length e);
  spaced = h.spaced;
}

step-IsAccounted : (st : Step) (w : Watched) → IsAccounted w → IsAccounted (step st w)
unfolding close_loop run_scheduled get
step-IsAccounted (delivers entry) w h = deliver-IsAccounted entry w h
step-IsAccounted (runs now) w h = run-IsAccounted now w w.subscriber.scheduled refl h
step-IsAccounted reads w h = get-IsAccounted w w.subscriber.queue refl h
step-IsAccounted closes w h = record {
  bounded = h.bounded;
  balanced = h.balanced;
  spaced = h.spaced;
}

follow-IsAccounted :
    (steps : List Step) (w : Watched) → IsAccounted w → IsAccounted (follow steps w)
follow-IsAccounted [] w h = h
follow-IsAccounted (st ∷ steps) w h = follow-IsAccounted steps (step st w) (step-IsAccounted st w h)

-- After any sequence of deliveries, runs of the event loop, reads by the client and the closing of
-- the loop: the queue of a new subscriber has at most 1000 entries; as many entries as were
-- scheduled for it have been read, wait in the queue or on the loop, or are counted as dropped, in
-- a warning or since the last one; and between two warnings at least 30 seconds pass.
pub subscriber-IsAccounted : (steps : List Step) → IsAccounted (follow steps watched_at_first)
subscriber-IsAccounted steps =
    follow-IsAccounted steps watched_at_first
      (record { bounded = omega arith; balanced = refl; spaced = tt })
