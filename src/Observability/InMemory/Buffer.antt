-- ===== src/Observability/InMemory/Buffer.antt =====
-- What the recorder holds after any sequence of calls.
use mathlib.Core.List.{append-nil, append_assoc}
use sql_gateway_poc.Base.{
  ℕ, zero, suc, Option, none, some, ◌-◌, ◌≤◌, List, [], ◌∷◌, ◌++◌, ◌≡◌, refl, sym, ap, ◌∙◌, arith,
  ltb, length, drop, length-append, length-drop, Bool-cases, inl, inr,
}
use sql_gateway_poc.Core.Entry.{ObservabilityEntryDto}
use sql_gateway_poc.Observability.InMemory.{
  max_buffered_entries, InMemory, empty_recorder, append_bounded, record_in_memory, make_delivery,
  deliver_in_memory, pick, snapshot, subscribe, unsubscribe,
}

pub data RecorderCall : Type 0 where
  records : ObservabilityEntryDto → RecorderCall
  subscribes unsubscribes delivers : ℕ → RecorderCall

abbrev pub perform : RecorderCall → InMemory → InMemory
perform (records entry) r = record_in_memory entry r
perform (subscribes k) r = subscribe k r
perform (unsubscribes k) r = unsubscribe k r
perform (delivers n) r = deliver_in_memory n r

unfoldable pub after : List RecorderCall → InMemory → InMemory
after [] r = r
after (call ∷ calls) r = after calls (perform call r)

-- The entries that the calls record, in order.
abbrev pub recorded : List RecorderCall → List ObservabilityEntryDto
recorded [] = []
recorded (records entry ∷ calls) = entry ∷ recorded calls
recorded (subscribes k ∷ calls) = recorded calls
recorded (unsubscribes k ∷ calls) = recorded calls
recorded (delivers n ∷ calls) = recorded calls

-- The last `n` elements.
abbrev pub last_of : {A : Type 0} → ℕ → List A → List A
last_of n xs = drop (length xs - n) xs

drop-append :
    {A : Type 0} (n : ℕ) (xs ys : List A) → n ≤ length xs → drop n (xs ++ ys) ≡ drop n xs ++ ys
drop-append zero xs ys h = refl
drop-append (suc n) [] ys h = absurd (omega (arith, h))
drop-append (suc n) (x ∷ xs) ys h = drop-append n xs ys (omega (arith, h))

drop-drop : {A : Type 0} (n : ℕ) (xs : List A) → drop 1 (drop n xs) ≡ drop (suc n) xs
drop-drop zero xs = refl
drop-drop (suc n) [] = refl
drop-drop (suc n) (x ∷ xs) = drop-drop n xs

-- Appending to the last entries of a history gives the last entries of the longer history.
append_bounded-last_of :
    (entry : ObservabilityEntryDto) (h : List ObservabilityEntryDto)
    → append_bounded entry (last_of max_buffered_entries h)
      ≡ last_of max_buffered_entries (h ++ entry ∷ [])
unfolding append_bounded
append_bounded-last_of entry h =
    let k = length h - max_buffered_entries in
    let ys = entry ∷ [] in
    elim (Bool-cases (ltb (length (last_of max_buffered_entries h)) max_buffered_entries)) [
      | inl room ↦
          let e : k ≡ length (h ++ ys) - max_buffered_entries =
            ground (arith, room, length-drop k h, length-append h ys) in
          rw room (sym (drop-append k h ys (omega arith)) ∙ ap (λ m. drop m (h ++ ys)) e)
      | inr full ↦
          let long : max_buffered_entries ≤ length h = ground (arith, full, length-drop k h) in
          let e : suc k ≡ length (h ++ ys) - max_buffered_entries =
            omega (arith, long, length-append h ys) in
          rw full (
            ap (λ l. l ++ ys) (drop-drop k h)
            ∙ sym (drop-append (suc k) h ys (omega (arith, long)))
            ∙ ap (λ m. drop m (h ++ ys)) e)
    ]

make_delivery-entries :
    (n : ℕ) (o : Option (ObservabilityEntryDto × ℕ)) (r : InMemory)
    → (make_delivery n o r).entries ≡ r.entries
unfolding make_delivery
make_delivery-entries n none r = refl
make_delivery-entries n (some d) r = refl

pub deliver-entries : (n : ℕ) (r : InMemory) → (deliver_in_memory n r).entries ≡ r.entries
unfolding deliver_in_memory
deliver-entries n r = make_delivery-entries n (pick n r.pending) r

buffer_from :
    (calls : List RecorderCall) (r : InMemory) (h : List ObservabilityEntryDto)
    → snapshot r ≡ last_of max_buffered_entries h
    → snapshot (after calls r) ≡ last_of max_buffered_entries (h ++ recorded calls)
unfolding after record_in_memory subscribe unsubscribe
buffer_from [] r h e = e ∙ ap (λ l. last_of max_buffered_entries l) (sym (append-nil h))
buffer_from (records entry ∷ calls) r h e =
    buffer_from calls (record_in_memory entry r) (h ++ entry ∷ [])
      (ap (append_bounded entry) e ∙ append_bounded-last_of entry h)
    ∙ ap (λ l. last_of max_buffered_entries l) (append_assoc h (entry ∷ []) (recorded calls))
buffer_from (subscribes k ∷ calls) r h e = buffer_from calls (subscribe k r) h e
buffer_from (unsubscribes k ∷ calls) r h e = buffer_from calls (unsubscribe k r) h e
buffer_from (delivers n ∷ calls) r h e =
    buffer_from calls (deliver_in_memory n r) h (deliver-entries n r ∙ e)

-- After any sequence of records, of deliveries and of subscriptions that begin and end, a snapshot of a recorder
-- that was empty gives the last 500 of the recorded entries, all of them if there are fewer, in
-- the order in which they were recorded.
pub snapshot-after :
    (calls : List RecorderCall)
    → snapshot (after calls empty_recorder) ≡ last_of max_buffered_entries (recorded calls)
snapshot-after calls = buffer_from calls empty_recorder [] refl
