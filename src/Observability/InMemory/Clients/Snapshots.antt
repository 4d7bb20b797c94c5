-- ===== src/Observability/InMemory/Clients/Snapshots.antt =====
-- No entry is lost between the snapshot and the queue.
use mathlib.Core.List.{Perm}
use sql_gateway_poc.Base.{
  ℕ, Option, none, some, List, [], ◌∷◌, ◌++◌, ◌≡◌, refl, sym, ap, ◌∙◌, subst, All,
}
use sql_gateway_poc.Observability.Subscriber.{Subscriber}
use sql_gateway_poc.Observability.Subscriber.Order.{NothingDropped}
use sql_gateway_poc.Observability.InMemory.{
  InMemory, max_buffered_entries, empty_recorder, append_bounded, record_in_memory, snapshot,
  subscribe, unsubscribe,
}
use sql_gateway_poc.Observability.InMemory.Buffer.{
  RecorderCall, records, subscribes, unsubscribes, delivers, recorded, perform, after, last_of,
  deliver-entries, snapshot-after,
}
use sql_gateway_poc.Observability.InMemory.Clients.{
  SystemStep, calls, runs, reads, Session, client_in, run_client, read_client, system_step,
  system_steps, new_session, calls_of,
}
use sql_gateway_poc.Observability.InMemory.Clients.Delivery.{owed}
use sql_gateway_poc.Observability.InMemory.Clients.Serving.{IsOther, steps-IsServing}
use sql_gateway_poc.Observability.InMemory.Clients.Newcomer.{new-IsServing}

perform-entries :
    (c : RecorderCall) (r r' : InMemory)
    → r.entries ≡ r'.entries
    → (perform c r).entries ≡ (perform c r').entries
unfolding record_in_memory subscribe unsubscribe
perform-entries (records entry) r r' e = ap (append_bounded entry) e
perform-entries (subscribes j) r r' e = e
perform-entries (unsubscribes j) r r' e = e
perform-entries (delivers n) r r' e = deliver-entries n r ∙ e ∙ sym (deliver-entries n r')

after-append :
    (cs ds : List RecorderCall) (r : InMemory) → after (cs ++ ds) r ≡ after ds (after cs r)
unfolding after
after-append [] ds r = refl
after-append (c ∷ cs) ds r = after-append cs ds (perform c r)

recorded-append : (cs ds : List RecorderCall) → recorded (cs ++ ds) ≡ recorded cs ++ recorded ds
recorded-append [] ds = refl
recorded-append (records entry ∷ cs) ds = ap (λ l. entry ∷ l) (recorded-append cs ds)
recorded-append (subscribes j ∷ cs) ds = recorded-append cs ds
recorded-append (unsubscribes j ∷ cs) ds = recorded-append cs ds
recorded-append (delivers n ∷ cs) ds = recorded-append cs ds

module _ (k : ℕ) where
  -- What the client does leaves the buffer as it is.
  run_client-entries :
      (now : ℕ) (o : Option Subscriber) (s : Session)
      → (run_client k now o s).recorder.entries ≡ s.recorder.entries
  run_client-entries now none s = refl
  run_client-entries now (some c) s = refl

  read_client-entries :
      (o : Option Subscriber) (s : Session)
      → (read_client k o s).recorder.entries ≡ s.recorder.entries
  read_client-entries none s = refl
  read_client-entries (some c) s = refl

  steps-entries :
      (steps : List SystemStep) (s : Session) (r : InMemory)
      → s.recorder.entries ≡ r.entries
      → (system_steps k steps s).recorder.entries ≡ (after (calls_of steps) r).entries
  unfolding after
  steps-entries [] s r e = e
  steps-entries (calls c ∷ steps) s r e =
      steps-entries steps (system_step k (calls c) s) (perform c r)
        (perform-entries c s.recorder r e)
  steps-entries (runs now ∷ steps) s r e =
      steps-entries steps (system_step k (runs now) s) r
        (run_client-entries now (client_in k s.recorder.subscribers) s ∙ e)
  steps-entries (reads ∷ steps) s r e =
      steps-entries steps (system_step k reads s) r
        (read_client-entries (client_in k s.recorder.subscribers) s ∙ e)

module _ (k : ℕ) (before : List RecorderCall) (early late : List SystemStep) where
  -- The session when the client takes its snapshot, and later.
  abbrev pub at_snapshot : Session
  at_snapshot = system_steps k early (new_session k (after before empty_recorder))

  abbrev pub in_the_end : Session
  in_the_end = system_steps k late at_snapshot

  -- What the client has: the snapshot that it took, what its queue gave and still holds, and what
  -- is on its way.
  pub record HasEverything : Type 0 where
    pub snapshot_taken :
        snapshot at_snapshot.recorder
        ≡ last_of max_buffered_entries (recorded before ++ recorded (calls_of early))
    pub client : Subscriber
    pub is_client : client_in k in_the_end.recorder.subscribers ≡ some client
    pub has_queued :
        NothingDropped client
        → Perm
            ((in_the_end.read ++ (client.queue ++ client.scheduled))
              ++ owed k in_the_end.recorder.pending)
            (recorded (calls_of early) ++ recorded (calls_of late))

  -- A client with a new identity subscribes, and takes its snapshot later; before, between and
  -- after, threads record entries, each with its deliveries to the subscribers of that moment made
  -- later and in any order between threads, other clients come and go, and the event loop runs
  -- what is scheduled and the client reads. Then the snapshot is the last 500 of the entries
  -- recorded before it; and if the queue was never full, what the client has read, what waits in
  -- its queue, what is scheduled for it and what is still to be delivered to it are together
  -- exactly the entries recorded since it subscribed, each as often as it was recorded, in some
  -- order. So no entry falls between the two: those recorded between subscription and snapshot
  -- come with both.
  pub clients-HasEverything :
      All (λ c. IsOther k (calls c)) before
      → All (IsOther k) early
      → All (IsOther k) late
      → HasEverything
  unfolding subscribe
  clients-HasEverything others_before others_early others_late =
      let r = after before empty_recorder in
      let served =
        steps-IsServing k early (new_session k r) [] others_early
          (new-IsServing k before others_before) in
      let h = steps-IsServing k late at_snapshot (recorded (calls_of early)) others_late served in
      record {
        snapshot_taken =
            steps-entries k early (new_session k r) r refl
            ∙ sym (ap (λ x. x.entries) (after-append before (calls_of early) empty_recorder))
            ∙ snapshot-after (before ++ calls_of early)
            ∙ ap (λ l. last_of max_buffered_entries l) (recorded-append before (calls_of early));
        client = h.client;
        is_client = h.is_client;
        has_queued = λ n.
            subst
              (λ l.
                Perm (l ++ owed k in_the_end.recorder.pending)
                  (recorded (calls_of early) ++ recorded (calls_of late)))
              (sym (h.has_arrived n)) h.accounted;
      }
