-- ===== src/Samples/Clients.antt =====
-- A client of the event stream: one entry before it, one before its snapshot, and one after.
use sql_gateway_poc.Base.{ℕ, List, [], ◌∷◌, ◌≡◌, refl}
use sql_gateway_poc.Core.Entry.{ObservabilityEntryDto}
use sql_gateway_poc.Observability.Subscriber.{deliver, run_scheduled, get}
use sql_gateway_poc.Observability.InMemory.{
  record_in_memory, deliver_in_memory, subscribe, unsubscribe, snapshot,
}
use sql_gateway_poc.Observability.InMemory.Buffer.{
  RecorderCall, records, subscribes, unsubscribes, delivers, after,
}
use sql_gateway_poc.Observability.InMemory.Clients.{SystemStep, calls, runs, reads}
use sql_gateway_poc.Observability.InMemory.Clients.Snapshots.{
  HasEverything, at_snapshot, in_the_end, clients-HasEverything,
}
use sql_gateway_poc.Samples.Ports.{one_entry}

abbrev numbered : ℕ → ObservabilityEntryDto
numbered n = record one_entry { request_id = n ∷ [] }

abbrev before : List RecorderCall
before = subscribes 1 ∷ records (numbered 1) ∷ []

abbrev early : List SystemStep
early = calls (records (numbered 2)) ∷ calls (unsubscribes 1) ∷ calls (records (numbered 4)) ∷ []

abbrev late : List SystemStep
late =
    calls (delivers 3)
    ∷ calls (delivers 1)
    ∷ runs 0
    ∷ calls (records (numbered 3))
    ∷ reads
    ∷ calls (subscribes 8)
    ∷ runs 0
    ∷ []

clients-HasEverything_example : HasEverything 7 before early late
clients-HasEverything_example =
    clients-HasEverything 7 before early late (refl, (tt, tt)) (tt, (refl, (tt, tt)))
      (tt, (tt, (tt, (tt, (tt, (refl, (tt, tt)))))))

-- Two threads: the entry that was recorded last is delivered first.
client_runs :
    (snapshot (at_snapshot 7 before early late).recorder
      ≡ numbered 1 ∷ numbered 2 ∷ numbered 4 ∷ [])
    × ((in_the_end 7 before early late).read ≡ numbered 4 ∷ [])
unfolding after record_in_memory deliver_in_memory subscribe unsubscribe deliver run_scheduled get
client_runs = (refl, refl)
