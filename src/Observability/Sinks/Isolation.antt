-- ===== src/Observability/Sinks/Isolation.antt =====
-- A sink that fails does not keep the entry from the others.
use mathlib.Core.List.{append_assoc}
use sql_gateway_poc.Base.{sym, List, [], ◌∷◌, ◌++◌, ◌≡◌, refl, ap, ◌∙◌}
use sql_gateway_poc.Base.Text.{Text}
use sql_gateway_poc.Base.Exec.{Outcome, returned, raised}
use sql_gateway_poc.Core.Entry.{ObservabilityEntryDto}
use sql_gateway_poc.Core.Ports.{ObservabilityRecorder}
use sql_gateway_poc.Observability.Sinks.{note, record_in_all}

abbrev pub failure : Text → Outcome {0} Unit → List Text
failure name (returned _) = []
failure name (raised e) = name ∷ []

noted :
    (name : Text) (o : Outcome {0} Unit) (log : List Text) → note name o log ≡ failure name o ++ log
noted name (returned u) log = refl
noted name (raised e) log = refl

module _ {S : Type 0} where
  -- The state after each recorder has had its turn, in order, whatever became of the others.
  abbrev pub in_turn : List (Text × ObservabilityRecorder S) → ObservabilityEntryDto → S → S
  in_turn [] entry s = s
  in_turn ((name, recorder) ∷ recorders) entry s =
      in_turn recorders entry (recorder.record_entry entry s).1

  -- The names of those that raised, the last one first.
  abbrev pub failures :
      List (Text × ObservabilityRecorder S) → ObservabilityEntryDto → S → List Text
  failures [] entry s = []
  failures ((name, recorder) ∷ recorders) entry s =
      failures recorders entry (recorder.record_entry entry s).1
      ++ failure name (recorder.record_entry entry s).0

  -- The fan-out recorder raises nothing; each recorder records the entry once, in order, on the
  -- state that the one before it left; and those that raised, and no others, are logged.
  pub record_in_all_isolates :
      (recorders : List (Text × ObservabilityRecorder S)) (entry : ObservabilityEntryDto) (s : S)
      (log : List Text)
      → record_in_all recorders entry (s, log)
        ≡ (returned tt, (in_turn recorders entry s, failures recorders entry s ++ log))
  unfolding record_in_all
  record_in_all_isolates [] entry s log = refl
  record_in_all_isolates ((name, recorder) ∷ recorders) entry s log =
      let o = (recorder.record_entry entry s).0 in
      let s' = (recorder.record_entry entry s).1 in
      record_in_all_isolates recorders entry s' (note name o log)
      ∙ ap (λ l. (returned tt, (in_turn recorders entry s', l)))
          (ap (λ l. failures recorders entry s' ++ l) (noted name o log)
            ∙ sym (append_assoc (failures recorders entry s') (failure name o) log))
