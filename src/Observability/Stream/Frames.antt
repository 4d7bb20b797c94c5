-- ===== src/Observability/Stream/Frames.antt =====
-- What a client of the stream sees.
use sql_gateway_poc.Base.{true, false, List, [], ◌∷◌, ◌++◌, map, ◌≡◌, refl, ap, arith, All, length}
use sql_gateway_poc.Base.Text.{Text}
use sql_gateway_poc.Base.Dict.{Dict}
use sql_gateway_poc.Core.Entry.{ObservabilityEntryDto, PayloadValue}
use sql_gateway_poc.Observability.Stream.{Turn, entry_frame, turn_frame, live, event_generator}

-- The client is there at each of the turns.
abbrev pub AreConnected : List Turn → Type 0
AreConnected = All (λ turn. turn.is_disconnected ≡ false)

module _ (dumps : Dict PayloadValue → Text) where
  live_until :
      (turns : List Turn) (gone : Turn) (later : List Turn)
      → AreConnected turns
      → gone.is_disconnected ≡ true
      → live dumps (turns ++ gone ∷ later) ≡ map (λ turn. turn_frame dumps turn.waited) turns
  unfolding live
  live_until [] gone later h e = rw e refl
  live_until (turn ∷ turns) gone later h e =
      rw h.0 (ap (λ l. turn_frame dumps turn.waited ∷ l) (live_until turns gone later h.1 e))

  -- A client that stays for one turn for each entry of the snapshot and for some more, and then is
  -- gone, gets a frame for each entry of the snapshot, in order, then for each further turn a
  -- frame for the entry that the queue gave or a keepalive, and nothing after that.
  pub event_generator_frames :
      (entries : List ObservabilityEntryDto) (replayed turns : List Turn) (gone : Turn)
      (later : List Turn)
      → length replayed ≡ length entries
      → AreConnected replayed
      → AreConnected turns
      → gone.is_disconnected ≡ true
      → event_generator dumps entries (replayed ++ (turns ++ gone ∷ later))
        ≡ map (entry_frame dumps) entries ++ map (λ turn. turn_frame dumps turn.waited) turns
  unfolding event_generator
  event_generator_frames [] [] turns gone later n hr ht e = live_until turns gone later ht e
  event_generator_frames [] (t ∷ replayed) turns gone later n hr ht e = absurd (omega (arith, n))
  event_generator_frames (entry ∷ entries) [] turns gone later n hr ht e = absurd (omega (arith, n))
  event_generator_frames (entry ∷ entries) (t ∷ replayed) turns gone later n hr ht e = rw hr.0 (
      ap (λ l. entry_frame dumps entry ∷ l)
        (event_generator_frames entries replayed turns gone later (omega (arith, n)) hr.1 ht e))
