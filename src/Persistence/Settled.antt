-- ===== src/Persistence/Settled.antt =====
-- `PersistenceWriter`: the mark, the snapshot and the disk between two events.
use claude_tts.Prelude.{ℕ, ◌≡◌, refl, ap, Bool, true, false, ◌||◌, List, [], ◌∷◌, arith, ◌==◌, All}
use claude_tts.Persistence.{
  Phase, looking, waits, coalesces, snapshots, writes, exited, Writer, started, Event, changes,
  marks, turns, stops, change, mark, turn, stop, step, run,
}

-- what the phase holds of the state: the next snapshot, the snapshot in hand, or what is on disk
abbrev pub holds : Phase → Writer → Bool
holds snapshots w = true
holds (writes n) w = n == w.state
holds _ w = w.saved == w.state

-- whether a change waits for its mark
abbrev pub owed : Bool → Event → Bool
owed b changes = true
owed b marks = false
owed b _ = b

unfoldable pub owed_behind : Bool → List Event → Bool
owed_behind b [] = b
owed_behind b (e ∷ es) = owed_behind (owed b e) es

-- a change that the phase does not hold is marked, or waits for its mark
abbrev pub IsCovered : Bool → Writer → Type 0
IsCovered b w = (b || w.dirty || holds w.phase w) ≡ true

-- the writes of the event succeed
abbrev pub writes_well : Event → Bool
writes_well (turns ok) = ok
writes_well _ = true

turn-IsCovered :
    (b : Bool) (ph : Phase) (w : Writer) → w.phase ≡ ph → IsCovered b w → IsCovered b (turn true w)
unfolding turn
turn-IsCovered b looking w e c = ground (arith, e, c, ap (λ (f : Phase). holds f w) e)
turn-IsCovered b waits w e c = ground (arith, e, c, ap (λ (f : Phase). holds f w) e)
turn-IsCovered b coalesces w e c = ground (arith, e)
turn-IsCovered b snapshots w e c = ground (arith, e)
turn-IsCovered b (writes n) w e c = ground (arith, e, c, ap (λ (f : Phase). holds f w) e)
turn-IsCovered b exited w e c = ground (arith, e, c, ap (λ (f : Phase). holds f w) e)

step-IsCovered :
    (b : Bool) (w : Writer) (e : Event)
    → writes_well e ≡ true
    → IsCovered b w
    → IsCovered (owed b e) (step w e)
unfolding step change mark stop
step-IsCovered b w changes ok c = ground arith
step-IsCovered b w marks ok c = ground arith
step-IsCovered b w (turns true) ok c = turn-IsCovered b w.phase w refl c
step-IsCovered b w (turns false) ok c = cc
step-IsCovered b w stops ok c = ground arith

run-IsCovered :
    (b : Bool) (w : Writer) (es : List Event)
    → All (λ e. writes_well e ≡ true) es
    → IsCovered b w
    → IsCovered (owed_behind b es) (run w es)
unfolding run owed_behind
run-IsCovered b w [] good c = c
run-IsCovered b w (e ∷ es) (ok, good) c =
    run-IsCovered (owed b e) (step w e) es good (step-IsCovered b w e ok c)

-- Whatever changes, marks and turns of the writer come, in any order, as long as no write fails and no change
-- still waits for its mark: where the writer waits and nothing is marked, the last state is on disk; a change
-- during a snapshot or a write is not dropped, though its mark comes behind it.
pub settled :
    (n : ℕ) (es : List Event)
    → All (λ e. writes_well e ≡ true) es
    → owed_behind false es ≡ false
    → (run (started n) es).phase ≡ waits
    → (run (started n) es).dirty ≡ false
    → (run (started n) es).saved ≡ (run (started n) es).state
settled n es good marked here clean =
    let w = run (started n) es in
    let c = run-IsCovered false (started n) es good (ground arith) in
    ground (arith, c, marked, here, clean, ap (λ (f : Phase). holds f w) here)
