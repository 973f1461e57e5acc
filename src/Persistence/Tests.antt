-- ===== src/Persistence/Tests.antt =====
-- Tests of `PersistenceWriter`, and its theorem at a concrete run.
use claude_tts.Prelude.{◌≡◌, refl, true, false, List, [], ◌∷◌}
use claude_tts.Persistence
use claude_tts.Persistence.{Writer, Event, started, changes, marks, turns, stops, run}
use claude_tts.Persistence.Settled.{owed_behind, settled}

program : Unit {0}
unfolding run owed_behind Persistence.step Persistence.change Persistence.mark Persistence.turn
    Persistence.stop
program = tt

-- a change comes between the snapshot and the write, its mark behind the write, and it is saved in the next
-- cycle
abbrev script : List Event
script =
    changes
    ∷ marks
    ∷ turns true
    ∷ turns true
    ∷ turns true
    ∷ turns true
    ∷ changes
    ∷ turns true
    ∷ marks
    ∷ turns true
    ∷ turns true
    ∷ turns true
    ∷ turns true
    ∷ turns true
    ∷ turns true
    ∷ []

saved_test : (run (started 0) script).saved ≡ 2
unfolding program
saved_test = refl

-- a write that fails is not tried again until the next change
failed_write_test :
    (run (started 0) (
      changes
      ∷ marks
      ∷ turns true
      ∷ turns true
      ∷ turns true
      ∷ turns true
      ∷ turns false
      ∷ turns true
      ∷ [])).saved
    ≡ 0
unfolding program
failed_write_test = refl

settled_example : (run (started 0) script).saved ≡ (run (started 0) script).state
unfolding program
settled_example =
    settled 0 script
      (
        refl,
        (
          refl,
          (
            refl,
            (
              refl,
              (
                refl,
                (refl, (refl, (refl, (refl, (refl, (refl, (refl, (refl, (refl, (refl, tt)))))))))),
              ),
            ),
          ),
        ),
      )
      refl refl refl
