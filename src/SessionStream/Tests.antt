-- ===== src/SessionStream/Tests.antt =====
-- Tests of `SessionStream`, and its theorem at a concrete run. The assembler is a unit here.
use claude_tts.Prelude.{◌≡◌, refl, true, none, some, List, [], ◌∷◌, All}
use claude_tts.SessionStream
use claude_tts.SessionStream.{SessionStream, init}
use claude_tts.SessionStream.Frontier.{
  Op, advances, prompts, holds, restarts, behind, step, run, reaches, frontier_monotone,
}

program : Unit {0}
unfolding run step SessionStream.advance_frontier SessionStream.reset_for_new_prompt
    SessionStream.to_state SessionStream.load_state
program = tt

abbrev script : List Op
script = advances (some (3, 1)) ∷ prompts ∷ holds true ∷ advances (some (2, 5)) ∷ restarts none ∷ []

frontier_test : (run tt (init {A = Unit {0}} tt none) script).frontier ≡ some (3, 1)
unfolding program
frontier_test = refl

stopped_test : (run tt (init {A = Unit {0}} tt none) script).stopped ≡ true
unfolding program
stopped_test = refl

frontier_monotone_example :
    (behind none (run tt (init {A = Unit {0}} tt none) script).frontier ≡ true)
    × All
        (λ k. behind k (run tt (init {A = Unit {0}} tt none) script).frontier ≡ true)
        (reaches tt script)
frontier_monotone_example = frontier_monotone tt (init {A = Unit {0}} tt none) script
