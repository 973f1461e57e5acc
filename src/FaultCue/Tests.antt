-- ===== src/FaultCue/Tests.antt =====
-- Tests of `FaultCue`.
use claude_tts.Prelude.{◌≡◌, refl, true, false, [], ◌∷◌}
use claude_tts.Prelude.StrSet
use claude_tts.FaultCue
use claude_tts.FaultCue.{init, run, fails, succeeds, should_fire, fires_once}

rearmed_test :
    (should_fire "say" (run init (fails "say" ∷ fails "afplay" ∷ succeeds "say" ∷ []))).1 ≡ true
unfolding run FaultCue.step should_fire FaultCue.note_success StrSet.has StrSet.add StrSet.discard
rearmed_test = refl

fires_once_example :
    ((should_fire "say" (run (should_fire "say" init).0 (succeeds "afplay" ∷ []))).1 ≡ false)
    × ((should_fire "say" (FaultCue.note_success "say" (run init (succeeds "afplay" ∷ [])))).1
        ≡ true)
fires_once_example = fires_once "say" init (succeeds "afplay" ∷ []) (refl, tt)
