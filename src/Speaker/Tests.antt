-- ===== src/Speaker/Tests.antt =====
-- Tests of `Speaker`, and its theorems at concrete runs.
use claude_tts.Prelude.{
  ℕ, ◌≡◌, ◌≢◌, ◌<◌, refl, true, false, none, some, List, [], ◌∷◌, arith, ◌==◌, if◌then◌else◌,
}
use claude_tts.Speaker
use claude_tts.Speaker.{
  Speaker, Event, Phase, init, run, calls, acquires, spawns, exits, judges, cancels, playing,
  interrupted, completed, failed, waiting,
}
use claude_tts.Speaker.Voice.{AllClaimed, holds_lock, one_voice, no_lost_cancel, speak_outcome}

program : Unit {0}
unfolding run Speaker.step Speaker.call Speaker.acquire Speaker.spawned Speaker.exited
    Speaker.judged Speaker.cancel
program = tt

-- thread 1 plays child 9; thread 2 waits for the lock; a cancel comes
abbrev script : List Event
script =
    calls 1 true (some 0)
    ∷ acquires 1
    ∷ calls 2 true none
    ∷ spawns 1 (some 9)
    ∷ acquires 2
    ∷ cancels
    ∷ []

script-claimed : AllClaimed init script
unfolding program
script-claimed = (omega arith, (tt, (tt, (tt, (tt, (tt, tt))))))

terminated_test : (run init script).terminated 9 ≡ true
unfolding program
terminated_test = refl

waiting_test : (run init script).phase 2 ≡ waiting none
unfolding program
waiting_test = refl

-- a cancel between the claim and the start of the child
late_test :
    (run init (calls 1 true (some 0) ∷ acquires 1 ∷ cancels ∷ spawns 1 (some 9) ∷ [])).phase 1
    ≡ interrupted 0
unfolding program
late_test = refl

one_voice_example : holds_lock ((run init script).phase 2) ≡ false
unfolding program
one_voice_example = one_voice script 1 2 script-claimed (λ e. omega (arith, e)) refl

no_lost_cancel_example :
    ((e p : ℕ)
      → (run init script).phase 1 ≡ playing e p
      → e ≢ (run init script).cancel_epoch
      → ((run init script).terminated p ≡ true) × ((run init script).current ≡ some p))
    × ((e : ℕ) → (run init script).phase 1 ≡ interrupted e → e < (run init script).cancel_epoch)
no_lost_cancel_example = no_lost_cancel script 1 script-claimed

speak_outcome_example :
    ((run init (
          calls 1 true (some 0)
          ∷ acquires 1
          ∷ spawns 1 (some 9)
          ∷ exits 1 false
          ∷ judges 1
          ∷ [])).phase
        1
      ≡ (if 0 == 0 then if false then completed else failed else interrupted 0))
    × ((run init (
          calls 1 true (some 0)
          ∷ acquires 1
          ∷ spawns 1 (some 9)
          ∷ exits 1 false
          ∷ judges 1
          ∷ [])).play_lock
        ≡ none)
speak_outcome_example = speak_outcome init 1 0 9 false refl refl
