-- ===== src/SpeechQueue/Tests.antt =====
-- Tests of `SpeechQueue`, and its theorems at concrete queues.
use claude_tts.Prelude.{
  ℕ, ◌+◌, ◌≤◌, max, ◌≡◌, refl, true, false, none, some, List, [], ◌∷◌, ◌++◌, filter, All, length,
}
use claude_tts.SpeechQueue
use claude_tts.SpeechQueue.{SpeechItem, SpeechQueue, is_full}
use claude_tts.SpeechQueue.Eviction.{decisions, enqueue_keeps_decisions, enqueue_evicts_oldest}
use claude_tts.SpeechQueue.Runs.{Op, run, step, run_memory, total_uncapped}

program : Unit {0}
unfolding SpeechQueue.enqueue SpeechQueue.pop_next SpeechQueue.pop_control_cue
    SpeechQueue.oldest_control_cue_id SpeechQueue.jump_to_decision SpeechQueue.remove_where
    SpeechQueue.insert_after SpeechQueue.oldest_id SpeechQueue.clear SpeechQueue.remove_by_id
    SpeechQueue.claim_head_as_control_cue run step filter
program = tt

abbrev prose : ℕ → SpeechItem
prose i = record {
  id = i;
  session = "s";
  kind = "prose";
  text = "Done.";
  is_decision = false;
  control_cue = false;
  names_session = false;
  audio_path = none;
  forward = true;
  voice = none;
  render_id = none;
  catchup_burn = false;
  prelude = [];
}

abbrev plan : ℕ → SpeechItem
plan i = record (prose i) { kind = "plan"; is_decision = true }

abbrev cue : ℕ → SpeechItem
cue i = record (prose i) { kind = "control"; control_cue = true; forward = false }

abbrev mixed : SpeechQueue
mixed = record { items = plan 1 ∷ prose 2 ∷ cue 3 ∷ []; cap = some 3 }

enqueue_test :
    SpeechQueue.enqueue (prose 4) mixed
    ≡ (record mixed { items = plan 1 ∷ cue 3 ∷ prose 4 ∷ [] }, some (prose 2))
unfolding program
enqueue_test = refl

insert_after_test :
    (SpeechQueue.insert_after 2 (prose 7 ∷ prose 8 ∷ []) mixed).0.items
    ≡ plan 1 ∷ prose 2 ∷ prose 7 ∷ prose 8 ∷ cue 3 ∷ []
unfolding program
insert_after_test = refl

enqueue_keeps_decisions_example :
    decisions (SpeechQueue.enqueue (plan 4) mixed).0.items
    ≡ decisions mixed.items ++ decisions (plan 4 ∷ [])
enqueue_keeps_decisions_example = enqueue_keeps_decisions (plan 4) mixed

enqueue_evicts_oldest_example :
    (c : ℕ) × (before : List SpeechItem) × (after : List SpeechItem) × (mixed.cap ≡ some c)
    × (c ≤ length mixed.items)
    × (mixed.items ≡ before ++ prose 2 ∷ after)
    × ((SpeechQueue.enqueue (prose 4) mixed).0.items ≡ (before ++ after) ++ prose 4 ∷ [])
    × ((prose 2).is_decision ≡ false)
    × All (λ it. it.is_decision ≡ true) before
unfolding program
enqueue_evicts_oldest_example = enqueue_evicts_oldest (prose 4) mixed {e = prose 2} refl

abbrev waiting : SpeechQueue
waiting = record { items = plan 1 ∷ plan 2 ∷ []; cap = some 2 }

abbrev behind : SpeechQueue
behind = record mixed { items = prose 0 ∷ mixed.items }

abbrev busy : List Op
busy =
    Op.enqueue (prose 1)
    ∷ Op.enqueue (plan 2)
    ∷ Op.enqueue_front (prose 3)
    ∷ Op.insert_after 2 (prose 4 ∷ prose 5 ∷ [])
    ∷ Op.enqueue (plan 6)
    ∷ []

run_memory_example :
    length (run (SpeechQueue.init (some 2)) busy).items
    ≤ max 2 (length (decisions (run (SpeechQueue.init (some 2)) busy).items) + 1)
      + total_uncapped busy
run_memory_example = run_memory 2 busy
