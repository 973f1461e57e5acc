-- ===== src/History/Tests.antt =====
-- Tests of `SessionHistory`, and its theorems at concrete histories.
use claude_tts.Prelude.{
  ℕ, ◌<◌, ◌≡◌, ◌≢◌, ◌↔◌, refl, true, false, some, List, [], ◌∷◌, ◌++◌, map, All, Ordered, filter,
}
use claude_tts.Prelude.Dict
use claude_tts.Prelude.Int.{pos, ◌-ℤ◌, ◌≤ℤ◌}
use claude_tts.History
use claude_tts.History.{HistoryEntry, SessionHistory, Key, key, key_lt, deque_of, init}
use claude_tts.History.Invariant.{IsSound, Op, note, close, open_turn, run, run-IsSound}
use claude_tts.History.Frontier.{unheard_from_frontier_lem}
use claude_tts.History.Navigation.{is_head, message_ids_in_turn_lem}
use claude_tts.History.State.{load_entry, save_entry}
use claude_tts.History.State.RoundTrip.{load_entry-stamp-le}

program : Unit {0}
unfolding History.record_entry History.end_message History.start_turn History.reset
    History.message_ids_in_turn History.turn_ids History.nth_last_message History.last_message
    History.unheard History.unheard_age History.unheard_from_frontier History.newest_key run
    Dict.get_or Dict.put Dict.remove filter
program = tt

-- two messages in one turn, and one in the next; the bound drops the first entry
abbrev script : List Op
script =
    note (pos 1) "s" "prose" "One."
    ∷ note (pos 2) "s" "prose" "Two."
    ∷ close "s"
    ∷ note (pos 3) "s" "prose" "Three."
    ∷ open_turn "s"
    ∷ note (pos 4) "s" "plan" "Four."
    ∷ []

abbrev told : SessionHistory
told = run (init 3) script

message_ids_test : History.message_ids_in_turn told "s" 0 ≡ 1 ∷ []
unfolding program
message_ids_test = refl

turn_ids_test : History.turn_ids told "s" ≡ 0 ∷ 1 ∷ []
unfolding program
turn_ids_test = refl

nth_last_test : map key (History.nth_last_message told "s" (pos 2)) ≡ (0, 1) ∷ []
unfolding program
nth_last_test = refl

aged_test : (History.unheard_from_frontier told "s" (some (0, 0))).1 ≡ true
unfolding program
aged_test = refl

unheard_age_test : History.unheard_age (pos 9) told "s" ≡ some (pos 5)
unfolding program ◌-ℤ◌
unheard_age_test = refl

told-IsSound : IsSound told
told-IsSound = run-IsSound 3 script

run-IsSound_example : IsSound (run (init 3) script)
run-IsSound_example = run-IsSound 3 script

unheard_from_frontier_lem_example :
    ((passed : List HistoryEntry) × (deque_of told "s"
        ≡ passed ++ (History.unheard_from_frontier told "s" (some (1, 0))).0)
      × All (λ e. key_lt (1, 0) (key e) ≡ false) passed
      × All
          (λ e. key_lt (1, 0) (key e) ≡ true)
          (History.unheard_from_frontier told "s" (some (1, 0))).0)
    × (((History.unheard_from_frontier told "s" (some (1, 0))).1 ≡ true)
        ↔ ((deque_of told "s" ≢ []) × All (λ e. key_lt (1, 0) (key e) ≡ true) (deque_of told "s")))
unheard_from_frontier_lem_example = unheard_from_frontier_lem told "s" (1, 0) told-IsSound

message_ids_in_turn_lem_example :
    (History.message_ids_in_turn told "s" 0
      ≡ map (λ e. e.msg_id) (filter (is_head 0) (deque_of told "s")))
    × Ordered (λ (i j : ℕ). i < j) (History.message_ids_in_turn told "s" 0)
message_ids_in_turn_lem_example = message_ids_in_turn_lem told "s" 0 told-IsSound

abbrev four : HistoryEntry
four = record {
  text = "Four.";
  kind = "plan";
  msg_id = 2;
  seq = 0;
  turn_id = 1;
  heard = false;
  stamp = pos 4;
}

load_entry-stamp-le_example :
    (load_entry (pos 7) (pos 100) (save_entry (pos 9) (pos 200) four)).stamp ≤ℤ pos 7
load_entry-stamp-le_example =
    load_entry-stamp-le (pos 7) (pos 100) (save_entry (pos 9) (pos 200) four)
