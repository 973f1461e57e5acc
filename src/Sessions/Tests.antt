-- ===== src/Sessions/Tests.antt =====
-- Tests of `SessionManager`, and its theorems at concrete rosters.
use claude_tts.Prelude.{
  ℕ, ◌≤◌, ◌<◌, String, ◌≡◌, ◌≢◌, ◌↔◌, ◌⊎◌, refl, Bool, true, false, Option, none, some, List, [],
  ◌∷◌, str_eq,
}
use claude_tts.Prelude.Dict
use claude_tts.Prelude.StrSet
use claude_tts.Sessions
use claude_tts.Sessions.{
  Identity, SessionManager, init, number, session_for_number, assign_number, folder, unregister,
  claim_announce, mem, values,
}
use claude_tts.Sessions.Text.{basename}
use claude_tts.Sessions.Terminal.{
  set_identity, set_os_focus, identity, is_provisional, liveness, live,
}
use claude_tts.Sessions.State.{to_state, load_state}
use claude_tts.Sessions.Numbers.{assign_number_lem}
use claude_tts.Sessions.Focus.{set_os_focus_iff, tty_steal}
use claude_tts.Sessions.Runs.{
  Op, sees, foregrounds, speaks, identifies, signals, ends, run, IsSound, roster_run-IsSound,
}
use claude_tts.Sessions.Lives.{live_on, lives-IsSound}
use claude_tts.Prelude.Dict.{IsUnique}
use claude_tts.Sessions.Restart.{restart_roster}
use claude_tts.Sessions.Ending.{IsForgotten, IsSameFor, unregister_lem, announce_once}

program : Unit {0}
unfolding run Sessions.register Sessions.set_foreground Sessions.touch_mru Sessions.record_session
    Sessions.assign_number Sessions.next_number Sessions.number Sessions.session_for_number
    Sessions.unregister Sessions.claim_announce set_identity set_os_focus identity liveness Dict.put
    Dict.remove Dict.has StrSet.add StrSet.discard StrSet.remove_first
program = tt

abbrev at : String → Identity
at tty = record { term_program = "Apple_Terminal"; tty = tty; iterm_session_id = "" }

-- the second session takes the tty of the first, which the keyboard focus was on
abbrev script : List Op
script =
    foregrounds "a" (some "/home/u/one")
    ∷ identifies "a" (at "/dev/ttys001")
    ∷ signals "Apple_Terminal" "/dev/ttys001" "" true
    ∷ sees "b" (some "/home/u/two/")
    ∷ []

abbrev roster : SessionManager
roster = run (init "queue") script

-- every probed path is there
abbrev all_there : String → Option Bool
all_there _ = some true

basename_test : basename (some "/home/u/two/") ≡ some "two"
unfolding basename
basename_test = refl

number_test : number roster "b" ≡ some 2
unfolding program
number_test = refl

focus_test : roster.os_focused_session ≡ some "a"
unfolding program
focus_test = refl

reused_number_test : number (run roster (ends "a" ∷ sees "c" none ∷ [])) "c" ≡ some 1
unfolding program
reused_number_test = refl

-- the roster of a first life, and a life behind it
abbrev lives : List (List Op)
lives = script ∷ (ends "a" ∷ sees "c" none ∷ []) ∷ []

lives-IsSound_example :
    IsSound (live_on "queue" (init "queue") lives)
    × IsUnique (live_on "queue" (init "queue") lives).sessions
lives-IsSound_example = lives-IsSound "queue" lives

tty_steal_example :
    (identity (set_identity "b" (at "/dev/ttys001") roster) "a" ≡ some (at ""))
    × (liveness all_there (set_identity "b" (at "/dev/ttys001") roster) "a" ≢ live)
    × ((set_identity "b" (at "/dev/ttys001") roster).os_focused_session ≢ some "a")
unfolding program
tty_steal_example =
    tty_steal all_there "b" "a" (at "/dev/ttys001") (at "/dev/ttys001") roster
      (roster_run-IsSound "queue" script).exclusive refl refl refl refl

set_os_focus_iff_example :
    ((set_os_focus "Apple_Terminal" "/dev/ttys001" "" true roster).0.os_focused_session ≡ some "a")
    ↔ ((StrSet.has "a" roster.tty_evicted ≡ false)
        × ((i : Identity) × (identity roster "a" ≡ some i) × (i.tty ≡ "/dev/ttys001")))
set_os_focus_iff_example =
    set_os_focus_iff roster "/dev/ttys001" "" "a" (roster_run-IsSound "queue" script).exclusive refl

assign_number_lem_example :
    (n : ℕ) × (number (assign_number "c" roster) "c" ≡ some n)
    × ((number roster "c" ≡ some n)
        ⊎ ((number roster "c" ≡ none)
            × (1 ≤ n)
            × (mem n (values roster.numbers) ≡ false)
            × ((k : ℕ) → 1 ≤ k → k < n → mem k (values roster.numbers) ≡ true)))
    × ((s : String) → str_eq "c" s ≡ false → number (assign_number "c" roster) s ≡ number roster s)
assign_number_lem_example = assign_number_lem "c" roster

restart_roster_example :
    (folder (load_state (to_state roster) (init "queue")) "b" ≡ folder roster "b")
    × (number (load_state (to_state roster) (init "queue")) "b" ≡ number roster "b")
    × (is_provisional (load_state (to_state roster) (init "queue")) "b"
        ≡ Dict.has "b" roster.sessions)
unfolding program
restart_roster_example =
    restart_roster "queue" roster "b" (roster_run-IsSound "queue" script).numbered
      (refl, (refl, tt))

unregister_lem_example :
    IsForgotten "a" (unregister "a" roster)
    × ((s : String) → str_eq "a" s ≡ false → IsSameFor all_there s roster (unregister "a" roster))
unregister_lem_example =
    unregister_lem all_there "a" roster (roster_run-IsSound "queue" script).recency

announce_once_example :
    ((claim_announce "b" roster).1 ≡ true)
    × ((claim_announce "b" (run (claim_announce "b" roster).0 (ends "a" ∷ speaks "b" ∷ []))).1
        ≡ false)
unfolding program
announce_once_example =
    announce_once roster (ends "a" ∷ speaks "b" ∷ []) "b" refl (refl, (refl, tt))
