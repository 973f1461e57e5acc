-- ===== src/KeepAlive/Tests.antt =====
-- Tests of `KeepAliveManager`, and its theorems at concrete runs.
use claude_tts.Prelude.{
  ℕ, ◌≡◌, refl, inl, true, false, ◌||◌, none, some, List, [], ◌∷◌, map, arith, All, filter, any,
  if◌then◌else◌, length, min, ◌+◌,
}
use claude_tts.KeepAlive
use claude_tts.KeepAlive.{
  KeepAliveManager, World, Player, alive, status, init, idle, live, set_active, oldest_player_age,
  disabled,
}
use claude_tts.KeepAlive.Steps.{Op, asserts, ticks, overlaps, holds, step, run}
use claude_tts.KeepAlive.Quiet.{IsWatched, run-IsWatched}
use claude_tts.KeepAlive.Children.{plays, among, is_child, exited_in, started_in, no_child_lost}
use claude_tts.KeepAlive.Giveup.{IsFlash, IsStreak, turns, giveup_holds, storm_bound}
use claude_tts.KeepAlive.Streams.{set_active_streams}
use claude_tts.KeepAlive.Presence
use claude_tts.KeepAlive.Presence.{
  Presence, Call, present, recheck, Moment, asks, speaks, recheck_lem,
}

program : Unit {0}
unfolding run step KeepAlive.set_enabled KeepAlive.set_active KeepAlive.activate
    KeepAlive.deactivate KeepAlive.tick KeepAlive.stop KeepAlive.overlap_due KeepAlive.hold_expired
    KeepAlive.spawn KeepAlive.arm_overlap KeepAlive.arm_hold KeepAlive.cancel_hold
    KeepAlive.detach_players KeepAlive.forgive KeepAlive.prune_exited KeepAlive.observe_deaths
    KeepAlive.observe_loop status live oldest_player_age filter any present
program = tt

-- player `p` can start, and nothing has exited
abbrev calm : ℕ → ℕ → World
calm p t = record { popen = some p; exited = λ _. false; now = t; started = t }

-- everything has exited
abbrev dying : ℕ → ℕ → World
dying p t = record { popen = some p; exited = λ _. true; now = t; started = t }

abbrev script : List Op
script = asserts (calm 7 1000) true ∷ ticks (calm 8 1100) ∷ asserts (calm 9 2000) false ∷ []

players_test : (run init script).players ≡ (7, 1000) ∷ []
unfolding program
players_test = refl

hold_test : (run init script).hold_timer ≡ some 1
unfolding program
hold_test = refl

expired_test :
    step (run init script) (holds 1)
    ≡ (record (run init script) { hold_timer = none; overlap_timer = none; players = [] }, 7 ∷ [])
unfolding program
expired_test = refl

stale_test : (step (run init script) (holds 0)).1 ≡ []
unfolding program
stale_test = refl

-- the second start raises while the first player goes on; the next edge forgives, and the player that is
-- alive has no successor armed
unchained_test :
    (run init (
      asserts (calm 7 0) true
      ∷ overlaps (record (calm 8 295000) { popen = none }) 0
      ∷ asserts (calm 8 295000) false
      ∷ asserts (calm 8 295000) true
      ∷ [])).overlap_timer
    ≡ none
unfolding program
unchained_test = refl

run-IsWatched_example :
    IsWatched (run init script)
    × ((timer : ℕ)
        → (run init script).hold_timer ≡ some timer
        → ((step (run init script) (holds timer)).0.players ≡ [])
          × ((step (run init script) (holds timer)).0.overlap_timer ≡ none)
          × ((step (run init script) (holds timer)).1 ≡ map (λ p. p.0) (run init script).players))
run-IsWatched_example = run-IsWatched script

no_child_lost_example :
    ((plays 7 (run init script).players ≡ true)
      → (exited_in (holds 1) 7 ≡ false)
      → (plays 7 (step (run init script) (holds 1)).0.players
          || among 7 (step (run init script) (holds 1)).1)
        ≡ true)
    × ((plays 7 (step (run init script) (holds 1)).0.players ≡ true)
        → (plays 7 (run init script).players || is_child (started_in (holds 1)) 7) ≡ true)
no_child_lost_example = no_child_lost (run init script) (holds 1) 7

abbrev gave_up : KeepAliveManager
gave_up = record init { want = true; degraded = true }

giveup_holds_example :
    ((run gave_up (asserts (calm 7 0) true ∷ ticks (calm 8 10) ∷ [])).degraded ≡ true)
    × ((p : ℕ)
        → plays p (run gave_up (asserts (calm 7 0) true ∷ ticks (calm 8 10) ∷ [])).players ≡ true
        → plays p gave_up.players ≡ true)
unfolding program
giveup_holds_example =
    giveup_holds gave_up (asserts (calm 7 0) true ∷ ticks (calm 8 10) ∷ []) refl (refl, (refl, tt))

abbrev storm : List (World × World)
storm = (calm 1 0, dying 2 100) ∷ (calm 2 100, dying 3 200) ∷ []

storm-IsFlash : All IsFlash storm
storm-IsFlash = (
  record { child = 1; starts = refl; exits = refl; fast = refl },
  (record { child = 2; starts = refl; exits = refl; fast = refl }, tt),
)

storm_bound_example :
    IsStreak (min 5 (0 + length storm)) (turns storm (record init { want = true }))
storm_bound_example =
    storm_bound 0 storm (record init { want = true }) (omega arith) storm-IsFlash
      (record { want = refl; enabled = refl; empty = refl; deaths = refl; given_up = refl })

set_active_streams_example :
    live (calm 9 3000) (set_active (calm 9 3000) true (run init script)).players ≡ true
unfolding program
set_active_streams_example =
    set_active_streams (calm 9 3000) (run init script) 9 refl (inl refl) refl refl

abbrev away : Presence
away = record { last_spoke = none; hid_present = false; hid_at = some 1000; hid_reported = false }

-- speech, and a call 20 minutes later that samples
abbrev lull : List Moment
lull = asks (record { now = 500; sample = true; waiting = false; idle = none }) ∷ speaks 2000 ∷ []

abbrev late_call : Call
late_call = record { now = 1300000; sample = true; waiting = false; idle = some (some 1250000) }

recheck_lem_example :
    ((recheck true true (calm 7 0) (calm 8 0) (away, false) (run init script)).manager.want ≡ false)
    × ((recheck true true (calm 7 0) (calm 8 0) (away, false) (run init script)).manager.enabled
        ≡ (if true then true else (run init script).enabled))
    × IsWatched (recheck true true (calm 7 0) (calm 8 0) (away, false) (run init script)).manager
recheck_lem_example =
    recheck_lem true true false (calm 7 0) (calm 8 0) away (run init script)
      (run-IsWatched script).0
