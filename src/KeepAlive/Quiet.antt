-- ===== src/KeepAlive/Quiet.antt =====
-- `KeepAliveManager`: players, timers and the wish between its steps.
use claude_tts.Prelude.{
  ℕ, ◌≡◌, refl, ◌⊎◌, Bool, true, false, Option, none, some, map, List, [], ◌∷◌, arith, is_some,
  filter,
}
use claude_tts.KeepAlive.{
  KeepAliveManager, World, Player, init, nonempty, set_enabled, set_active, activate, deactivate,
  tick, stop, overlap_due, hold_expired, spawn, arm_overlap, arm_hold, cancel_hold, detach_players,
  forgive, prune_exited, observe_deaths, observe_loop, status, idle, disabled,
}
use claude_tts.KeepAlive.Steps.{Op, configures, asserts, ticks, stops, overlaps, holds, step, run}

-- The invariant.
pub record IsWatched (m : KeepAliveManager) : Type 0 where
  pub disabled_players : m.enabled ≡ false → nonempty m.players ≡ false
  pub disabled_overlap : m.enabled ≡ false → is_some m.overlap_timer ≡ false
  pub disabled_hold : m.enabled ≡ false → is_some m.hold_timer ≡ false
  pub hold_unwanted : is_some m.hold_timer ≡ true → m.want ≡ false
  pub held : m.want ≡ false → nonempty m.players ≡ true → is_some m.hold_timer ≡ true

nonempty-observe_loop :
    (w : World) (ps : List Player) (last : Option ℕ) (fast : ℕ)
    → nonempty ps ≡ false
    → nonempty (observe_loop w ps last fast).alive ≡ false
unfolding observe_loop
nonempty-observe_loop w [] last fast h = refl
nonempty-observe_loop w (p ∷ ps) last fast h = cc

nonempty-filter :
    (p : Player → Bool) (ps : List Player) → nonempty ps ≡ false → nonempty (filter p ps) ≡ false
unfolding filter
nonempty-filter p [] h = refl
nonempty-filter p (q ∷ ps) h = cc

set_enabled-IsWatched :
    (on : Bool) (m : KeepAliveManager) → IsWatched m → IsWatched (set_enabled on m).0
unfolding set_enabled cancel_hold detach_players
set_enabled-IsWatched on m x = record {
  disabled_players = λ h. ground arith;
  disabled_overlap = λ h. ground arith;
  disabled_hold = λ h. ground arith;
  hold_unwanted = λ h. ground (arith, x.hold_unwanted, h);
  held = λ h n. ground (arith, x.held, h, n);
}

activate-IsWatched : (w : World) (m : KeepAliveManager) → IsWatched m → IsWatched (activate w m)
unfolding activate cancel_hold forgive spawn arm_overlap
activate-IsWatched w m x = record {
  disabled_players = λ h. ground (arith, x.disabled_players, h);
  disabled_overlap = λ h. ground (arith, x.disabled_overlap, h);
  disabled_hold = λ h. ground arith;
  hold_unwanted = λ h. ground (arith, h);
  held = λ h n. ground (arith, h, n);
}

deactivate-IsWatched : (m : KeepAliveManager) → IsWatched m → IsWatched (deactivate m)
unfolding deactivate arm_hold cancel_hold
deactivate-IsWatched m x = record {
  disabled_players = λ h. ground (arith, x.disabled_players, h);
  disabled_overlap = λ h. ground (arith, x.disabled_overlap, h);
  disabled_hold = λ h. ground (arith, x.disabled_hold, x.disabled_players, h);
  hold_unwanted = λ h. ground (arith, x.hold_unwanted, h);
  held = λ h n. ground (arith, x.held, h, n);
}

tick-IsWatched : (w : World) (m : KeepAliveManager) → IsWatched m → IsWatched (tick w m).0
unfolding tick observe_deaths detach_players spawn arm_overlap
tick-IsWatched w m x =
    let none_left = nonempty-observe_loop w m.players m.last_death m.fast_deaths in
    record {
      disabled_players = λ h. ground (arith, x.disabled_players, none_left, h);
      disabled_overlap = λ h. ground (arith, x.disabled_overlap, h);
      disabled_hold = λ h. ground (arith, x.disabled_hold, h);
      hold_unwanted = λ h. ground (arith, x.hold_unwanted, h);
      held = λ h n. ground (arith, x.held, none_left, h, n);
    }

stop-IsWatched : (m : KeepAliveManager) → IsWatched (stop m).0
unfolding stop cancel_hold detach_players
stop-IsWatched m = record {
  disabled_players = λ h. refl;
  disabled_overlap = λ h. refl;
  disabled_hold = λ h. refl;
  hold_unwanted = λ h. refl;
  held = λ h n. cc;
}

overlap_due-IsWatched :
    (w : World) (timer : ℕ) (m : KeepAliveManager) → IsWatched m → IsWatched (overlap_due w timer m)
unfolding overlap_due spawn arm_overlap prune_exited
overlap_due-IsWatched w timer m x = record {
  disabled_players = λ h. ground (arith, x.disabled_players, h);
  disabled_overlap = λ h. ground (arith, x.disabled_overlap, h);
  disabled_hold = λ h. ground (arith, x.disabled_hold, h);
  hold_unwanted = λ h. ground (arith, x.hold_unwanted, h);
  held = λ h n. ground (arith, x.held, h, n);
}

hold_expired-IsWatched :
    (timer : ℕ) (m : KeepAliveManager) → IsWatched m → IsWatched (hold_expired timer m).0
unfolding hold_expired detach_players
hold_expired-IsWatched timer m x = record {
  disabled_players = λ h. ground (arith, x.disabled_players, h);
  disabled_overlap = λ h. ground (arith, x.disabled_overlap, h);
  disabled_hold = λ h. ground (arith, x.disabled_hold, h);
  hold_unwanted = λ h. ground (arith, x.hold_unwanted, h);
  held = λ h n. ground (arith, x.held, h, n);
}

pub step-IsWatched : (m : KeepAliveManager) (op : Op) → IsWatched m → IsWatched (step m op).0
unfolding step set_active
step-IsWatched m (configures on) x = set_enabled-IsWatched on m x
step-IsWatched m (asserts w true) x = activate-IsWatched w m x
step-IsWatched m (asserts w false) x = deactivate-IsWatched m x
step-IsWatched m (ticks w) x = tick-IsWatched w m x
step-IsWatched m stops x = stop-IsWatched m
step-IsWatched m (overlaps w timer) x = overlap_due-IsWatched w timer m x
step-IsWatched m (holds timer) x = hold_expired-IsWatched timer m x

init-IsWatched : IsWatched init
init-IsWatched = record {
  disabled_players = λ h. refl;
  disabled_overlap = λ h. refl;
  disabled_hold = λ h. refl;
  hold_unwanted = λ h. refl;
  held = λ h n. cc;
}

run_keeps : (m : KeepAliveManager) (ops : List Op) → IsWatched m → IsWatched (run m ops)
unfolding run
run_keeps m [] x = x
run_keeps m (op ∷ ops) x = run_keeps (step m op).0 ops (step-IsWatched m op x)

-- the callback of the hold timer, where the stream is not wanted
expiry :
    (timer : ℕ) (m : KeepAliveManager)
    → m.hold_timer ≡ some timer
    → m.want ≡ false
    → ((hold_expired timer m).0.players ≡ [])
      × ((hold_expired timer m).0.overlap_timer ≡ none)
      × ((hold_expired timer m).1 ≡ map (λ p. p.0) m.players)
unfolding hold_expired detach_players
expiry timer m armed unwanted = (
  ground (arith, armed, unwanted),
  ground (arith, armed, unwanted),
  ground (arith, armed, unwanted),
)

-- Whatever calls and timer callbacks come, in any order, with any answers of the operating system: a
-- disabled manager has no player and no timer, a hold timer is only there while the stream is not
-- wanted, and a stream that is not wanted and has a player has a hold timer. The callback of that
-- timer ends the stream: no player is left and no overlap timer, and each player goes to the reaper.
pub run-IsWatched :
    (ops : List Op)
    → IsWatched (run init ops)
      × ((timer : ℕ)
          → (run init ops).hold_timer ≡ some timer
          → ((step (run init ops) (holds timer)).0.players ≡ [])
            × ((step (run init ops) (holds timer)).0.overlap_timer ≡ none)
            × ((step (run init ops) (holds timer)).1 ≡ map (λ p. p.0) (run init ops).players))
unfolding step
run-IsWatched ops =
    let m = run init ops in
    let x = run_keeps init ops init-IsWatched in
    (x, λ timer armed. expiry timer m armed (x.hold_unwanted (ground (arith, armed))))

no_players : (ps : List Player) → nonempty ps ≡ false → ps ≡ []
no_players [] h = refl
no_players (p ∷ ps) h = cc

-- A reachable manager that reports `idle` or `disabled` has no player and no hold timer.
pub status_quiet :
    (ops : List Op)
    → (status (run init ops) ≡ idle) ⊎ (status (run init ops) ≡ disabled)
    → ((run init ops).players ≡ []) × ((run init ops).hold_timer ≡ none)
unfolding status
status_quiet ops h =
    let m = run init ops in
    let x = (run-IsWatched ops).0 in
    let s : (nonempty m.players ≡ false) × (is_some m.hold_timer ≡ false) =
      ground (arith, h, x.disabled_players, x.disabled_hold) in
    (no_players m.players s.0, ground (arith, s.1))
