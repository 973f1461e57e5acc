-- ===== src/KeepAlive/Children.antt =====
-- `KeepAliveManager`: the child processes before and behind a step.
use claude_tts.Prelude.{
  ℕ, ◌≡◌, refl, ap, Bool, true, false, not, ◌&&◌, ◌||◌, Option, none, some, List, [], ◌∷◌, ◌++◌,
  map, arith, ◌==◌, if◌then◌else◌, filter, ltb, ◌-◌, ◌+◌, Option-cases, inl, inr,
}
use claude_tts.KeepAlive.{
  KeepAliveManager, World, Player, alive, set_enabled, set_active, activate, deactivate, tick, stop,
  overlap_due, hold_expired, spawn, arm_overlap, arm_hold, cancel_hold, detach_players, forgive,
  prune_exited, observe_deaths, observe_loop, fast_death,
}
use claude_tts.KeepAlive.Steps.{Op, configures, asserts, ticks, stops, overlaps, holds, step}

-- `p` is among the players
abbrev pub plays : ℕ → List Player → Bool
plays p [] = false
plays p (q ∷ ps) = if q.0 == p then true else plays p ps

abbrev pub among : ℕ → List ℕ → Bool
among p [] = false
among p (q ∷ qs) = if q == p then true else among p qs

-- what the operating system says of `p` in the step; a call that polls nobody says nothing
abbrev pub exited_in : Op → ℕ → Bool
exited_in (asserts w active) p = w.exited p
exited_in (ticks w) p = w.exited p
exited_in (overlaps w timer) p = w.exited p
exited_in _ p = false

-- the child that the operating system starts, where the step asks it to
abbrev pub started_in : Op → Option ℕ
started_in (asserts w active) = w.popen
started_in (ticks w) = w.popen
started_in (overlaps w timer) = w.popen
started_in _ = none

abbrev pub is_child : Option ℕ → ℕ → Bool
is_child none p = false
is_child (some q) p = q == p

plays-snoc :
    (p : ℕ) (ps : List Player) (q : Player) → plays p (ps ++ q ∷ []) ≡ (plays p ps || q.0 == p)
plays-snoc p [] q = ground arith
plays-snoc p (r ∷ ps) q = ground (arith, plays-snoc p ps q)

among-map : (p : ℕ) (ps : List Player) → among p (map (λ q. q.0) ps) ≡ plays p ps
among-map p [] = refl
among-map p (q ∷ ps) = ground (arith, among-map p ps)

plays-filter :
    (w : World) (p : ℕ) (ps : List Player)
    → plays p (filter (alive w) ps) ≡ (plays p ps && not (w.exited p))
unfolding filter
plays-filter w p [] = ground arith
plays-filter w p (q ∷ ps) = ground (arith, plays-filter w p ps, ap (λ (n : ℕ). w.exited n))

pub plays-observe_loop :
    (w : World) (p : ℕ) (ps : List Player) (last : Option ℕ) (fast : ℕ)
    → plays p (observe_loop w ps last fast).alive ≡ (plays p ps && not (w.exited p))
unfolding observe_loop
plays-observe_loop w p [] last fast = ground arith
plays-observe_loop w p (q ∷ ps) last fast =
    let dead = w.exited q.0 in
    let streak = if ltb (w.now - q.1) fast_death then fast + 1 else 0 in
    ground (
      arith,
      plays-observe_loop w p ps (if dead then some w.now else last) (if dead then streak else fast),
      ap (λ (n : ℕ). w.exited n),
    )

plays-spawn :
    (w : World) (p : ℕ) (m : KeepAliveManager)
    → plays p (spawn w m).players ≡ (plays p m.players || is_child w.popen p)
unfolding spawn arm_overlap
plays-spawn w p m = elim (Option-cases w.popen) [
  | inl e ↦ ground (arith, e)
  | inr (q, e) ↦ ground (arith, e, plays-snoc p m.players (q, w.started))
]

-- A player that runs is still a player behind any step, or the step hands it to the reaper; and a
-- player behind a step was one before, or it is the child that the step starts.
pub no_child_lost :
    (m : KeepAliveManager) (op : Op) (p : ℕ)
    → ((plays p m.players ≡ true)
        → (exited_in op p ≡ false)
        → (plays p (step m op).0.players || among p (step m op).1) ≡ true)
      × ((plays p (step m op).0.players ≡ true)
          → (plays p m.players || is_child (started_in op) p) ≡ true)
unfolding step set_enabled set_active activate deactivate tick stop overlap_due hold_expired
    arm_hold cancel_hold detach_players forgive prune_exited observe_deaths
no_child_lost m (configures on) p =
    (λ h e. ground (arith, among-map p m.players, h), λ h. ground (arith, h))
no_child_lost m (asserts w true) p =
    let f : KeepAliveManager = record (forgive (cancel_hold m)) { want = true } in
    (λ h e. ground (arith, plays-spawn w p f, h), λ h. ground (arith, plays-spawn w p f, h))
no_child_lost m (asserts w false) p = (λ h e. ground (arith, h), λ h. ground (arith, h))
no_child_lost m (ticks w) p =
    let d = plays-observe_loop w p m.players m.last_death m.fast_deaths in
    let f = observe_deaths w m in
    (
      λ h e. ground (arith, d, plays-spawn w p f, among-map p f.players, h, e),
      λ h. ground (arith, d, plays-spawn w p f, h),
    )
no_child_lost m stops p = (λ h e. ground (arith, among-map p m.players, h), λ h. cc)
no_child_lost m (overlaps w timer) p =
    let f : KeepAliveManager = record m { overlap_timer = none } in
    (
      λ h e. ground (arith, plays-spawn w p f, plays-filter w p (spawn w f).players, h, e),
      λ h. ground (arith, plays-spawn w p f, plays-filter w p (spawn w f).players, h),
    )
no_child_lost m (holds timer) p =
    (λ h e. ground (arith, among-map p m.players, h), λ h. ground (arith, h))
