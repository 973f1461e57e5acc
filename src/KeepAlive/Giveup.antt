-- ===== src/KeepAlive/Giveup.antt =====
-- `KeepAliveManager`: players that die fast, and `_degraded`.
use mathlib.Core.Path.{subst}
use native.Mathlib.Decide.{dec_le}
use claude_tts.Prelude.{
  ℕ, suc, ◌+◌, ◌-◌, ◌≤◌, ◌<◌, ◌≡◌, sym, Bool, true, false, not, ◌&&◌, Option, some, List, [], ◌∷◌,
  arith, ltb, leb, any, length, min, All,
}
use claude_tts.KeepAlive.{
  KeepAliveManager, World, set_enabled, set_active, activate, deactivate, tick, stop, overlap_due,
  hold_expired, spawn, arm_overlap, arm_hold, cancel_hold, detach_players, forgive, live,
  prune_exited, observe_deaths, observe_loop, fast_death, giveup_n,
}
use claude_tts.KeepAlive.Steps.{Op, configures, asserts, ticks, stops, overlaps, holds, step, run}
use claude_tts.KeepAlive.Children.{plays, plays-observe_loop}

-- the step is the False -> True edge of the wish or of the setting
abbrev pub forgives : KeepAliveManager → Op → Bool
forgives m (configures on) = on && not m.enabled
forgives m (asserts w active) = active && not m.want
forgives m _ = false

-- no step of the sequence forgives
abbrev pub Unforgiven : KeepAliveManager → List Op → Type 0
Unforgiven m [] = Unit
Unforgiven m (op ∷ ops) = (forgives m op ≡ false) × Unforgiven (step m op).0 ops

degraded-step :
    (m : KeepAliveManager) (op : Op)
    → m.degraded ≡ true
    → forgives m op ≡ false
    → (step m op).0.degraded ≡ true
unfolding step set_enabled set_active activate deactivate tick stop overlap_due hold_expired
    arm_hold cancel_hold detach_players forgive prune_exited observe_deaths spawn arm_overlap
degraded-step m (configures on) d e = ground (arith, d, e)
degraded-step m (asserts w true) d e = ground (arith, d, e)
degraded-step m (asserts w false) d e = ground (arith, d)
degraded-step m (ticks w) d e = ground (arith, d)
degraded-step m stops d e = d
degraded-step m (overlaps w timer) d e = ground (arith, d)
degraded-step m (holds timer) d e = ground (arith, d)

plays-degraded_step :
    (m : KeepAliveManager) (op : Op) (p : ℕ)
    → m.degraded ≡ true
    → forgives m op ≡ false
    → plays p (step m op).0.players ≡ true
    → plays p m.players ≡ true
unfolding step set_enabled set_active activate deactivate tick stop overlap_due hold_expired
    arm_hold cancel_hold detach_players forgive prune_exited observe_deaths
plays-degraded_step m (configures on) p d e h = ground (arith, h)
plays-degraded_step m (asserts w true) p d e h = ground (arith, d, e, h)
plays-degraded_step m (asserts w false) p d e h = ground (arith, h)
plays-degraded_step m (ticks w) p d e h =
    ground (arith, d, plays-observe_loop w p m.players m.last_death m.fast_deaths, h)
plays-degraded_step m stops p d e h = cc
plays-degraded_step m (overlaps w timer) p d e h = ground (arith, d, h)
plays-degraded_step m (holds timer) p d e h = ground (arith, h)

-- Once the manager has given up, it stays so and starts no player, through any steps none of which is an
-- edge that forgives: every player behind them was one before.
pub giveup_holds :
    (m : KeepAliveManager) (ops : List Op)
    → m.degraded ≡ true
    → Unforgiven m ops
    → ((run m ops).degraded ≡ true)
      × ((p : ℕ) → plays p (run m ops).players ≡ true → plays p m.players ≡ true)
unfolding run
giveup_holds m [] d u = (d, λ p h. h)
giveup_holds m (op ∷ ops) d (e, u) =
    let (d', back) = giveup_holds (step m op).0 ops (degraded-step m op d e) u in
    (d', λ p h. plays-degraded_step m op p d e (back p h))

-- one turn of the loop: the wish is asserted again, then the tick
abbrev pub turn : World × World → KeepAliveManager → KeepAliveManager
turn (w, v) m = (tick v (activate w m)).0

abbrev pub turns : List (World × World) → KeepAliveManager → KeepAliveManager
turns [] m = m
turns (wv ∷ wvs) m = turns wvs (turn wv m)

-- a player starts, and has exited by the tick, less than `FAST_DEATH_S` after its start
pub record IsFlash (wv : World × World) : Type 0 where
  pub child : ℕ
  pub starts : wv.0.popen ≡ some child
  pub exits : wv.1.exited child ≡ true
  pub fast : ltb (wv.1.now - wv.0.started) fast_death ≡ true

-- The stream is wanted, nothing plays, and `k` players in a row died fast.
pub record IsStreak (k : ℕ) (m : KeepAliveManager) : Type 0 where
  pub want : m.want ≡ true
  pub enabled : m.enabled ≡ true
  pub empty : m.players ≡ []
  pub deaths : m.fast_deaths ≡ k
  pub given_up : m.degraded ≡ leb giveup_n k

-- the manager behind the call of `set_active`, and behind the loop of the tick
activate-flash :
    (k : ℕ) (wv : World × World) (m : KeepAliveManager)
    → k < giveup_n
    → (f : IsFlash wv) → IsStreak k m
    → activate wv.0 m
      ≡ record (arm_overlap (cancel_hold m)) { want = true; players = (f.child, wv.0.started) ∷ [] }
unfolding activate cancel_hold forgive live any spawn arm_overlap
activate-flash k wv m lt f s = ground (arith, f.starts, s.want, s.enabled, s.empty, s.given_up)

observe-flash :
    (k : ℕ) (wv : World × World) (f : IsFlash wv) (last : Option ℕ)
    → observe_loop wv.1 ((f.child, wv.0.started) ∷ []) last k
      ≡ record { alive = []; last_death = some wv.1.now; fast_deaths = suc k }
unfolding observe_loop
observe-flash k wv f last = ground (arith, f.exits, f.fast)

turn-flash :
    (k : ℕ) (wv : World × World) (m : KeepAliveManager)
    → k < giveup_n
    → IsFlash wv
    → IsStreak k m
    → IsStreak (suc k) (turn wv m)
unfolding tick observe_deaths detach_players arm_overlap cancel_hold
turn-flash k wv m lt f s =
    let d = observe-flash m.fast_deaths wv f m.last_death in
    subst (λ n. IsStreak (suc k) (tick wv.1 n).0) (sym (activate-flash k wv m lt f s))
      (record {
        want = ground (arith, d);
        enabled = ground (arith, d, s.enabled);
        empty = ground (arith, d);
        deaths = ground (arith, d, s.deaths);
        given_up = ground (arith, d, s.deaths, s.given_up, lt);
      })

turn-given_up :
    (wv : World × World) (m : KeepAliveManager)
    → IsStreak giveup_n m
    → IsStreak giveup_n (turn wv m)
unfolding activate cancel_hold forgive tick observe_deaths observe_loop detach_players
turn-given_up wv m s = record {
  want = ground (arith, s.want, s.enabled, s.empty, s.deaths, s.given_up);
  enabled = ground (arith, s.want, s.enabled, s.empty, s.deaths, s.given_up);
  empty = ground (arith, s.want, s.enabled, s.empty, s.deaths, s.given_up);
  deaths = ground (arith, s.want, s.enabled, s.empty, s.deaths, s.given_up);
  given_up = ground (arith, s.want, s.enabled, s.empty, s.deaths, s.given_up);
}

-- Where every player that starts dies fast and the loop asserts the wish in every turn, the manager gives
-- up with the fifth turn and not before: the count of the deaths, which is the count of the players that
-- were started, stops at `GIVEUP_N`, and behind each turn nothing plays.
pub storm_bound :
    (k : ℕ) (wvs : List (World × World)) (m : KeepAliveManager)
    → k ≤ giveup_n
    → All IsFlash wvs
    → IsStreak k m
    → IsStreak (min giveup_n (k + length wvs)) (turns wvs m)
storm_bound k [] m le f s = subst (λ n. IsStreak n m) (omega arith) s
storm_bound k (wv ∷ wvs) m le (f, fs) s = elim (dec_le giveup_n k) [
  | yes full ↦
      let e : k ≡ giveup_n = omega arith in
      let again = turn-given_up wv m (subst (λ n. IsStreak n m) e s) in
      subst (λ n. IsStreak n (turns wvs (turn wv m))) (omega arith)
        (storm_bound giveup_n wvs (turn wv m) (omega arith) fs again)
  | no more ↦
      subst (λ n. IsStreak n (turns wvs (turn wv m))) (omega arith)
        (storm_bound (suc k) wvs (turn wv m) (omega arith) fs (turn-flash k wv m (omega arith) f s))
]
