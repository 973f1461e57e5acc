-- ===== src/KeepAlive.antt =====
-- src/sonari/daemon/keepalive.py: `KeepAliveManager`, the owner of the silent players that hold the audio
-- device open. Players and timers are numbers that stand for the objects, times are whole milliseconds.
-- What the operating system answers during one call is a `World`: each player is polled at most once in
-- a call. The children that a call hands to `_reap` are part of its result; a timer callback is an
-- operation, with the timer that fires.
pub mod Steps
pub mod Quiet
pub mod Children
pub mod Giveup
pub mod Streams
pub mod Presence
mod Tests
use claude_tts.Prelude.{
  ℕ, zero, suc, ◌+◌, ◌-◌, Bool, true, false, not, ◌&&◌, ◌||◌, Option, none, some, List, [], ◌∷◌,
  ◌++◌, map, ltb, leb, ◌==◌, if◌then◌else◌, is_some, filter, any, min,
}
use claude_tts.Prelude.Int.{ℤ, pos, ◌-ℤ◌}

abbrev pub giveup_n : ℕ
giveup_n = 5

abbrev pub fast_death : ℕ
fast_death = 2000

abbrev pub backoff : ℕ
backoff = 1000

-- a child process and the time of its start
abbrev pub Player : Type 0
Player = ℕ × ℕ

pub record KeepAliveManager : Type 0 where
  pub enabled : Bool
  pub want : Bool
  pub players : List Player
  pub overlap_timer : Option ℕ
  pub hold_timer : Option ℕ
  pub fast_deaths : ℕ
  pub degraded : Bool
  pub last_death : Option ℕ
  -- the next timer object that is made
  pub next_timer : ℕ

-- `popen` is `none` where the start of a player raises; `started` is the clock behind the start
pub record World : Type 0 where
  pub popen : Option ℕ
  pub exited : ℕ → Bool
  pub now : ℕ
  pub started : ℕ

abbrev pub init : KeepAliveManager
init = record {
  enabled = true;
  want = false;
  players = [];
  overlap_timer = none;
  hold_timer = none;
  fast_deaths = 0;
  degraded = false;
  last_death = none;
  next_timer = 0;
}

-- `self._timer is timer`
abbrev pub is_timer : Option ℕ → ℕ → Bool
is_timer none t = false
is_timer (some u) t = u == t

abbrev pub nonempty : List Player → Bool
nonempty [] = false
nonempty (p ∷ ps) = true

abbrev pub alive : World → Player → Bool
alive w p = not (w.exited p.0)

unfoldable pub live : World → List Player → Bool
live w ps = any ps (alive w)

unfoldable pub cancel_hold : KeepAliveManager → KeepAliveManager
cancel_hold m = record m { hold_timer = none }

unfoldable pub arm_hold : KeepAliveManager → KeepAliveManager
unfolding cancel_hold
arm_hold m = record (cancel_hold m) {
  hold_timer = some m.next_timer;
  next_timer = suc m.next_timer;
}

unfoldable pub arm_overlap : KeepAliveManager → KeepAliveManager
arm_overlap m = record m { overlap_timer = some m.next_timer; next_timer = suc m.next_timer }

unfoldable pub detach_players : KeepAliveManager → KeepAliveManager × List ℕ
detach_players m = (record m { overlap_timer = none; players = [] }, map (λ p. p.0) m.players)

unfoldable pub spawn : World → KeepAliveManager → KeepAliveManager
unfolding arm_overlap
spawn w m = elim w.popen [
  | none ↦ record m { degraded = true }
  | some p ↦ arm_overlap (record m { players = m.players ++ (p, w.started) ∷ [] })
]

unfoldable pub prune_exited : World → KeepAliveManager → KeepAliveManager
prune_exited w m = record m { players = filter (alive w) m.players }

-- what the loop of `_observe_deaths_locked` has gathered
pub record Deaths : Type 0 where
  pub alive : List Player
  pub last_death : Option ℕ
  pub fast_deaths : ℕ

unfoldable pub observe_loop : World → List Player → Option ℕ → ℕ → Deaths
observe_loop w [] last fast = record { alive = []; last_death = last; fast_deaths = fast }
observe_loop w (p ∷ ps) last fast =
    let dead = w.exited p.0 in
    let streak = if ltb (w.now - p.1) fast_death then fast + 1 else 0 in
    let rest =
      observe_loop w ps (if dead then some w.now else last) (if dead then streak else fast) in
    record rest { alive = if dead then rest.alive else p ∷ rest.alive }

unfoldable pub observe_deaths : World → KeepAliveManager → KeepAliveManager
unfolding observe_loop
observe_deaths w m =
    let d = observe_loop w m.players m.last_death m.fast_deaths in
    record m { players = d.alive; last_death = d.last_death; fast_deaths = d.fast_deaths }

-- `self._last_death or 0.0`
abbrev pub or_zero : Option ℕ → ℕ
or_zero none = 0
or_zero (some t) = t

unfoldable pub set_enabled : Bool → KeepAliveManager → KeepAliveManager × List ℕ
unfolding cancel_hold detach_players
set_enabled on m =
    if not on
    then detach_players (cancel_hold (record m { enabled = on }))
    else if not m.enabled
    then (record m { enabled = on; fast_deaths = 0; degraded = false }, [])
    else (record m { enabled = on }, [])

unfoldable pub forgive : KeepAliveManager → KeepAliveManager
forgive m = if not m.want then record m { fast_deaths = 0; degraded = false } else m

unfoldable pub activate : World → KeepAliveManager → KeepAliveManager
unfolding cancel_hold forgive spawn live
activate w m =
    let m' : KeepAliveManager = record (forgive (cancel_hold m)) { want = true } in
    if m'.enabled && not m'.degraded && not (live w m'.players) then spawn w m' else m'

unfoldable pub deactivate : KeepAliveManager → KeepAliveManager
unfolding arm_hold
deactivate m =
    if not m.want
    then m
    else if nonempty m.players
    then arm_hold (record m { want = false })
    else record m { want = false }

unfoldable pub set_active : World → Bool → KeepAliveManager → KeepAliveManager
unfolding activate deactivate
set_active w active m = if active then activate w m else deactivate m

unfoldable pub tick : World → KeepAliveManager → KeepAliveManager × List ℕ
unfolding observe_deaths detach_players spawn
tick w m =
    let m' = observe_deaths w m in
    if leb giveup_n m'.fast_deaths
    then detach_players (record m' { degraded = true })
    else if m'.want
        && m'.enabled
        && not m'.degraded
        && not (nonempty m'.players)
        && leb backoff (w.now - or_zero m'.last_death)
    then (spawn w m', [])
    else (m', [])

unfoldable pub stop : KeepAliveManager → KeepAliveManager × List ℕ
unfolding cancel_hold detach_players
stop m = let (m', doomed) = detach_players (cancel_hold m) in (record m' { want = false }, doomed)

pub data Status : Type 0 where
  disabled degraded running hold idle : Status

unfoldable pub status : KeepAliveManager → Status
status m =
    if not m.enabled
    then disabled
    else if m.degraded
    then degraded
    else if m.want
    then running
    else if nonempty m.players || is_some m.hold_timer
    then hold
    else idle

-- the least of the given time and those of the list
abbrev pub earliest : ℕ → List Player → ℕ
earliest t [] = t
earliest t (p ∷ ps) = earliest (min t p.1) ps

abbrev pub age_of : ℕ → List Player → Option ℤ
age_of now [] = none
age_of now (p ∷ ps) = some (pos now -ℤ pos (earliest p.1 ps))

unfoldable pub oldest_player_age : World → KeepAliveManager → Option ℤ
oldest_player_age w m = age_of w.now (filter (alive w) m.players)

unfoldable pub overlap_due : World → ℕ → KeepAliveManager → KeepAliveManager
unfolding spawn prune_exited
overlap_due w timer m =
    let m' : KeepAliveManager = record m { overlap_timer = none } in
    if not (is_timer m.overlap_timer timer)
    then m
    else if not m.enabled || m.degraded
    then m'
    else if not m.want && not (is_some m.hold_timer)
    then m'
    else prune_exited w (spawn w m')

unfoldable pub hold_expired : ℕ → KeepAliveManager → KeepAliveManager × List ℕ
unfolding detach_players
hold_expired timer m =
    if not (is_timer m.hold_timer timer) || m.want
    then (m, [])
    else detach_players (record m { hold_timer = none })
