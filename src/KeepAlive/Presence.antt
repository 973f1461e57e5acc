-- ===== src/KeepAlive/Presence.antt =====
-- The policy of the keep-alive in src/sonari/daemon/host.py: `_keepalive_present`, whether the user is
-- there, and `_keepalive_recheck`, which gives the verdict to the manager. The idle time of the keyboard
-- comes from outside: a sampler that raises gives `none`, and one with no answer gives `some none`.
use claude_tts.Prelude.{
  ℕ, ◌-◌, String, ◌≡◌, ◌≢◌, ◌⊎◌, ◌∙◌, ◌==◌, Bool, true, false, not, ◌&&◌, ◌||◌, Option, none, some,
  List, [], ◌∷◌, ◌++◌, arith, ltb, if◌then◌else◌, any,
}
use claude_tts.Sessions.{SessionManager, session_ids}
use claude_tts.Sessions.Terminal.{is_live}
use claude_tts.KeepAlive.Quiet.{IsWatched, step-IsWatched}
use claude_tts.KeepAlive.Steps.{configures, asserts, ticks, step}
use claude_tts.KeepAlive.{
  KeepAliveManager, World, set_enabled, set_active, activate, deactivate, tick, cancel_hold,
  forgive, spawn, arm_overlap, arm_hold, observe_deaths, detach_players,
}

abbrev pub presence_window : ℕ
presence_window = 1200000

abbrev pub hid_ttl : ℕ
hid_ttl = 30000

abbrev pub hid_min : ℕ
hid_min = 2000

pub record Presence : Type 0 where
  pub last_spoke : Option ℕ
  pub hid_present : Bool
  pub hid_at : Option ℕ
  pub hid_reported : Bool

abbrev pub init : Presence
init = record { last_spoke = none; hid_present = true; hid_at = none; hid_reported = false }

-- `t is not None and now - t < span`
abbrev pub within : ℕ → ℕ → Option ℕ → Bool
within span now none = false
within span now (some t) = ltb (now - t) span

-- the verdict on a sample: without evidence the user is there
abbrev pub judge : Option (Option ℕ) → Bool
judge none = true
judge (some none) = true
judge (some (some idle)) = ltb idle presence_window

abbrev pub sampler_failed : Option (Option ℕ) → Bool
sampler_failed none = true
sampler_failed (some none) = true
sampler_failed (some (some idle)) = false

-- a fresh sample is cached with the time of the call
unfoldable pub take_sample : ℕ → Option (Option ℕ) → Presence → Presence × Bool
take_sample now idle p = (
  record p {
    hid_present = judge idle;
    hid_at = some now;
    hid_reported = if sampler_failed idle then true else p.hid_reported;
  },
  judge idle,
)

unfoldable pub present : ℕ → Bool → Bool → Option (Option ℕ) → Presence → Presence × Bool
unfolding take_sample
present now sample waiting idle p =
    if within presence_window now p.last_spoke
    then (p, true)
    else if not sample
    then (p, p.hid_present)
    else if within hid_ttl now p.hid_at
        && not (not p.hid_present && not (within hid_min now p.hid_at) && waiting)
    then (p, p.hid_present)
    else take_sample now idle p

-- `any(self.sessions.is_live(s) for s in self.sessions.session_ids())`
abbrev pub any_live : (String → Option Bool) → SessionManager → Bool
any_live exists sessions = any (session_ids sessions) (is_live exists sessions)

pub record Outcome : Type 0 where
  pub presence : Presence
  pub manager : KeepAliveManager
  pub reaped : List ℕ

-- the verdict; a roster with no live session never asks for the presence
unfoldable pub verdict :
    (String → Option Bool)
    → SessionManager
    → ℕ
    → Bool
    → Bool
    → Option (Option ℕ)
    → Presence
    → Presence × Bool
unfolding present
verdict exists sessions now reap waiting idle p =
    if any_live exists sessions then present now reap waiting idle p else (p, false)

-- `on` is the setting "keepalive_enabled"; `w` is the world of `set_active` and `v` that of `tick`
unfoldable pub recheck : Bool → Bool → World → World → Presence × Bool → KeepAliveManager → Outcome
unfolding set_enabled set_active tick
recheck reap on w v (p, active) m =
    if reap
    then (let (m1, r1) = set_enabled on m in
        let (m2, r2) = tick v (set_active w active m1) in
        record { presence = p; manager = m2; reaped = r1 ++ r2 })
    else record { presence = p; manager = set_active w active m; reaped = [] }

-- A call that does not sample leaves the cache as it is. Where a call samples, no answer is in the cache
-- that is younger than 2 s, and one younger than 30 s only where it says that the user is away and
-- something waits to be spoken; and nothing was spoken in the last 20 minutes.
pub sample_spacing :
    (now : ℕ) (sample waiting : Bool) (idle : Option (Option ℕ)) (p : Presence)
    → (present now sample waiting idle p).0 ≢ p
    → (sample ≡ true)
      × (within presence_window now p.last_spoke ≡ false)
      × (within hid_min now p.hid_at ≡ false)
      × ((within hid_ttl now p.hid_at ≡ false) ⊎ ((p.hid_present ≡ false) × (waiting ≡ true)))
unfolding present
sample_spacing now sample waiting idle p h = ground (arith, h)

pub record Call : Type 0 where
  pub now : ℕ
  pub sample : Bool
  pub waiting : Bool
  pub idle : Option (Option ℕ)

abbrev pub calls : Presence → Call → Presence × Bool
calls p c = present c.now c.sample c.waiting c.idle p

-- what happens to the presence: a call, and the end of an utterance at a time
pub data Moment : Type 0 where
  asks : Call → Moment
  speaks : ℕ → Moment

abbrev pub after : Presence → List Moment → Presence
after p [] = p
after p (asks c ∷ ms) = after (calls p c).0 ms
after p (speaks now ∷ ms) = after (record p { last_spoke = some now }) ms

-- a call at `t` that may sample, whose sample shows that the user was idle for the whole window
abbrev pub shows_away : ℕ → Call → Bool
shows_away t c = c.sample && c.now == t && not (judge c.idle)

abbrev pub shown_away : ℕ → List Moment → Bool
shown_away t [] = false
shown_away t (asks c ∷ ms) = shows_away t c || shown_away t ms
shown_away t (speaks now ∷ ms) = shown_away t ms

-- where the cache says away, the sample in it, by its time, is one that showed it
abbrev Evidence : Presence → List Moment → Type 0
Evidence p ms = p.hid_present ≡ false → (t : ℕ) × (p.hid_at ≡ some t) × (shown_away t ms ≡ true)

keeps-set_active :
    (w : World) (active : Bool) (m : KeepAliveManager)
    → ((set_active w active m).want ≡ active) × ((set_active w active m).enabled ≡ m.enabled)
unfolding set_active activate deactivate cancel_hold forgive spawn arm_overlap arm_hold
keeps-set_active w true m = (ground arith, ground arith)
keeps-set_active w false m = (ground arith, ground arith)

keeps-tick :
    (v : World) (m : KeepAliveManager)
    → ((tick v m).0.want ≡ m.want) × ((tick v m).0.enabled ≡ m.enabled)
unfolding tick observe_deaths detach_players spawn arm_overlap
keeps-tick v m = (ground arith, ground arith)

enabled-set_enabled : (on : Bool) (m : KeepAliveManager) → (set_enabled on m).0.enabled ≡ on
unfolding set_enabled detach_players cancel_hold
enabled-set_enabled on m = ground arith

-- Behind a recheck the manager's wish is the verdict, and behind one that may reap its setting is the
-- configured one; the invariant of the manager is kept.
pub recheck_lem :
    (reap on active : Bool) (w v : World) (p : Presence) (m : KeepAliveManager)
    → IsWatched m
    → ((recheck reap on w v (p, active) m).manager.want ≡ active)
      × ((recheck reap on w v (p, active) m).manager.enabled ≡ (if reap then on else m.enabled))
      × IsWatched (recheck reap on w v (p, active) m).manager
unfolding recheck step
recheck_lem false on active w v p m x =
    let (wish, setting) = keeps-set_active w active m in
    (wish, setting, step-IsWatched m (asserts w active) x)
recheck_lem true on active w v p m x =
    let m1 = (set_enabled on m).0 in
    let m2 = set_active w active m1 in
    let (wish, setting) = keeps-set_active w active m1 in
    let (wish', setting') = keeps-tick v m2 in
    (
      wish' ∙ wish,
      setting' ∙ setting ∙ enabled-set_enabled on m,
      step-IsWatched m2 (ticks v)
          (step-IsWatched m1 (asserts w active) (step-IsWatched m (configures on) x)),
    )
