-- ===== src/Speaker.antt =====
-- src/sonari/speaker.py: `Speaker.speak`, `cancel` and `cancel_epoch`, for any number of threads that call
-- them. Each critical section is one event; what the operating system answers (the child that starts,
-- its exit) is part of the event. The signal to the child, which `cancel` sends behind its section, is one
-- event with it. Children are numbers that stand for the process objects.
pub mod Voice
mod Tests
use claude_tts.Prelude.{
  ℕ, suc, Bool, true, false, not, Option, none, some, List, [], ◌∷◌, ◌==◌, if◌then◌else◌, is_some,
}

-- where a thread is in its call of `speak`; the numbers are the baseline epoch and the child
pub data Phase : Type 0 where
  resting : Phase
  -- before `_play_lock`
  waiting : Option ℕ → Phase
  -- in the runner
  spawning : ℕ → Phase
  -- in `proc.wait`
  playing : ℕ → ℕ → Phase
  -- behind the wait; the flag is `returncode == 0`
  ended : ℕ → Bool → Phase
  -- returned True, returned False, or raised `SpeakFailure`
  completed : Phase
  interrupted : ℕ → Phase
  failed : Phase

pub record Speaker : Type 0 where
  pub cancel_epoch : ℕ
  pub current : Option ℕ
  -- the thread that holds `_play_lock`
  pub play_lock : Option ℕ
  pub phase : ℕ → Phase
  -- the children that were told to terminate
  pub terminated : ℕ → Bool

abbrev pub init : Speaker
init = record {
  cancel_epoch = 0;
  current = none;
  play_lock = none;
  phase = λ _. resting;
  terminated = λ _. false;
}

pub data Event : Type 0 where
  -- a thread calls `speak` with a baseline; the flag says whether there is a runner
  calls : ℕ → Bool → Option ℕ → Event
  acquires : ℕ → Event
  spawns : ℕ → Option ℕ → Event
  exits : ℕ → Bool → Event
  judges : ℕ → Event
  cancels : Event

-- the thread goes on to the given phase
abbrev pub at : ℕ → Phase → (ℕ → Phase) → ℕ → Phase
at i ph phase j = if i == j then ph else phase j

abbrev pub mark : ℕ → (ℕ → Bool) → ℕ → Bool
mark p marks q = if p == q then true else marks q

abbrev pub is_proc : Option ℕ → ℕ → Bool
is_proc none p = false
is_proc (some q) p = q == p

unfoldable pub call : ℕ → Bool → Option ℕ → Speaker → Speaker
call i has_runner base s = record s {
  phase = at i (if has_runner then waiting base else failed) s.phase;
}

abbrev pub baseline : Option ℕ → ℕ → ℕ
baseline none epoch = epoch
baseline (some e) epoch = e

-- the play lock is free, and the baseline is read under the lock of the handle
unfoldable pub acquire : ℕ → Option ℕ → Speaker → Speaker
acquire i base s = if is_some s.play_lock then s else record s {
  play_lock = some i;
  phase = at i (spawning (baseline base s.cancel_epoch)) s.phase;
}

-- the runner returns, and the epoch is compared under the lock of the handle
unfoldable pub spawned : ℕ → ℕ → Option ℕ → Speaker → Speaker
spawned i epoch none s = record s { play_lock = none; phase = at i failed s.phase }
spawned i epoch (some p) s =
    if s.cancel_epoch == epoch
    then record s { current = some p; phase = at i (playing epoch p) s.phase }
    else record s {
      play_lock = none;
      phase = at i (interrupted epoch) s.phase;
      terminated = mark p s.terminated;
    }

-- the wait is over, or it timed out, and the handle is given up
unfoldable pub exited : ℕ → ℕ → ℕ → Bool → Speaker → Speaker
exited i epoch p clean s = record s {
  current = if is_proc s.current p then none else s.current;
  phase = at i (ended epoch clean) s.phase;
}

-- the exit code, and for one that is not 0 the epoch again
unfoldable pub judged : ℕ → ℕ → Bool → Speaker → Speaker
judged i epoch clean s = record s {
  play_lock = none;
  phase =
      at i
        (if clean then completed else if s.cancel_epoch == epoch then failed else interrupted epoch)
        s.phase;
}

unfoldable pub cancel : Speaker → Speaker
cancel s = record s {
  cancel_epoch = suc s.cancel_epoch;
  terminated = elim s.current [ none ↦ s.terminated | some p ↦ mark p s.terminated ];
}

-- an event that does not fit the phase of its thread does nothing
unfoldable pub step : Speaker → Event → Speaker
unfolding call acquire spawned exited judged cancel
step s (calls i has_runner base) = elim (s.phase i) [ resting ↦ call i has_runner base s | _ ↦ s ]
step s (acquires i) = elim (s.phase i) [ waiting base ↦ acquire i base s | _ ↦ s ]
step s (spawns i p) = elim (s.phase i) [ spawning e ↦ spawned i e p s | _ ↦ s ]
step s (exits i clean) = elim (s.phase i) [ playing e p ↦ exited i e p clean s | _ ↦ s ]
step s (judges i) = elim (s.phase i) [ ended e clean ↦ judged i e clean s | _ ↦ s ]
step s cancels = cancel s

unfoldable pub run : Speaker → List Event → Speaker
unfolding step
run s [] = s
run s (e ∷ es) = run (step s e) es
