-- ===== src/Persistence.antt =====
-- src/sonari/daemon/persistence.py: `PersistenceWriter`, the writer thread with its two events, beside the
-- threads that change the daemon's state under its lock and mark it. The mark is an event of its own:
-- `note_spoken` marks with the lock free, behind the change. The state is the number of changes so far; what
-- `StateStore.save` does with a snapshot is part of the event: it writes the snapshot or it raises.
pub mod Settled
mod Tests
use claude_tts.Prelude.{ℕ, suc, Bool, true, false, not, List, [], ◌∷◌, if◌then◌else◌}

-- where the writer thread is
pub data Phase : Type 0 where
  -- the test of the loop, and the wait for the mark
  looking waits : Phase
  -- behind the wait, before `clear`
  coalesces : Phase
  -- before the snapshot
  snapshots : Phase
  -- before the write of a snapshot
  writes : ℕ → Phase
  exited : Phase

pub record Writer : Type 0 where
  -- the daemon's state, and what is on disk
  pub state : ℕ
  pub saved : ℕ
  pub dirty : Bool
  pub running : Bool
  pub phase : Phase

-- a writer that was started, with nothing to save
abbrev pub started : ℕ → Writer
started n = record { state = n; saved = n; dirty = false; running = true; phase = looking }

pub data Event : Type 0 where
  -- a change of the daemon's state, under its lock
  changes : Event
  -- `mark_dirty`
  marks : Event
  -- a step of the writer thread; the flag says whether a write succeeds
  turns : Bool → Event
  -- `stop`, up to the join
  stops : Event

unfoldable pub change : Writer → Writer
change w = record w { state = suc w.state }

unfoldable pub mark : Writer → Writer
mark w = record w { dirty = true }

unfoldable pub turn : Bool → Writer → Writer
turn ok w = elim w.phase [
  | looking ↦ record w { phase = if w.running then waits else exited }
  | waits ↦
      if not w.dirty
      then w
      else if not w.running
      then record w { phase = looking }
      else record w { phase = coalesces }
  | coalesces ↦ record w { dirty = false; phase = snapshots }
  | snapshots ↦ record w { phase = writes w.state }
  | writes n ↦ record w { saved = if ok then n else w.saved; phase = looking }
  | exited ↦ w
]

unfoldable pub stop : Writer → Writer
stop w = record w { running = false; dirty = true }

unfoldable pub step : Writer → Event → Writer
unfolding change mark turn stop
step w changes = change w
step w marks = mark w
step w (turns ok) = turn ok w
step w stops = stop w

unfoldable pub run : Writer → List Event → Writer
unfolding step
run w [] = w
run w (e ∷ es) = run (step w e) es

-- `flush`, behind the join
unfoldable pub flush : Bool → Writer → Writer
flush ok w = record w { saved = if ok then w.state else w.saved }
