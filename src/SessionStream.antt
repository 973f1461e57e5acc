-- ===== src/SessionStream.antt =====
-- src/sonari/session_stream.py: `SessionStream`, the speech state of one session. `A` is the type of the
-- assembler of streamed text (src/sonari/assembler.py), which the stream only replaces by a fresh one.
pub mod Frontier
mod Tests
use claude_tts.Prelude.{
  String, Bool, true, false, not, ◌&&◌, ◌||◌, Option, none, some, List, [], ◌∷◌, if◌then◌else◌,
  is_some, ℕ,
}
use claude_tts.SpeechQueue
use claude_tts.SpeechQueue.{SpeechQueue}
use claude_tts.History.{HistoryEntry, Key, key_lt}

pub record SessionStream (A : Type 0) : Type 0 where
  pub queue : SpeechQueue
  pub assembler : A
  pub prose_buffer : List (String × HistoryEntry)
  pub options : Option String
  pub nav_cursor : Option ℕ
  pub nav_turn : Option ℕ
  pub stopped : Bool
  pub announce_resume : Bool
  pub announce_deferred : Bool
  pub warned_immediate : Bool
  pub guided : Bool
  pub frontier : Option Key

-- The part that is written to disk; a key is a list of two there, and a missing field is `none`.
pub record SavedStream : Type 0 where
  pub frontier : Option Key
  pub stopped : Option Bool

module _ {A : Type 0} (fresh : A) where
  abbrev pub init : Option ℕ → SessionStream A
  init cap = record {
    queue = SpeechQueue.init cap;
    assembler = fresh;
    prose_buffer = [];
    options = none;
    nav_cursor = none;
    nav_turn = none;
    stopped = false;
    announce_resume = false;
    announce_deferred = false;
    warned_immediate = false;
    guided = false;
    frontier = none;
  }

  unfoldable pub reset_for_new_prompt : SessionStream A → SessionStream A
  reset_for_new_prompt s = record s {
    assembler = fresh;
    prose_buffer = [];
    options = none;
    nav_cursor = none;
    nav_turn = none;
  }

-- `self.frontier is None or key > self.frontier`
abbrev pub is_ahead : Option Key → Key → Bool
is_ahead none k = true
is_ahead (some f) k = key_lt f k

unfoldable pub advance_frontier : {A : Type 0} → Option Key → SessionStream A → SessionStream A
advance_frontier none s = s
advance_frontier (some k) s = if is_ahead s.frontier k then record s { frontier = some k } else s

unfoldable pub to_state : {A : Type 0} → SessionStream A → SavedStream
to_state s = record { frontier = s.frontier; stopped = some s.stopped }

abbrev pub or_false : Option Bool → Bool
or_false none = false
or_false (some b) = b

unfoldable pub load_state : {A : Type 0} → SavedStream → SessionStream A → SessionStream A
load_state saved s = record s { frontier = saved.frontier; stopped = or_false saved.stopped }
