-- ===== src/Host.antt =====
-- The state of the daemon: `SessionState` of src/sonari/daemon/state.py and the fields of `SpeechDaemon` in
-- src/sonari/daemon/host.py that its handlers and the voice read and write. A pending heard-marker holds
-- the history entry itself in the source; here it holds a copy, and `mark_heard` of Host/Kernel.antt writes
-- to the entry of the transcript with the same key and stamp.
pub mod Kernel
pub mod Spoken
pub mod Voice
pub mod Moves
pub mod Ids
pub mod Kept
pub mod Calls
pub mod Utterances
pub mod Claims
pub mod Turns
pub mod Failures
use claude_tts.Prelude.{ℕ, String, Bool, true, false, Option, none, some, List, []}
use claude_tts.Prelude.Dict.{Dict}
use claude_tts.Prelude.Int.{ℤ}
use claude_tts.Sessions.{Identity, SessionManager}
use claude_tts.SessionStream.{SessionStream}
use claude_tts.History.{HistoryEntry, SessionHistory, Key}
use claude_tts.SpeechQueue.{SpeechItem}
use claude_tts.FaultCue.{FaultCue}

-- "flowing", "quiet-hold" and "stopped-all"
pub data VoiceState : Type 0 where
  flowing quiet_hold stopped_all : VoiceState

-- A blocking permission ask, whose `event` is set where `released` is.
pub record Decision : Type 0 where
  pub released : Bool
  pub behavior : Option String
  pub text : String

-- the catch-up in flight, as far as the voice reads it
pub record Catchup : Type 0 where
  pub target : String
  pub slice_end : Key
  pub render_id : Option ℕ
  pub ended : Bool

-- An ask is shared by `_pending_decisions` and the thread that waits for it: `asks` is the store of the asks, each
-- under the id of its item, and `pending_decisions` holds the ids.
-- `cancels` counts the calls of `speaker.cancel`, `tones` holds those of `speaker.transient`, newest first.
pub record Host (A : Type 0) : Type 0 where
  pub sessions : SessionManager
  pub streams : Dict (SessionStream A)
  pub history : SessionHistory
  pub next_id : ℕ
  pub pending_heard : List (ℕ × HistoryEntry)
  pub current_item : Option SpeechItem
  pub last_spoken_session : Option String
  pub last_utterance : Option (String × Option String)
  pub voice_state : VoiceState
  pub backlog_cap : ℕ
  pub pending_decisions : Dict ℕ
  pub asks : List (ℕ × Decision)
  pub catchup : Option Catchup
  pub learn_mode : Bool
  pub hinted : List String
  pub restore_pending : Bool
  pub mark_keep_going_resume : Bool
  pub deliberate_dead_read : Option String
  pub deliberate_dead_whole : Bool
  pub faultcue : FaultCue
  pub speak_failure_outstanding : List String
  pub cancels : ℕ
  pub tones : List String

-- What lies outside: the assembler of streamed text (`feed` gives `none` for a paragraph break), the probe of
-- the file system, the cache of spearcons, the assets, the configuration, the clock
-- and whether the back end can raise the window of a terminal.
pub record Env (A : Type 0) : Type 0 where
  pub fresh : A
  pub has_pending : A → Bool
  pub feed : A → String → ℕ → Bool → A × List (Option String)
  pub exists : String → Option Bool
  pub spearcon : String → Option String
  pub asset : String → Option String
  pub pitch_asset : String → String
  pub verbosity : String
  pub minqueue : Option ℤ
  pub submit_ack_enabled : Bool
  pub now : ℤ
  pub focus_follow : Bool
  pub supports : Identity → Bool

-- the arguments of `_enqueue`
pub record Ask : Type 0 where
  pub session : String
  pub kind : String
  pub text : String
  pub is_decision : Bool
  pub entry : Option HistoryEntry
  pub control_cue : Bool
  pub at_front : Bool
  pub names_session : Bool
  pub audio_path : Option String
  pub forward : Bool
  pub voice : Option String
  pub render_id : Option ℕ
  pub catchup_burn : Bool
  pub after_id : Option ℕ
  pub prelude : List String

-- the arguments without a default, and the defaults of the others
abbrev pub plain : String → String → String → Bool → Ask
plain session kind text is_decision = record {
  session = session;
  kind = kind;
  text = text;
  is_decision = is_decision;
  entry = none;
  control_cue = false;
  at_front = false;
  names_session = false;
  audio_path = none;
  forward = false;
  voice = none;
  render_id = none;
  catchup_burn = false;
  after_id = none;
  prelude = [];
}

-- a control cue, at the back or the front of the queue
abbrev pub cue_ask : Bool → String → String → Ask
cue_ask front session text = record (plain session "prose" text false) {
  control_cue = true;
  at_front = front;
}

-- what a session has said, read out in turn
abbrev pub forward_ask : String → String → String → Bool → HistoryEntry → Ask
forward_ask session kind text is_decision entry = record (plain session kind text is_decision) {
  entry = some entry;
  forward = true;
}
