-- ===== src/KeepGoing/Tests.antt =====
-- Tests of the voice policy, and its theorems at a concrete host. The assembler is a flag: text is pending.
use claude_tts.Prelude.{
  ℕ, String, ◌≡◌, ◌⊎◌, refl, Bool, true, false, Option, none, some, List, [], ◌∷◌,
}
use claude_tts.Prelude.Dict.{Dict}
use claude_tts.Prelude.Dict
use claude_tts.Prelude.StrSet
use claude_tts.Sessions.{SessionManager, is_session, session_ids}
use claude_tts.Sessions
use claude_tts.Sessions.Terminal.{liveness}
use claude_tts.SpeechQueue
use claude_tts.SpeechQueue.{SpeechItem}
use claude_tts.SessionStream
use claude_tts.SessionStream.{SessionStream}
use claude_tts.KeepGoing
use claude_tts.Host.{Host, flowing}
use claude_tts.History
use claude_tts.FaultCue
use claude_tts.KeepGoing.{
  is_dead, candidate, select_keep_going, release_dead_speaker, stream_quiescent,
}
use claude_tts.KeepGoing.Selection.{release_dead_speaker_lem}

program : Unit {0}
unfolding select_keep_going release_dead_speaker KeepGoing.candidate KeepGoing.least liveness
    Dict.get session_ids StrSet.has SpeechQueue.oldest_id
program = tt

abbrev item : ℕ → String → SpeechItem
item id session = record {
  id = id;
  session = session;
  kind = "prose";
  text = "Done.";
  is_decision = false;
  control_cue = false;
  names_session = false;
  audio_path = none;
  forward = true;
  voice = none;
  render_id = none;
  catchup_burn = false;
  prelude = [];
}

abbrev stream_of : List SpeechItem → SessionStream Bool
stream_of items = record (SessionStream.init false none) {
  queue = record { cap = none; items = items };
}

abbrev streams : Dict (SessionStream Bool)
streams =
    ("a", stream_of [])
    ∷ ("b", stream_of (item 7 "b" ∷ []))
    ∷ ("c", stream_of (item 5 "c" ∷ []))
    ∷ []

abbrev roster : SessionManager
roster = record (Sessions.init "queue") {
  sessions = ("a", none) ∷ ("b", none) ∷ ("c", none) ∷ [];
  speaker = some "a";
  tty_evicted = "a" ∷ [];
}

abbrev pends : Bool → Bool
pends b = b

abbrev all_there : String → Option Bool
all_there _ = some true

abbrev host : Host Bool
host = record {
  sessions = roster;
  streams = streams;
  history = History.init 200;
  next_id = 0;
  pending_heard = [];
  current_item = none;
  last_spoken_session = none;
  last_utterance = none;
  voice_state = flowing;
  backlog_cap = 200;
  pending_decisions = [];
  asks = [];
  catchup = none;
  learn_mode = false;
  hinted = [];
  restore_pending = false;
  mark_keep_going_resume = false;
  deliberate_dead_read = none;
  deliberate_dead_whole = true;
  faultcue = FaultCue.init;
  speak_failure_outstanding = [];
  cancels = 0;
  tones = [];
}

oldest_test : select_keep_going pends all_there streams roster ≡ some "c"
unfolding program
oldest_test = refl

release_test : (release_dead_speaker pends all_there host (some "a") none).1 ≡ true
unfolding program
release_test = refl

release_dead_speaker_lem_example :
    (((release_dead_speaker pends all_there host (some "a") none).1 ≡ true)
      × (is_dead (liveness all_there host.sessions "a") ≡ true)
      × ((release_dead_speaker pends all_there host (some "a") none).0.sessions
          ≡ record host.sessions { speaker = none })
      × ((release_dead_speaker pends all_there host (some "a") none).0.streams ≡ host.streams))
    ⊎ (((release_dead_speaker pends all_there host (some "a") none).1 ≡ false)
        × ((release_dead_speaker pends all_there host (some "a") none).0.sessions ≡ host.sessions)
        × ((is_dead (liveness all_there host.sessions "a") ≡ false)
            ⊎ ((is_session host.deliberate_dead_read "a" ≡ true)
                × (stream_quiescent {A = Bool} pends all_there none ≡ false))))
release_dead_speaker_lem_example = release_dead_speaker_lem pends all_there host "a" none
