-- ===== src/Handlers/Tests.antt =====
-- Tests of the handlers, and their theorems at a concrete host. The assembler is a flag, and feeds each delta on as
-- one chunk.
use claude_tts.Prelude.{
  filter, not, ℕ, ◌≤◌, ◌≡◌, ◌⊎◌, inl, refl, Bool, true, false, none, some, List, [], ◌∷◌, String,
  arith,
}
use claude_tts.Prelude.Dict
use claude_tts.Prelude.StrSet
use claude_tts.Sessions.Terminal
use claude_tts.Sessions.Terminal.{liveness}
use claude_tts.Prelude.Int.{pos}
use claude_tts.Sessions
use claude_tts.Sessions.{Identity, workspace}
use claude_tts.History
use claude_tts.FaultCue
use claude_tts.SpeechQueue.Copies.{copies}
use claude_tts.SessionStream
use claude_tts.SessionStream.{SessionStream}
use claude_tts.SessionStream.Frontier.{behind}
use claude_tts.Host.{Host, Env, Decision, flowing}
use claude_tts.Host.Kernel
use claude_tts.Host.Kernel.{ask_of, write_ask}
use claude_tts.Host.Voice.{Claimed, idle, goes_on, answers}
use claude_tts.Host.Kept.{frontier_of}
use claude_tts.Host.Moves.{total}
use claude_tts.Host.Failures.{words, one_word_outstanding}
use claude_tts.Handlers.Dispatch.{
  prose, flush, set_foreground, stop_all, reports, presses, Happening, says, voices, handle_message,
  run,
}
use claude_tts.Handlers.Decisions.{on_answer_permission, end_wait, is_set, register_ask}
use claude_tts.Handlers.Teaching.{has_decision}
use claude_tts.Handlers.Playback.{on_stop_all}
use claude_tts.Handlers.Focus.{waiting_target}
use claude_tts.Handlers.Control.{Also, also_loop, also_ids}
use claude_tts.SpeechQueue
use claude_tts.SpeechQueue.{SpeechItem}
use claude_tts.Handlers.Once.{IsOnce, run-IsOnce}
use claude_tts.Handlers.Silence
use claude_tts.Handlers.Silence.{Act, told, turns, heard, noted, IsQuiet, IsSilent, stop_lasts}
use claude_tts.Handlers.Heard.{message_keeps_frontier, run_never_retreats}
use claude_tts.Handlers.Answers.{
  answered, answer_permission_lem, superseded_wait_lem, answer_reaches_wait,
}

program : Unit {0}
unfolding total copies workspace Sessions.focused_session Dict.get ask_of end_wait waiting_target
    liveness Sessions.Terminal.is_live StrSet.has SpeechQueue.has_decision Sessions.session_ids
    Dict.has
program = tt

abbrev env : Env Bool
env = record {
  fresh = false;
  has_pending = λ b. b;
  feed = λ a delta index final. (a, some delta ∷ []);
  exists = λ _. some true;
  spearcon = λ _. none;
  asset = λ _. none;
  pitch_asset = λ kind. kind;
  verbosity = "everything";
  minqueue = some (pos 1);
  submit_ack_enabled = false;
  now = pos 0;
  focus_follow = true;
  supports = λ _. true;
}

abbrev start : Host Bool
start = record {
  sessions = Sessions.init "queue";
  streams = [];
  history = History.init 200;
  next_id = 0;
  pending_heard = [];
  current_item = none;
  last_spoken_session = none;
  last_utterance = none;
  voice_state = flowing;
  backlog_cap = 200;
  pending_decisions = [];
  asks = [];
  catchup = none;
  learn_mode = false;
  hinted = [];
  restore_pending = false;
  mark_keep_going_resume = false;
  deliberate_dead_read = none;
  deliberate_dead_whole = true;
  faultcue = FaultCue.init;
  speak_failure_outstanding = [];
  cancels = 0;
  tones = [];
}

abbrev nowhere : Identity
nowhere = record { term_program = ""; tty = ""; iterm_session_id = "" }

-- a session speaks, its utterance is cut by a stop of all sessions, and it is put back
abbrev events : List Happening
events =
    says (reports "a" (set_foreground none nowhere))
    ∷ says (reports "a" (prose "Hello." 0 false))
    ∷ voices goes_on
    ∷ voices goes_on
    ∷ voices goes_on
    ∷ says (presses stop_all none)
    ∷ voices (answers false false)
    ∷ voices goes_on
    ∷ []

start-IsOnce : IsOnce (start, idle)
unfolding program
start-IsOnce = (λ n. omega arith, λ n new. refl)

run-IsOnce_example : IsOnce (run env events (start, idle))
run-IsOnce_example = run-IsOnce env events (start, idle) start-IsOnce

-- a session speaks, and a new one begins to
abbrev acts : List Act
acts =
    told (reports "a" (prose "Hello." 0 true))
    ∷ turns
    ∷ heard true false
    ∷ noted
    ∷ told (reports "b" (set_foreground none nowhere))
    ∷ told (reports "b" (prose "Me too." 0 true))
    ∷ turns
    ∷ []

stop_lasts_example : IsSilent (Silence.run env acts (on_stop_all env start, idle))
stop_lasts_example = stop_lasts env acts start (refl, (tt, (tt, (tt, (refl, (refl, (tt, tt)))))))

abbrev read_stream : SessionStream Bool
read_stream = record (SessionStream.init false none) { frontier = some (0, 2) }

abbrev read : Host Bool
read = record start { streams = ("a", read_stream) ∷ [] }

message_keeps_frontier_example :
    frontier_of "a" (handle_message env (reports "a" flush) read) ≡ frontier_of "a" read
message_keeps_frontier_example = message_keeps_frontier env (reports "a" flush) read "a" refl refl

run_never_retreats_example :
    behind (frontier_of "a" read) (frontier_of "a" (run env events (read, idle)).0) ≡ true
run_never_retreats_example =
    run_never_retreats env events (read, idle) "a"
      (refl, (refl, (tt, (tt, (tt, (refl, (tt, (tt, tt))))))))

-- the workspace's session waits for an answer
abbrev ask : Decision
ask = record { released = false; behavior = none; text = "Run the tests?" }

abbrev asking : Host Bool
asking = record start {
  sessions = record (Sessions.init "queue") { foreground = some "a" };
  pending_decisions = ("a", 3) ∷ [];
  asks = (3, ask) ∷ [];
  next_id = 3;
}

at_workspace : workspace asking.sessions ≡ some "a"
unfolding program
at_workspace = refl

is_pending : Dict.get "a" asking.pending_decisions ≡ some 3
unfolding program
is_pending = refl

is_asked : ask_of 3 asking.asks ≡ some ask
unfolding program
is_asked = refl

answer_reaches_wait_example :
    (is_set (ask_of 3 (on_answer_permission env (some "allow") asking).asks) ≡ true)
    × ((end_wait env "a" 3 true (on_answer_permission env (some "allow") asking)).1 ≡ some "allow")
answer_reaches_wait_example =
    answer_reaches_wait env "allow" asking {target = "a"} {id = 3} {pd = ask} at_workspace
      is_pending is_asked (inl refl)

answer_permission_lem_example :
    ((on_answer_permission env (some "deny") asking).asks ≡ asking.asks)
    ⊎ ((target : String) × (id : ℕ) × (workspace asking.sessions ≡ some target)
        × (Dict.get target asking.pending_decisions ≡ some id)
        × ((◌≡◌ {A = String} "deny" "allow") ⊎ (◌≡◌ {A = String} "deny" "deny"))
        × ((on_answer_permission env (some "deny") asking).asks
            ≡ write_ask id (answered "deny") asking.asks))
answer_permission_lem_example = answer_permission_lem env "deny" asking

superseded_wait_lem_example :
    (is_set (ask_of 3 (register_ask env "a" 4 "Read." asking).asks) ≡ true)
    × ((end_wait env "a" 3 true (register_ask env "a" 4 "Read." asking)).1 ≡ none)
    × ((end_wait env "a" 3 true (register_ask env "a" 4 "Read." asking)).0
        ≡ register_ask env "a" 4 "Read." asking)
    × (Dict.get "a" (register_ask env "a" 4 "Read." asking).pending_decisions ≡ some 4)
    × (is_set (ask_of 4 (register_ask env "a" 4 "Read." asking).asks) ≡ false)
superseded_wait_lem_example =
    superseded_wait_lem env "a" "Read." 4 3 true asking {pd = ask} is_pending is_asked refl refl

-- the first session that waits has no decision, the second has one
abbrev queued : List SpeechItem → SessionStream Bool
queued items = record (SessionStream.init false none) {
  queue = record { cap = none; items = items };
}

abbrev spoken_item : Bool → ℕ → String → SpeechItem
spoken_item decision id session = record {
  id = id;
  session = session;
  kind = "prose";
  text = "Done.";
  is_decision = decision;
  control_cue = false;
  names_session = false;
  audio_path = none;
  forward = true;
  voice = none;
  render_id = none;
  catchup_burn = false;
  prelude = [];
}

abbrev waiting : Host Bool
waiting = record start {
  streams =
      ("a", queued (spoken_item false 1 "a" ∷ []))
      ∷ ("b", queued (spoken_item true 2 "b" ∷ []))
      ∷ [];
}

waiting_target_test : waiting_target env none waiting ≡ some "b"
unfolding program
waiting_target_test = refl

abbrev gathered : Host Bool
gathered = record waiting {
  sessions = record (Sessions.init "queue") { sessions = ("a", none) ∷ ("b", none) ∷ [] };
}

abbrev tiers : Also
tiers = also_loop env gathered (also_ids env gathered ("a" ∷ []))

abbrev undecided : Also
undecided =
    also_loop env gathered
      (filter (λ t. not (has_decision env t gathered)) (also_ids env gathered ("a" ∷ [])))

-- two utterances of a session raise, and one of another is completed in between
abbrev in_hand : String → Claimed
in_hand s = record { item = spoken_item false 7 s; text = "Done."; prev = none }

abbrev endings : List (Claimed × Bool × Bool)
endings = (in_hand "a", false, true) ∷ (in_hand "b", true, false) ∷ (in_hand "a", false, true) ∷ []

words_test : words env "a" endings start ≡ 1
unfolding program words Dict.put Kernel.pending Kernel.drop_pending SpeechQueue.enqueue
    StrSet.discard StrSet.add
words_test = refl

one_word_outstanding_example : words env "a" endings start ≤ 1
one_word_outstanding_example = one_word_outstanding env "a" endings start (refl, (refl, (refl, tt)))
