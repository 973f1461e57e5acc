-- ===== src/Handlers/Jumps.antt =====
-- `on_jump_decision` and `on_repeat_last` of src/sonari/daemon/features/playback.py.
use claude_tts.Prelude.{String, Bool, true, false, not, ◌&&◌, Option, none, some, if◌then◌else◌}
use claude_tts.Prelude.Dict
use claude_tts.Sessions.{is_session, workspace, focus}
use claude_tts.Sessions.Terminal.{liveness}
use claude_tts.SpeechQueue
use claude_tts.SpeechQueue.{SpeechItem}
use claude_tts.SessionStream.{SessionStream}
use claude_tts.History.{HistoryEntry}
use claude_tts.Host.{Host, Env, flowing, Decision, plain}
use claude_tts.Host.Kernel.{enqueue, cue, pending, drop_pending, asked}
use claude_tts.KeepGoing.{is_dead, is_stopped}
use claude_tts.Handlers.{or_session, cancel, sanction, answer, lead}
use claude_tts.Handlers.Playback.{hear_current, closed_word}

abbrev pub queues_decision : {A : Type 0} → Option (SessionStream A) → Bool
queues_decision none = false
queues_decision (some st) = SpeechQueue.has_decision st.queue

module _ {A : Type 0} (env : Env A) where
  -- the jump finds nothing queued
  unfoldable pub miss_decision : Option String → Option Decision → Host A → Host A
  unfolding enqueue cue
  miss_decision target ask h =
      let to = or_session h.sessions.speaker target in
      let word = elim ask as (λ _. String) [ none ↦ "No decision here." | some pd ↦ pd.text ] in
      elim to [
        | none ↦ cue env "error" none none h
        | some s ↦ answer env s word (sanction env (some s) false h).0
      ]

  -- the queue of the target is cut down to its decision
  unfoldable pub seek_decision : String → Host A → Host A
  seek_decision target h = elim (Dict.get target h.streams) [
    | none ↦ h
    | some st ↦
        let (q, dropped) = SpeechQueue.jump_to_decision st.queue in
        let q' = if st.stopped then (SpeechQueue.claim_head_as_control_cue q).0 else q in
        record h {
          streams = Dict.put target (record st { queue = q' }) h.streams;
          pending_heard = drop_pending dropped h.pending_heard;
        }
  ]

  unfoldable pub hit_decision : String → Host A → Host A
  unfolding cue hear_current seek_decision lead
  hit_decision target h =
      let crossed = not (is_session h.sessions.speaker target) in
      let engaged : Host A = record h { voice_state = flowing } in
      let turned =
        if crossed
        then record engaged { sessions = focus target none engaged.sessions }
        else hear_current engaged in
      let cut = cancel (seek_decision target turned) in
      if crossed && is_dead (liveness env.exists h.sessions target)
      then cue env "error" (some closed_word) (or_session h.sessions.speaker (workspace h.sessions))
          h
      else if crossed
      then lead env target cut
      else cut

  unfoldable pub on_jump_decision : Host A → Host A
  unfolding miss_decision hit_decision
  on_jump_decision h = elim (workspace h.sessions) [
    | none ↦ miss_decision none none h
    | some target ↦
        if queues_decision (Dict.get target h.streams)
        then hit_decision target h
        else miss_decision (some target) (asked target h) h
  ]

  -- a playable workspace answers where nobody has the voice
  unfoldable pub repeat_target : Host A → Option String
  repeat_target h = elim h.sessions.speaker [
    | some s ↦ some s
    | none ↦ elim (workspace h.sessions) [
      | none ↦ none
      | some ws ↦ if is_stopped (Dict.get ws h.streams) then none else some ws
    ]
  ]

  -- the interrupted item, in front of its own queue under a new id
  abbrev pub again : SpeechItem → Option HistoryEntry → Host A → Host A
  again cur e = enqueue env (record (plain cur.session cur.kind cur.text cur.is_decision) {
    entry = e;
    control_cue = cur.control_cue;
    names_session = cur.names_session;
    audio_path = cur.audio_path;
    forward = cur.forward;
    at_front = true;
    prelude = cur.prelude;
  })

  unfoldable pub repeat_utterance : String → String × Option String → Host A → Host A
  unfolding enqueue
  repeat_utterance to (text, audio_path) h =
      let cut = cancel h in
      let parked = elim h.current_item as (λ _. Host A) [
        | none ↦ cut
        | some cur ↦ again cur (pending cur.id h.pending_heard) cut
      ] in
      enqueue env
        (record (plain to "prose" text false) {
          control_cue = true;
          at_front = true;
          audio_path = audio_path;
        })
        parked

  unfoldable pub on_repeat_last : Host A → Host A
  unfolding repeat_target repeat_utterance cue enqueue
  on_repeat_last h = elim (repeat_target h) [
    | none ↦ cue env "error" none none h
    | some to ↦
        let sanctioned = (sanction env (some to) false h).0 in
        elim sanctioned.last_utterance [
          | none ↦ answer env to "Nothing to repeat." sanctioned
          | some last ↦ repeat_utterance to last sanctioned
        ]
  ]
