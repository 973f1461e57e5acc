-- ===== src/Handlers/Lifecycle.antt =====
-- src/sonari/daemon/features/lifecycle.py, and `_voice_busy_elsewhere` of src/sonari/daemon/host.py. What
-- `_setup_health` reads from the disk is an argument: the cue, where one is due, or `none` where it raised.
-- The checks of the keep-alive and the rendering of spearcons have no part in the state.
use claude_tts.Prelude.{
  String, Bool, true, false, not, ◌&&◌, ◌||◌, Option, none, some, if◌then◌else◌, str_eq, ◌+++◌,
}
use claude_tts.Prelude.Dict
use claude_tts.Sessions.{
  Identity, is_session, folder, number, claim_announce, set_foreground, register, unregister,
}
use claude_tts.Sessions.Terminal.{set_identity}
use claude_tts.Sessions.Text.{truthy}
use claude_tts.History.{reset}
use claude_tts.Host.{Host, Env, flowing, plain}
use claude_tts.Host.Kernel.{stream, put_stream, enqueue, is_quiet_hold}
use claude_tts.KeepGoing.{stream_quiescent, is_stopped}
use claude_tts.Handlers.{or_default, cleared}
use claude_tts.Handlers.Playback.{shown}
use claude_tts.Handlers.Prose.{deliver_resume, deliver_restore}

-- `a == b` of optional ids
abbrev pub same_session : Option String → Option String → Bool
same_session none none = true
same_session (some s) (some t) = str_eq s t
same_session _ _ = false

module _ {A : Type 0} (env : Env A) where
  unfoldable pub voice_busy_elsewhere : String → Host A → Bool
  voice_busy_elsewhere session h =
      let in_flight = elim h.current_item as (λ _. Bool) [
        | none ↦ false
        | some cur ↦ not (str_eq cur.session session)
      ] in
      let owned = elim h.sessions.speaker as (λ _. Bool) [
        | none ↦ false
        | some spk ↦
            not (str_eq spk session)
            && not (stream_quiescent env.has_pending env.exists (Dict.get spk h.streams))
      ] in
      in_flight || owned

  -- a submit that takes or keeps a voice that can be heard lifts a quiet-hold
  unfoldable pub lift_hold : String → Host A → Host A
  unfolding stream
  lift_hold session h =
      let lifted : Host A = record h { voice_state = flowing } in
      if is_quiet_hold h.voice_state && not (is_stopped (Dict.get session h.streams))
      then put_stream env session (record (stream env session lifted) { announce_resume = true })
          lifted
      else h

  -- Policy A: who takes the voice and the workspace
  unfoldable pub take_voice : String → Option String → Host A → Host A
  unfolding voice_busy_elsewhere lift_hold
  take_voice session cwd h =
      let is_speaker = is_session h.sessions.speaker session in
      let advanced = is_speaker && not (same_session h.sessions.speaker h.sessions.foreground) in
      let registered : Host A = record h { sessions = register session cwd h.sessions } in
      let moved : Host A = record h { sessions = set_foreground session cwd h.sessions } in
      if not (voice_busy_elsewhere session h) || is_speaker
      then lift_hold session (if advanced then registered else moved)
      else registered

  unfoldable pub capture_identity : String → Identity → Host A → Host A
  capture_identity session ident h =
      if truthy ident.term_program || truthy ident.tty || truthy ident.iterm_session_id
      then record h { sessions = set_identity session ident h.sessions }
      else h

  -- the name of a new session, said once
  unfoldable pub announce : String → Host A → Host A
  unfolding stream enqueue
  announce session h =
      let st = stream env session h in
      let opened = put_stream env session st h in
      let (sessions, first) = claim_announce session h.sessions in
      let claimed : Host A = record opened { sessions = sessions } in
      if str_eq env.verbosity "quiet"
      then opened
      else if st.stopped
      then put_stream env session (record st { announce_deferred = true }) h
      else if first
      then enqueue env
          (record (plain session "prose"
            (shown (number sessions session)
              +++ ", "
              +++ or_default (folder sessions session) "Another session"
              +++ ".")
            false) { names_session = true })
          claimed
      else claimed

  unfoldable pub maybe_guide_setup : String → Option (Option String) → Host A → Host A
  unfolding stream enqueue
  maybe_guide_setup session health h =
      let st = stream env session h in
      let guided : Host A = put_stream env session (record st { guided = true }) h in
      if st.guided then h else elim health [
        | none ↦ h
        | some cue ↦ elim cue [
          | none ↦ guided
          | some text ↦
              if not (truthy text)
              then guided
              else if st.stopped
              then h
              else enqueue env (plain session "prose" text false) guided
        ]
      ]

  unfoldable pub on_set_foreground : String → Option String → Identity → Host A → Host A
  unfolding take_voice capture_identity
  on_set_foreground session cwd ident h = capture_identity session ident (take_voice session cwd h)

  unfoldable pub on_session_start :
      String → Option String → Identity → Option (Option String) → Host A → Host A
  unfolding on_set_foreground announce maybe_guide_setup deliver_resume deliver_restore
  on_session_start session cwd ident health h =
      let moved = on_set_foreground session cwd ident h in
      let registered : Host A = record moved { sessions = register session cwd moved.sessions } in
      deliver_restore env session (
        deliver_resume env session (maybe_guide_setup session health (announce session registered)))

  unfoldable pub on_session_end : String → Host A → Host A
  unfolding cleared
  on_session_end session h =
      let left : Host A = record h { sessions = unregister session h.sessions } in
      let lifted : Host A =
        if is_session h.sessions.speaker session && is_quiet_hold h.voice_state
        then record left { voice_state = flowing; mark_keep_going_resume = true }
        else left in
      let emptied = elim (Dict.get session h.streams) as (λ _. Host A) [
        | none ↦ lifted
        | some st ↦ cleared session st lifted
      ] in
      record emptied {
        history = reset session emptied.history;
        streams = Dict.remove session emptied.streams;
      }
