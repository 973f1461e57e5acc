-- ===== src/Handlers/Playback.antt =====
-- src/sonari/daemon/features/playback.py.
use claude_tts.Prelude.{
  ℕ, String, true, false, not, ◌&&◌, Option, none, some, [], length, ◌==◌, if◌then◌else◌, is_some,
  str_eq, ◌+++◌, decimal,
}
use claude_tts.Prelude.Dict
use claude_tts.Prelude.Dict.{Dict}
use claude_tts.Sessions.{folder, number, is_session, workspace, claim_announce}
use claude_tts.Sessions.Terminal.{is_live}
use claude_tts.Sessions.Text.{truthy}
use claude_tts.SessionStream.{advance_frontier}
use claude_tts.History.{unheard_from_frontier, newest_key}
use claude_tts.Host.{Host, Env, flowing, quiet_hold, stopped_all, plain, cue_ask}
use claude_tts.Host.Kernel.{stream, put_stream, enqueue, cue, pending, mark_heard, is_flowing}
use claude_tts.Host.Kernel.{silenced}
use claude_tts.KeepGoing.{is_stopped}
use claude_tts.Handlers.{or_default, cancel, is_current, cleared, touch, sanction, answer}

-- `cur`'s entry, where it waits, is heard
unfoldable pub hear_current : {A : Type 0} → Host A → Host A
hear_current h = elim h.current_item [
  | none ↦ h
  | some cur ↦ elim (pending cur.id h.pending_heard) [
    | none ↦ h
    | some e ↦ record h { history = mark_heard cur.session e h.history }
  ]
]

-- the text of a number that may be missing, as `format` prints it
abbrev pub shown : Option ℕ → String
shown none = "None"
shown (some n) = decimal n

abbrev pub closed_word : String
closed_word = "That session closed."

module _ {A : Type 0} (env : Env A) where
  unfoldable pub on_stop : Host A → Host A
  unfolding cleared
  on_stop h = cancel (elim h.sessions.foreground [
    | none ↦ h
    | some fg ↦ elim (Dict.get fg h.streams) [ none ↦ h | some st ↦ cleared fg st h ]
  ])

  unfoldable pub on_skip : Host A → Host A
  unfolding hear_current
  on_skip h = cancel (hear_current h)

  -- `pile(session)`: how many entries are ahead of the frontier
  unfoldable pub pile : String → Host A → ℕ
  unfolding stream
  pile session h =
      length (unheard_from_frontier h.history session (stream env session h).frontier).0

  -- the pile of a flowing speaker away from the workspace
  unfoldable pub speaker_pile : Option String → Host A → Host A × Option String
  unfolding pile
  speaker_pile ws h = elim h.sessions.speaker [
    | none ↦ (h, none)
    | some spk ↦
        if is_flowing h.voice_state && not (is_session ws spk)
        then (touch env spk h, if pile spk h == 0 then none else some spk)
        else (h, none)
  ]

  unfoldable pub skip_target : Host A → Host A × Option String
  unfolding speaker_pile
  skip_target h = elim (workspace h.sessions) [
    | none ↦ speaker_pile none h
    | some ws ↦
        let fallen = speaker_pile (some ws) (touch env ws h) in
        if pile ws h == 0 then fallen else (touch env ws h, some ws)
  ]

  unfoldable pub skip_nothing : Host A → Host A
  unfolding enqueue cue
  skip_nothing h =
      let to = elim (workspace h.sessions) as (λ _. Option String) [
        | none ↦ h.sessions.speaker
        | some ws ↦ some ws
      ] in
      elim to [
        | none ↦ cue env "error" none none h
        | some s ↦ answer env s "Nothing to skip." (sanction env (some s) false h).0
      ]

  unfoldable pub skip_pile_of : String → Host A → Host A
  unfolding enqueue cleared stream pile
  skip_pile_of target h =
      let count = pile target h in
      let ahead = advance_frontier (newest_key h.history target) (stream env target h) in
      let emptied = cleared target ahead h in
      let cut = if is_current target emptied then cancel emptied else emptied in
      let where_to = elim (folder cut.sessions target) as (λ _. String) [
        | none ↦ "in another session"
        | some f ↦ if truthy f then "in " +++ f else "in another session"
      ] in
      let dest = elim cut.sessions.speaker as (λ _. String) [ none ↦ target | some spk ↦ spk ] in
      answer env dest
        ("Skipping "
          +++ decimal count
          +++ (if count == 1 then " item " else " items ")
          +++ where_to
          +++ ".")
        (sanction env (some dest) false cut).0

  unfoldable pub on_skip_pile : Host A → Host A
  unfolding skip_target skip_nothing skip_pile_of
  on_skip_pile h =
      let (seen, target) = skip_target h in
      elim target [ none ↦ skip_nothing seen | some s ↦ skip_pile_of s seen ]

  -- the session's own name, where a stop had deferred it
  unfoldable pub announce_deferred : String → Host A → Host A
  unfolding enqueue
  announce_deferred fg h =
      let st = stream env fg h in
      let (sessions, first) = claim_announce fg h.sessions in
      let opened : Host A =
        put_stream env fg (record st { announce_deferred = false })
          (record h { sessions = sessions }) in
      if st.announce_deferred
        && not (str_eq env.verbosity "quiet")
        && is_live env.exists h.sessions fg
        && first
      then enqueue env
          (record (plain fg "prose"
            (shown (number opened.sessions fg)
              +++ ", "
              +++ or_default (folder opened.sessions fg) "Another session"
              +++ ".")
            false) { names_session = true })
          opened
      else h

  unfoldable pub start_session : String → Host A → Host A
  unfolding cleared enqueue announce_deferred
  start_session fg h =
      let st = stream env fg h in
      let started : Host A = record h {
        voice_state = flowing;
        sessions = record h.sessions { speaker = some fg };
      } in
      let emptied = cleared fg (record st { stopped = false; prose_buffer = [] }) started in
      announce_deferred fg (answer env fg "Resumed." (sanction env (some fg) false emptied).0)

  unfoldable pub stop_session : String → Host A → Host A
  unfolding enqueue
  stop_session fg h =
      let st = stream env fg h in
      let held : Host A =
        put_stream env fg (record st { stopped = true; announce_resume = false })
          (record h { voice_state = quiet_hold }) in
      let cut = if is_current fg held then cancel held else held in
      enqueue env (cue_ask false fg "Stopped.") cut

  unfoldable pub stop_target : Host A → Option String
  stop_target h = elim (workspace h.sessions) [
    | none ↦ h.sessions.speaker
    | some ws ↦ if is_stopped (Dict.get ws h.streams) then some ws else h.sessions.speaker
  ]

  unfoldable pub on_stop_session : Host A → Host A
  unfolding stop_target start_session stop_session cue stream
  on_stop_session h = elim (stop_target h) [
    | none ↦ cue env "error" none none h
    | some fg ↦ if (stream env fg h).stopped then start_session fg h else stop_session fg h
  ]

  abbrev pub silence_all : Host A → Host A
  silence_all h = record h { streams = silenced h.streams; voice_state = stopped_all }

  -- the cut and the confirmation of a stop of all sessions
  unfoldable pub confirm_silence : Host A → Host A
  unfolding enqueue
  confirm_silence held =
      let cut = if is_some held.current_item then cancel held else held in
      elim cut.sessions.speaker [
        | none ↦ cut
        | some spk ↦
            enqueue env (cue_ask false spk "All stopped.")
              (put_stream env spk (record (stream env spk cut) { stopped = true }) cut)
      ]

  unfoldable pub on_stop_all : Host A → Host A
  unfolding confirm_silence
  on_stop_all h = confirm_silence (silence_all h)
