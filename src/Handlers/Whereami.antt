-- ===== src/Handlers/Whereami.antt =====
-- `on_where_am_i` and `on_announce` of src/sonari/daemon/features/control.py.
use claude_tts.Prelude.{
  String, Bool, true, false, not, Option, none, some, [], ◌∷◌, if◌then◌else◌, is_some, ◌+++◌,
}
use claude_tts.Prelude.Dict
use claude_tts.Sessions.{workspace, is_session}
use claude_tts.Sessions.Text.{truthy}
use claude_tts.Host.{Host, Env, VoiceState, flowing, quiet_hold, stopped_all, cue_ask}
use claude_tts.Host.Kernel
use claude_tts.Host.Kernel.{enqueue, cue}
use claude_tts.KeepGoing.{is_stopped}
use claude_tts.Handlers.{cancel, sanction, reply, strip, answer}
use claude_tts.Handlers.Jumps.{again}
use claude_tts.Handlers.Teaching.{has_decision}
use claude_tts.Handlers.Control.{numbered, pointer_mark, entry_clauses, also_clause}

abbrev pub idle_word : VoiceState → String
idle_word stopped_all = "All stopped."
idle_word quiet_hold = "On hold."
idle_word flowing = "Nothing playing."

abbrev pub state_word : VoiceState → Bool → String
state_word stopped_all stopped = "all stopped"
state_word quiet_hold stopped = "on hold"
state_word flowing stopped = if stopped then "stopped" else "playing"

module _ {A : Type 0} (env : Env A) where
  -- where nobody has the voice
  unfoldable pub idle_readout : String → Host A → String
  unfolding numbered pointer_mark entry_clauses also_clause
  idle_readout ws h =
      idle_word h.voice_state
      +++ " Keyboard: "
      +++ numbered env h ws
      +++ pointer_mark env h ws
      +++ entry_clauses env h ws
      +++ "."
      +++ also_clause env h (ws ∷ [])

  -- the voice and the keyboard at one session
  unfoldable pub unified_readout : String → Host A → String
  unfolding numbered pointer_mark also_clause
  unified_readout fg h =
      "Voice and keyboard: "
      +++ numbered env h fg
      +++ ", "
      +++ state_word h.voice_state (is_stopped (Dict.get fg h.streams))
      +++ pointer_mark env h fg
      +++ (if has_decision env fg h then ", decision" else "")
      +++ "."
      +++ also_clause env h (fg ∷ [])

  unfoldable pub diverged_readout : String → String → Host A → String
  unfolding numbered pointer_mark entry_clauses also_clause
  diverged_readout fg ws h =
      "Voice: "
      +++ numbered env h fg
      +++ ", "
      +++ state_word h.voice_state (is_stopped (Dict.get fg h.streams))
      +++ pointer_mark env h fg
      +++ (if has_decision env fg h then ", decision" else "")
      +++ ". Keyboard: "
      +++ numbered env h ws
      +++ pointer_mark env h ws
      +++ entry_clauses env h ws
      +++ "."
      +++ also_clause env h (fg ∷ ws ∷ [])

  unfoldable pub readout : String → Host A → String
  unfolding unified_readout diverged_readout
  readout fg h = elim (workspace h.sessions) [
    | none ↦ unified_readout fg h
    | some ws ↦ if is_session (some ws) fg then unified_readout fg h else diverged_readout fg ws h
  ]

  -- the interrupted item goes back, but for one of a catch-up
  abbrev pub parked : Host A → Host A → Host A
  parked h cut = elim h.current_item [
    | none ↦ cut
    | some cur ↦
        if is_some cur.render_id
        then cut
        else again env cur (Kernel.pending cur.id h.pending_heard) cut
  ]

  unfoldable pub where_voiced : String → Host A → Host A
  unfolding enqueue readout
  where_voiced fg h =
      (sanction env (some fg) true (answer env fg (readout fg h) (parked h (cancel h)))).0

  unfoldable pub where_idle : Host A → Host A
  unfolding enqueue cue idle_readout
  where_idle h = elim (workspace h.sessions) [
    | none ↦ cue env "error" none none h
    | some ws ↦
        if is_stopped (Dict.get ws h.streams)
        then cue env "error" none none h
        else (sanction env (some ws) true (enqueue env (cue_ask false ws (idle_readout ws h)) h)).0
  ]

  unfoldable pub on_where_am_i : Host A → Host A
  unfolding where_voiced where_idle
  on_where_am_i h = elim h.sessions.speaker [ none ↦ where_idle h | some fg ↦ where_voiced fg h ]

  -- the session that an announcement lands on
  abbrev pub landing : Host A → Option String
  landing h = elim (workspace h.sessions) [ none ↦ h.sessions.speaker | some ws ↦ some ws ]

  -- the state, and whether the text landed
  unfoldable pub on_announce : Option String → Host A → Host A × Bool
  unfolding strip enqueue
  on_announce text h =
      let said = strip text in
      if not (truthy said) then (h, false) else elim (landing h) as (λ _. Host A × Bool) [
        | none ↦ (h, false)
        | some target ↦
            if is_stopped (Dict.get target h.streams)
            then (h, false)
            else (reply env target said h, true)
      ]
