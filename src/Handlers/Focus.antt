-- ===== src/Handlers/Focus.antt =====
-- src/sonari/daemon/features/focus.py. The raise of the target's window (src/sonari/raise_service.py) has no part in
-- the state; whether one is tried decides the words. The diagnostic line is left out.
use claude_tts.Prelude.{
  ℕ, ◌+◌, String, Bool, true, false, not, ◌||◌, Option, none, some, List, [], ◌∷◌, ◌++◌, ◌==◌,
  if◌then◌else◌, ◌+++◌,
}
use claude_tts.Prelude.Dict.{Dict}
use claude_tts.Sessions.{Identity, folder, is_session, workspace, focus}
use claude_tts.Sessions.Terminal.{
  Liveness, live, pending, dead, liveness, is_live, identity, set_os_focus,
}
use claude_tts.Sessions.Text.{truthy}
use claude_tts.SpeechQueue
use claude_tts.SessionStream.{SessionStream}
use claude_tts.Host.{Host, Env, Ask, flowing, plain}
use claude_tts.Host.Kernel.{enqueue, cue, spearcon_path}
use claude_tts.KeepGoing.{is_dead, is_empty}
use claude_tts.Handlers.{or_session, cancel, sanction, answer}
use claude_tts.Handlers.Playback.{closed_word}

-- `_COUNT_WORDS.get(n, "many").capitalize()`
abbrev pub counted : ℕ → String
counted n =
    if n == 1
    then "One"
    else if n == 2
    then "Two"
    else if n == 3
    then "Three"
    else if n == 4
    then "Four"
    else if n == 5
    then "Five"
    else if n == 6
    then "Six"
    else if n == 7
    then "Seven"
    else if n == 8
    then "Eight"
    else if n == 9
    then "Nine"
    else "Many"

abbrev pub is_pending : Liveness → Bool
is_pending pending = true
is_pending live = false
is_pending dead = false

abbrev pub first : List String → Option String
first [] = none
first (s ∷ rest) = some s

module _ {A : Type 0} (env : Env A) where
  -- passed over whether the session is alive or not: the one excluded, the speaker, and a stream that is stopped
  -- or has nothing queued
  abbrev pub is_passed : Option String → Host A → String → SessionStream A → Bool
  is_passed exclude h s st =
      is_session exclude s
      || is_session h.sessions.speaker s
      || st.stopped
      || is_empty st.queue.items

  unfoldable pub split_waiting :
      Option String → Host A → Dict (SessionStream A) → List String × List String
  split_waiting exclude h [] = ([], [])
  split_waiting exclude h ((s, st) ∷ d) =
      let (blocked, prose) = split_waiting exclude h d in
      if is_passed exclude h s st || not (is_live env.exists h.sessions s)
      then (blocked, prose)
      else if SpeechQueue.has_decision st.queue
      then (s ∷ blocked, prose)
      else (blocked, s ∷ prose)

  unfoldable pub waiting_target : Option String → Host A → Option String
  unfolding split_waiting
  waiting_target exclude h =
      let (blocked, prose) = split_waiting exclude h h.streams in first (blocked ++ prose)

  -- the sessions that are pending and those that are dead, of the ones that are not passed over
  unfoldable pub tally : Option String → Host A → Dict (SessionStream A) → ℕ × ℕ
  unfolding liveness
  tally exclude h [] = (0, 0)
  tally exclude h ((s, st) ∷ d) =
      let (quarantined, gone) = tally exclude h d in
      if is_passed exclude h s st
      then (quarantined, gone)
      else if is_pending (liveness env.exists h.sessions s)
      then (quarantined + 1, gone)
      else if is_dead (liveness env.exists h.sessions s)
      then (quarantined, gone + 1)
      else (quarantined, gone)

  unfoldable pub empty_case_tail : Option String → Host A → String
  unfolding tally
  empty_case_tail exclude h =
      let (quarantined, gone) = tally exclude h h.streams in
      (if quarantined == 0 then "" else " " +++ counted quarantined +++ " pending.")
      +++ (if gone == 0 then "" else " " +++ counted gone +++ " closed.")

  unfoldable pub on_os_focus : String → String → String → Bool → Host A → Host A
  unfolding cue set_os_focus
  on_os_focus term_program tty iterm_session_id focused h =
      let (m, changed) = set_os_focus term_program tty iterm_session_id focused h.sessions in
      let moved : Host A = record h { sessions = m } in
      if changed then cue env "repoint" none none moved else moved

  unfoldable pub will_attempt : Option Identity → Bool
  will_attempt none = false
  will_attempt (some i) = if not env.focus_follow then false else env.supports i

  unfoldable pub none_waiting : Host A → Host A
  unfolding cue enqueue empty_case_tail
  none_waiting h = elim (or_session h.sessions.speaker (workspace h.sessions)) [
    | none ↦ cue env "error" none none h
    | some to ↦
        answer env to ("No session waiting." +++ empty_case_tail (workspace h.sessions) h)
          (sanction env (some to) false h).0
  ]

  abbrev pub forward_word : String
  forward_word = "Bring it forward to type."

  -- the spoken name of the target, where it has no sound of its own
  abbrev pub jump_text : Option String → Bool → String
  jump_text name raised =
      let base = elim name as (λ _. String) [
        | none ↦ "Jumping to another session."
        | some n ↦ if truthy n then "Jumping to " +++ n +++ "." else "Jumping to another session."
      ] in
      if raised then base else base +++ " " +++ forward_word

  -- the cue that names the target, as text or as the sound of its folder
  abbrev pub naming : String → String → Option String → Ask
  naming target text audio = record (plain target "prose" text false) {
    audio_path = audio;
    control_cue = true;
    at_front = true;
    names_session = true;
  }

  -- the words that the voice arrives with
  unfoldable pub arrive : String → Host A → Host A
  unfolding enqueue spearcon_path will_attempt
  arrive target h =
      let name = folder h.sessions target in
      let raised = will_attempt (identity h.sessions target) in
      let hinted = if raised then h else answer env target forward_word h in
      elim (spearcon_path env name) [
        | none ↦ enqueue env (naming target (jump_text name raised) none) h
        | some path ↦
            enqueue env (naming target (elim name [ none ↦ "" | some n ↦ n ]) (some path)) hinted
      ]

  unfoldable pub jump_to : String → Host A → Host A
  unfolding cue arrive
  jump_to target h =
      let switched : Host A =
        cancel (record h { sessions = focus target none h.sessions; voice_state = flowing }) in
      if is_dead (liveness env.exists h.sessions target)
      then cue env "error" (some closed_word) (or_session h.sessions.speaker (workspace h.sessions))
          h
      else arrive target switched

  unfoldable pub on_jump_waiting : Host A → Host A
  unfolding waiting_target none_waiting jump_to
  on_jump_waiting h = elim (waiting_target (workspace h.sessions) h) [
    | none ↦ none_waiting h
    | some target ↦ jump_to target h
  ]
