-- ===== src/Handlers/Silence.antt =====
-- The silence behind `on_stop_all` of src/sonari/daemon/features/playback.py: what the voice claims then.
use claude_tts.Prelude.{
  ℕ, ◌≡◌, inl, inr, refl, ap, sym, ◌∙◌, Bool, true, false, ◌&&◌, Option, none, some, List, [], ◌∷◌,
  map, arith, All, if◌then◌else◌, String, by_test, by_option, Option-cases,
}
use claude_tts.Prelude.Dict
use mathlib.Core.Path.{subst}
use claude_tts.SpeechQueue
use claude_tts.SpeechQueue.{SpeechQueue, SpeechItem}
use claude_tts.SpeechQueue.Removal.{popped_cue}
use claude_tts.SessionStream.{SessionStream}
use claude_tts.KeepGoing.{
  least, held_cue, pop_held_control_cue, release_dead_speaker, select_keep_going, stream_quiescent,
  is_stopped,
}
use claude_tts.Host.{Host, Env}
use claude_tts.Host.Kernel.{is_flowing, silenced}
use claude_tts.Host.Voice.{
  stream_at, claim_cue, claim_next, claimed, is_held, pop_from, adopt, next_item, Hand, idle,
  looking, ready, sounding, speaking, sounded, spoken, goes_on, answers, cue_hand, next_hand, step,
}
use claude_tts.Host.Moves.{Moves, here}
use claude_tts.Host.Kept.{IsMuted, moves-IsMuted}
use claude_tts.Host.Utterances.{note_spoken-Moves}
use claude_tts.Host.Claims.{release-kept}
use claude_tts.Host.Turns.{claim_cue-Moves, claim_next-Moves, signalled-Moves}
use claude_tts.Handlers.Dispatch.{Message, handle_message}
use claude_tts.Handlers.Decisions.{end_wait}
use claude_tts.Handlers.Teaching.{expire_learn_mode}
use claude_tts.Handlers.Playback.{on_stop_all, silence_all}
use claude_tts.Handlers.Moved.Dispatch.{message-Moves, may_start}
use claude_tts.Handlers.Moved.Playback.{confirm_silence-Moves}
use claude_tts.Handlers.Moved.Decisions.{end_wait-Moves, expire_learn_mode-Moves}

-- What happens behind the stop: a message, an end of a wait, the timer of learn mode, a whole claim of the voice
-- from its scan for cues to its pop, the back end's answer, and the end of an utterance.
pub data Act : Type 0 where
  told : Message → Act
  waited : String → ℕ → Bool → Act
  timed : Bool → Act
  turns : Act
  heard : Bool → Bool → Act
  noted : Act

-- no message starts a stream again
abbrev pub IsQuiet : Act → Type 0
IsQuiet (told msg) = may_start msg ≡ false
IsQuiet _ = Unit

-- the voice has nothing in hand but a control cue
abbrev pub OnlyCues : Hand → Type 0
OnlyCues idle = Unit
OnlyCues looking = ⊥
OnlyCues ready = ⊥
OnlyCues (sounding item) = item.control_cue ≡ true
OnlyCues (speaking c) = ⊥
OnlyCues (sounded item completed) = item.control_cue ≡ true
OnlyCues (spoken c completed) = ⊥

abbrev pub is_idle : Hand → Bool
is_idle idle = true
is_idle _ = false

abbrev pub is_ready : Hand → Bool
is_ready ready = true
is_ready _ = false

abbrev pub is_noted : Hand → Bool
is_noted (sounded item completed) = true
is_noted (spoken c completed) = true
is_noted _ = false

module _ {A : Type 0} (env : Env A) where
  -- the claims of one round, with nothing in between
  unfoldable pub claims : Host A × Hand → Host A × Hand
  unfolding step
  claims sys =
      let looked = step env goes_on (step env goes_on sys) in
      if is_ready looked.1 then step env goes_on looked else looked

  unfoldable pub act : Act → Host A × Hand → Host A × Hand
  unfolding claims step handle_message end_wait expire_learn_mode
  act (told msg) (h, hand) = (handle_message env msg h, hand)
  act (waited s id got) (h, hand) = ((end_wait env s id got h).0, hand)
  act (timed live) (h, hand) = (expire_learn_mode env live h, hand)
  act turns (h, hand) = if is_idle hand then claims (h, hand) else (h, hand)
  act (heard completed raised) sys = step env (answers completed raised) sys
  act noted (h, hand) = if is_noted hand then step env goes_on (h, hand) else (h, hand)

  unfoldable pub run : List Act → Host A × Hand → Host A × Hand
  unfolding act
  run [] sys = sys
  run (a ∷ rest) sys = run rest (act a sys)

-- what was taken, if anything, is a control cue
abbrev Cue : {A : Type 0} → Host A × Option SpeechItem → Type 0
Cue r = (item : SpeechItem) → r.1 ≡ some item → item.control_cue ≡ true

none-Cue : {A : Type 0} (h : Host A) → Cue (h, none)
none-Cue h item e = absurd (ground (arith, e))

module _ {A : Type 0} where
  pop_held-Cue : (h : Host A) → Cue (pop_held_control_cue h)
  unfolding pop_held_control_cue
  pop_held-Cue h =
      let from : String × ℕ → SessionStream A → Host A × Option SpeechItem = λ best st. (
        record h {
          streams =
              Dict.put best.0 (record st { queue = (SpeechQueue.pop_control_cue st.queue).0 })
                h.streams;
        },
        (SpeechQueue.pop_control_cue st.queue).1,
      ) in
      let at : String × ℕ → Host A × Option SpeechItem = λ best.
        elim (Dict.get best.0 h.streams) as (λ _. Host A × Option SpeechItem) [
          | none ↦ (h, none)
          | some st ↦ from best st
        ] in
      by_option Cue (least (map (λ e. (e.0, held_cue e.1)) h.streams) none) (h, none) at
        (λ _. none-Cue h)
        (λ best _.
          by_option Cue (Dict.get best.0 h.streams) (h, none) (from best) (λ _. none-Cue h)
            (λ st _ item e. popped_cue st.queue item e))

  -- the pop leaves the voice state
  pop_from-voice : (o : Option String) (h : Host A) → (pop_from o h).0.voice_state ≡ h.voice_state
  unfolding pop_from
  pop_from-voice none h = refl
  pop_from-voice (some s) h = ground arith

  pop_from_nobody : (h : Host A) → (pop_from none h).1 ≡ none
  unfolding pop_from
  pop_from_nobody h = refl

  pop_from-none :
      (s : String) (h : Host A) → Dict.get s h.streams ≡ none → (pop_from (some s) h).1 ≡ none
  unfolding pop_from
  pop_from-none s h e = ground (arith, e)

  -- where everything is stopped and the speaker is not held, it has no stream
  unheld-none :
      (s : String) (h : Host A)
      → IsMuted h
      → is_stopped (Dict.get s h.streams) ≡ false
      → Dict.get s h.streams ≡ none
  unheld-none s h m free = elim (Option-cases (Dict.get s h.streams)) [
    | inl e ↦ e
    | inr (st, e) ↦ absurd (
        ground (
          arith,
          e,
          free,
          Dict.Each-get (λ (t : SessionStream A). t.stopped ≡ true) s h.streams e m.1,
        ))
  ]

-- everything is stopped, and the voice has nothing but a cue
abbrev pub IsSilent : {A : Type 0} → Host A × Hand → Type 0
IsSilent sys = IsMuted sys.0 × OnlyCues sys.1

module _ {A : Type 0} (env : Env A) where
  nothing_popped :
      (h : Host A)
      → IsMuted h
      → is_held h ≡ false
      → (k : Host A) → k.streams ≡ h.streams
      → (b : Bool) → (pop_from (if b then none else h.sessions.speaker) k).1 ≡ none
  unfolding is_held
  nothing_popped h m free k same b =
      elim h.sessions.speaker
          as (λ o.
            is_stopped (stream_at o h) ≡ false → (pop_from (if b then none else o) k).1 ≡ none) [
              | none ↦ λ _.
                  by_test (λ o. (pop_from o k).1 ≡ none) b none none (λ _. pop_from_nobody k)
                    (λ _. pop_from_nobody k)
              | some s ↦ λ e.
                  by_test (λ o. (pop_from o k).1 ≡ none) b none (some s) (λ _. pop_from_nobody k)
                    (λ _. pop_from-none s k (ap (Dict.get s) same ∙ unheld-none s h m e))
            ]
        free

  -- nobody goes on where everything is stopped
  next_item-none : (h : Host A) → IsMuted h → is_held h ≡ false → (next_item env h).1 ≡ none
  unfolding next_item
  next_item-none h m free =
      let fg = h.sessions.speaker in
      let released = release_dead_speaker env.has_pending env.exists h fg (stream_at fg h) in
      let kept = release-kept env fg (stream_at fg h) h in
      let fg' : Option String = if released.1 then none else fg in
      let popped = pop_from fg' released.0 in
      let bare : popped.1 ≡ none = nothing_popped h m free released.0 kept.0 released.1 in
      let voice : popped.0.voice_state ≡ h.voice_state = pop_from-voice fg' released.0 ∙ kept.2 in
      let next = select_keep_going env.has_pending env.exists popped.0.streams popped.0.sessions in
      let quiet =
        stream_quiescent env.has_pending env.exists (stream_at fg' popped.0)
        && is_flowing popped.0.voice_state in
      by_option (λ r. r.1 ≡ none) popped.1
        (if◌then◌else◌ {A = Host A × Option SpeechItem} quiet (adopt env next popped.0)
          (popped.0, none))
        (λ it. (popped.0, some it))
        (λ _.
          by_test (λ (r : Host A × Option SpeechItem). r.1 ≡ none) quiet (adopt env next popped.0)
            (popped.0, none) (λ e. absurd (ground (arith, e, ap is_flowing voice, m.0)))
            (λ _. refl))
        (λ it e. absurd (ground (arith, e, bare)))

  claimed-none : (r : Host A × Option SpeechItem) → r.1 ≡ none → (claimed r).1 ≡ none
  unfolding claimed
  claimed-none (h, none) e = refl
  claimed-none (h, some item) e = absurd (ground (arith, e))

  -- one branch of the claims: the speaker is held, or is not
  after_look :
      (h : Host A) (b : Bool)
      → is_held h ≡ b
      → IsMuted h
      → IsSilent (
          if is_ready (if b then idle else ready)
          then step env goes_on (h, if b then idle else ready)
          else (h, if b then idle else ready))
  unfolding step claim_next
  after_look h true e m = (m, tt)
  after_look h false e m =
      let bare : (claim_next env h).1 ≡ none =
        claimed-none (next_item env h) (next_item-none h m e) in
      (
        moves-IsMuted env (claim_next-Moves env false false false h here) m,
        subst (λ c. OnlyCues (next_hand c)) (sym bare) tt,
      )

  after_cue :
      (h : Host A) (o : Option SpeechItem)
      → IsMuted h
      → ((item : SpeechItem) → o ≡ some item → item.control_cue ≡ true)
      → IsSilent (
          let looked = step env goes_on (h, cue_hand o) in
          if is_ready looked.1 then step env goes_on looked else looked)
  unfolding step
  after_cue h none m cue = after_look h (is_held h) refl m
  after_cue h (some item) m cue = (m, cue item refl)

  claims-IsSilent : (h : Host A) → IsMuted h → IsSilent (claims env (h, idle))
  unfolding claims step claim_cue
  claims-IsSilent h m =
      after_cue (claim_cue h).0 (claim_cue h).1
        (moves-IsMuted env (claim_cue-Moves env false false false h here) m) (pop_held-Cue h)

  IsMuted-by : {h k : Host A} → Moves env false true true h k → IsMuted h → IsMuted k
  IsMuted-by p m = moves-IsMuted env p m

  act-IsSilent :
      (a : Act) (sys : Host A × Hand) → IsQuiet a → IsSilent sys → IsSilent (act env a sys)
  unfolding act step
  act-IsSilent (told msg) (h, hand) quiet s = (
    IsMuted-by
        (message-Moves env false true true msg h (λ e. sym quiet ∙ e) (λ _. refl) (λ _. refl) here)
        s.0,
    s.1,
  )
  act-IsSilent (waited id n got) (h, hand) quiet s =
      (IsMuted-by (end_wait-Moves env false true true id n got h here) s.0, s.1)
  act-IsSilent (timed live) (h, hand) quiet s =
      (IsMuted-by (expire_learn_mode-Moves env false true true live h here) s.0, s.1)
  act-IsSilent turns (h, idle) quiet s = claims-IsSilent h s.0
  act-IsSilent turns (h, looking) quiet s = s
  act-IsSilent turns (h, ready) quiet s = s
  act-IsSilent turns (h, sounding item) quiet s = s
  act-IsSilent turns (h, speaking c) quiet s = s
  act-IsSilent turns (h, sounded item b) quiet s = s
  act-IsSilent turns (h, spoken c b) quiet s = s
  act-IsSilent (heard completed raised) (h, sounding item) quiet s =
      (IsMuted-by (signalled-Moves env false true true item.session raised h here) s.0, s.1)
  act-IsSilent (heard completed raised) (h, idle) quiet s = s
  act-IsSilent (heard completed raised) (h, looking) quiet s = s
  act-IsSilent (heard completed raised) (h, ready) quiet s = s
  act-IsSilent (heard completed raised) (h, speaking c) quiet s = absurd s.1
  act-IsSilent (heard completed raised) (h, sounded item b) quiet s = s
  act-IsSilent (heard completed raised) (h, spoken c b) quiet s = s
  act-IsSilent noted (h, sounded item completed) quiet s =
      (IsMuted-by (note_spoken-Moves env false true true item completed h refl here) s.0, tt)
  act-IsSilent noted (h, idle) quiet s = s
  act-IsSilent noted (h, looking) quiet s = s
  act-IsSilent noted (h, ready) quiet s = s
  act-IsSilent noted (h, sounding item) quiet s = s
  act-IsSilent noted (h, speaking c) quiet s = s
  act-IsSilent noted (h, spoken c b) quiet s = absurd s.1

  run-IsSilent :
      (acts : List Act) (sys : Host A × Hand)
      → All IsQuiet acts
      → IsSilent sys
      → IsSilent (run env acts sys)
  unfolding run
  run-IsSilent [] sys quiet s = s
  run-IsSilent (a ∷ rest) sys quiet s =
      run-IsSilent rest (act env a sys) quiet.1 (act-IsSilent a sys quiet.0 s)

  Each-silenced :
      (d : Dict.Dict (SessionStream A)) → Dict.Each (λ st. st.stopped ≡ true) (silenced d)
  Each-silenced [] = tt
  Each-silenced ((s, st) ∷ d) = (refl, Each-silenced d)

  -- Behind a stop of all sessions, as long as only these messages come: text, tools, sounds, prompts, asks, the
  -- start and the end of sessions; the presses that stop, skip, repeat, answer, re-read, teach, or ask where
  -- the voice is; announcements and changes of the keyboard focus; with claims of the voice, ends of
  -- utterances, ends of waits and timers in between. Then every stream, a new one too, is stopped, and
  -- the voice has nothing in hand but a control cue. A start of a session, a jump and a navigation
  -- are not among the messages, nor are those of the chooser, of catch-up and of the settings. The
  -- voice was idle, and a claim is one round of the loop with no message in it.
  pub stop_lasts :
      (acts : List Act) (h : Host A)
      → All IsQuiet acts
      → IsSilent (run env acts (on_stop_all env h, idle))
  unfolding on_stop_all
  stop_lasts acts h quiet =
      run-IsSilent acts (on_stop_all env h, idle) quiet
        (
          IsMuted-by (confirm_silence-Moves env false true true (silence_all env h) here)
              (refl, Each-silenced h.streams),
          tt,
        )
