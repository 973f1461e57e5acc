-- ===== src/Host/Voice.antt =====
-- The speak loop of src/sonari/daemon/host.py as steps. A round of `_speak_loop_once` takes the lock for
-- `claim_cue`, reads the speaker's stream for `is_held`, takes the lock for `claim_next`, speaks with the lock
-- free, takes it for the signal of a failure, and again for `note_spoken` behind a control cue or for `settle`.
-- `settle` has the locked tail and the section of `note_spoken` behind it, two sections of the source, in one
-- step. `step` is one of these; a handler may run between any two. What the back end answers is an argument.
use claude_tts.Prelude.{
  String, Bool, true, false, not, ◌&&◌, Option, none, some, [], ◌∷◌, if◌then◌else◌,
}
use claude_tts.Prelude.Dict
use claude_tts.Sessions.{folder}
use claude_tts.SpeechQueue
use claude_tts.SpeechQueue.{SpeechItem}
use claude_tts.SessionStream.{SessionStream}
use claude_tts.Host.{Host, Env, cue_ask}
use claude_tts.Host.Kernel.{stream, put_stream, spearcon_path, enqueue, is_flowing}
use claude_tts.Host.Spoken.{attributed_text, note_spoken, signal_speak_failure}
use claude_tts.KeepGoing.{
  release_dead_speaker, select_keep_going, stream_quiescent, pop_held_control_cue, is_stopped,
}

-- `self._streams.get(session)` of an optional session
abbrev pub stream_at : {A : Type 0} → Option String → Host A → Option (SessionStream A)
stream_at none h = none
stream_at (some s) h = Dict.get s h.streams

-- an utterance that was claimed, as the loop holds it: its text as spoken, and the session spoken before
pub record Claimed : Type 0 where
  pub item : SpeechItem
  pub text : String
  pub prev : Option String

module _ {A : Type 0} where
  unfoldable pub claim_cue : Host A → Host A × Option SpeechItem
  unfolding pop_held_control_cue
  claim_cue h = let (h', item) = pop_held_control_cue h in (record h' { current_item = item }, item)

  unfoldable pub is_held : Host A → Bool
  is_held h = is_stopped (stream_at h.sessions.speaker h)

  -- `st.queue.pop_next()` on the stream of a session, where it has one
  unfoldable pub pop_from : Option String → Host A → Host A × Option SpeechItem
  pop_from none h = (h, none)
  pop_from (some s) h = elim (Dict.get s h.streams) [
    | none ↦ (h, none)
    | some st ↦
        let (q, item) = SpeechQueue.pop_next st.queue in
        (record h { streams = Dict.put s (record st { queue = q }) h.streams }, item)
  ]

  unfoldable pub claimed : Host A × Option SpeechItem → Host A × Option Claimed
  unfolding attributed_text
  claimed (h, none) = (record h { current_item = none }, none)
  claimed (h, some item) =
      let (h', text) = attributed_text item (record h { current_item = some item }) in
      (h', some (record { item = item; text = text; prev = h.last_spoken_session }))

module _ {A : Type 0} (env : Env A) where
  -- the call-sign, or a neutral marker, of a session that the voice goes on to
  unfoldable pub crossing : String → Host A → SpeechItem → SpeechItem
  unfolding spearcon_path
  crossing s h item =
      let marked : SpeechItem = elim (spearcon_path env (folder h.sessions s)) [
        | some sp ↦ record item { prelude = sp ∷ []; names_session = true }
        | none ↦ elim (env.asset "crossing") [
          | none ↦ item
          | some cp ↦ record item { prelude = cp ∷ [] }
        ]
      ] in
      elim item.prelude [ [] ↦ marked | p ∷ ps ↦ item ]

  -- what the voice does with the session that keep-going chose
  unfoldable pub adopt : Option String → Host A → Host A × Option SpeechItem
  unfolding enqueue pop_from crossing
  adopt next h =
      let marked = h.mark_keep_going_resume in
      let spent : Host A = record h { mark_keep_going_resume = false } in
      elim next [
        | none ↦ (spent, none)
        | some s ↦
            let taken : Host A = record spent {
              sessions = record spent.sessions { speaker = some s };
            } in
            let resumed : Host A =
              if marked then enqueue env (cue_ask true s "Resumed.") taken else taken in
            let (popped, item) = pop_from (some s) resumed in
            (popped, elim item [ none ↦ none | some it ↦ some (crossing s popped it) ])
      ]

  -- the item that the speaker's stream, or keep-going, gives
  unfoldable pub next_item : Host A → Host A × Option SpeechItem
  unfolding pop_from adopt
  next_item h =
      let fg = h.sessions.speaker in
      let (h', released) = release_dead_speaker env.has_pending env.exists h fg (stream_at fg h) in
      let fg' : Option String = if released then none else fg in
      let (popped, item) = pop_from fg' h' in
      let adopted =
        adopt (select_keep_going env.has_pending env.exists popped.streams popped.sessions)
          popped in
      elim item [
        | some it ↦ (popped, some it)
        | none ↦
            if stream_quiescent env.has_pending env.exists (stream_at fg' popped)
              && is_flowing popped.voice_state
            then adopted
            else (popped, none)
      ]

  unfoldable pub claim_next : Host A → Host A × Option Claimed
  unfolding next_item claimed
  claim_next h = claimed (next_item h)

  -- the failure of an utterance is signalled with the lock free, before its end is noted
  abbrev pub signalled : String → Bool → Host A → Host A
  signalled session raised h = if raised then signal_speak_failure env session h else h

  -- the locked tail: back to the front of its own stopped stream, or the last utterance is kept
  unfoldable pub settle : Claimed → Bool → Host A → Host A
  unfolding note_spoken stream
  settle c completed h =
      let st = stream env c.item.session h in
      let opened = put_stream env c.item.session st h in
      let requeued =
        put_stream env c.item.session
          (record st { queue = SpeechQueue.enqueue_front c.item st.queue })
          (record h { current_item = none; last_spoken_session = c.prev }) in
      let kept : Host A =
        if c.item.control_cue
        then h
        else record h { last_utterance = some (c.text, c.item.audio_path) } in
      if completed
      then note_spoken c.item true kept
      else if st.stopped
      then requeued
      else note_spoken c.item false opened

-- where the loop stands, with what it has in hand
pub data Hand : Type 0 where
  idle looking ready : Hand
  sounding : SpeechItem → Hand
  speaking : Claimed → Hand
  sounded : SpeechItem → Bool → Hand
  spoken : Claimed → Bool → Hand

pub data Event : Type 0 where
  goes_on : Event
  answers : Bool → Bool → Event

abbrev pub cue_hand : Option SpeechItem → Hand
cue_hand none = looking
cue_hand (some item) = sounding item

abbrev pub next_hand : Option Claimed → Hand
next_hand none = idle
next_hand (some c) = speaking c

module _ {A : Type 0} (env : Env A) where
  -- `answers completed raised` is the end of an utterance, `goes_on` any other step.
  unfoldable pub step : Event → Host A × Hand → Host A × Hand
  unfolding claim_cue is_held claim_next settle note_spoken signal_speak_failure
  step goes_on (h, idle) = let (h', item) = claim_cue h in (h', cue_hand item)
  step goes_on (h, looking) = (h, if is_held h then idle else ready)
  step goes_on (h, ready) = let (h', c) = claim_next env h in (h', next_hand c)
  step goes_on (h, sounded item completed) = (note_spoken item completed h, idle)
  step goes_on (h, spoken c completed) = (settle env c completed h, idle)
  step goes_on (h, hand) = (h, hand)
  step (answers completed raised) (h, sounding item) =
      (signalled env item.session raised h, sounded item (completed && not raised))
  step (answers completed raised) (h, speaking c) =
      (signalled env c.item.session raised h, spoken c (completed && not raised))
  step (answers completed raised) (h, hand) = (h, hand)
