-- ===== src/Handlers/Once.antt =====
-- The ids of the items in the queues and in the hand of the voice, over any interleaving of messages, steps of
-- the voice, ends of waits and timers (src/sonari/daemon/host.py and its handlers).
use claude_tts.Prelude.{
  ℕ, ◌+◌, ◌≤◌, ◌<◌, ◌≡◌, refl, Bool, true, false, not, ◌&&◌, Option, none, some, List, [], ◌∷◌,
  arith, if◌then◌else◌, to_list, by_test, String,
}
use claude_tts.SpeechQueue
use claude_tts.SpeechQueue.{SpeechItem}
use claude_tts.SpeechQueue.Copies.{copies, enqueue_front-copies}
use claude_tts.KeepGoing.{pop_held_control_cue}
use claude_tts.Host.{Host, Env}
use claude_tts.Host.Kernel.{stream, put_stream}
use claude_tts.Host.Spoken.{attributed_text, note_spoken, signal_speak_failure}
use claude_tts.Host.Voice.{
  Claimed, claim_cue, claim_next, claimed, is_held, next_item, settle, signalled, Hand, idle,
  looking, ready, sounding, speaking, sounded, spoken, Event, goes_on, answers, cue_hand, next_hand,
  step,
}
use claude_tts.Host.Moves.{Moves, here, total, total-put}
use claude_tts.Host.Calls.{either, stays, rewrites}
use claude_tts.Host.Ids.{Grows, fresh, moves-Grows, stream-copies}
use claude_tts.Host.Utterances.{note_spoken-Moves, signal-Moves}
use claude_tts.Host.Claims.{pop_held-Takes, next_item-Takes}
use claude_tts.Handlers.Dispatch.{
  Happening, says, voices, wait_ends, learn_expires, handle_message, happen, run,
}
use claude_tts.Handlers.Decisions.{end_wait}
use claude_tts.Handlers.Teaching.{expire_learn_mode}
use claude_tts.Handlers.Moved.Dispatch.{message-Moves}
use claude_tts.Handlers.Moved.Decisions.{end_wait-Moves, expire_learn_mode-Moves}

-- how often an id is in the hand of the voice
abbrev pub in_hand : ℕ → Hand → ℕ
in_hand n idle = 0
in_hand n looking = 0
in_hand n ready = 0
in_hand n (sounding item) = copies n (item ∷ [])
in_hand n (speaking c) = copies n (c.item ∷ [])
in_hand n (sounded item completed) = copies n (item ∷ [])
in_hand n (spoken c completed) = copies n (c.item ∷ [])

-- how often an id is anywhere
abbrev pub places : {A : Type 0} → ℕ → Host A × Hand → ℕ
places n sys = total n sys.0.streams + in_hand n sys.1

-- no id is in two places, and none is anywhere that was not given out
abbrev pub IsOnce : {A : Type 0} → Host A × Hand → Type 0
IsOnce sys = ((n : ℕ) → places n sys ≤ 1) × ((n : ℕ) → sys.0.next_id < n → places n sys ≡ 0)

abbrev Spreads : {A : Type 0} → Host A × Hand → Host A × Hand → Type 0
Spreads sys sys' =
    (sys.0.next_id ≤ sys'.0.next_id)
    × ((n : ℕ) → places n sys' ≤ places n sys + fresh n sys.0.next_id sys'.0.next_id)

in_hand-cue : (n : ℕ) (o : Option SpeechItem) → in_hand n (cue_hand o) ≡ copies n (to_list o)
unfolding copies
in_hand-cue n none = refl
in_hand-cue n (some item) = refl

module _ {A : Type 0} where
  -- the host grew, and the hand keeps what it had or lets it go
  grown-Spreads :
      (h k : Host A) (hand hand' : Hand)
      → Grows h k
      → ((n : ℕ) → in_hand n hand' ≤ in_hand n hand)
      → Spreads (h, hand) (k, hand')
  grown-Spreads h k hand hand' p less = (p.0, λ n. omega (arith, p.1 n, less n))

  -- the claim holds the item that was popped
  claimed-places :
      (n : ℕ) (r : Host A × Option SpeechItem)
      → (total n (claimed r).0.streams + in_hand n (next_hand (claimed r).1)
          ≡ total n r.0.streams + copies n (to_list r.1))
        × ((claimed r).0.next_id ≡ r.0.next_id)
  unfolding claimed attributed_text copies
  claimed-places n (h, none) = (refl, refl)
  claimed-places n (h, some item) = (ground arith, ground arith)

module _ {A : Type 0} (env : Env A) where
  -- the whole of what a handler does
  moved : {h k : Host A} → Moves env true true true h k → Grows h k
  moved p = moves-Grows env p

  signalled-Grows : (s : String) (raised : Bool) (h : Host A) → Grows h (signalled env s raised h)
  signalled-Grows s raised h = moved (
      either env true true true raised (signal_speak_failure env s h) h
        (signal-Moves env true true true s h here) here)

  settle-Spreads :
      (c : Claimed) (completed : Bool) (h : Host A)
      → Spreads (h, spoken c completed) (settle env c completed h, idle)
  unfolding settle copies
  settle-Spreads c completed h =
      let st = stream env c.item.session h in
      let opened = put_stream env c.item.session st h in
      let requeued =
        put_stream env c.item.session
          (record st { queue = SpeechQueue.enqueue_front c.item st.queue })
          (record h { current_item = none; last_spoken_session = c.prev }) in
      let kept : Host A =
        if c.item.control_cue
        then h
        else record h { last_utterance = some (c.text, c.item.audio_path) } in
      let noted : (k : Host A) (b : Bool)
          → Moves env true true true h k
          → Spreads (h, spoken c completed) (note_spoken c.item b k, idle) =
        λ k b p.
          grown-Spreads h (note_spoken c.item b k) (spoken c completed) idle
            (moved (note_spoken-Moves env true true true c.item b k refl p)) (λ n. omega arith) in
      by_test (λ k. Spreads (h, spoken c completed) (k, idle)) completed
        (note_spoken c.item true kept)
        (if st.stopped then requeued else note_spoken c.item false opened)
        (λ _. noted kept true (
          either env true true true c.item.control_cue h
            (record h { last_utterance = some (c.text, c.item.audio_path) }) here
            (stays env true true true h here refl refl refl)))
        (λ _.
          by_test (λ k. Spreads (h, spoken c completed) (k, idle)) st.stopped requeued
            (note_spoken c.item false opened)
            (λ _. (
              omega arith,
              λ n. omega (
                arith,
                total-put n c.item.session
                    (record st { queue = SpeechQueue.enqueue_front c.item st.queue }) h.streams,
                enqueue_front-copies n c.item st.queue,
                stream-copies env n c.item.session h,
              ),
            ))
            (λ _.
              noted opened false
                (rewrites env true true true h c.item.session st here refl refl refl)))

  -- nothing happens
  rests : (h : Host A) (hand : Hand) → Spreads (h, hand) (h, hand)
  rests h hand = (omega arith, λ n. omega arith)

  step-Spreads : (e : Event) (sys : Host A × Hand) → Spreads sys (step env e sys)
  unfolding step claim_cue claim_next
  step-Spreads goes_on (h, idle) =
      let p = pop_held-Takes h in
      (p.0, λ n. omega (arith, p.1 n, in_hand-cue n (pop_held_control_cue h).1))
  step-Spreads goes_on (h, looking) = (
    omega arith,
    λ n.
        by_test
          (λ hand.
            total n h.streams + in_hand n hand
            ≤ total n h.streams + in_hand n looking + fresh n h.next_id h.next_id)
          (is_held h) idle ready (λ _. omega arith) (λ _. omega arith),
  )
  step-Spreads goes_on (h, ready) =
      let p = next_item-Takes env h in
      let r = next_item env h in
      (
        omega (arith, p.0, (claimed-places 0 r).1),
        λ n. ground (arith, p.1 n, (claimed-places n r).0, (claimed-places n r).1),
      )
  step-Spreads goes_on (h, sounding item) = rests h (sounding item)
  step-Spreads goes_on (h, speaking c) = rests h (speaking c)
  step-Spreads goes_on (h, sounded item completed) =
      grown-Spreads h (note_spoken item completed h) (sounded item completed) idle
        (moved (note_spoken-Moves env true true true item completed h refl here)) (λ n. omega arith)
  step-Spreads goes_on (h, spoken c completed) = settle-Spreads c completed h
  step-Spreads (answers completed raised) (h, sounding item) =
      grown-Spreads h (signalled env item.session raised h) (sounding item)
        (sounded item (completed && not raised)) (signalled-Grows item.session raised h)
        (λ n. omega arith)
  step-Spreads (answers completed raised) (h, speaking c) =
      grown-Spreads h (signalled env c.item.session raised h) (speaking c)
        (spoken c (completed && not raised)) (signalled-Grows c.item.session raised h)
        (λ n. omega arith)
  step-Spreads (answers completed raised) (h, idle) = rests h idle
  step-Spreads (answers completed raised) (h, looking) = rests h looking
  step-Spreads (answers completed raised) (h, ready) = rests h ready
  step-Spreads (answers completed raised) (h, sounded item b) = rests h (sounded item b)
  step-Spreads (answers completed raised) (h, spoken c b) = rests h (spoken c b)

  happen-Spreads : (e : Happening) (sys : Host A × Hand) → Spreads sys (happen env e sys)
  unfolding happen
  happen-Spreads (says msg) (h, hand) =
      grown-Spreads h (handle_message env msg h) hand hand
        (moved (message-Moves env true true true msg h (λ _. refl) (λ _. refl) (λ _. refl) here))
        (λ n. omega arith)
  happen-Spreads (voices event) sys = step-Spreads event sys
  happen-Spreads (wait_ends s id got) (h, hand) =
      grown-Spreads h (end_wait env s id got h).0 hand hand
        (moved (end_wait-Moves env true true true s id got h here)) (λ n. omega arith)
  happen-Spreads (learn_expires live) (h, hand) =
      grown-Spreads h (expire_learn_mode env live h) hand hand
        (moved (expire_learn_mode-Moves env true true true live h here)) (λ n. omega arith)

  spread-IsOnce : (sys sys' : Host A × Hand) → Spreads sys sys' → IsOnce sys → IsOnce sys'
  spread-IsOnce sys sys' p once = (
    λ n. ground (arith, p.0, p.1 n, once.0 n, once.1 n),
    λ n new. ground (arith, p.0, p.1 n, once.1 n, new),
  )

  -- Whatever messages, steps of the voice, ends of waits and timers come, in any order: where no item id is in
  -- two of the queues and the hand of the voice, or anywhere without having been given out, that stays so.
  pub run-IsOnce :
      (es : List Happening) (sys : Host A × Hand) → IsOnce sys → IsOnce (run env es sys)
  unfolding run
  run-IsOnce [] sys once = once
  run-IsOnce (e ∷ es) sys once =
      run-IsOnce es (happen env e sys)
        (spread-IsOnce sys (happen env e sys) (happen-Spreads e sys) once)
