-- ===== src/Handlers/Heard.antt =====
-- How far a session was heard, under the messages of src/sonari/daemon/features.
use claude_tts.Prelude.{
  ◌≡◌, refl, sym, ◌∙◌, Bool, true, false, none, some, String, List, [], ◌∷◌, All, if◌then◌else◌,
  by_test,
}
use mathlib.Core.Path.{subst}
use claude_tts.SpeechQueue
use claude_tts.SessionStream.{SessionStream}
use claude_tts.SessionStream.Frontier.{behind, behind_refl, behind_trans}
use claude_tts.Host.{Host, Env}
use claude_tts.Host.Kernel.{stream, put_stream}
use claude_tts.Host.Spoken.{note_spoken}
use claude_tts.Host.Voice.{
  Claimed, settle, Hand, idle, looking, ready, sounding, speaking, sounded, spoken, Event, goes_on,
  answers, step,
}
use claude_tts.Host.Moves.{Moves, here}
use claude_tts.Host.Calls.{either, stays, rewrites}
use claude_tts.Host.Kept.{frontier_of, moves-frontier, moves-behind, same-put}
use claude_tts.Host.Utterances.{note_spoken-Moves}
use claude_tts.Host.Turns.{claim_cue-Moves, claim_next-Moves, signalled-Moves}
use claude_tts.Handlers.Dispatch.{
  Message, handle_message, Happening, says, voices, wait_ends, learn_expires, happen, run,
}
use claude_tts.Handlers.Moved.Dispatch.{message-Moves, may_skip, may_end}
use claude_tts.Handlers.Moved.Decisions.{end_wait-Moves, expire_learn_mode-Moves}

-- no session ends
abbrev pub IsKept : Happening → Type 0
IsKept (says msg) = may_end msg ≡ false
IsKept _ = Unit

module _ {A : Type 0} (env : Env A) where
  -- No message but the skip of a pile and the end of a session moves the frontier of any session: text, asks,
  -- prompts, stops, starts, jumps, repeats and navigation leave it.
  pub message_keeps_frontier :
      (msg : Message) (h : Host A) (s : String)
      → may_skip msg ≡ false
      → may_end msg ≡ false
      → frontier_of s (handle_message env msg h) ≡ frontier_of s h
  message_keeps_frontier msg h s skip end =
      moves-frontier env
        (message-Moves env true false false msg h (λ _. refl) (λ e. sym skip ∙ e) (λ e. sym end ∙ e)
          here)
        s

  -- whatever is moved, the frontier does not retreat
  on :
      (s : String) {h k : Host A}
      → Moves env true true false h k
      → behind (frontier_of s h) (frontier_of s k) ≡ true
  on s p = moves-behind env p s

  settle-behind :
      (s : String) (c : Claimed) (completed : Bool) (h : Host A)
      → behind (frontier_of s h) (frontier_of s (settle env c completed h)) ≡ true
  unfolding settle
  settle-behind s c completed h =
      let st = stream env c.item.session h in
      let opened = put_stream env c.item.session st h in
      let left : Host A = record h { current_item = none; last_spoken_session = c.prev } in
      let st' : SessionStream A = record st { queue = SpeechQueue.enqueue_front c.item st.queue } in
      let requeued = put_stream env c.item.session st' left in
      let kept : Host A =
        if c.item.control_cue
        then h
        else record h { last_utterance = some (c.text, c.item.audio_path) } in
      let ahead : Host A → Type 0 = λ k. behind (frontier_of s h) (frontier_of s k) ≡ true in
      by_test ahead completed (note_spoken c.item true kept)
        (if st.stopped then requeued else note_spoken c.item false opened)
        (λ _. on s (
          note_spoken-Moves env true true false c.item true kept refl (
            either env true true false c.item.control_cue h
              (record h { last_utterance = some (c.text, c.item.audio_path) }) here
              (stays env true true false h here refl refl refl))))
        (λ _.
          by_test ahead st.stopped requeued (note_spoken c.item false opened)
            (λ _.
              subst (λ f. behind (frontier_of s h) f ≡ true)
                (sym (same-put env s c.item.session st' left refl)) (behind_refl (frontier_of s h)))
            (λ _. on s (
              note_spoken-Moves env true true false c.item false opened refl
                (rewrites env true true false h c.item.session st here refl refl refl))))

  step-behind :
      (s : String) (e : Event) (sys : Host A × Hand)
      → behind (frontier_of s sys.0) (frontier_of s (step env e sys).0) ≡ true
  unfolding step
  step-behind s goes_on (h, idle) = on s (claim_cue-Moves env true true false h here)
  step-behind s goes_on (h, looking) = behind_refl (frontier_of s h)
  step-behind s goes_on (h, ready) = on s (claim_next-Moves env true true false h here)
  step-behind s goes_on (h, sounding item) = behind_refl (frontier_of s h)
  step-behind s goes_on (h, speaking c) = behind_refl (frontier_of s h)
  step-behind s goes_on (h, sounded item completed) =
      on s (note_spoken-Moves env true true false item completed h refl here)
  step-behind s goes_on (h, spoken c completed) = settle-behind s c completed h
  step-behind s (answers completed raised) (h, sounding item) =
      on s (signalled-Moves env true true false item.session raised h here)
  step-behind s (answers completed raised) (h, speaking c) =
      on s (signalled-Moves env true true false c.item.session raised h here)
  step-behind s (answers completed raised) (h, idle) = behind_refl (frontier_of s h)
  step-behind s (answers completed raised) (h, looking) = behind_refl (frontier_of s h)
  step-behind s (answers completed raised) (h, ready) = behind_refl (frontier_of s h)
  step-behind s (answers completed raised) (h, sounded item b) = behind_refl (frontier_of s h)
  step-behind s (answers completed raised) (h, spoken c b) = behind_refl (frontier_of s h)

  happen-behind :
      (s : String) (e : Happening) (sys : Host A × Hand)
      → IsKept e
      → behind (frontier_of s sys.0) (frontier_of s (happen env e sys).0) ≡ true
  unfolding happen
  happen-behind s (says msg) (h, hand) kept =
      on s
        (message-Moves env true true false msg h (λ _. refl) (λ _. refl) (λ e. sym kept ∙ e) here)
  happen-behind s (voices event) sys kept = step-behind s event sys
  happen-behind s (wait_ends id n got) (h, hand) kept =
      on s (end_wait-Moves env true true false id n got h here)
  happen-behind s (learn_expires live) (h, hand) kept =
      on s (expire_learn_mode-Moves env true true false live h here)

  -- As long as no session ends, the frontier of no session retreats, whatever messages, steps of the voice, ends
  -- of waits and timers come, in any order.
  pub run_never_retreats :
      (es : List Happening) (sys : Host A × Hand) (s : String)
      → All IsKept es
      → behind (frontier_of s sys.0) (frontier_of s (run env es sys).0) ≡ true
  unfolding run
  run_never_retreats [] sys s kept = behind_refl (frontier_of s sys.0)
  run_never_retreats (e ∷ es) sys s kept =
      behind_trans (frontier_of s sys.0) (frontier_of s (happen env e sys).0)
        (frontier_of s (run env es (happen env e sys)).0) (happen-behind s e sys kept.0)
        (run_never_retreats es (happen env e sys) s kept.1)
