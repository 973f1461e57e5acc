-- ===== src/Handlers/Moved/Jumps.antt =====
-- `on_jump_decision` and `on_repeat_last` of src/sonari/daemon/features/playback.py, as moves of the host.
use claude_tts.Prelude.{
  ◌≡◌, inl, refl, Bool, true, false, not, ◌&&◌, Option, none, some, arith, if◌then◌else◌, String,
}
use claude_tts.Prelude.Dict
use claude_tts.Sessions.{is_session, workspace, focus}
use claude_tts.Sessions.Terminal.{liveness}
use claude_tts.SpeechQueue
use claude_tts.SpeechQueue.{SpeechQueue, SpeechItem}
use claude_tts.SpeechQueue.Copies.{Fewer, jump_to_decision-Fewer, claim_head-Fewer}
use claude_tts.SessionStream.{SessionStream}
use claude_tts.KeepGoing.{is_dead}
use claude_tts.Host.{Host, Env, Ask, Decision, flowing, plain, cue_ask}
use claude_tts.Host.Kernel.{cue, pending, drop_pending, asked}
use claude_tts.Host.Moves.{Moves, edits, asks, stream-some}
use claude_tts.Host.Calls.{either, case_of, stays, thins, cue-Moves}
use claude_tts.Handlers.{or_session, cancel, sanction, answer, lead}
use claude_tts.Handlers.Playback.{hear_current, closed_word}
use claude_tts.Handlers.Jumps.{
  queues_decision, miss_decision, seek_decision, hit_decision, on_jump_decision, repeat_target,
  again, repeat_utterance, on_repeat_last,
}
use claude_tts.Handlers.Moved.{sanction-Moves, cancel-Moves, answer-Moves, lead-Moves}
use claude_tts.Handlers.Moved.Playback.{hear_current-Moves}

-- the queue that a jump leaves
abbrev sought : {A : Type 0} → SessionStream A → SpeechQueue
sought st =
    let q = (SpeechQueue.jump_to_decision st.queue).0 in
    if st.stopped then (SpeechQueue.claim_head_as_control_cue q).0 else q

sought-Fewer : {A : Type 0} (st : SessionStream A) → Fewer (sought st) st.queue
sought-Fewer st n = ground (
  arith,
  jump_to_decision-Fewer st.queue n,
  claim_head-Fewer (SpeechQueue.jump_to_decision st.queue).0 n,
)

module _ {A : Type 0} (env : Env A) (l a f : Bool) {h : Host A} where
  miss_decision-Moves :
      (target : Option String) (ask : Option Decision) (k : Host A)
      → Moves env l a f h k
      → Moves env l a f h (miss_decision env target ask k)
  unfolding miss_decision
  miss_decision-Moves target ask k p =
      let word = elim ask as (λ _. String) [ none ↦ "No decision here." | some pd ↦ pd.text ] in
      case_of env l a f (or_session k.sessions.speaker target) (cue env "error" none none k)
        (λ s. answer env s word (sanction env (some s) false k).0)
        (cue-Moves env l a f "error" none none k p) (λ s _. answer-Moves env l a f s word k p)

  seek_decision-Moves :
      (target : String) (k : Host A)
      → Moves env l a f h k
      → Moves env l a f h (seek_decision env target k)
  unfolding seek_decision
  seek_decision-Moves target k p =
      case_of env l a f (Dict.get target k.streams) k
        (λ st. record k {
          streams = Dict.put target (record st { queue = sought st }) k.streams;
          pending_heard = drop_pending (SpeechQueue.jump_to_decision st.queue).1 k.pending_heard;
        })
        p
        (λ st e.
          thins env l a f k target (record st { queue = sought st }) st p
            (stream-some env target k e) (sought-Fewer st) refl refl refl refl refl)

  hit_decision-Moves :
      (target : String) (k : Host A)
      → l ≡ true
      → Moves env l a f h k
      → Moves env l a f h (hit_decision env target k)
  unfolding hit_decision
  hit_decision-Moves target k may p =
      let crossed = not (is_session k.sessions.speaker target) in
      let engaged : Host A = record k { voice_state = flowing } in
      let q : Moves env l a f h engaged = edits engaged p refl refl (inl may) in
      let focused : Host A = record engaged { sessions = focus target none engaged.sessions } in
      let turned : Host A = if crossed then focused else hear_current engaged in
      let r : Moves env l a f h turned =
        either env l a f crossed focused (hear_current engaged)
          (stays env l a f engaged q refl refl refl) (hear_current-Moves env l a f engaged q) in
      let cut : Host A = cancel (seek_decision env target turned) in
      let u : Moves env l a f h cut =
        cancel-Moves env l a f (seek_decision env target turned)
          (seek_decision-Moves target turned r) in
      let dest = or_session k.sessions.speaker (workspace k.sessions) in
      let refused = cue env "error" (some closed_word) dest k in
      either env l a f (crossed && is_dead (liveness env.exists k.sessions target)) refused
        (if crossed then lead env target cut else cut)
        (cue-Moves env l a f "error" (some closed_word) dest k p)
        (either env l a f crossed (lead env target cut) cut (lead-Moves env l a f target cut u) u)

  pub on_jump_decision-Moves :
      (k : Host A) → l ≡ true → Moves env l a f h k → Moves env l a f h (on_jump_decision env k)
  unfolding on_jump_decision
  on_jump_decision-Moves k may p =
      let miss : String → Host A = λ target. miss_decision env (some target) (asked target k) k in
      case_of env l a f (workspace k.sessions) (miss_decision env none none k)
        (λ target.
          if queues_decision (Dict.get target k.streams)
          then hit_decision env target k
          else miss target)
        (miss_decision-Moves none none k p)
        (λ target _.
          either env l a f (queues_decision (Dict.get target k.streams)) (hit_decision env target k)
            (miss target) (hit_decision-Moves target k may p)
            (miss_decision-Moves (some target) (asked target k) k p))

  repeat_utterance-Moves :
      (to text : String) (audio : Option String) (k : Host A)
      → Moves env l a f h k
      → Moves env l a f h (repeat_utterance env to (text, audio) k)
  unfolding repeat_utterance
  repeat_utterance-Moves to text audio k p =
      let cut : Host A = cancel k in
      let parked = elim k.current_item as (λ _. Host A) [
        | none ↦ cut
        | some cur ↦ again env cur (pending cur.id k.pending_heard) cut
      ] in
      let q : Moves env l a f h cut = cancel-Moves env l a f k p in
      let ask : Ask = record (cue_ask true to text) { audio_path = audio } in
      asks ask (
        case_of env l a f k.current_item cut
          (λ cur. again env cur (pending cur.id k.pending_heard) cut) q
          (λ cur _.
            asks
              (record (plain cur.session cur.kind cur.text cur.is_decision) {
                entry = pending cur.id k.pending_heard;
                control_cue = cur.control_cue;
                names_session = cur.names_session;
                audio_path = cur.audio_path;
                forward = cur.forward;
                at_front = true;
                prelude = cur.prelude;
              })
              q))

  pub on_repeat_last-Moves :
      (k : Host A) → Moves env l a f h k → Moves env l a f h (on_repeat_last env k)
  unfolding on_repeat_last
  on_repeat_last-Moves k p =
      let on : String → Host A = λ to. (sanction env (some to) false k).0 in
      let at : String → Host A = λ to. elim (on to).last_utterance as (λ _. Host A) [
        | none ↦ answer env to "Nothing to repeat." (on to)
        | some last ↦ repeat_utterance env to last (on to)
      ] in
      case_of env l a f (repeat_target env k) (cue env "error" none none k) at
        (cue-Moves env l a f "error" none none k p)
        (λ to _.
          let q = sanction-Moves env l a f (some to) false k p in
          case_of env l a f (on to).last_utterance (answer env to "Nothing to repeat." (on to))
            (λ last. repeat_utterance env to last (on to))
            (asks (cue_ask true to "Nothing to repeat.") q)
            (λ last _. repeat_utterance-Moves to last.0 last.1 (on to) q))
