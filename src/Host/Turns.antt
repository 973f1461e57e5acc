-- ===== src/Host/Turns.antt =====
-- The claims of the voice (Host/Voice.antt), as moves of the host.
use claude_tts.Prelude.{
  ℕ, refl, Bool, true, false, ◌&&◌, Option, none, some, map, arith, if◌then◌else◌, String, by_test,
  by_option,
}
use claude_tts.Prelude.Dict
use claude_tts.SpeechQueue
use claude_tts.SpeechQueue.{SpeechQueue, SpeechItem}
use claude_tts.SpeechQueue.Copies.{Fewer, pop_next-copies, pop_control_cue-copies}
use claude_tts.SessionStream.{SessionStream}
use claude_tts.KeepGoing.{
  least, held_cue, pop_held_control_cue, release_dead_speaker, select_keep_going, stream_quiescent,
}
use claude_tts.Host.{Host, Env, cue_ask}
use claude_tts.Host.Kernel.{enqueue, is_flowing}
use claude_tts.Host.Spoken.{attributed_text, signal_speak_failure}
use claude_tts.Host.Voice.{
  stream_at, claim_cue, pop_from, claimed, adopt, next_item, claim_next, signalled,
}
use claude_tts.Host.Moves.{Moves, asks, stream-some}
use claude_tts.Host.Calls.{either, stays, thins}
use claude_tts.Host.Utterances.{signal-Moves}
use claude_tts.Host.Claims.{release-kept}

pop_next-Fewer : (q : SpeechQueue) → Fewer (SpeechQueue.pop_next q).0 q
pop_next-Fewer q n = omega (arith, pop_next-copies n q)

pop_control_cue-Fewer : (q : SpeechQueue) → Fewer (SpeechQueue.pop_control_cue q).0 q
pop_control_cue-Fewer q n = omega (arith, pop_control_cue-copies n q)

-- the moves to a host beside what was taken
abbrev Leads :
    {A : Type 0} → Env A → Bool → Bool → Bool → Host A → Host A × Option SpeechItem → Type 0
Leads env l a f h r = Moves env l a f h r.0

module _ {A : Type 0} (env : Env A) (l a f : Bool) {h : Host A} where
  pop_held-Moves : (k : Host A) → Moves env l a f h k → Moves env l a f h (pop_held_control_cue k).0
  unfolding pop_held_control_cue
  pop_held-Moves k p =
      let from : String × ℕ → SessionStream A → Host A × Option SpeechItem = λ best st. (
        record k {
          streams =
              Dict.put best.0 (record st { queue = (SpeechQueue.pop_control_cue st.queue).0 })
                k.streams;
        },
        (SpeechQueue.pop_control_cue st.queue).1,
      ) in
      let at : String × ℕ → Host A × Option SpeechItem = λ best.
        elim (Dict.get best.0 k.streams) as (λ _. Host A × Option SpeechItem) [
          | none ↦ (k, none)
          | some st ↦ from best st
        ] in
      by_option (Leads env l a f h) (least (map (λ e. (e.0, held_cue e.1)) k.streams) none)
        (k, none) at (λ _. p)
        (λ best _.
          by_option (Leads env l a f h) (Dict.get best.0 k.streams) (k, none) (from best) (λ _. p)
            (λ st e.
              thins env l a f k best.0
                (record st { queue = (SpeechQueue.pop_control_cue st.queue).0 }) st p
                (stream-some env best.0 k e) (pop_control_cue-Fewer st.queue) refl refl refl refl
                refl))

  pub claim_cue-Moves : (k : Host A) → Moves env l a f h k → Moves env l a f h (claim_cue k).0
  unfolding claim_cue
  claim_cue-Moves k p =
      stays env l a f (pop_held_control_cue k).0 (pop_held-Moves k p) refl refl refl

  pop_from-Moves :
      (o : Option String) (k : Host A) → Moves env l a f h k → Moves env l a f h (pop_from o k).0
  unfolding pop_from
  pop_from-Moves none k p = p
  pop_from-Moves (some s) k p =
      let from : SessionStream A → Host A × Option SpeechItem = λ st. (
        record k {
          streams = Dict.put s (record st { queue = (SpeechQueue.pop_next st.queue).0 }) k.streams;
        },
        (SpeechQueue.pop_next st.queue).1,
      ) in
      by_option (Leads env l a f h) (Dict.get s k.streams) (k, none) from (λ _. p)
        (λ st e.
          thins env l a f k s (record st { queue = (SpeechQueue.pop_next st.queue).0 }) st p
            (stream-some env s k e) (pop_next-Fewer st.queue) refl refl refl refl refl)

  adopt-Moves :
      (next : Option String) (k : Host A)
      → Moves env l a f h k
      → Moves env l a f h (adopt env next k).0
  unfolding adopt
  adopt-Moves none k p = stays env l a f k p refl refl refl
  adopt-Moves (some s) k p =
      let taken : Host A = record k {
        mark_keep_going_resume = false;
        sessions = record k.sessions { speaker = some s };
      } in
      let told = enqueue env (cue_ask true s "Resumed.") taken in
      let resumed : Host A = if k.mark_keep_going_resume then told else taken in
      let q : Moves env l a f h taken = stays env l a f k p refl refl refl in
      pop_from-Moves (some s) resumed (
        either env l a f k.mark_keep_going_resume told taken (asks (cue_ask true s "Resumed.") q) q)

  next_item-Moves : (k : Host A) → Moves env l a f h k → Moves env l a f h (next_item env k).0
  unfolding next_item
  next_item-Moves k p =
      let fg = k.sessions.speaker in
      let released = release_dead_speaker env.has_pending env.exists k fg (stream_at fg k) in
      let kept = release-kept env fg (stream_at fg k) k in
      let fg' : Option String = if released.1 then none else fg in
      let popped = pop_from fg' released.0 in
      let next = select_keep_going env.has_pending env.exists popped.0.streams popped.0.sessions in
      let q : Moves env l a f h popped.0 =
        pop_from-Moves fg' released.0 (stays env l a f k p kept.0 kept.1 kept.2) in
      let quiet =
        stream_quiescent env.has_pending env.exists (stream_at fg' popped.0)
        && is_flowing popped.0.voice_state in
      by_option (Leads env l a f h) popped.1
        (if◌then◌else◌ {A = Host A × Option SpeechItem} quiet (adopt env next popped.0)
          (popped.0, none))
        (λ it. (popped.0, some it))
        (λ _.
          by_test (Leads env l a f h) quiet (adopt env next popped.0) (popped.0, none)
            (λ _. adopt-Moves next popped.0 q) (λ _. q))
        (λ it _. q)

  claimed-Moves :
      (r : Host A × Option SpeechItem) → Leads env l a f h r → Moves env l a f h (claimed r).0
  unfolding claimed attributed_text
  claimed-Moves (k, none) p = stays env l a f k p refl refl refl
  claimed-Moves (k, some item) p = stays env l a f k p (ground arith) (ground arith) (ground arith)

  pub claim_next-Moves : (k : Host A) → Moves env l a f h k → Moves env l a f h (claim_next env k).0
  unfolding claim_next
  claim_next-Moves k p = claimed-Moves (next_item env k) (next_item-Moves k p)

  pub signalled-Moves :
      (s : String) (raised : Bool) (k : Host A)
      → Moves env l a f h k
      → Moves env l a f h (signalled env s raised k)
  signalled-Moves s raised k p =
      either env l a f raised (signal_speak_failure env s k) k (signal-Moves env l a f s k p) p
