-- ===== src/Host/Claims.antt =====
-- What the voice takes out of the queues (Host/Voice.antt): the ids, the stops and the frontiers.
use claude_tts.Prelude.{
  ℕ, ◌+◌, ◌≤◌, ◌≡◌, refl, ap, true, false, ◌&&◌, Option, none, some, map, arith, if◌then◌else◌,
  String, to_list, by_test, by_option,
}
use claude_tts.Prelude.Dict
use claude_tts.SpeechQueue
use claude_tts.SpeechQueue.{SpeechQueue, SpeechItem}
use claude_tts.SpeechQueue.Copies.{copies, pop_next-copies, pop_control_cue-copies}
use claude_tts.SessionStream.{SessionStream}
use claude_tts.KeepGoing.{
  least, held_cue, pop_held_control_cue, release_dead_speaker, select_keep_going, stream_quiescent,
}
use claude_tts.Host.{Host, Env, cue_ask}
use claude_tts.Host.Kernel.{enqueue, is_flowing}
use claude_tts.Host.Voice.{stream_at, pop_from, crossing, adopt, next_item}
use claude_tts.Host.Moves.{Moves, here, asks, total, total-put, copies_at}
use claude_tts.Host.Calls.{either, stays}
use claude_tts.Host.Ids.{Grows, fresh, moves-Grows}

module _ {A : Type 0} where
  -- What was taken is what the queues lost, but for the ids given out on the way.
  abbrev pub Takes : Host A → Host A × Option SpeechItem → Type 0
  Takes h r =
      (h.next_id ≤ r.0.next_id)
      × ((n : ℕ)
          → total n r.0.streams + copies n (to_list r.1)
            ≤ total n h.streams + fresh n h.next_id r.0.next_id)

  -- the item is taken out of the queue of a stream
  pops-Takes :
      (s : String) (st : SessionStream A) (h : Host A) (q : SpeechQueue) (item : Option SpeechItem)
      → Dict.get s h.streams ≡ some st
      → ((n : ℕ) → copies n q.items + copies n (to_list item) ≡ copies n st.queue.items)
      → Takes h (record h { streams = Dict.put s (record st { queue = q }) h.streams }, item)
  pops-Takes s st h q item e lost = (
    omega arith,
    λ n.
        ground
          (arith, total-put n s (record st { queue = q }) h.streams, lost n, ap (copies_at n) e),
  )

  same-Takes : (h k : Host A) → k.streams ≡ h.streams → k.next_id ≡ h.next_id → Takes h (k, none)
  unfolding copies
  same-Takes h k streams next = (omega (arith, next), λ n. ground (arith, ap (total n) streams))

  nothing-Takes : (h : Host A) → Takes h (h, none)
  nothing-Takes h = same-Takes h h refl refl

  pub pop_held-Takes : (h : Host A) → Takes h (pop_held_control_cue h)
  unfolding pop_held_control_cue
  pop_held-Takes h =
      let from : String × ℕ → SessionStream A → Host A × Option SpeechItem = λ best st. (
        record h {
          streams =
              Dict.put best.0 (record st { queue = (SpeechQueue.pop_control_cue st.queue).0 })
                h.streams;
        },
        (SpeechQueue.pop_control_cue st.queue).1,
      ) in
      let at : String × ℕ → Host A × Option SpeechItem = λ best.
        elim (Dict.get best.0 h.streams) as (λ _. Host A × Option SpeechItem) [
          | none ↦ (h, none)
          | some st ↦ from best st
        ] in
      by_option (Takes h) (least (map (λ e. (e.0, held_cue e.1)) h.streams) none) (h, none) at
        (λ _. nothing-Takes h)
        (λ best _.
          by_option (Takes h) (Dict.get best.0 h.streams) (h, none) (from best)
            (λ _. nothing-Takes h)
            (λ st e. pops-Takes best.0 st h _ _ e (λ n. pop_control_cue-copies n st.queue)))

  pub pop_from-Takes : (o : Option String) (h : Host A) → Takes h (pop_from o h)
  unfolding pop_from
  pop_from-Takes none h = nothing-Takes h
  pop_from-Takes (some s) h =
      let from : SessionStream A → Host A × Option SpeechItem = λ st. (
        record h {
          streams = Dict.put s (record st { queue = (SpeechQueue.pop_next st.queue).0 }) h.streams;
        },
        (SpeechQueue.pop_next st.queue).1,
      ) in
      by_option (Takes h) (Dict.get s h.streams) (h, none) from (λ _. nothing-Takes h)
        (λ st e. pops-Takes s st h _ _ e (λ n. pop_next-copies n st.queue))

  -- an item is taken behind moves that gave out ids
  Grows-Takes : (h k : Host A) (r : Host A × Option SpeechItem) → Grows h k → Takes k r → Takes h r
  Grows-Takes h k r p q = (omega (arith, p.0, q.0), λ n. ground (arith, p.0, q.0, p.1 n, q.1 n))

module _ {A : Type 0} (env : Env A) where
  crossing-id : (s : String) (h : Host A) (item : SpeechItem) → (crossing env s h item).id ≡ item.id
  unfolding crossing
  crossing-id s h item = ground arith

  -- the call-sign leaves the id
  crossed-copies :
      (n : ℕ) (s : String) (h : Host A) (o : Option SpeechItem)
      → copies n (
          to_list (elim o as (λ _. Option SpeechItem) [
            | none ↦ none
            | some it ↦ some (crossing env s h it)
          ]))
        ≡ copies n (to_list o)
  unfolding copies
  crossed-copies n s h none = refl
  crossed-copies n s h (some it) = ground (arith, crossing-id s h it)

  pub adopt-Takes : (next : Option String) (h : Host A) → Takes h (adopt env next h)
  unfolding adopt
  adopt-Takes none h = same-Takes h (record h { mark_keep_going_resume = false }) refl refl
  adopt-Takes (some s) h =
      let spent : Host A = record h { mark_keep_going_resume = false } in
      let taken : Host A = record spent { sessions = record spent.sessions { speaker = some s } } in
      let told = enqueue env (cue_ask true s "Resumed.") taken in
      let resumed : Host A = if h.mark_keep_going_resume then told else taken in
      let q : Moves env false false false h taken =
        stays env false false false h here refl refl refl in
      let move : Moves env false false false h resumed =
        either env false false false h.mark_keep_going_resume told taken
          (asks (cue_ask true s "Resumed.") q) q in
      let popped = pop_from (some s) resumed in
      let all =
        Grows-Takes h resumed popped (moves-Grows env move) (pop_from-Takes (some s) resumed) in
      (all.0, λ n. omega (arith, all.1 n, crossed-copies n s popped.0 popped.1))

  pub release-kept :
      (fg : Option String) (st : Option (SessionStream A)) (h : Host A)
      → ((release_dead_speaker env.has_pending env.exists h fg st).0.streams ≡ h.streams)
        × ((release_dead_speaker env.has_pending env.exists h fg st).0.next_id ≡ h.next_id)
        × ((release_dead_speaker env.has_pending env.exists h fg st).0.voice_state ≡ h.voice_state)
  unfolding release_dead_speaker
  release-kept none st h = (refl, refl, refl)
  release-kept (some s) st h = (ground arith, ground arith, ground arith)

  pub next_item-Takes : (h : Host A) → Takes h (next_item env h)
  unfolding next_item
  next_item-Takes h =
      let fg = h.sessions.speaker in
      let released = release_dead_speaker env.has_pending env.exists h fg (stream_at fg h) in
      let kept = release-kept fg (stream_at fg h) h in
      let fg' : Option String = if released.1 then none else fg in
      let popped = pop_from fg' released.0 in
      let next = select_keep_going env.has_pending env.exists popped.0.streams popped.0.sessions in
      let free : Grows h released.0 =
        (omega (arith, kept.1), λ n. ground (arith, ap (total n) kept.0, kept.1)) in
      let p : Takes h popped =
        Grows-Takes h released.0 popped free (pop_from-Takes fg' released.0) in
      let idle =
        stream_quiescent env.has_pending env.exists (stream_at fg' popped.0)
        && is_flowing popped.0.voice_state in
      by_option (Takes h) popped.1
        (if◌then◌else◌ {A = Host A × Option SpeechItem} idle (adopt env next popped.0)
          (popped.0, none))
        (λ it. (popped.0, some it))
        (λ e.
          let bare : Grows h popped.0 = (p.0, λ n. omega (arith, p.1 n)) in
          by_test (Takes h) idle (adopt env next popped.0) (popped.0, none)
            (λ _. Grows-Takes h popped.0 (adopt env next popped.0) bare (adopt-Takes next popped.0))
            (λ _. Grows-Takes h popped.0 (popped.0, none) bare (nothing-Takes popped.0)))
        (λ it e. (p.0, λ n. omega (arith, p.1 n, ap (λ o. copies n (to_list o)) e)))
