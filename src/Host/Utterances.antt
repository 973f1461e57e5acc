-- ===== src/Host/Utterances.antt =====
-- The bookkeeping of Host/Spoken.antt, as moves of the host.
use claude_tts.Prelude.{
  ℕ, ◌≡◌, inl, inr, refl, ap, ◌∙◌, Bool, true, not, Option, none, some, arith, if◌then◌else◌,
  String, ◌+++◌, Option-cases, to_list,
}
use claude_tts.Prelude.Dict
use claude_tts.Prelude.StrSet
use claude_tts.FaultCue
use claude_tts.SpeechQueue
use claude_tts.SpeechQueue.{SpeechQueue, SpeechItem}
use claude_tts.SpeechQueue.Copies.{copies, Fewer, remove_where-Fewer, remove_by_id-Fewer}
use claude_tts.SessionStream.{SessionStream, advance_frontier}
use claude_tts.SessionStream.Frontier.{advance-behind}
use claude_tts.History.{HistoryEntry, Key, key}
use claude_tts.Host.{Host, Env, Catchup}
use claude_tts.Host.Kernel.{
  stream, cue, pending, pop_pending, drop_pending, mark_heard, is_stopped_all,
}
use claude_tts.Host.Spoken.{
  change_stream, remove_items, confirm, settle_catchup, drop_render_items, burn_catchup,
  note_spoken, expire_permission, signal_speak_failure, is_id, is_below, expired_word,
  speak_failure_word, doctor_hint,
}
use claude_tts.Host.Moves.{Moves, puts, stream-some}
use claude_tts.Host.Calls.{either, case_of, stays, thins, cue-Moves}

module _ {A : Type 0} where
  advance-kept :
      (to : Option Key) (st : SessionStream A)
      → ((advance_frontier to st).queue ≡ st.queue)
        × ((advance_frontier to st).stopped ≡ st.stopped)
  unfolding advance_frontier
  advance-kept none st = (refl, refl)
  advance-kept (some k) st = elim (Option-cases st.frontier) [
    | inl e ↦ (ground (arith, e), ground (arith, e))
    | inr (g, e) ↦ (ground (arith, e), ground (arith, e))
  ]

module _ {A : Type 0} (env : Env A) (l a f : Bool) {h : Host A} where
  -- a stream is written whose frontier was advanced, and whose queue then lost items at most
  pub advances :
      (k : Host A) (s : String) (to : Option Key) (st old : SessionStream A) {k' : Host A}
      → a ≡ true
      → Moves env l a f h k
      → stream env s k ≡ old
      → Fewer st.queue old.queue
      → st.stopped ≡ (advance_frontier to old).stopped
      → st.frontier ≡ (advance_frontier to old).frontier
      → k'.streams ≡ Dict.put s st k.streams
      → k'.next_id ≡ k.next_id
      → k'.voice_state ≡ k.voice_state
      → Moves env l a f h k'
  advances k s to st old {k' = k'} may p there fewer stopped frontier streams next voice =
      puts k' s st p streams next (inr (λ e. ap is_stopped_all voice ∙ e)) (
        rw there (
          fewer,
          inr (λ e. stopped ∙ (advance-kept to old).1 ∙ e),
          inr (may, rw frontier ((advance-behind env.fresh old to).0)),
        ))

  change_stream-Moves :
      (s : String) (to : Option Key) (k : Host A)
      → a ≡ true
      → Moves env l a f h k
      → Moves env l a f h (change_stream s (advance_frontier to) k)
  unfolding change_stream
  change_stream-Moves s to k may p =
      case_of env l a f (Dict.get s k.streams) k
        (λ st. record k { streams = Dict.put s (advance_frontier to st) k.streams }) p
        (λ st e.
          advances k s to (advance_frontier to st) st may p (stream-some env s k e)
            (λ n.
              ground (arith, ap (λ (q : SpeechQueue). copies n q.items) ((advance-kept to st).0)))
            refl refl refl refl refl)

  remove_items-Moves :
      (s : String) (pred : SpeechItem → Bool) (k : Host A)
      → Moves env l a f h k
      → Moves env l a f h (remove_items s pred k)
  unfolding remove_items
  remove_items-Moves s pred k p =
      case_of env l a f (Dict.get s k.streams) k
        (λ st. record k {
          streams =
              Dict.put s (record st { queue = (SpeechQueue.remove_where pred st.queue).0 })
                k.streams;
          pending_heard = drop_pending (SpeechQueue.remove_where pred st.queue).1 k.pending_heard;
        })
        p
        (λ st e.
          thins env l a f k s (record st { queue = (SpeechQueue.remove_where pred st.queue).0 }) st
            p (stream-some env s k e) (remove_where-Fewer pred st.queue) refl refl refl refl refl)

  confirm-Moves :
      (item : SpeechItem) (completed : Bool) (k : Host A)
      → a ≡ true
      → Moves env l a f h k
      → Moves env l a f h (confirm item completed k)
  unfolding confirm
  confirm-Moves item completed k may p =
      let taken : Host A = record k { pending_heard = pop_pending item.id k.pending_heard } in
      let heard : HistoryEntry → Host A =
        λ e. record taken { history = mark_heard item.session e taken.history } in
      let ahead : HistoryEntry → Host A =
        λ e. change_stream item.session (advance_frontier (some (key e))) (heard e) in
      let q : Moves env l a f h taken = stays env l a f k p refl refl refl in
      let r : (e : HistoryEntry) → Moves env l a f h (heard e) =
        λ e. stays env l a f k p refl refl refl in
      case_of env l a f (pending item.id k.pending_heard) taken
        (λ e. if not completed then taken else if item.forward then ahead e else heard e) q
        (λ e _.
          either env l a f (not completed) taken (if item.forward then ahead e else heard e) q (
            either env l a f item.forward (ahead e) (heard e)
              (change_stream-Moves item.session (some (key e)) (heard e) may (r e)) (r e)))

  burn_catchup-Moves :
      (cu : Catchup) (k : Host A)
      → a ≡ true
      → Moves env l a f h k
      → Moves env l a f h (burn_catchup cu k)
  unfolding burn_catchup
  burn_catchup-Moves cu k may p =
      let ahead = change_stream cu.target (advance_frontier (some cu.slice_end)) k in
      remove_items-Moves cu.target (λ it. is_below cu.slice_end (pending it.id k.pending_heard))
        ahead (change_stream-Moves cu.target (some cu.slice_end) k may p)

  settle_catchup-Moves :
      (item : SpeechItem) (completed : Bool) (k : Host A)
      → a ≡ true
      → Moves env l a f h k
      → Moves env l a f h (settle_catchup item completed k)
  unfolding settle_catchup drop_render_items
  settle_catchup-Moves item completed k may p =
      let burnt : Catchup → Host A = λ cu. if cu.ended then k else burn_catchup cu k in
      let over : Catchup → Host A = λ cu. record (burnt cu) { catchup = none } in
      let cut : ℕ → Host A =
        λ rid. record (drop_render_items item.session rid k) { catchup = none } in
      let ended : Catchup → ℕ → Host A =
        λ cu rid. if not completed then cut rid else if item.catchup_burn then over cu else k in
      case_of env l a f k.catchup k
        (λ cu. elim item.render_id as (λ _. Host A) [
          | none ↦ k
          | some rid ↦ if not (is_id cu.render_id rid) then k else ended cu rid
        ])
        p
        (λ cu _.
          case_of env l a f item.render_id k
            (λ rid. if not (is_id cu.render_id rid) then k else ended cu rid) p
            (λ rid _. either env l a f (not (is_id cu.render_id rid)) k (ended cu rid) p (
              either env l a f (not completed) (cut rid) (if item.catchup_burn then over cu else k)
                (stays env l a f (drop_render_items item.session rid k)
                  (remove_items-Moves item.session (λ it. is_id it.render_id rid) k p) refl refl
                  refl)
                (either env l a f item.catchup_burn (over cu) k
                  (stays env l a f (burnt cu)
                    (either env l a f cu.ended k (burn_catchup cu k) p
                      (burn_catchup-Moves cu k may p))
                    refl refl refl)
                  p))))

  pub note_spoken-Moves :
      (item : SpeechItem) (completed : Bool) (k : Host A)
      → a ≡ true
      → Moves env l a f h k
      → Moves env l a f h (note_spoken item completed k)
  unfolding note_spoken
  note_spoken-Moves item completed k may p =
      let released : Host A = record k {
        current_item = none;
        speak_failure_outstanding =
            if completed
            then StrSet.discard item.session k.speak_failure_outstanding
            else k.speak_failure_outstanding;
      } in
      settle_catchup-Moves item completed (confirm item completed released) may
        (confirm-Moves item completed released may (stays env l a f k p refl refl refl))

  pub expire_permission-Moves :
      (s : String) (id : ℕ) (k : Host A)
      → Moves env l a f h k
      → Moves env l a f h (expire_permission env s id k)
  unfolding expire_permission
  expire_permission-Moves s id k p =
      let cued = cue env "permission_expired" (some expired_word) (some s) k in
      let q : Moves env l a f h cued =
        cue-Moves env l a f "permission_expired" (some expired_word) (some s) k p in
      case_of env l a f (Dict.get s cued.streams) cued
        (λ st. record cued {
          streams =
              Dict.put s (record st { queue = (SpeechQueue.remove_by_id id st.queue).0 })
                cued.streams;
          pending_heard =
              drop_pending (to_list (SpeechQueue.remove_by_id id st.queue).1) cued.pending_heard;
        })
        q
        (λ st e.
          thins env l a f cued s (record st { queue = (SpeechQueue.remove_by_id id st.queue).0 }) st
            q (stream-some env s cued e) (remove_by_id-Fewer id st.queue) refl refl refl refl refl)

  pub signal-Moves :
      (s : String) (k : Host A)
      → Moves env l a f h k
      → Moves env l a f h (signal_speak_failure env s k)
  unfolding signal_speak_failure
  signal-Moves s k p =
      let (fault, first) = FaultCue.should_fire "speak" k.faultcue in
      let word : String = speak_failure_word +++ (if first then doctor_hint else "") in
      let faulted : Host A = record k { faultcue = fault } in
      let said = cue env "error_system" (some word) (some s) faulted in
      let marked : Host A = record said {
        speak_failure_outstanding = StrSet.add s said.speak_failure_outstanding;
      } in
      either env l a f (StrSet.has s k.speak_failure_outstanding)
        (cue env "error_system" none none k) marked
        (cue-Moves env l a f "error_system" none none k p)
        (stays env l a f said
          (cue-Moves env l a f "error_system" (some word) (some s) faulted
            (stays env l a f k p refl refl refl))
          refl refl refl)
