-- ===== src/Host/Failures.antt =====
-- The words of `_signal_speak_failure` of src/sonari/daemon/host.py, while utterances end in the speak loop.
use claude_tts.Prelude.{
  ℕ, ◌+◌, ◌-◌, ◌≤◌, ◌≡◌, refl, ap, sym, ◌∙◌, Bool, true, false, not, ◌&&◌, Option, none, some, List,
  [], ◌∷◌, All, arith, if◌then◌else◌, String, str_eq, by_test, by_option, str_eq_refl, eq_iff,
  Bool-cases, inl, inr, ◌+++◌,
}
use claude_tts.Prelude.StrSet
use claude_tts.Prelude.StrSet.{has-add, has-discard}
use claude_tts.FaultCue
use claude_tts.SpeechQueue
use claude_tts.SpeechQueue.{SpeechItem}
use claude_tts.SessionStream.{SessionStream, advance_frontier}
use claude_tts.Host.{Host, Env, Catchup}
use claude_tts.Host.Kernel.{cue, enqueue, pending, stream, put_stream}
use claude_tts.Host.Spoken.{
  signal_speak_failure, speak_failure_word, doctor_hint, change_stream, remove_items, burn_catchup,
  drop_render_items, confirm, settle_catchup, note_spoken, is_below, is_id,
}
use claude_tts.Host.Voice.{Claimed, settle, signalled, step, goes_on, answers, speaking}

module _ {A : Type 0} (env : Env A) where
  -- the answer of the back end to an utterance in hand, and the tail of the loop behind it
  abbrev pub utter : Claimed × Bool × Bool → Host A → Host A
  utter (c, completed, raised) h =
      (step env goes_on (step env (answers completed raised) (h, speaking c))).0

  -- the utterance proves that the voice of the session works
  abbrev pub is_proof : String → Claimed × Bool × Bool → Bool
  is_proof s (c, completed, raised) = str_eq c.item.session s && (completed && not raised)

  -- how many ids are given out while utterances of the session end
  unfoldable pub words : String → List (Claimed × Bool × Bool) → Host A → ℕ
  unfolding step
  words s [] h = 0
  words s (u ∷ us) h =
      let rest = words s us (utter u h) in
      (if str_eq u.0.item.session s then (utter u h).next_id - h.next_id else 0) + rest

  cue-outstanding :
      (kind : String) (word session : Option String) (h : Host A)
      → ((cue env kind word session h).speak_failure_outstanding ≡ h.speak_failure_outstanding)
        × ((cue env kind word session h).next_id ≤ h.next_id + 1)
  unfolding cue enqueue
  cue-outstanding kind none session h = (ground arith, ground arith)
  cue-outstanding kind (some w) none h = (ground arith, ground arith)
  cue-outstanding kind (some w) (some s) h = (ground arith, ground arith)

  tone-next : (kind : String) (h : Host A) → (cue env kind none none h).next_id ≡ h.next_id
  unfolding cue
  tone-next kind h = ground arith

  -- a failure while a word is outstanding gives out no id
  again-next :
      (s : String) (h : Host A)
      → StrSet.has s h.speak_failure_outstanding ≡ true
      → ((signal_speak_failure env s h).next_id ≡ h.next_id)
        × (StrSet.has s (signal_speak_failure env s h).speak_failure_outstanding ≡ true)
  unfolding signal_speak_failure
  again-next s h out =
      let (fault, first) = FaultCue.should_fire "speak" h.faultcue in
      let said =
        cue env "error_system" (some (speak_failure_word +++ (if first then doctor_hint else "")))
          (some s) (record h { faultcue = fault }) in
      let marked : Host A = record said {
        speak_failure_outstanding = StrSet.add s said.speak_failure_outstanding;
      } in
      by_test
        (λ (k : Host A).
          (k.next_id ≡ h.next_id) × (StrSet.has s k.speak_failure_outstanding ≡ true))
        (StrSet.has s h.speak_failure_outstanding) (cue env "error_system" none none h) marked
        (λ _. (
          tone-next "error_system" h,
          ap (StrSet.has s) ((cue-outstanding "error_system" none none h).0) ∙ out,
        ))
        (λ e. absurd (ground (arith, e, out)))

  first-next :
      (s : String) (h : Host A)
      → ((signal_speak_failure env s h).next_id ≤ h.next_id + 1)
        × (StrSet.has s (signal_speak_failure env s h).speak_failure_outstanding ≡ true)
  unfolding signal_speak_failure
  first-next s h =
      let (fault, first) = FaultCue.should_fire "speak" h.faultcue in
      let word : String = speak_failure_word +++ (if first then doctor_hint else "") in
      let faulted : Host A = record h { faultcue = fault } in
      let said = cue env "error_system" (some word) (some s) faulted in
      let marked : Host A = record said {
        speak_failure_outstanding = StrSet.add s said.speak_failure_outstanding;
      } in
      by_test
        (λ (k : Host A).
          (k.next_id ≤ h.next_id + 1) × (StrSet.has s k.speak_failure_outstanding ≡ true))
        (StrSet.has s h.speak_failure_outstanding) (cue env "error_system" none none h) marked
        (λ e. (
          (cue-outstanding "error_system" none none h).1,
          ap (StrSet.has s) ((cue-outstanding "error_system" none none h).0) ∙ e,
        ))
        (λ _. (
          (cue-outstanding "error_system" (some word) (some s) faulted).1,
          ground (arith, has-add s s said.speak_failure_outstanding, str_eq_refl s),
        ))

  -- the ids and the outstanding words are the same in both
  abbrev Same : Host A → Host A → Type 0
  Same h k = (k.next_id ≡ h.next_id) × (k.speak_failure_outstanding ≡ h.speak_failure_outstanding)

  change_stream-Same :
      (s : String) (g : SessionStream A → SessionStream A) (h : Host A)
      → Same h (change_stream s g h)
  unfolding change_stream
  change_stream-Same s g h = (ground arith, ground arith)

  remove_items-Same :
      (s : String) (pred : SpeechItem → Bool) (h : Host A) → Same h (remove_items s pred h)
  unfolding remove_items
  remove_items-Same s pred h = (ground arith, ground arith)

  burn_catchup-Same : (cu : Catchup) (h : Host A) → Same h (burn_catchup cu h)
  unfolding burn_catchup
  burn_catchup-Same cu h =
      let k = change_stream cu.target (advance_frontier (some cu.slice_end)) h in
      let below : SpeechItem → Bool = λ it. is_below cu.slice_end (pending it.id h.pending_heard) in
      let (next, out) = remove_items-Same cu.target below k in
      let (next', out') = change_stream-Same cu.target (advance_frontier (some cu.slice_end)) h in
      (next ∙ next', out ∙ out')

  confirm-Same :
      (item : SpeechItem) (completed : Bool) (h : Host A) → Same h (confirm item completed h)
  unfolding confirm change_stream
  confirm-Same item completed h = (ground arith, ground arith)

  settle_catchup-Same :
      (item : SpeechItem) (completed : Bool) (h : Host A) → Same h (settle_catchup item completed h)
  unfolding settle_catchup drop_render_items
  settle_catchup-Same item completed h =
      let after : Catchup → ℕ → Host A = λ cu rid.
        let burnt : Host A = if cu.ended then h else burn_catchup cu h in
        if not (is_id cu.render_id rid)
        then h
        else if not completed
        then record (drop_render_items item.session rid h) { catchup = none }
        else if item.catchup_burn
        then record burnt { catchup = none }
        else h in
      by_option (Same h) h.catchup h
        (λ cu. elim item.render_id as (λ _. Host A) [ none ↦ h | some rid ↦ after cu rid ])
        (λ _. (refl, refl))
        (λ cu _.
          by_option (Same h) item.render_id h (after cu) (λ _. (refl, refl))
            (λ rid _. (
              ground (
                arith,
                (remove_items-Same item.session (λ it. is_id it.render_id rid) h).0,
                (burn_catchup-Same cu h).0,
              ),
              ground (
                arith,
                (remove_items-Same item.session (λ it. is_id it.render_id rid) h).1,
                (burn_catchup-Same cu h).1,
              ),
            )))

  note_spoken-Same :
      (item : SpeechItem) (completed : Bool) (h : Host A)
      → ((note_spoken item completed h).next_id ≡ h.next_id)
        × ((note_spoken item completed h).speak_failure_outstanding ≡ (
            if completed
            then StrSet.discard item.session h.speak_failure_outstanding
            else h.speak_failure_outstanding))
  unfolding note_spoken
  note_spoken-Same item completed h =
      let released : Host A = record h {
        current_item = none;
        speak_failure_outstanding =
            if completed
            then StrSet.discard item.session h.speak_failure_outstanding
            else h.speak_failure_outstanding;
      } in
      let (next, out) = settle_catchup-Same item completed (confirm item completed released) in
      let (next', out') = confirm-Same item completed released in (next ∙ next', out ∙ out')

  settle-Same :
      (c : Claimed) (completed : Bool) (h : Host A)
      → ((settle env c completed h).next_id ≡ h.next_id)
        × ((settle env c completed h).speak_failure_outstanding ≡ (
            if completed
            then StrSet.discard c.item.session h.speak_failure_outstanding
            else h.speak_failure_outstanding))
  unfolding settle
  settle-Same c true h =
      let kept : Host A =
        if c.item.control_cue
        then h
        else record h { last_utterance = some (c.text, c.item.audio_path) } in
      let (next, out) = note_spoken-Same c.item true kept in
      (next ∙ ground arith, out ∙ ap (StrSet.discard c.item.session) (ground arith))
  settle-Same c false h =
      let st = stream env c.item.session h in
      let opened = put_stream env c.item.session st h in
      let requeued =
        put_stream env c.item.session
          (record st { queue = SpeechQueue.enqueue_front c.item st.queue })
          (record h { current_item = none; last_spoken_session = c.prev }) in
      by_test (Same h) st.stopped requeued (note_spoken c.item false opened) (λ _. (refl, refl))
        (λ _. note_spoken-Same c.item false opened)

  -- a failure of any session leaves the word of `s` outstanding
  signal-keeps :
      (s t : String) (h : Host A)
      → StrSet.has s h.speak_failure_outstanding ≡ true
      → StrSet.has s (signal_speak_failure env t h).speak_failure_outstanding ≡ true
  unfolding signal_speak_failure
  signal-keeps s t h out =
      let (fault, first) = FaultCue.should_fire "speak" h.faultcue in
      let word : String = speak_failure_word +++ (if first then doctor_hint else "") in
      let faulted : Host A = record h { faultcue = fault } in
      let said = cue env "error_system" (some word) (some t) faulted in
      let marked : Host A = record said {
        speak_failure_outstanding = StrSet.add t said.speak_failure_outstanding;
      } in
      by_test (λ (k : Host A). StrSet.has s k.speak_failure_outstanding ≡ true)
        (StrSet.has t h.speak_failure_outstanding) (cue env "error_system" none none h) marked
        (λ _. ap (StrSet.has s) ((cue-outstanding "error_system" none none h).0) ∙ out)
        (λ _. ground (
          arith,
          has-add t s said.speak_failure_outstanding,
          ap (StrSet.has s) ((cue-outstanding "error_system" (some word) (some t) faulted).0),
          out,
        ))

  -- the end of an utterance gives out what the signal does, and forgets only what it proves
  utter-next :
      (u : Claimed × Bool × Bool) (h : Host A)
      → (utter u h).next_id ≡ (signalled env u.0.item.session u.2 h).next_id
  unfolding step
  utter-next (c, completed, raised) h =
      (settle-Same c (completed && not raised) (signalled env c.item.session raised h)).0

  utter-keeps :
      (s : String) (u : Claimed × Bool × Bool) (h : Host A)
      → is_proof s u ≡ false
      → StrSet.has s (signalled env u.0.item.session u.2 h).speak_failure_outstanding ≡ true
      → StrSet.has s (utter u h).speak_failure_outstanding ≡ true
  unfolding step
  utter-keeps s (c, completed, raised) h unproved out =
      let g = signalled env c.item.session raised h in
      ap (StrSet.has s) (settle-Same c (completed && not raised) g).1
      ∙ ground (arith, unproved, out, has-discard c.item.session s g.speak_failure_outstanding)

  signalled-keeps :
      (s t : String) (raised : Bool) (h : Host A)
      → StrSet.has s h.speak_failure_outstanding ≡ true
      → StrSet.has s (signalled env t raised h).speak_failure_outstanding ≡ true
  signalled-keeps s t true h out = signal-keeps s t h out
  signalled-keeps s t false h out = out

  signalled-next :
      (s t : String) (raised : Bool) (h : Host A)
      → StrSet.has s h.speak_failure_outstanding ≡ true
      → str_eq t s ≡ true
      → (signalled env t raised h).next_id ≡ h.next_id
  signalled-next s t true h out same =
      (again-next t h
        (ap (λ r. StrSet.has r h.speak_failure_outstanding) ((eq_iff t s).0 same) ∙ out)).0
  signalled-next s t false h out same = refl

  outstanding-words :
      (s : String) (us : List (Claimed × Bool × Bool)) (h : Host A)
      → All (λ u. is_proof s u ≡ false) us
      → StrSet.has s h.speak_failure_outstanding ≡ true
      → words s us h ≡ 0
  unfolding words
  outstanding-words s [] h all out = refl
  outstanding-words s (u ∷ us) h (unproved, all) out =
      let t = u.0.item.session in
      let rest =
        outstanding-words s us (utter u h) all
          (utter-keeps s u h unproved (signalled-keeps s t u.2 h out)) in
      elim (Bool-cases (str_eq t s)) [
        | inl same ↦
            let next : (utter u h).next_id ≡ h.next_id =
              utter-next u h ∙ signalled-next s t u.2 h out same in
            ground (arith, same, rest, next)
        | inr other ↦ ground (arith, other, rest)
      ]

  -- Utterances end one after another, of any sessions, each completed, cut or raised, and put back where its stream
  -- is stopped. As long as none of the session's own is completed, their ends queue at most one word for
  -- it, however many of them raise.
  pub one_word_outstanding :
      (s : String) (us : List (Claimed × Bool × Bool)) (h : Host A)
      → All (λ u. is_proof s u ≡ false) us
      → words s us h ≤ 1
  unfolding words
  one_word_outstanding s [] h all = omega arith
  one_word_outstanding s ((c, completed, false) ∷ us) h (unproved, all) =
      let u : Claimed × Bool × Bool = (c, completed, false) in
      ground (arith, utter-next u h, one_word_outstanding s us (utter u h) all)
  one_word_outstanding s ((c, completed, true) ∷ us) h (unproved, all) =
      let u : Claimed × Bool × Bool = (c, completed, true) in
      let t = c.item.session in
      let g = signal_speak_failure env t h in
      let (few, out) = first-next t h in
      elim (Bool-cases (str_eq t s)) [
        | inl same ↦
            let there : StrSet.has s g.speak_failure_outstanding ≡ true =
              ap (λ r. StrSet.has r g.speak_failure_outstanding) (sym ((eq_iff t s).0 same))
              ∙ out in
            ground (
              arith,
              same,
              few,
              utter-next u h,
              outstanding-words s us (utter u h) all (utter-keeps s u h unproved there),
            )
        | inr other ↦ ground (arith, other, one_word_outstanding s us (utter u h) all)
      ]
