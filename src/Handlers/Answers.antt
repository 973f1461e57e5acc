-- ===== src/Handlers/Answers.antt =====
-- The way of an answer from a press to the hook that waits for it: `on_answer_permission` of
-- src/sonari/daemon/features/decisions.py and `_await_permission_decision` of src/sonari/daemon/host.py.
use claude_tts.Prelude.{
  ℕ, ◌≡◌, ◌⊎◌, inl, inr, refl, ap, sym, ◌∙◌, Bool, true, false, not, ◌||◌, ◌&&◌, Option, none, some,
  List, [], ◌∷◌, arith, if◌then◌else◌, String, str_eq, ◌==◌, by_test, by_option, Bool-cases, eq_iff,
}
use claude_tts.Prelude.Dict
use claude_tts.Prelude.Dict.{get-put_self}
use mathlib.Core.Path.{subst}
use claude_tts.Sessions.{workspace}
use claude_tts.KeepGoing.{sanction_dead_read}
use claude_tts.Host.{Host, Env, Decision}
use claude_tts.Host.Kernel.{ask_of, write_ask, cue, enqueue}
use claude_tts.Host.Spoken.{is_id, expire_permission}
use claude_tts.Handlers.{sanction}
use claude_tts.Handlers.Decisions.{
  misdirected, answer_ask, on_answer_permission, end_wait, is_set, register_ask, misdirect_word,
}

-- the answer that is written to an ask
abbrev pub answered : String → Decision → Decision
answered behavior pd = record pd { behavior = some behavior; released = true }

ask_of-write :
    (id i : ℕ) (g : Decision → Decision) (asks : List (ℕ × Decision))
    → ask_of i (write_ask id g asks) ≡ (
        if i == id
        then elim (ask_of i asks) as (λ _. Option Decision) [ none ↦ none | some pd ↦ some (g pd) ]
        else ask_of i asks)
unfolding ask_of write_ask
ask_of-write id i g [] = ground arith
ask_of-write id i g ((j, pd) ∷ asks) = ground (arith, ask_of-write id i g asks)

module _ {A : Type 0} (env : Env A) where
  sanction-asks :
      (s : Option String) (whole : Bool) (h : Host A)
      → ((sanction env s whole h).0.asks ≡ h.asks)
        × ((sanction env s whole h).0.pending_decisions ≡ h.pending_decisions)
  unfolding sanction_dead_read
  sanction-asks none whole h = (refl, refl)
  sanction-asks (some s) whole h = (ground arith, ground arith)

  cue-asks :
      (kind : String) (word session : Option String) (h : Host A)
      → (cue env kind word session h).asks ≡ h.asks
  unfolding cue enqueue
  cue-asks kind none session h = ground arith
  cue-asks kind (some w) none h = ground arith
  cue-asks kind (some w) (some s) h = ground arith

  answer_ask-asks :
      (target : String) (allow : Bool) (behavior : String) (id : ℕ) (h : Host A)
      → (answer_ask env target allow behavior id h).asks ≡ write_ask id (answered behavior) h.asks
  unfolding answer_ask enqueue
  answer_ask-asks target allow behavior id h = (sanction-asks (some target) false _).0

  misdirected-asks :
      (target : Option String) (h : Host A) → (misdirected env target h).asks ≡ h.asks
  unfolding misdirected
  misdirected-asks none h = cue-asks "error_misdirected" none none h
  misdirected-asks (some s) h = cue-asks "error_misdirected" (some (misdirect_word h)) (some s) h

  -- An answer press writes to one ask at most: that of the workspace, and only with "allow" or "deny". Else every
  -- ask is as it was.
  pub answer_permission_lem :
      (behavior : String) (h : Host A)
      → ((on_answer_permission env (some behavior) h).asks ≡ h.asks)
        ⊎ ((target : String) × (id : ℕ) × (workspace h.sessions ≡ some target)
            × (Dict.get target h.pending_decisions ≡ some id)
            × ((behavior ≡ "allow") ⊎ (behavior ≡ "deny"))
            × ((on_answer_permission env (some behavior) h).asks
                ≡ write_ask id (answered behavior) h.asks))
  unfolding on_answer_permission
  answer_permission_lem behavior h =
      let allow = str_eq behavior "allow" in
      let known = allow || str_eq behavior "deny" in
      let Result : Host A → Type 0 = λ k.
        (k.asks ≡ h.asks)
        ⊎ ((target : String) × (id : ℕ) × (workspace h.sessions ≡ some target)
            × (Dict.get target h.pending_decisions ≡ some id)
            × ((behavior ≡ "allow") ⊎ (behavior ≡ "deny"))
            × (k.asks ≡ write_ask id (answered behavior) h.asks)) in
      let at : String → Host A = λ target.
        elim (Dict.get target h.pending_decisions) as (λ _. Host A) [
          | none ↦ misdirected env (some target) h
          | some id ↦ answer_ask env target allow behavior id h
        ] in
      by_test Result (not known) (cue env "error" none none h)
        (elim (workspace h.sessions) as (λ _. Host A) [
          | none ↦ misdirected env none h
          | some target ↦ at target
        ])
        (λ _. inl (cue-asks "error" none none h))
        (λ e.
          by_option Result (workspace h.sessions) (misdirected env none h) at
            (λ _. inl (misdirected-asks none h))
            (λ target there.
              by_option Result (Dict.get target h.pending_decisions)
                (misdirected env (some target) h) (λ id. answer_ask env target allow behavior id h)
                (λ _. inl (misdirected-asks (some target) h))
                (λ id found. inr (
                  target,
                  id,
                  there,
                  found,
                  elim (Bool-cases (str_eq behavior "allow")) [
                    | inl allowed ↦ inl ((eq_iff behavior "allow").0 allowed)
                    | inr no_allow ↦ inr ((eq_iff behavior "deny").0 (ground (arith, e, no_allow)))
                  ],
                  answer_ask-asks target allow behavior id h,
                ))))

  -- what the hook is told is what the ask holds, where its event was set in time
  abbrev told_of : Bool → Option Decision → Option String
  told_of got none = none
  told_of got (some pd) = if got then pd.behavior else none

  end_wait-told :
      (s : String) (id : ℕ) (in_time : Bool) (h : Host A)
      → (end_wait env s id in_time h).1
        ≡ told_of (in_time && is_set (ask_of id h.asks)) (ask_of id h.asks)
  unfolding end_wait
  end_wait-told s id in_time h =
      let got = in_time && is_set (ask_of id h.asks) in
      let behavior = told_of got (ask_of id h.asks) in
      let taken : Host A = record h { pending_decisions = Dict.remove s h.pending_decisions } in
      let over : Host A = if got then taken else expire_permission env s id taken in
      by_test (λ (r : Host A × Option String). r.1 ≡ behavior)
        (not (is_id (Dict.get s h.pending_decisions) id)) (h, behavior) (over, behavior) (λ _. refl)
        (λ _. refl)

  -- a wait for an ask that is not the one of its session any more leaves the state
  end_wait-stale :
      (s : String) (id : ℕ) (in_time : Bool) (h : Host A)
      → is_id (Dict.get s h.pending_decisions) id ≡ false
      → (end_wait env s id in_time h).0 ≡ h
  unfolding end_wait
  end_wait-stale s id in_time h stale = ground (arith, stale)

  told_of-unanswered :
      (got : Bool) (o : Option Decision) (pd : Decision)
      → o ≡ some pd
      → pd.behavior ≡ none
      → told_of got o ≡ none
  told_of-unanswered got o pd there unanswered = ground (arith, there, unanswered)

  -- A new ask of a session that still waits for an older one, which nobody answered: the wait for the older ends
  -- at once, since its event is set; its hook is told nothing, and the state is left as it is, so that the new
  -- ask stands, unanswered and with its event not set.
  pub superseded_wait_lem :
      (s text : String) (id prev : ℕ) (in_time : Bool) (h : Host A) {pd : Decision}
      → Dict.get s h.pending_decisions ≡ some prev
      → ask_of prev h.asks ≡ some pd
      → pd.behavior ≡ none
      → (id == prev) ≡ false
      → (is_set (ask_of prev (register_ask env s id text h).asks) ≡ true)
        × ((end_wait env s prev in_time (register_ask env s id text h)).1 ≡ none)
        × ((end_wait env s prev in_time (register_ask env s id text h)).0
            ≡ register_ask env s id text h)
        × (Dict.get s (register_ask env s id text h).pending_decisions ≡ some id)
        × (is_set (ask_of id (register_ask env s id text h).asks) ≡ false)
  unfolding register_ask ask_of
  superseded_wait_lem s text id prev in_time h {pd = pd} there asked unanswered new =
      let k = register_ask env s id text h in
      let release : Decision → Decision = λ d. record d { released = true } in
      let older : ask_of prev k.asks ≡ some (release pd) =
        ground (arith, there, asked, new, ask_of-write prev prev release h.asks) in
      let stands : Dict.get s k.pending_decisions ≡ some id =
        get-put_self s id h.pending_decisions in
      (
        ap is_set older,
        end_wait-told s prev in_time k
            ∙ told_of-unanswered (in_time && is_set (ask_of prev k.asks)) (ask_of prev k.asks)
                (release pd) older unanswered,
        end_wait-stale s prev in_time k (ap (λ o. is_id o prev) stands ∙ new),
        stands,
        ground arith,
      )

  answered-asks :
      (behavior : String) (h : Host A) {target : String} {id : ℕ}
      → workspace h.sessions ≡ some target
      → Dict.get target h.pending_decisions ≡ some id
      → (behavior ≡ "allow") ⊎ (behavior ≡ "deny")
      → (on_answer_permission env (some behavior) h).asks ≡ write_ask id (answered behavior) h.asks
  unfolding on_answer_permission
  answered-asks behavior h {target = target} {id = id} there found known =
      let allow = str_eq behavior "allow" in
      let Written : Host A → Type 0 = λ k. k.asks ≡ write_ask id (answered behavior) h.asks in
      let at : String → Host A = λ t. elim (Dict.get t h.pending_decisions) as (λ _. Host A) [
        | none ↦ misdirected env (some t) h
        | some i ↦ answer_ask env t allow behavior i h
      ] in
      let right : Written (at target) =
        subst
          (λ o. Written (elim o as (λ _. Host A) [
            | none ↦ misdirected env (some target) h
            | some i ↦ answer_ask env target allow behavior i h
          ]))
          (sym found) (answer_ask-asks target allow behavior id h) in
      by_test Written (not (allow || str_eq behavior "deny")) (cue env "error" none none h)
        (elim (workspace h.sessions) as (λ _. Host A) [
          | none ↦ misdirected env none h
          | some t ↦ at t
        ])
        (λ e. absurd (elim known [
          | inl allowed ↦ ground (arith, e, (eq_iff behavior "allow").1 allowed)
          | inr denied ↦ ground (arith, e, (eq_iff behavior "deny").1 denied)
        ]))
        (λ _.
          subst
            (λ o.
              Written (elim o as (λ _. Host A) [ none ↦ misdirected env none h | some t ↦ at t ]))
            (sym there) right)

  -- An approve or deny press while the workspace's session has an ask sets the event of that ask, and a wait that
  -- has not run out by then ends with the very behaviour that was pressed.
  pub answer_reaches_wait :
      (behavior : String) (h : Host A) {target : String} {id : ℕ} {pd : Decision}
      → workspace h.sessions ≡ some target
      → Dict.get target h.pending_decisions ≡ some id
      → ask_of id h.asks ≡ some pd
      → (behavior ≡ "allow") ⊎ (behavior ≡ "deny")
      → (is_set (ask_of id (on_answer_permission env (some behavior) h).asks) ≡ true)
        × ((end_wait env target id true (on_answer_permission env (some behavior) h)).1
            ≡ some behavior)
  answer_reaches_wait behavior h {target = target} {id = id} {pd = pd} there found asked known =
      let k = on_answer_permission env (some behavior) h in
      let written : ask_of id k.asks ≡ some (answered behavior pd) =
        ap (ask_of id) (answered-asks behavior h there found known)
        ∙ ask_of-write id id (answered behavior) h.asks
        ∙ ground (arith, asked) in
      (
        ap is_set written,
        end_wait-told target id true k ∙ ap (λ o. told_of (true && is_set o) o) written,
      )
