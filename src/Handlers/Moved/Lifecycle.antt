-- ===== src/Handlers/Moved/Lifecycle.antt =====
-- The handlers of src/sonari/daemon/features/lifecycle.py, as moves of the host.
use claude_tts.Prelude.{
  ◌≡◌, inr, refl, ap, sym, ◌∙◌, Bool, true, false, not, ◌||◌, ◌&&◌, Option, none, some, arith,
  if◌then◌else◌, String, str_eq, ◌+++◌,
}
use claude_tts.Prelude.Dict
use claude_tts.Sessions.{
  Identity, is_session, folder, number, claim_announce, set_foreground, register, unregister,
}
use claude_tts.Sessions.Terminal.{set_identity}
use claude_tts.Sessions.Text.{truthy}
use claude_tts.SessionStream.{SessionStream}
use claude_tts.KeepGoing.{is_stopped}
use claude_tts.Host.{Host, Env, Ask, flowing, plain}
use claude_tts.Host.Kernel.{stream, put_stream, enqueue, is_quiet_hold}
use claude_tts.Host.Moves.{Moves, edits, asks, removes, stream-some}
use claude_tts.Host.Calls.{either, branch, case_of, stays, rewrites}
use claude_tts.Handlers.{or_default, cleared}
use claude_tts.Handlers.Playback.{shown}
use claude_tts.Handlers.Prose.{deliver_resume}
use claude_tts.Handlers.Lifecycle.{
  voice_busy_elsewhere, lift_hold, take_voice, capture_identity, announce, maybe_guide_setup,
  on_set_foreground, on_session_start, on_session_end, same_session,
}
use claude_tts.Handlers.Moved.{cleared-Moves}
use claude_tts.Handlers.Moved.Prose.{deliver_resume-Moves, deliver_restore-Moves}

module _ {A : Type 0} (env : Env A) (l a f : Bool) {h : Host A} where
  -- a quiet-hold is no stop of all sessions
  lift_hold-Moves :
      (s : String) (k : Host A) → Moves env l a f h k → Moves env l a f h (lift_hold env s k)
  unfolding lift_hold
  lift_hold-Moves s k p =
      let lifted : Host A = record k { voice_state = flowing } in
      let armed : SessionStream A = record (stream env s lifted) { announce_resume = true } in
      let b = is_quiet_hold k.voice_state && not (is_stopped (Dict.get s k.streams)) in
      branch env l a f b (put_stream env s armed lifted) k
        (λ e.
          rewrites env l a f lifted s armed
            (edits lifted p refl refl (inr (λ all. ground (arith, e, all)))) refl refl refl)
        (λ _. p)

  take_voice-Moves :
      (s : String) (cwd : Option String) (k : Host A)
      → Moves env l a f h k
      → Moves env l a f h (take_voice env s cwd k)
  unfolding take_voice
  take_voice-Moves s cwd k p =
      let is_speaker = is_session k.sessions.speaker s in
      let advanced = is_speaker && not (same_session k.sessions.speaker k.sessions.foreground) in
      let registered : Host A = record k { sessions = register s cwd k.sessions } in
      let moved : Host A = record k { sessions = set_foreground s cwd k.sessions } in
      let q : Moves env l a f h registered = stays env l a f k p refl refl refl in
      let taken : Host A = if advanced then registered else moved in
      let r : Moves env l a f h taken =
        either env l a f advanced registered moved q (stays env l a f k p refl refl refl) in
      either env l a f (not (voice_busy_elsewhere env s k) || is_speaker) (lift_hold env s taken)
        registered (lift_hold-Moves s taken r) q

  announce-Moves :
      (s : String) (k : Host A) → Moves env l a f h k → Moves env l a f h (announce env s k)
  unfolding announce
  announce-Moves s k p =
      let st = stream env s k in
      let opened = put_stream env s st k in
      let q : Moves env l a f h opened = rewrites env l a f k s st p refl refl refl in
      let (sessions, first) = claim_announce s k.sessions in
      let claimed : Host A = record opened { sessions = sessions } in
      let r : Moves env l a f h claimed = stays env l a f opened q refl refl refl in
      let deferred : SessionStream A = record st { announce_deferred = true } in
      let ask : Ask =
        record (plain s "prose"
          (shown (number sessions s)
            +++ ", "
            +++ or_default (folder sessions s) "Another session"
            +++ ".")
          false) { names_session = true } in
      let said : Host A = if first then enqueue env ask claimed else claimed in
      let rest : Host A = if st.stopped then put_stream env s deferred k else said in
      either env l a f (str_eq env.verbosity "quiet") opened rest q (
        either env l a f st.stopped (put_stream env s deferred k) said
          (rewrites env l a f k s deferred p refl refl refl)
          (either env l a f first (enqueue env ask claimed) claimed (asks ask r) r))

  maybe_guide_setup-Moves :
      (s : String) (health : Option (Option String)) (k : Host A)
      → Moves env l a f h k
      → Moves env l a f h (maybe_guide_setup env s health k)
  unfolding maybe_guide_setup
  maybe_guide_setup-Moves s health k p =
      let st = stream env s k in
      let st' : SessionStream A = record st { guided = true } in
      let guided = put_stream env s st' k in
      let q : Moves env l a f h guided = rewrites env l a f k s st' p refl refl refl in
      let told : String → Host A = λ text. enqueue env (plain s "prose" text false) guided in
      let spoken : String → Host A = λ text. if st.stopped then k else told text in
      let at : String → Host A = λ text. if not (truthy text) then guided else spoken text in
      let of : Option String → Host A =
        λ cue. elim cue as (λ _. Host A) [ none ↦ guided | some text ↦ at text ] in
      either env l a f st.guided k (elim health as (λ _. Host A) [ none ↦ k | some cue ↦ of cue ]) p
        (case_of env l a f health k of p (λ cue _. case_of env l a f cue guided at q (λ text _.
          either env l a f (not (truthy text)) guided (spoken text) q
            (either env l a f st.stopped k (told text) p (asks (plain s "prose" text false) q)))))

  pub on_set_foreground-Moves :
      (s : String) (cwd : Option String) (ident : Identity) (k : Host A)
      → Moves env l a f h k
      → Moves env l a f h (on_set_foreground env s cwd ident k)
  unfolding on_set_foreground capture_identity
  on_set_foreground-Moves s cwd ident k p =
      let taken = take_voice env s cwd k in
      let q = take_voice-Moves s cwd k p in
      let kept : Host A = record taken { sessions = set_identity s ident taken.sessions } in
      either env l a f
        (truthy ident.term_program || truthy ident.tty || truthy ident.iterm_session_id) kept taken
        (stays env l a f taken q refl refl refl) q

  pub on_session_start-Moves :
      (s : String) (cwd : Option String) (ident : Identity) (health : Option (Option String))
      (k : Host A)
      → Moves env l a f h k
      → Moves env l a f h (on_session_start env s cwd ident health k)
  unfolding on_session_start
  on_session_start-Moves s cwd ident health k p =
      let moved = on_set_foreground env s cwd ident k in
      let registered : Host A = record moved { sessions = register s cwd moved.sessions } in
      let q : Moves env l a f h registered =
        stays env l a f moved (on_set_foreground-Moves s cwd ident k p) refl refl refl in
      let named = announce env s registered in
      let guided = maybe_guide_setup env s health named in
      deliver_restore-Moves env l a f s (deliver_resume env s guided) (
        deliver_resume-Moves env l a f s guided
          (maybe_guide_setup-Moves s health named (announce-Moves s registered q)))

  pub on_session_end-Moves :
      (s : String) (k : Host A)
      → f ≡ true
      → Moves env l a f h k
      → Moves env l a f h (on_session_end env s k)
  unfolding on_session_end
  on_session_end-Moves s k may p =
      let left : Host A = record k { sessions = unregister s k.sessions } in
      let freed : Host A = record left { voice_state = flowing; mark_keep_going_resume = true } in
      let b = is_session k.sessions.speaker s && is_quiet_hold k.voice_state in
      let lifted : Host A = if b then freed else left in
      let q : Moves env l a f h lifted =
        branch env l a f b freed left
          (λ e. edits freed p refl refl (inr (λ all. ground (arith, e, all))))
          (λ _. stays env l a f k p refl refl refl) in
      let same : lifted.streams ≡ k.streams = ground arith in
      let emptied = elim (Dict.get s k.streams) as (λ _. Host A) [
        | none ↦ lifted
        | some st ↦ cleared s st lifted
      ] in
      let r : Moves env l a f h emptied =
        case_of env l a f (Dict.get s k.streams) lifted (λ st. cleared s st lifted) q
          (λ st e.
            let there = stream-some env s lifted (ap (Dict.get s) same ∙ e) in
            cleared-Moves env l a f s st lifted q
              (sym (ap (λ (t : SessionStream A). t.queue) there))
              (sym (ap (λ (t : SessionStream A). t.stopped) there))
              (sym (ap (λ (t : SessionStream A). t.frontier) there))) in
      removes _ s r may refl refl (inr (λ all. all))
