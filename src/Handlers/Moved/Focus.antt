-- ===== src/Handlers/Moved/Focus.antt =====
-- The handlers of src/sonari/daemon/features/focus.py, as moves of the host.
use claude_tts.Prelude.{◌≡◌, inl, refl, Bool, true, false, none, some, if◌then◌else◌, String, ◌+++◌}
use claude_tts.Sessions.{folder, workspace, focus}
use claude_tts.Sessions.Terminal.{liveness, identity, set_os_focus}
use claude_tts.KeepGoing.{is_dead}
use claude_tts.Host.{Host, Env, flowing, cue_ask}
use claude_tts.Host.Kernel.{enqueue, cue, spearcon_path}
use claude_tts.Host.Moves.{Moves, edits, asks}
use claude_tts.Host.Calls.{either, case_of, stays, cue-Moves}
use claude_tts.Handlers.{or_session, cancel, sanction, answer}
use claude_tts.Handlers.Playback.{closed_word}
use claude_tts.Handlers.Focus.{
  waiting_target, empty_case_tail, on_os_focus, will_attempt, none_waiting, forward_word, jump_text,
  naming, arrive, jump_to, on_jump_waiting,
}
use claude_tts.Handlers.Moved.{answer-Moves}

module _ {A : Type 0} (env : Env A) (l a f : Bool) {h : Host A} where
  pub on_os_focus-Moves :
      (term tty guid : String) (focused : Bool) (k : Host A)
      → Moves env l a f h k
      → Moves env l a f h (on_os_focus env term tty guid focused k)
  unfolding on_os_focus
  on_os_focus-Moves term tty guid focused k p =
      let r = set_os_focus term tty guid focused k.sessions in
      let moved : Host A = record k { sessions = r.0 } in
      let q : Moves env l a f h moved = stays env l a f k p refl refl refl in
      either env l a f r.1 (cue env "repoint" none none moved) moved
        (cue-Moves env l a f "repoint" none none moved q) q

  none_waiting-Moves : (k : Host A) → Moves env l a f h k → Moves env l a f h (none_waiting env k)
  unfolding none_waiting
  none_waiting-Moves k p =
      let text = "No session waiting." +++ empty_case_tail env (workspace k.sessions) k in
      case_of env l a f (or_session k.sessions.speaker (workspace k.sessions))
        (cue env "error" none none k) (λ to. answer env to text (sanction env (some to) false k).0)
        (cue-Moves env l a f "error" none none k p) (λ to _. answer-Moves env l a f to text k p)

  arrive-Moves :
      (target : String) (k : Host A) → Moves env l a f h k → Moves env l a f h (arrive env target k)
  unfolding arrive
  arrive-Moves target k p =
      let name = folder k.sessions target in
      let raised = will_attempt env (identity k.sessions target) in
      let hint = answer env target (forward_word env) k in
      let hinted : Host A = if raised then k else hint in
      let word : String = elim name as (λ _. String) [ none ↦ "" | some n ↦ n ] in
      case_of env l a f (spearcon_path env name)
        (enqueue env (naming env target (jump_text env name raised) none) k)
        (λ path. enqueue env (naming env target word (some path)) hinted)
        (asks (naming env target (jump_text env name raised) none) p)
        (λ path _.
          asks (naming env target word (some path))
            (either env l a f raised k hint p (asks (cue_ask true target (forward_word env)) p)))

  jump_to-Moves :
      (target : String) (k : Host A)
      → l ≡ true
      → Moves env l a f h k
      → Moves env l a f h (jump_to env target k)
  unfolding jump_to
  jump_to-Moves target k may p =
      let switched : Host A =
        cancel (record k { sessions = focus target none k.sessions; voice_state = flowing }) in
      let dest = or_session k.sessions.speaker (workspace k.sessions) in
      either env l a f (is_dead (liveness env.exists k.sessions target))
        (cue env "error" (some (closed_word)) dest k) (arrive env target switched)
        (cue-Moves env l a f "error" (some (closed_word)) dest k p)
        (arrive-Moves target switched (edits switched p refl refl (inl may)))

  pub on_jump_waiting-Moves :
      (k : Host A) → l ≡ true → Moves env l a f h k → Moves env l a f h (on_jump_waiting env k)
  unfolding on_jump_waiting
  on_jump_waiting-Moves k may p =
      case_of env l a f (waiting_target env (workspace k.sessions) k) (none_waiting env k)
        (λ target. jump_to env target k) (none_waiting-Moves k p)
        (λ target _. jump_to-Moves target k may p)
