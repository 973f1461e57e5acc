-- ===== src/Handlers/Moved/Dispatch.antt =====
-- `handle_message` and the steps of the voice, as moves of the host.
use claude_tts.Prelude.{◌≡◌, refl, Bool, true, false, not, ◌&&◌, none, some, String}
use claude_tts.Sessions.{workspace}
use claude_tts.Sessions.Terminal.{clear_quarantine}
use claude_tts.Sessions.Text.{truthy}
use claude_tts.Host.{Host, Env, cue_ask}
use claude_tts.Host.Kernel.{enqueue}
use claude_tts.Host.Moves.{Moves, asks}
use claude_tts.Host.Calls.{either, case_of, stays}
use claude_tts.Handlers.Dispatch.{
  Report, prose, tool, earcon, flush, choice, plan, permission, permission_request, set_foreground,
  session_start, session_end, Press, stop, skip, skip_pile, stop_session, stop_all, jump_decision,
  repeat_last, nav, answer_permission, reread_options, learn_mode, query_actions, jump_waiting,
  where_am_i, announce, os_focus, is_learn_mode, Message, reports, presses, dispatch_report,
  dispatch_press, heard_from, teach, handle_message,
}
use claude_tts.Handlers.Moved.Prose.{on_prose-Moves, on_tool-Moves, on_earcon-Moves, on_flush-Moves}
use claude_tts.Handlers.Moved.Playback.{
  on_stop-Moves, on_skip-Moves, on_skip_pile-Moves, on_stop_session-Moves, on_stop_all-Moves,
}
use claude_tts.Handlers.Moved.Jumps.{on_jump_decision-Moves, on_repeat_last-Moves}
use claude_tts.Handlers.Moved.Navigation.{on_nav-Moves}
use claude_tts.Handlers.Moved.Whereami.{on_where_am_i-Moves, on_announce-Moves}
use claude_tts.Handlers.Moved.Focus.{on_os_focus-Moves, on_jump_waiting-Moves}
use claude_tts.Handlers.Moved.Lifecycle.{
  on_set_foreground-Moves, on_session_start-Moves, on_session_end-Moves,
}
use claude_tts.Handlers.Moved.Decisions.{
  on_choice-Moves, on_plan-Moves, on_permission-Moves, on_permission_request-Moves,
  on_answer_permission-Moves, on_reread_options-Moves, on_learn_mode-Moves, on_query_actions-Moves,
}

-- the presses that may start a stopped stream or end a stop of all sessions
abbrev pub starts : Press → Bool
starts stop_session = true
starts jump_decision = true
starts jump_waiting = true
starts (nav to) = true
starts _ = false

abbrev pub skips : Press → Bool
skips skip_pile = true
skips _ = false

abbrev pub ends : Report → Bool
ends session_end = true
ends _ = false

-- the message may start a stream; may advance a frontier; drops a stream
abbrev pub may_start : Message → Bool
may_start (reports s report) = false
may_start (presses press teaches) = starts press

abbrev pub may_skip : Message → Bool
may_skip (reports s report) = false
may_skip (presses press teaches) = skips press

abbrev pub may_end : Message → Bool
may_end (reports s report) = ends report
may_end (presses press teaches) = false

module _ {A : Type 0} (env : Env A) (l a f : Bool) {h : Host A} where
  report-Moves :
      (s : String) (r : Report) (k : Host A)
      → (ends r ≡ true → f ≡ true)
      → Moves env l a f h k
      → Moves env l a f h (dispatch_report env s r k)
  unfolding dispatch_report
  report-Moves s (prose delta index final) k may p =
      on_prose-Moves env l a f s delta index final k p
  report-Moves s (tool name summary) k may p = on_tool-Moves env l a f s name summary k p
  report-Moves s (earcon kind) k may p = on_earcon-Moves env l a f s kind k p
  report-Moves s flush k may p = on_flush-Moves env l a f s k p
  report-Moves s (choice qs) k may p = on_choice-Moves env l a f s qs k p
  report-Moves s (plan text) k may p = on_plan-Moves env l a f s text k p
  report-Moves s (permission action message) k may p =
      on_permission-Moves env l a f s action message k p
  report-Moves s (permission_request action name summary) k may p =
      on_permission_request-Moves env l a f s action name summary k p
  report-Moves s (set_foreground cwd ident) k may p =
      on_set_foreground-Moves env l a f s cwd ident k p
  report-Moves s (session_start cwd ident health) k may p =
      on_session_start-Moves env l a f s cwd ident health k p
  report-Moves s session_end k may p = on_session_end-Moves env l a f s k (may refl) p

  press-Moves :
      (press : Press) (k : Host A)
      → (starts press ≡ true → l ≡ true)
      → (skips press ≡ true → a ≡ true)
      → Moves env l a f h k
      → Moves env l a f h (dispatch_press env press k)
  unfolding dispatch_press
  press-Moves stop k lift ahead p = on_stop-Moves env l a f k p
  press-Moves skip k lift ahead p = on_skip-Moves env l a f k p
  press-Moves skip_pile k lift ahead p = on_skip_pile-Moves env l a f k (ahead refl) p
  press-Moves stop_session k lift ahead p = on_stop_session-Moves env l a f k (lift refl) p
  press-Moves stop_all k lift ahead p = on_stop_all-Moves env l a f k p
  press-Moves jump_decision k lift ahead p = on_jump_decision-Moves env l a f k (lift refl) p
  press-Moves repeat_last k lift ahead p = on_repeat_last-Moves env l a f k p
  press-Moves where_am_i k lift ahead p = on_where_am_i-Moves env l a f k p
  press-Moves (announce text) k lift ahead p = on_announce-Moves env l a f text k p
  press-Moves jump_waiting k lift ahead p = on_jump_waiting-Moves env l a f k (lift refl) p
  press-Moves (nav to) k lift ahead p = on_nav-Moves env l a f to k (lift refl) p
  press-Moves (answer_permission behavior) k lift ahead p =
      on_answer_permission-Moves env l a f behavior k p
  press-Moves reread_options k lift ahead p = on_reread_options-Moves env l a f k p
  press-Moves learn_mode k lift ahead p = on_learn_mode-Moves env l a f k p
  press-Moves query_actions k lift ahead p = on_query_actions-Moves env l a f k p
  press-Moves (os_focus term tty guid focused) k lift ahead p =
      on_os_focus-Moves env l a f term tty guid focused k p

  teach-Moves :
      (text : String) (k : Host A) → Moves env l a f h k → Moves env l a f h (teach env text k)
  unfolding teach
  teach-Moves text k p =
      case_of env l a f (workspace k.sessions) k (λ ws. enqueue env (cue_ask false ws text) k) p
        (λ ws _. asks (cue_ask false ws text) p)

  pub message-Moves :
      (msg : Message) (k : Host A)
      → (may_start msg ≡ true → l ≡ true)
      → (may_skip msg ≡ true → a ≡ true)
      → (may_end msg ≡ true → f ≡ true)
      → Moves env l a f h k
      → Moves env l a f h (handle_message env msg k)
  unfolding handle_message
  message-Moves (reports s report) k lift ahead drop p =
      let cleared : Host A = record k { sessions = clear_quarantine s k.sessions } in
      report-Moves s report (heard_from env s k) drop
        (either env l a f (truthy s) cleared k (stays env l a f k p refl refl refl) p)
  message-Moves (presses press none) k lift ahead drop p = press-Moves press k lift ahead p
  message-Moves (presses press (some text)) k lift ahead drop p =
      either env l a f (k.learn_mode && not (is_learn_mode press)) (teach env text k)
        (dispatch_press env press k) (teach-Moves text k p) (press-Moves press k lift ahead p)
