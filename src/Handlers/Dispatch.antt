-- ===== src/Handlers/Dispatch.antt =====
-- `handle_message` of src/sonari/daemon/host.py with `dispatch` of src/sonari/daemon/registry.py, for the handlers
-- that are modelled: the messages of the chooser (which may start the voice again), of catch-up, of the settings,
-- the status and the pings are no part of `Message`. And the whole system of the messages and the voice. Whether a message is a
-- registered action, and what it teaches (src/sonari/keymap.py), is an argument.
use claude_tts.Prelude.{
  ℕ, String, Bool, true, false, not, ◌&&◌, Option, none, some, List, [], ◌∷◌, if◌then◌else◌,
}
use claude_tts.Sessions.{Identity, workspace}
use claude_tts.Sessions.Terminal.{clear_quarantine}
use claude_tts.Sessions.Text.{truthy}
use claude_tts.Host.{Host, Env, cue_ask}
use claude_tts.Host.Kernel.{enqueue}
use claude_tts.Host.Voice.{Hand, Event, step}
use claude_tts.Handlers.Wording.{Question}
use claude_tts.Handlers.Prose.{on_prose, on_tool, on_earcon, on_flush}
use claude_tts.Handlers.Playback.{on_stop, on_skip, on_skip_pile, on_stop_session, on_stop_all}
use claude_tts.Handlers.Jumps.{on_jump_decision, on_repeat_last}
use claude_tts.Handlers.Navigation.{on_nav}
use claude_tts.Handlers.Whereami.{on_where_am_i, on_announce}
use claude_tts.Handlers.Focus.{on_os_focus, on_jump_waiting}
use claude_tts.Handlers.Lifecycle.{on_set_foreground, on_session_start, on_session_end}
use claude_tts.Handlers.Decisions.{
  on_choice, on_plan, on_permission, on_permission_request, on_answer_permission, on_reread_options,
  end_wait,
}
use claude_tts.Handlers.Teaching.{on_learn_mode, on_query_actions, expire_learn_mode}

-- what a session's hooks say of it
pub data Report : Type 0 where
  prose : String → ℕ → Bool → Report
  tool : String → Option String → Report
  earcon : String → Report
  flush : Report
  choice : List Question → Report
  plan : Option String → Report
  permission : Option String → Option String → Report
  permission_request : Option String → Option String → Option String → Report
  set_foreground : Option String → Identity → Report
  session_start : Option String → Identity → Option (Option String) → Report
  session_end : Report

-- what the keys ask for, and what the watcher of the focus and the command line say
pub data Press : Type 0 where
  stop skip skip_pile stop_session stop_all jump_decision repeat_last jump_waiting where_am_i :
      Press
  nav : String → Press
  answer_permission announce : Option String → Press
  reread_options learn_mode query_actions : Press
  os_focus : String → String → String → Bool → Press

abbrev pub is_learn_mode : Press → Bool
is_learn_mode learn_mode = true
is_learn_mode _ = false

-- A message of a session, or a press with the line that it teaches where it is a registered action.
pub data Message : Type 0 where
  reports : String → Report → Message
  presses : Press → Option String → Message

-- What happens: a message, a step of the voice, the end of a wait for an ask, and the timer of learn mode.
pub data Happening : Type 0 where
  says : Message → Happening
  voices : Event → Happening
  wait_ends : String → ℕ → Bool → Happening
  learn_expires : Bool → Happening

module _ {A : Type 0} (env : Env A) where
  unfoldable pub dispatch_report : String → Report → Host A → Host A
  unfolding on_prose on_tool on_earcon on_flush on_choice on_plan on_permission
      on_permission_request on_set_foreground on_session_start on_session_end
  dispatch_report s (prose delta index final) = on_prose env s delta index final
  dispatch_report s (tool name summary) = on_tool env s name summary
  dispatch_report s (earcon kind) = on_earcon env s kind
  dispatch_report s flush = on_flush env s
  dispatch_report s (choice questions) = on_choice env s questions
  dispatch_report s (plan text) = on_plan env s text
  dispatch_report s (permission action message) = on_permission env s action message
  dispatch_report s (permission_request action name summary) =
      on_permission_request env s action name summary
  dispatch_report s (set_foreground cwd ident) = on_set_foreground env s cwd ident
  dispatch_report s (session_start cwd ident health) = on_session_start env s cwd ident health
  dispatch_report s session_end = on_session_end env s

  unfoldable pub dispatch_press : Press → Host A → Host A
  unfolding on_stop on_skip on_skip_pile on_stop_session on_stop_all on_jump_decision on_repeat_last
      on_nav on_answer_permission on_reread_options on_learn_mode on_query_actions on_os_focus
      on_jump_waiting on_where_am_i on_announce
  dispatch_press stop = on_stop env
  dispatch_press skip = on_skip env
  dispatch_press skip_pile = on_skip_pile env
  dispatch_press stop_session = on_stop_session env
  dispatch_press stop_all = on_stop_all env
  dispatch_press jump_decision = on_jump_decision env
  dispatch_press repeat_last = on_repeat_last env
  dispatch_press jump_waiting = on_jump_waiting env
  dispatch_press where_am_i = on_where_am_i env
  dispatch_press (announce text) = λ h. (on_announce env text h).0
  dispatch_press (nav to) = on_nav env to
  dispatch_press (answer_permission behavior) = on_answer_permission env behavior
  dispatch_press reread_options = on_reread_options env
  dispatch_press learn_mode = on_learn_mode env
  dispatch_press query_actions = on_query_actions env
  dispatch_press (os_focus term_program tty iterm_session_id focused) =
      on_os_focus env term_program tty iterm_session_id focused

  -- the session that speaks is not in quarantine any more
  abbrev pub heard_from : String → Host A → Host A
  heard_from session h =
      if truthy session then record h { sessions = clear_quarantine session h.sessions } else h

  -- learn mode says what the key does
  unfoldable pub teach : String → Host A → Host A
  unfolding enqueue
  teach text h = elim (workspace h.sessions) [
    | none ↦ h
    | some ws ↦ enqueue env (cue_ask false ws text) h
  ]

  unfoldable pub handle_message : Message → Host A → Host A
  unfolding dispatch_report dispatch_press teach
  handle_message (reports session report) h = dispatch_report session report (heard_from session h)
  handle_message (presses press none) h = dispatch_press press h
  handle_message (presses press (some text)) h =
      if h.learn_mode && not (is_learn_mode press) then teach text h else dispatch_press press h

  unfoldable pub happen : Happening → Host A × Hand → Host A × Hand
  unfolding handle_message step end_wait expire_learn_mode
  happen (says msg) (h, hand) = (handle_message msg h, hand)
  happen (voices event) sys = step env event sys
  happen (wait_ends session id in_time) (h, hand) = ((end_wait env session id in_time h).0, hand)
  happen (learn_expires live) (h, hand) = (expire_learn_mode env live h, hand)

  unfoldable pub run : List Happening → Host A × Hand → Host A × Hand
  unfolding happen
  run [] sys = sys
  run (e ∷ es) sys = run es (happen e sys)
