-- ===== src/Handlers/Moved/Decisions.antt =====
-- The handlers of src/sonari/daemon/features/decisions.py and teaching.py, as moves of the host.
use claude_tts.Prelude.{
  ◌&&◌, ℕ, refl, Bool, true, false, not, ◌||◌, Option, none, some, List, [], ◌∷◌, if◌then◌else◌,
  String, str_eq, ◌+++◌,
}
use claude_tts.Prelude.Dict
use claude_tts.Sessions.{workspace}
use claude_tts.Sessions.Text.{truthy, or_text}
use claude_tts.SessionStream.{SessionStream}
use claude_tts.History.{record_entry, end_message}
use claude_tts.KeepGoing.{is_stopped}
use claude_tts.Host.{Host, Env, Ask, Decision, plain, forward_ask}
use claude_tts.Host.Kernel.{stream, put_stream, enqueue, cue, asked, write_ask, ask_of}
use claude_tts.Host.Spoken.{expire_permission, is_id}
use claude_tts.Host.Moves.{Moves, asks}
use claude_tts.Host.Calls.{either, case_of, either_first, stays, rewrites, flush-Moves, cue-Moves}
use claude_tts.Host.Utterances.{expire_permission-Moves}
use claude_tts.Handlers.{cancel, sanction, reply, maybe_hint}
use claude_tts.Handlers.Wording.{Question, permission_request_text}
use claude_tts.Handlers.Decisions.{
  advisory, options_at, announce_decision, selection_cue, advise, on_choice, on_plan, on_permission,
  register_ask, on_permission_request, misdirected, answer_ask, on_answer_permission,
  on_reread_options, end_wait, is_set, misdirect_word,
}
use claude_tts.Handlers.Teaching.{
  learn_text, tell, on_learn_mode, expire_learn_mode, on_query_actions,
}
use claude_tts.Handlers.Moved.{sanction-Moves, maybe_hint-Moves, reply-Moves}

module _ {A : Type 0} (env : Env A) (l a f : Bool) {h : Host A} where
  announce_decision-Moves :
      (s kind text : String) (answerable : Bool) (k : Host A)
      → Moves env l a f h k
      → Moves env l a f h (announce_decision env s kind text answerable k)
  unfolding announce_decision
  announce_decision-Moves s kind text answerable k p =
      let said = advisory answerable text in
      let (history, entry) = record_entry env.now s kind said k.history in
      let recorded : Host A = record k { history = end_message s history } in
      asks (forward_ask s kind said true entry)
        (flush-Moves env l a f s recorded (stays env l a f k p refl refl refl))

  selection_cue-Moves :
      (s : String) (k : Host A) → Moves env l a f h k → Moves env l a f h (selection_cue env s k).0
  unfolding selection_cue
  selection_cue-Moves s k p =
      let st = stream env s k in
      let cue : String = "Press the option's number to choose, or Escape to cancel." in
      let warned : SessionStream A = record st { warned_immediate = true } in
      let again : Host A × String = (put_stream env s st k, cue) in
      let first : Host A × String =
        (put_stream env s warned k, cue +++ " Selecting is immediate.") in
      let rest : Host A × String = if st.warned_immediate then again else first in
      either_first env l a f (not (str_eq env.verbosity "everything")) (k, "") rest p
        (either_first env l a f st.warned_immediate again first
          (rewrites env l a f k s st p refl refl refl)
          (rewrites env l a f k s warned p refl refl refl))

  advise-Moves :
      (s kind text : String) (k : Host A)
      → Moves env l a f h k
      → Moves env l a f h (advise env s kind text k)
  unfolding advise
  advise-Moves s kind text k p =
      let told = announce_decision env s kind text false k in
      let st : SessionStream A = record (stream env s told) {
        options = some (advisory false text);
      } in
      rewrites env l a f told s st (announce_decision-Moves s kind text false k p) refl refl refl

  pub on_choice-Moves :
      (s : String) (qs : List Question) (k : Host A)
      → Moves env l a f h k
      → Moves env l a f h (on_choice env s qs k)
  unfolding on_choice
  on_choice-Moves s qs k p =
      advise-Moves s "choice" _ (selection_cue env s k).0 (selection_cue-Moves s k p)

  pub on_plan-Moves :
      (s : String) (text : Option String) (k : Host A)
      → Moves env l a f h k
      → Moves env l a f h (on_plan env s text k)
  unfolding on_plan
  on_plan-Moves s text k p =
      advise-Moves s "plan" _ (selection_cue env s k).0 (selection_cue-Moves s k p)

  pub on_permission-Moves :
      (s : String) (action message : Option String) (k : Host A)
      → Moves env l a f h k
      → Moves env l a f h (on_permission env s action message k)
  unfolding on_permission
  on_permission-Moves s action message k p =
      advise-Moves s "permission" _ (selection_cue env s k).0 (selection_cue-Moves s k p)

  pub on_permission_request-Moves :
      (s : String) (action tool summary : Option String) (k : Host A)
      → Moves env l a f h k
      → Moves env l a f h (on_permission_request env s action tool summary k)
  unfolding on_permission_request register_ask
  on_permission_request-Moves s action tool summary k p =
      let text = permission_request_text action tool summary in
      let chimed = cue env "permission" none none k in
      let told = announce_decision env s "permission" text true chimed in
      let q =
        announce_decision-Moves s "permission" text true chimed
          (cue-Moves env l a f "permission" none none k p) in
      let hinted = maybe_hint env "decision" (some s) told in
      stays env l a f hinted (maybe_hint-Moves env l a f "decision" (some s) told q) refl refl refl

  misdirected-Moves :
      (target : Option String) (k : Host A)
      → Moves env l a f h k
      → Moves env l a f h (misdirected env target k)
  unfolding misdirected
  misdirected-Moves none k p = cue-Moves env l a f "error_misdirected" none none k p
  misdirected-Moves (some s) k p =
      cue-Moves env l a f "error_misdirected" (some (misdirect_word k)) (some s) k p

  answer_ask-Moves :
      (target : String) (allow : Bool) (behavior : String) (id : ℕ) (k : Host A)
      → Moves env l a f h k
      → Moves env l a f h (answer_ask env target allow behavior id k)
  unfolding answer_ask
  answer_ask-Moves target allow behavior id k p =
      let answered : Host A = cancel (record k {
        asks =
            write_ask id
              (λ (pd : Decision). record pd { behavior = some behavior; released = true }) k.asks;
      }) in
      let ask : Ask =
        record (plain target "prose" (if allow then "Approved." else "Denied.") false) {
          control_cue = true;
          at_front = true;
          prelude = env.pitch_asset (if allow then "up" else "down") ∷ [];
        } in
      asks ask
        (sanction-Moves env l a f (some target) false answered (stays env l a f k p refl refl refl))

  pub on_answer_permission-Moves :
      (behavior : Option String) (k : Host A)
      → Moves env l a f h k
      → Moves env l a f h (on_answer_permission env behavior k)
  unfolding on_answer_permission
  on_answer_permission-Moves none k p = cue-Moves env l a f "error" none none k p
  on_answer_permission-Moves (some behavior) k p =
      let allow = str_eq behavior "allow" in
      let at : String → Host A = λ target.
        elim (Dict.get target k.pending_decisions) as (λ _. Host A) [
          | none ↦ misdirected env (some target) k
          | some id ↦ answer_ask env target allow behavior id k
        ] in
      let answered = elim (workspace k.sessions) as (λ _. Host A) [
        | none ↦ misdirected env none k
        | some target ↦ at target
      ] in
      either env l a f (not (allow || str_eq behavior "deny")) (cue env "error" none none k)
        answered (cue-Moves env l a f "error" none none k p)
        (case_of env l a f (workspace k.sessions) (misdirected env none k) at
          (misdirected-Moves none k p)
          (λ target _.
            case_of env l a f (Dict.get target k.pending_decisions)
              (misdirected env (some target) k) (λ id. answer_ask env target allow behavior id k)
              (misdirected-Moves (some target) k p)
              (λ id _. answer_ask-Moves target allow behavior id k p)))

  pub on_reread_options-Moves :
      (k : Host A) → Moves env l a f h k → Moves env l a f h (on_reread_options env k)
  unfolding on_reread_options
  on_reread_options-Moves k p =
      let stored : String → String = λ fg.
        elim (options_at (Dict.get fg k.streams)) as (λ _. String) [
          | none ↦ ""
          | some text ↦ text
        ] in
      let asked_text : String → String =
        λ fg. elim (asked fg k) as (λ _. String) [ none ↦ "" | some pd ↦ pd.text ] in
      let text : String → String = λ fg. or_text (stored fg) (asked_text fg) in
      let on : String → Host A × Bool = λ fg. sanction env (some fg) false k in
      let ask : String → Ask = λ fg.
        record (if truthy (text fg)
          then plain fg "choice" (text fg) false
          else plain fg "prose" "No options right now." false) {
            control_cue = is_stopped (Dict.get fg k.streams);
            at_front = (on fg).1;
          } in
      case_of env l a f k.sessions.foreground k (λ fg. enqueue env (ask fg) (on fg).0) p
        (λ fg _. asks (ask fg) (sanction-Moves env l a f (some fg) false k p))

  pub end_wait-Moves :
      (s : String) (id : ℕ) (in_time : Bool) (k : Host A)
      → Moves env l a f h k
      → Moves env l a f h (end_wait env s id in_time k).0
  unfolding end_wait
  end_wait-Moves s id in_time k p =
      let got = in_time && is_set (ask_of id k.asks) in
      let behavior = elim (ask_of id k.asks) as (λ _. Option String) [
        | none ↦ none
        | some pd ↦ if got then pd.behavior else none
      ] in
      let taken : Host A = record k { pending_decisions = Dict.remove s k.pending_decisions } in
      let q : Moves env l a f h taken = stays env l a f k p refl refl refl in
      let over : Host A = if got then taken else expire_permission env s id taken in
      either_first env l a f (not (is_id (Dict.get s k.pending_decisions) id)) (k, behavior)
        (over, behavior) p
        (either env l a f got taken (expire_permission env s id taken) q
          (expire_permission-Moves env l a f s id taken q))

  tell-Moves :
      (text : String) (k : Host A) → Moves env l a f h k → Moves env l a f h (tell env text k)
  tell-Moves text k p =
      case_of env l a f (workspace k.sessions) k (λ ws. reply env ws text k) p
        (λ ws _. reply-Moves env l a f ws text k p)

  pub on_learn_mode-Moves :
      (k : Host A) → Moves env l a f h k → Moves env l a f h (on_learn_mode env k)
  unfolding on_learn_mode
  on_learn_mode-Moves k p =
      let turned : Host A = record k { learn_mode = not k.learn_mode } in
      tell-Moves (learn_text env (not k.learn_mode)) turned (stays env l a f k p refl refl refl)

  pub expire_learn_mode-Moves :
      (live : Bool) (k : Host A)
      → Moves env l a f h k
      → Moves env l a f h (expire_learn_mode env live k)
  unfolding expire_learn_mode
  expire_learn_mode-Moves live k p =
      let off : Host A = record k { learn_mode = false } in
      either env l a f (not k.learn_mode || not live) k (tell env (learn_text env false) off) p
        (tell-Moves (learn_text env false) off (stays env l a f k p refl refl refl))

  pub on_query_actions-Moves :
      (k : Host A) → Moves env l a f h k → Moves env l a f h (on_query_actions env k)
  unfolding on_query_actions
  on_query_actions-Moves k p =
      case_of env l a f (workspace k.sessions) k (λ ws. reply env ws _ k) p
        (λ ws _. reply-Moves env l a f ws _ k p)
