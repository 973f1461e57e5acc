-- ===== src/Handlers/Decisions.antt =====
-- src/sonari/daemon/features/decisions.py, and the bookkeeping of `_await_permission_decision` in
-- src/sonari/daemon/host.py.
use claude_tts.Prelude.{
  ℕ, String, Bool, true, false, not, ◌&&◌, ◌||◌, Option, none, some, List, [], ◌∷◌, if◌then◌else◌,
  str_eq, ◌+++◌,
}
use claude_tts.Prelude.Dict
use claude_tts.Prelude.Dict.{Dict}
use claude_tts.Sessions.{folder, workspace}
use claude_tts.Sessions.Text.{truthy, or_text}
use claude_tts.SessionStream.{SessionStream}
use claude_tts.History.{record_entry, end_message}
use claude_tts.Host.{Host, Env, Decision, plain, forward_ask}
use claude_tts.Host.Kernel.{
  stream, put_stream, enqueue, flush_prose_buffer, cue, ask_of, write_ask, asked,
}
use claude_tts.Host.Spoken.{expire_permission, is_id}
use claude_tts.KeepGoing.{is_stopped}
use claude_tts.Handlers.{cancel, sanction, maybe_hint}
use claude_tts.Handlers.Wording.{
  Question, choice_text, choice_notes, plan_text, permission_text, permission_request_text,
  spearcon_label,
}

-- `pd["event"].is_set()`
abbrev pub is_set : Option Decision → Bool
is_set none = false
is_set (some pd) = pd.released

abbrev pub advisory : Bool → String → String
advisory answerable text = if answerable then text else text +++ " — at the terminal."

-- one text behind another, where there is one
abbrev pub with_extra : String → String → String
with_extra text extra = if truthy extra then text +++ " " +++ extra else text

abbrev pub options_at : {A : Type 0} → Option (SessionStream A) → Option String
options_at none = none
options_at (some st) = st.options

abbrev pub first_key : Dict ℕ → Option String
first_key [] = none
first_key ((s, pd) ∷ ds) = some s

-- where the oldest ask waits, if there is one
abbrev pub misdirect_word : {A : Type 0} → Host A → String
misdirect_word h = elim (first_key h.pending_decisions) [
  | none ↦ "Nothing to answer."
  | some other ↦
      "No ask here — "
      +++ or_text (spearcon_label (folder h.sessions other)) "another session"
      +++ " is asking."
]

module _ {A : Type 0} (env : Env A) where
  -- The text as announced is `advisory answerable text`.
  unfoldable pub announce_decision : String → String → String → Bool → Host A → Host A
  unfolding flush_prose_buffer enqueue
  announce_decision session kind text answerable h =
      let said = advisory answerable text in
      let (history, entry) = record_entry env.now session kind said h.history in
      enqueue env (forward_ask session kind said true entry)
        (flush_prose_buffer env session (record h { history = end_message session history }))

  unfoldable pub selection_cue : String → Host A → Host A × String
  unfolding stream
  selection_cue session h =
      let st = stream env session h in
      let cue : String = "Press the option's number to choose, or Escape to cancel." in
      if not (str_eq env.verbosity "everything")
      then (h, "")
      else if st.warned_immediate
      then (put_stream env session st h, cue)
      else (
        put_stream env session (record st { warned_immediate = true }) h,
        cue +++ " Selecting is immediate.",
      )

  -- what the three advisory asks share: announce, and keep the text for a re-read
  unfoldable pub advise : String → String → String → Host A → Host A
  unfolding announce_decision
  advise session kind text h =
      let told = announce_decision session kind text false h in
      put_stream env session
        (record (stream env session told) { options = some (advisory false text) }) told

  unfoldable pub on_choice : String → List Question → Host A → Host A
  unfolding selection_cue advise
  on_choice session questions h =
      let (cued, cue) = selection_cue session h in
      advise session "choice"
        (with_extra (with_extra (choice_text questions) (choice_notes questions)) cue) cued

  unfoldable pub on_plan : String → Option String → Host A → Host A
  unfolding selection_cue advise
  on_plan session text h =
      let (cued, cue) = selection_cue session h in
      advise session "plan" (with_extra (plan_text text) cue) cued

  unfoldable pub on_permission : String → Option String → Option String → Host A → Host A
  unfolding selection_cue advise
  on_permission session action message h =
      let (cued, cue) = selection_cue session h in
      advise session "permission" (with_extra (permission_text action message) cue) cued

  -- a new ask; an older one of the session is released, so that its waiter ends
  unfoldable pub register_ask : String → ℕ → String → Host A → Host A
  register_ask session item_id text h =
      let ask : Decision = record { released = false; behavior = none; text = text } in
      let older : List (ℕ × Decision) = elim (Dict.get session h.pending_decisions) [
        | none ↦ h.asks
        | some prev ↦ write_ask prev (λ (pd : Decision). record pd { released = true }) h.asks
      ] in
      record h {
        asks = (item_id, ask) ∷ older;
        pending_decisions = Dict.put session item_id h.pending_decisions;
      }

  unfoldable pub on_permission_request :
      String → Option String → Option String → Option String → Host A → Host A
  unfolding cue announce_decision maybe_hint register_ask
  on_permission_request session action tool summary h =
      let text = permission_request_text action tool summary in
      let told =
        announce_decision session "permission" text true (cue env "permission" none none h) in
      register_ask session told.next_id text (maybe_hint env "decision" (some session) told)

  -- an answer that no ask of the workspace waits for
  unfoldable pub misdirected : Option String → Host A → Host A
  unfolding cue
  misdirected none h = cue env "error_misdirected" none none h
  misdirected (some s) h = cue env "error_misdirected" (some (misdirect_word h)) (some s) h

  unfoldable pub answer_ask : String → Bool → String → ℕ → Host A → Host A
  unfolding enqueue
  answer_ask target allow behavior item_id h =
      let answered : Host A = cancel (record h {
        asks =
            write_ask item_id
              (λ (pd : Decision). record pd { behavior = some behavior; released = true }) h.asks;
      }) in
      enqueue env
        (record (plain target "prose" (if allow then "Approved." else "Denied.") false) {
          control_cue = true;
          at_front = true;
          prelude = env.pitch_asset (if allow then "up" else "down") ∷ [];
        })
        (sanction env (some target) false answered).0

  unfoldable pub on_answer_permission : Option String → Host A → Host A
  unfolding cue misdirected answer_ask
  on_answer_permission none h = cue env "error" none none h
  on_answer_permission (some behavior) h =
      let allow = str_eq behavior "allow" in
      if not (allow || str_eq behavior "deny")
      then cue env "error" none none h
      else elim (workspace h.sessions) [
        | none ↦ misdirected none h
        | some target ↦ elim (Dict.get target h.pending_decisions) [
          | none ↦ misdirected (some target) h
          | some item_id ↦ answer_ask target allow behavior item_id h
        ]
      ]

  unfoldable pub on_reread_options : Host A → Host A
  unfolding enqueue
  on_reread_options h = elim h.sessions.foreground [
    | none ↦ h
    | some fg ↦
        let stored = elim (options_at (Dict.get fg h.streams)) as (λ _. String) [
          | none ↦ ""
          | some text ↦ text
        ] in
        let asked_text = elim (asked fg h) as (λ _. String) [ none ↦ "" | some pd ↦ pd.text ] in
        let text = or_text stored asked_text in
        let stopped = is_stopped (Dict.get fg h.streams) in
        let (h', front) = sanction env (some fg) false h in
        enqueue env
          (record (if truthy text
            then plain fg "choice" text false
            else plain fg "prose" "No options right now." false) {
              control_cue = stopped;
              at_front = front;
            })
          h'
  ]

  -- the ask that a connection waits for: the one that stands when it begins to
  abbrev pub begin_wait : String → Host A → Option ℕ
  begin_wait session h = Dict.get session h.pending_decisions

  -- The end of a wait for an ask. `in_time` is false where the time ran out, before or while the event was set;
  -- the wait gives true only where the event is set. The second result is what the hook is told; the ask is
  -- given up only where it still stands.
  unfoldable pub end_wait : String → ℕ → Bool → Host A → Host A × Option String
  unfolding expire_permission
  end_wait session item_id in_time h =
      let got = in_time && is_set (ask_of item_id h.asks) in
      let behavior = elim (ask_of item_id h.asks) as (λ _. Option String) [
        | none ↦ none
        | some pd ↦ if got then pd.behavior else none
      ] in
      let taken : Host A = record h {
        pending_decisions = Dict.remove session h.pending_decisions;
      } in
      if not (is_id (Dict.get session h.pending_decisions) item_id)
      then (h, behavior)
      else (if got then taken else expire_permission env session item_id taken, behavior)
