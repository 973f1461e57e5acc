-- ===== src/Host/Spoken.antt =====
-- What the voice does to the state behind an utterance, in src/sonari/daemon/host.py: `_attributed_text`,
-- `note_spoken` with the catch-up lifecycle, and `_expire_permission`. The memo of failures and the stamps
-- for diagnosis and for the keep-alive are left out.
use claude_tts.Prelude.{
  ℕ, String, Bool, false, not, ◌&&◌, Option, none, some, to_list, ◌==◌, if◌then◌else◌, str_eq,
  ◌+++◌,
}
use claude_tts.Prelude.Dict
use claude_tts.Prelude.Dict.{Dict}
use claude_tts.Prelude.StrSet
use claude_tts.FaultCue
use claude_tts.Sessions.{folder}
use claude_tts.Sessions.Text.{truthy}
use claude_tts.SpeechQueue
use claude_tts.SpeechQueue.{SpeechItem}
use claude_tts.SessionStream.{SessionStream, advance_frontier}
use claude_tts.History.{HistoryEntry, Key, key, key_lt}
use claude_tts.Host.{Host, Env, Catchup}
use claude_tts.Host.Kernel.{pending, pop_pending, drop_pending, mark_heard, cue}

abbrev pub expired_word : String
expired_word = "That ask timed out — check the terminal."

abbrev pub speak_failure_word : String
speak_failure_word = "Speech failed; kept unheard."

abbrev pub doctor_hint : String
doctor_hint = " Things seem off — try sonari doctor."

abbrev pub is_id : Option ℕ → ℕ → Bool
is_id none n = false
is_id (some m) n = m == n

-- the prefix, where the voice comes from another session
abbrev pub prefixed : Option String → Option String → SpeechItem → String
prefixed none named item = item.text
prefixed (some last) none item = item.text
prefixed (some last) (some name) item =
    if not (str_eq last item.session) && truthy name then name +++ ". " +++ item.text else item.text

-- `e is not None and (e.msg_id, e.seq) <= slice_end`
abbrev pub is_below : Key → Option HistoryEntry → Bool
is_below slice_end none = false
is_below slice_end (some e) = not (key_lt slice_end (key e))

module _ {A : Type 0} where
  -- what is written to the stream of a session where it has one
  unfoldable pub change_stream : String → (SessionStream A → SessionStream A) → Host A → Host A
  change_stream session f h = elim (Dict.get session h.streams) [
    | none ↦ h
    | some st ↦ record h { streams = Dict.put session (f st) h.streams }
  ]

  -- `_drop_pending(st.queue.remove_where(pred))` on the stream of a session, where it has one
  unfoldable pub remove_items : String → (SpeechItem → Bool) → Host A → Host A
  remove_items session pred h = elim (Dict.get session h.streams) [
    | none ↦ h
    | some st ↦
        let (q, removed) = SpeechQueue.remove_where pred st.queue in
        record h {
          streams = Dict.put session (record st { queue = q }) h.streams;
          pending_heard = drop_pending removed h.pending_heard;
        }
  ]

  unfoldable pub attributed_text : SpeechItem → Host A → Host A × String
  attributed_text item h =
      let claimed : Host A = record h { last_spoken_session = some item.session } in
      if item.names_session
      then (claimed, item.text)
      else if item.control_cue
      then (h, item.text)
      else (claimed, prefixed h.last_spoken_session (folder h.sessions item.session) item)

  unfoldable pub drop_render_items : String → ℕ → Host A → Host A
  unfolding remove_items
  drop_render_items session render_id h =
      remove_items session (λ it. is_id it.render_id render_id) h

  unfoldable pub burn_catchup : Catchup → Host A → Host A
  unfolding change_stream remove_items
  burn_catchup cu h =
      remove_items cu.target (λ it. is_below cu.slice_end (pending it.id h.pending_heard))
        (change_stream cu.target (advance_frontier (some cu.slice_end)) h)

  -- the heard-marker and the frontier
  unfoldable pub confirm : SpeechItem → Bool → Host A → Host A
  unfolding change_stream
  confirm item completed h =
      let taken : Host A = record h { pending_heard = pop_pending item.id h.pending_heard } in
      elim (pending item.id h.pending_heard) [
        | none ↦ taken
        | some e ↦
            let heard : Host A = record taken {
              history = mark_heard item.session e taken.history;
            } in
            if not completed
            then taken
            else if item.forward
            then change_stream item.session (advance_frontier (some (key e))) heard
            else heard
      ]

  -- the render of a catch-up
  unfoldable pub settle_catchup : SpeechItem → Bool → Host A → Host A
  unfolding drop_render_items burn_catchup
  settle_catchup item completed h = elim h.catchup [
    | none ↦ h
    | some cu ↦ elim item.render_id [
      | none ↦ h
      | some rid ↦
          let burnt : Host A = if cu.ended then h else burn_catchup cu h in
          if not (is_id cu.render_id rid)
          then h
          else if not completed
          then record (drop_render_items item.session rid h) { catchup = none }
          else if item.catchup_burn
          then record burnt { catchup = none }
          else h
    ]
  ]

  unfoldable pub note_spoken : SpeechItem → Bool → Host A → Host A
  unfolding confirm settle_catchup
  note_spoken item completed h =
      let released : Host A = record h {
        current_item = none;
        speak_failure_outstanding =
            if completed
            then StrSet.discard item.session h.speak_failure_outstanding
            else h.speak_failure_outstanding;
      } in
      settle_catchup item completed (confirm item completed released)

module _ {A : Type 0} (env : Env A) where
  unfoldable pub expire_permission : String → ℕ → Host A → Host A
  unfolding cue
  expire_permission session item_id h =
      let cued = cue env "permission_expired" (some expired_word) (some session) h in
      elim (Dict.get session cued.streams) [
        | none ↦ cued
        | some st ↦
            let (q, removed) = SpeechQueue.remove_by_id item_id st.queue in
            record cued {
              streams = Dict.put session (record st { queue = q }) cued.streams;
              pending_heard = drop_pending (to_list removed) cued.pending_heard;
            }
      ]

  -- An utterance of `session` raised. The tone always sounds; the word waits while an earlier one does.
  unfoldable pub signal_speak_failure : String → Host A → Host A
  unfolding cue
  signal_speak_failure session h =
      let (fault, first) = FaultCue.should_fire "speak" h.faultcue in
      let said =
        cue env "error_system" (some (speak_failure_word +++ (if first then doctor_hint else "")))
          (some session) (record h { faultcue = fault }) in
      if StrSet.has session h.speak_failure_outstanding
      then cue env "error_system" none none h
      else record said {
        speak_failure_outstanding = StrSet.add session said.speak_failure_outstanding;
      }
