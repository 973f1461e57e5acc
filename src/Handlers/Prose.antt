-- ===== src/Handlers/Prose.antt =====
-- src/sonari/daemon/features/prose.py, and `_compose_restore_line` of src/sonari/daemon/host.py.
use claude_tts.Prelude.{
  ℕ, String, Bool, false, not, ◌||◌, Option, none, some, List, [], ◌∷◌, ◌++◌, map, length, filter,
  ◌==◌, if◌then◌else◌, str_eq, ◌+++◌, decimal,
}
use claude_tts.Prelude.Dict
use claude_tts.Prelude.Dict.{Dict}
use claude_tts.Sessions.{folder, is_session}
use claude_tts.SessionStream.{SessionStream, reset_for_new_prompt}
use claude_tts.History.{
  SessionHistory, record_entry, end_message, start_turn, unheard_from_frontier, Key,
}
use claude_tts.History
use claude_tts.Host.{Host, Env, cue_ask, forward_ask}
use claude_tts.Host.Kernel.{stream, put_stream, enqueue, flush_prose_buffer, buffer_prose, cue}
use claude_tts.Handlers.{strip, cancel, cleared, answer, maybe_hint, or_default}

abbrev pub frontier_at : {A : Type 0} → Option (SessionStream A) → Option Key
frontier_at none = none
frontier_at (some st) = st.frontier

-- `_RESTORE_COUNT_WORDS.get(n, str(n))`
abbrev pub count_word : ℕ → String
count_word n =
    if n == 1
    then "One"
    else if n == 2
    then "Two"
    else if n == 3
    then "Three"
    else if n == 4
    then "Four"
    else if n == 5
    then "Five"
    else if n == 6
    then "Six"
    else if n == 7
    then "Seven"
    else if n == 8
    then "Eight"
    else if n == 9
    then "Nine"
    else decimal n

-- `" ".join(parts)`
unfoldable pub joined : List String → String
joined [] = ""
joined (p ∷ []) = p
joined (p ∷ q ∷ ps) = p +++ " " +++ joined (q ∷ ps)

-- `" ".join(parts) if parts else None`
abbrev pub line_of : List String → Option String
line_of [] = none
line_of (p ∷ ps) = some (joined (p ∷ ps))

module _ {A : Type 0} where
  abbrev pub has_pile : Host A → String → Bool
  has_pile h s =
      not (length (unheard_from_frontier h.history s (frontier_at (Dict.get s h.streams))).0 == 0)

  abbrev pub muted : Host A → Dict (SessionStream A) → List String
  muted h streams =
      map (λ e. or_default (folder h.sessions e.0) "Another session" +++ " is muted.")
        (filter (λ e. e.1.stopped) streams)

  unfoldable pub compose_restore_line : Host A → Option String
  unfolding joined
  compose_restore_line h =
      let piles = length (filter (has_pile h) (History.session_ids h.history)) in
      let have = if piles == 1 then "session has" else "sessions have" in
      line_of (
        (if piles == 0 then [] else (count_word piles +++ " " +++ have +++ " unheard output.") ∷ [])
        ++ muted h h.streams)

module _ {A : Type 0} (env : Env A) where
  -- one round of the loop of `on_prose`; a paragraph break is `none`
  unfoldable pub take_chunk : String → Bool → Option String → Host A → Host A
  unfolding buffer_prose
  take_chunk session speak none h = record h { history = end_message session h.history }
  take_chunk session speak (some text) h =
      let (history, entry) = record_entry env.now session "prose" text h.history in
      let recorded : Host A = record h { history = history } in
      if speak then buffer_prose env session text entry recorded else recorded

  unfoldable pub take_chunks : String → Bool → List (Option String) → Host A → Host A
  unfolding take_chunk
  take_chunks session speak [] h = h
  take_chunks session speak (c ∷ chunks) h =
      take_chunks session speak chunks (take_chunk session speak c h)

  unfoldable pub on_prose : String → String → ℕ → Bool → Host A → Host A
  unfolding take_chunks
  on_prose session delta index final h =
      let st = stream env session h in
      let (assembler, chunks) = env.feed st.assembler delta index final in
      let taken =
        take_chunks session (not (str_eq env.verbosity "quiet")) chunks
          (put_stream env session (record st { assembler = assembler }) h) in
      let ended : Host A = record taken { history = end_message session taken.history } in
      if final
      then put_stream env session (record (stream env session ended) { options = none }) ended
      else taken

  unfoldable pub on_tool : String → String → Option String → Host A → Host A
  unfolding flush_prose_buffer enqueue
  on_tool session tool summary h =
      let text = or_default (some (strip summary)) ("Running " +++ tool +++ ".") in
      let (history, entry) = record_entry env.now session "tool" text h.history in
      let recorded : Host A = record h { history = end_message session history } in
      if str_eq env.verbosity "everything"
      then enqueue env (forward_ask session "tool_announce" text false entry)
          (flush_prose_buffer env session recorded)
      else recorded

  unfoldable pub on_earcon : String → String → Host A → Host A
  unfolding cue maybe_hint flush_prose_buffer
  on_earcon session kind h =
      let speaker = h.sessions.speaker in
      let cued = cue env kind none none h in
      let hinted =
        if is_session speaker session
        then cued
        else maybe_hint env "background_turn" speaker cued in
      if str_eq kind "turn_done" then flush_prose_buffer env session hinted else cued

  -- the deferred "Resumed." of a stream
  unfoldable pub deliver_resume : String → Host A → Host A
  unfolding enqueue
  deliver_resume session h =
      let st = stream env session h in
      if st.announce_resume
      then answer env session "Resumed."
          (put_stream env session (record st { announce_resume = false }) h)
      else h

  -- the deferred line about what was restored
  unfoldable pub deliver_restore : String → Host A → Host A
  unfolding enqueue compose_restore_line
  deliver_restore session h =
      let told = elim (compose_restore_line h) as (λ _. Host A) [
        | none ↦ h
        | some line ↦ enqueue env (cue_ask false session line) h
      ] in
      if h.restore_pending then record told { restore_pending = false } else h

  unfoldable pub on_flush : String → Host A → Host A
  unfolding cue cleared deliver_resume deliver_restore
  on_flush session h =
      let acked = if env.submit_ack_enabled then cue env "submit_ack" none none h else h in
      let emptied = cleared session (stream env session acked) acked in
      let spoken = elim emptied.current_item as (λ _. Bool) [
        | none ↦ false
        | some it ↦ str_eq it.session session || is_session emptied.sessions.speaker session
      ] in
      let cut = if spoken then cancel emptied else emptied in
      let fresh =
        put_stream env session (reset_for_new_prompt env.fresh (stream env session cut)) cut in
      deliver_restore session
        (deliver_resume session (record fresh { history = start_turn session fresh.history }))
