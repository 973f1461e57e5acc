-- ===== src/Handlers/Moved/Prose.antt =====
-- The handlers of src/sonari/daemon/features/prose.py, as moves of the host.
use claude_tts.Prelude.{
  ℕ, refl, Bool, true, false, not, ◌||◌, Option, none, some, List, [], ◌∷◌, if◌then◌else◌, String,
  str_eq, ◌+++◌,
}
use claude_tts.Sessions.{is_session}
use claude_tts.SessionStream.{SessionStream, reset_for_new_prompt}
use claude_tts.History.{record_entry, end_message, start_turn}
use claude_tts.Host.{Host, Env, cue_ask, forward_ask}
use claude_tts.Host.Kernel.{stream, put_stream, enqueue, flush_prose_buffer, buffer_prose, cue}
use claude_tts.Host.Moves.{Moves, asks}
use claude_tts.Host.Calls.{
  either, case_of, stays, rewrites, flush-Moves, buffer_prose-Moves, cue-Moves,
}
use claude_tts.Handlers.{strip, or_default, cancel, cleared, answer, maybe_hint}
use claude_tts.Handlers.Prose.{
  take_chunk, take_chunks, on_prose, on_tool, on_earcon, deliver_resume, deliver_restore, on_flush,
  compose_restore_line,
}
use claude_tts.Handlers.Moved.{cleared-Moves, cancel-Moves, maybe_hint-Moves}

module _ {A : Type 0} (env : Env A) (l a f : Bool) {h : Host A} where
  take_chunk-Moves :
      (s : String) (speak : Bool) (c : Option String) (k : Host A)
      → Moves env l a f h k
      → Moves env l a f h (take_chunk env s speak c k)
  unfolding take_chunk
  take_chunk-Moves s speak none k p = stays env l a f k p refl refl refl
  take_chunk-Moves s speak (some text) k p =
      let (history, entry) = record_entry env.now s "prose" text k.history in
      let recorded : Host A = record k { history = history } in
      let q : Moves env l a f h recorded = stays env l a f k p refl refl refl in
      either env l a f speak (buffer_prose env s text entry recorded) recorded
        (buffer_prose-Moves env l a f s text entry recorded q) q

  take_chunks-Moves :
      (s : String) (speak : Bool) (cs : List (Option String)) (k : Host A)
      → Moves env l a f h k
      → Moves env l a f h (take_chunks env s speak cs k)
  unfolding take_chunks
  take_chunks-Moves s speak [] k p = p
  take_chunks-Moves s speak (c ∷ cs) k p =
      take_chunks-Moves s speak cs (take_chunk env s speak c k) (take_chunk-Moves s speak c k p)

  pub on_prose-Moves :
      (s delta : String) (index : ℕ) (final : Bool) (k : Host A)
      → Moves env l a f h k
      → Moves env l a f h (on_prose env s delta index final k)
  unfolding on_prose
  on_prose-Moves s delta index final k p =
      let st = stream env s k in
      let (assembler, chunks) = env.feed st.assembler delta index final in
      let st' : SessionStream A = record st { assembler = assembler } in
      let speak = not (str_eq env.verbosity "quiet") in
      let fed = put_stream env s st' k in
      let taken = take_chunks env s speak chunks fed in
      let ended : Host A = record taken { history = end_message s taken.history } in
      let q : Moves env l a f h taken =
        take_chunks-Moves s speak chunks fed (rewrites env l a f k s st' p refl refl refl) in
      let r : Moves env l a f h ended = stays env l a f taken q refl refl refl in
      let shut : SessionStream A = record (stream env s ended) { options = none } in
      either env l a f final (put_stream env s shut ended) taken
        (rewrites env l a f ended s shut r refl refl refl) q

  pub on_tool-Moves :
      (s tool : String) (summary : Option String) (k : Host A)
      → Moves env l a f h k
      → Moves env l a f h (on_tool env s tool summary k)
  unfolding on_tool
  on_tool-Moves s tool summary k p =
      let text = or_default (some (strip summary)) ("Running " +++ tool +++ ".") in
      let (history, entry) = record_entry env.now s "tool" text k.history in
      let recorded : Host A = record k { history = end_message s history } in
      let q : Moves env l a f h recorded = stays env l a f k p refl refl refl in
      let ask = forward_ask s "tool_announce" text false entry in
      either env l a f (str_eq env.verbosity "everything")
        (enqueue env ask (flush_prose_buffer env s recorded)) recorded
        (asks ask (flush-Moves env l a f s recorded q)) q

  pub on_earcon-Moves :
      (s kind : String) (k : Host A)
      → Moves env l a f h k
      → Moves env l a f h (on_earcon env s kind k)
  unfolding on_earcon
  on_earcon-Moves s kind k p =
      let speaker = k.sessions.speaker in
      let cued = cue env kind none none k in
      let q = cue-Moves env l a f kind none none k p in
      let told = maybe_hint env "background_turn" speaker cued in
      let hinted : Host A = if is_session speaker s then cued else told in
      let r : Moves env l a f h hinted =
        either env l a f (is_session speaker s) cued told q
          (maybe_hint-Moves env l a f "background_turn" speaker cued q) in
      either env l a f (str_eq kind "turn_done") (flush_prose_buffer env s hinted) cued
        (flush-Moves env l a f s hinted r) q

  pub deliver_resume-Moves :
      (s : String) (k : Host A) → Moves env l a f h k → Moves env l a f h (deliver_resume env s k)
  unfolding deliver_resume
  deliver_resume-Moves s k p =
      let st = stream env s k in
      let st' : SessionStream A = record st { announce_resume = false } in
      let off = put_stream env s st' k in
      either env l a f st.announce_resume (answer env s "Resumed." off) k
        (asks (cue_ask true s "Resumed.") (rewrites env l a f k s st' p refl refl refl)) p

  pub deliver_restore-Moves :
      (s : String) (k : Host A) → Moves env l a f h k → Moves env l a f h (deliver_restore env s k)
  unfolding deliver_restore
  deliver_restore-Moves s k p =
      let told = elim (compose_restore_line k) as (λ _. Host A) [
        | none ↦ k
        | some line ↦ enqueue env (cue_ask false s line) k
      ] in
      let q : Moves env l a f h told =
        case_of env l a f (compose_restore_line k) k (λ line. enqueue env (cue_ask false s line) k)
          p (λ line _. asks (cue_ask false s line) p) in
      let done : Host A = record told { restore_pending = false } in
      either env l a f k.restore_pending done k (stays env l a f told q refl refl refl) p

  pub on_flush-Moves :
      (s : String) (k : Host A) → Moves env l a f h k → Moves env l a f h (on_flush env s k)
  unfolding on_flush reset_for_new_prompt
  on_flush-Moves s k p =
      let ack = cue env "submit_ack" none none k in
      let acked : Host A = if env.submit_ack_enabled then ack else k in
      let q : Moves env l a f h acked =
        either env l a f env.submit_ack_enabled ack k
          (cue-Moves env l a f "submit_ack" none none k p) p in
      let emptied = cleared s (stream env s acked) acked in
      let r : Moves env l a f h emptied =
        cleared-Moves env l a f s (stream env s acked) acked q refl refl refl in
      let spoken = elim emptied.current_item as (λ _. Bool) [
        | none ↦ false
        | some it ↦ str_eq it.session s || is_session emptied.sessions.speaker s
      ] in
      let cut : Host A = if spoken then cancel emptied else emptied in
      let u : Moves env l a f h cut =
        either env l a f spoken (cancel emptied) emptied (cancel-Moves env l a f emptied r) r in
      let fresh_stream = reset_for_new_prompt env.fresh (stream env s cut) in
      let fresh = put_stream env s fresh_stream cut in
      let v : Moves env l a f h fresh = rewrites env l a f cut s fresh_stream u refl refl refl in
      let turned : Host A = record fresh { history = start_turn s fresh.history } in
      let w : Moves env l a f h turned = stays env l a f fresh v refl refl refl in
      deliver_restore-Moves s (deliver_resume env s turned) (deliver_resume-Moves s turned w)
