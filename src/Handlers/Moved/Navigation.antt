-- ===== src/Handlers/Moved/Navigation.antt =====
-- The handlers of src/sonari/daemon/features/navigation.py, as moves of the host.
use claude_tts.Prelude.{
  ℕ, ◌+◌, ◌-◌, ◌≡◌, inl, refl, Bool, true, false, not, ◌||◌, ◌&&◌, none, some, List, [], ◌∷◌, arith,
  drop, length, leb, ltb, ◌==◌, min, if◌then◌else◌, String, str_eq,
}
use claude_tts.Sessions.{is_session, workspace, focus}
use claude_tts.SessionStream.{SessionStream}
use claude_tts.History.{
  HistoryEntry, SessionHistory, get_elem?, turn_ids, entries_for_message, message_ids_in_turn,
  current_turn,
}
use claude_tts.Host.{Host, Env, Ask, flowing, plain, cue_ask}
use claude_tts.Host.Kernel.{stream, put_stream, enqueue}
use claude_tts.Host.Moves.{Moves, edits, asks}
use claude_tts.Host.Calls.{either, case_of, rewrites}
use claude_tts.Handlers.{cancel, cleared, sanction, lead}
use claude_tts.Handlers.Navigation.{
  position_of, moved, anchored, ids_of, is_empty, say_cue, replay_entries, replay, seek, nav,
  response_cue, seek_response, nav_response, on_nav,
}
use claude_tts.Handlers.Moved.{sanction-Moves, recleared-Moves, lead-Moves}

-- an anchor that is given up leaves the rest of the stream
anchored-kept :
    {A : Type 0} (h : SessionHistory) (s : String) (st : SessionStream A)
    → ((anchored h s st).queue ≡ st.queue)
      × ((anchored h s st).stopped ≡ st.stopped)
      × ((anchored h s st).frontier ≡ st.frontier)
anchored-kept h s st = (ground arith, ground arith, ground arith)

module _ {A : Type 0} (env : Env A) (l a f : Bool) {h : Host A} where
  replay_entries-Moves :
      (s : String) (stopped : Bool) (es : List HistoryEntry) (k : Host A)
      → Moves env l a f h k
      → Moves env l a f h (replay_entries env s stopped es k)
  unfolding replay_entries
  replay_entries-Moves s stopped [] k p = p
  replay_entries-Moves s stopped (e ∷ es) k p =
      let ask : Ask = record (plain s e.kind e.text false) {
        entry = some e;
        control_cue = stopped;
      } in
      replay_entries-Moves s stopped es (enqueue env ask k) (asks ask p)

  replay-Moves :
      (s : String) (stopped : Bool) (mids : List ℕ) (k : Host A)
      → Moves env l a f h k
      → Moves env l a f h (replay env s stopped mids k)
  unfolding replay
  replay-Moves s stopped [] k p = p
  replay-Moves s stopped (mid ∷ mids) k p =
      let es = entries_for_message k.history s mid in
      replay-Moves s stopped mids (replay_entries env s stopped es k)
        (replay_entries-Moves s stopped es k p)

  nav-Moves :
      (s to : String) (k : Host A) → Moves env l a f h k → Moves env l a f h (nav env s to k)
  unfolding nav seek
  nav-Moves s to k p =
      let st = anchored k.history s (stream env s k) in
      let kept = anchored-kept k.history s (stream env s k) in
      let opened = put_stream env s st k in
      let q : Moves env l a f h opened = rewrites env l a f k s st p kept.0 kept.1 kept.2 in
      let ids = ids_of opened.history s st.nav_turn in
      let n = length ids in
      let at : ℕ → SessionStream A =
        λ new. record st { nav_cursor = if leb (n - 1) new then none else get_elem? ids new } in
      either env l a f (is_empty ids) (say_cue env s "Nothing to navigate yet." opened)
        (elim (moved to (position_of st.nav_cursor ids) n) as (λ _. Host A) [
          | none ↦ opened
          | some new ↦ seek env s st ids new opened
        ])
        (asks (cue_ask false s "Nothing to navigate yet.") q)
        (case_of env l a f (moved to (position_of st.nav_cursor ids) n) opened
          (λ new. seek env s st ids new opened) q
          (λ new _.
            replay-Moves s st.stopped (drop new ids) (cleared s (at new) (cancel opened))
              (recleared-Moves env l a f s st (at new) k q refl refl refl)))

  nav_response-Moves :
      (s direction : String) (k : Host A)
      → Moves env l a f h k
      → Moves env l a f h (nav_response env s direction k)
  unfolding nav_response seek_response
  nav_response-Moves s direction k p =
      let st = stream env s k in
      let opened = put_stream env s st k in
      let q : Moves env l a f h opened = rewrites env l a f k s st p refl refl refl in
      let turns = turn_ids k.history s in
      let n = length turns in
      let cur = position_of st.nav_turn turns in
      let new = if str_eq direction "prev_response" then cur - 1 else min (cur + 1) (n - 1) in
      let lone = if is_empty turns then "Nothing to navigate yet." else "No other response." in
      let live : ℕ → Bool = λ turn. new == n - 1 && turn == current_turn k.history s in
      let mids : ℕ → List ℕ = λ turn. message_ids_in_turn k.history s turn in
      let at : ℕ → SessionStream A = λ turn. record st {
        nav_turn = if live turn then none else some turn;
        nav_cursor = if live turn then none else get_elem? (mids turn) 0;
      } in
      let cue = response_cue new n in
      either env l a f (ltb n 2) (say_cue env s lone opened)
        (elim (get_elem? turns new) as (λ _. Host A) [
          | none ↦ opened
          | some turn ↦ seek_response env s st turn (live turn) cue opened
        ])
        (asks (cue_ask false s lone) q)
        (case_of env l a f (get_elem? turns new) opened
          (λ turn. seek_response env s st turn (live turn) cue opened) q
          (λ turn _.
            let emptied : Host A = cleared s (at turn) (cancel opened) in
            replay-Moves s st.stopped (mids turn) (say_cue env s cue emptied) (
              asks (cue_ask false s cue)
                (recleared-Moves env l a f s st (at turn) k q refl refl refl))))

  pub on_nav-Moves :
      (to : String) (k : Host A)
      → l ≡ true
      → Moves env l a f h k
      → Moves env l a f h (on_nav env to k)
  unfolding on_nav
  on_nav-Moves to k may p =
      let crossed : String → Bool = λ target. not (is_session k.sessions.speaker target) in
      let on : String → Host A = λ target. (sanction env (some target) true k).0 in
      let crossing : String → Host A = λ target. record (on target) {
        sessions = focus target none (on target).sessions;
        voice_state = flowing;
      } in
      let turned : String → Host A =
        λ target. if crossed target then crossing target else on target in
      let responses = str_eq to "prev_response" || str_eq to "next_response" in
      let read : String → Host A = λ target.
        if responses
        then nav_response env target to (turned target)
        else nav env target to (turned target) in
      case_of env l a f (workspace k.sessions) k
        (λ target. if crossed target then lead env target (read target) else read target) p
        (λ target _.
          let q = sanction-Moves env l a f (some target) true k p in
          let r : Moves env l a f h (turned target) =
            either env l a f (crossed target) (crossing target) (on target)
              (edits (crossing target) q refl refl (inl may)) q in
          let u : Moves env l a f h (read target) =
            either env l a f responses (nav_response env target to (turned target))
              (nav env target to (turned target)) (nav_response-Moves target to (turned target) r)
              (nav-Moves target to (turned target) r) in
          either env l a f (crossed target) (lead env target (read target)) (read target)
            (lead-Moves env l a f target (read target) u) u)
