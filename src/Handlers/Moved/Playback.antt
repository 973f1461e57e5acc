-- ===== src/Handlers/Moved/Playback.antt =====
-- The handlers of src/sonari/daemon/features/playback.py, as moves of the host.
use claude_tts.Prelude.{
  ◌≡◌, inl, inr, refl, ap, sym, Bool, true, false, not, ◌&&◌, Option, none, some, [], arith,
  if◌then◌else◌, String, str_eq, ◌==◌, ◌+++◌, is_some,
}
use claude_tts.Prelude.Dict
use claude_tts.Sessions.{is_session, workspace, folder, number, claim_announce}
use claude_tts.Sessions.Terminal.{is_live}
use claude_tts.SpeechQueue
use claude_tts.SpeechQueue.{SpeechQueue, SpeechItem}
use claude_tts.SpeechQueue.Copies.{copies, Fewer}
use claude_tts.SessionStream.{SessionStream, advance_frontier}
use claude_tts.History.{HistoryEntry, newest_key}
use claude_tts.Host.{Host, Env, Ask, flowing, quiet_hold, plain, cue_ask}
use claude_tts.Host.Kernel.{stream, put_stream, enqueue, cue, pending, mark_heard, is_flowing}
use claude_tts.Host.Moves.{Moves, puts, asks, silences, stream-some}
use claude_tts.Host.Calls.{either, case_of, either_first, case_first, stays, thins, cue-Moves}
use claude_tts.Host.Utterances.{advances}
use claude_tts.Handlers.{or_default, cancel, is_current, cleared, touch, sanction, answer}
use claude_tts.Handlers.Playback.{
  hear_current, on_stop, on_skip, pile, speaker_pile, skip_target, skip_nothing, skip_pile_of,
  on_skip_pile, announce_deferred, start_session, stop_session, stop_target, on_stop_session,
  on_stop_all, confirm_silence, silence_all, shown,
}
use claude_tts.Handlers.Moved.{cancel-Moves, touch-Moves, cleared-Moves, answer-Moves}

empties : (q old : SpeechQueue) → Fewer (SpeechQueue.clear q).0 old
unfolding SpeechQueue.clear copies
empties q old n = omega arith

module _ {A : Type 0} (env : Env A) (l a f : Bool) {h : Host A} where
  pub on_stop-Moves : (k : Host A) → Moves env l a f h k → Moves env l a f h (on_stop env k)
  unfolding on_stop
  on_stop-Moves k p =
      let at : String → Host A = λ fg. elim (Dict.get fg k.streams) as (λ _. Host A) [
        | none ↦ k
        | some st ↦ cleared fg st k
      ] in
      let stopped = elim k.sessions.foreground as (λ _. Host A) [ none ↦ k | some fg ↦ at fg ] in
      cancel-Moves env l a f stopped (
        case_of env l a f k.sessions.foreground k at p (λ fg _.
          case_of env l a f (Dict.get fg k.streams) k (λ st. cleared fg st k) p
            (λ st e.
              let same = stream-some env fg k e in
              cleared-Moves env l a f fg st k p (sym (ap (λ (t : SessionStream A). t.queue) same))
                (sym (ap (λ (t : SessionStream A). t.stopped) same))
                (sym (ap (λ (t : SessionStream A). t.frontier) same)))))

  pub hear_current-Moves : (k : Host A) → Moves env l a f h k → Moves env l a f h (hear_current k)
  unfolding hear_current
  hear_current-Moves k p =
      let heard : SpeechItem → HistoryEntry → Host A =
        λ cur e. record k { history = mark_heard cur.session e k.history } in
      let at : SpeechItem → Host A = λ cur. elim (pending cur.id k.pending_heard) as (λ _. Host A) [
        | none ↦ k
        | some e ↦ heard cur e
      ] in
      case_of env l a f k.current_item k at p (λ cur _.
        case_of env l a f (pending cur.id k.pending_heard) k (heard cur) p
          (λ e _. stays env l a f k p refl refl refl))

  pub on_skip-Moves : (k : Host A) → Moves env l a f h k → Moves env l a f h (on_skip env k)
  unfolding on_skip
  on_skip-Moves k p = cancel-Moves env l a f (hear_current k) (hear_current-Moves k p)

  speaker_pile-Moves :
      (ws : Option String) (k : Host A)
      → Moves env l a f h k
      → Moves env l a f h (speaker_pile env ws k).0
  unfolding speaker_pile
  speaker_pile-Moves ws k p =
      let found : String → Host A × Option String =
        λ spk. (touch env spk k, if pile env spk k == 0 then none else some spk) in
      let at : String → Host A × Option String = λ spk.
        if is_flowing k.voice_state && not (is_session ws spk) then found spk else (k, none) in
      case_first env l a f k.sessions.speaker (k, none) at p
        (λ spk.
          either_first env l a f (is_flowing k.voice_state && not (is_session ws spk)) (found spk)
            (k, none) (touch-Moves env l a f spk k p) p)

  skip_target-Moves : (k : Host A) → Moves env l a f h k → Moves env l a f h (skip_target env k).0
  unfolding skip_target
  skip_target-Moves k p =
      let fallen : String → Host A × Option String =
        λ ws. speaker_pile env (some ws) (touch env ws k) in
      let at : String → Host A × Option String =
        λ ws. if pile env ws k == 0 then fallen ws else (touch env ws k, some ws) in
      case_first env l a f (workspace k.sessions) (speaker_pile env none k) at
        (speaker_pile-Moves none k p)
        (λ ws.
          let q = touch-Moves env l a f ws k p in
          either_first env l a f (pile env ws k == 0) (fallen ws) (touch env ws k, some ws)
            (speaker_pile-Moves (some ws) (touch env ws k) q) q)

  skip_nothing-Moves : (k : Host A) → Moves env l a f h k → Moves env l a f h (skip_nothing env k)
  unfolding skip_nothing
  skip_nothing-Moves k p =
      let to = elim (workspace k.sessions) as (λ _. Option String) [
        | none ↦ k.sessions.speaker
        | some ws ↦ some ws
      ] in
      case_of env l a f to (cue env "error" none none k)
        (λ s. answer env s "Nothing to skip." (sanction env (some s) false k).0)
        (cue-Moves env l a f "error" none none k p)
        (λ s _. answer-Moves env l a f s "Nothing to skip." k p)

  skip_pile_of-Moves :
      (target : String) (k : Host A)
      → a ≡ true
      → Moves env l a f h k
      → Moves env l a f h (skip_pile_of env target k)
  unfolding skip_pile_of cleared
  skip_pile_of-Moves target k may p =
      let ahead = advance_frontier (newest_key k.history target) (stream env target k) in
      let emptied = cleared target ahead k in
      let q : Moves env l a f h emptied =
        advances env l a f k target (newest_key k.history target)
          (record ahead { queue = (SpeechQueue.clear ahead.queue).0 }) (stream env target k) may p
          refl (empties ahead.queue (stream env target k).queue) refl refl refl refl refl in
      let cut : Host A = if is_current target emptied then cancel emptied else emptied in
      let r : Moves env l a f h cut =
        either env l a f (is_current target emptied) (cancel emptied) emptied
          (cancel-Moves env l a f emptied q) q in
      let dest = elim cut.sessions.speaker as (λ _. String) [ none ↦ target | some spk ↦ spk ] in
      answer-Moves env l a f dest _ cut r

  pub on_skip_pile-Moves :
      (k : Host A) → a ≡ true → Moves env l a f h k → Moves env l a f h (on_skip_pile env k)
  unfolding on_skip_pile
  on_skip_pile-Moves k may p =
      let seen = (skip_target env k).0 in
      let q = skip_target-Moves k p in
      case_of env l a f (skip_target env k).1 (skip_nothing env seen) (λ s. skip_pile_of env s seen)
        (skip_nothing-Moves seen q) (λ s _. skip_pile_of-Moves s seen may q)

  announce_deferred-Moves :
      (fg : String) (k : Host A)
      → Moves env l a f h k
      → Moves env l a f h (announce_deferred env fg k)
  unfolding announce_deferred
  announce_deferred-Moves fg k p =
      let st = stream env fg k in
      let (sessions, first) = claim_announce fg k.sessions in
      let claimed : Host A = record k { sessions = sessions } in
      let st' : SessionStream A = record st { announce_deferred = false } in
      let opened = put_stream env fg st' claimed in
      let ask : Ask =
        record (plain fg "prose"
          (shown (number opened.sessions fg)
            +++ ", "
            +++ or_default (folder opened.sessions fg) "Another session"
            +++ ".")
          false) { names_session = true } in
      either env l a f
        (st.announce_deferred
          && not (str_eq env.verbosity "quiet")
          && is_live env.exists k.sessions fg
          && first)
        (enqueue env ask opened) k
        (asks ask (thins env l a f k fg st' st p refl (λ n. omega arith) refl refl refl refl refl))
        p

  pub on_stop_session-Moves :
      (k : Host A) → l ≡ true → Moves env l a f h k → Moves env l a f h (on_stop_session env k)
  unfolding on_stop_session start_session stop_session cleared
  on_stop_session-Moves k may p =
      let starting : String → Host A = λ fg.
        cleared fg (record (stream env fg k) { stopped = false; prose_buffer = [] })
          (record k {
            voice_state = flowing;
            sessions = record k.sessions { speaker = some fg };
          }) in
      let started : String → Host A = λ fg. start_session env fg k in
      let held : String → Host A = λ fg.
        put_stream env fg (record (stream env fg k) { stopped = true; announce_resume = false })
          (record k { voice_state = quiet_hold }) in
      let cut : String → Host A =
        λ fg. if is_current fg (held fg) then cancel (held fg) else held fg in
      let stopped : String → Host A = λ fg. enqueue env (cue_ask false fg "Stopped.") (cut fg) in
      case_of env l a f (stop_target env k) (cue env "error" none none k)
        (λ fg. if (stream env fg k).stopped then started fg else stopped fg)
        (cue-Moves env l a f "error" none none k p)
        (λ fg _.
          let st = stream env fg k in
          let muted : SessionStream A = record st { stopped = true; announce_resume = false } in
          let hold : Moves env l a f h (held fg) =
            puts (held fg) fg muted p refl refl (inl may) ((λ n. omega arith), inl may, inl refl) in
          let open_stream : SessionStream A = record st {
            stopped = false;
            prose_buffer = [];
            queue = (SpeechQueue.clear st.queue).0;
          } in
          either env l a f st.stopped (started fg) (stopped fg)
            (announce_deferred-Moves fg _ (
              answer-Moves env l a f fg "Resumed." (starting fg) (
                puts (starting fg) fg open_stream p refl refl (inl may)
                  (empties st.queue st.queue, inl may, inl refl))))
            (asks (cue_ask false fg "Stopped.") (
              either env l a f (is_current fg (held fg)) (cancel (held fg)) (held fg)
                (cancel-Moves env l a f (held fg) hold) hold)))

  pub confirm_silence-Moves :
      (held : Host A) → Moves env l a f h held → Moves env l a f h (confirm_silence env held)
  unfolding confirm_silence
  confirm_silence-Moves held q =
      let cut : Host A = if is_some held.current_item then cancel held else held in
      let r : Moves env l a f h cut =
        either env l a f (is_some held.current_item) (cancel held) held
          (cancel-Moves env l a f held q) q in
      let muted : String → SessionStream A =
        λ spk. record (stream env spk cut) { stopped = true } in
      case_of env l a f cut.sessions.speaker cut
        (λ spk. enqueue env (cue_ask false spk "All stopped.") (put_stream env spk (muted spk) cut))
        r
        (λ spk _. asks (cue_ask false spk "All stopped.") (
          puts (put_stream env spk (muted spk) cut) spk (muted spk) r refl refl (inr (λ e. e))
            ((λ n. omega arith), inr (λ _. refl), inl refl)))

  pub on_stop_all-Moves : (k : Host A) → Moves env l a f h k → Moves env l a f h (on_stop_all env k)
  unfolding on_stop_all
  on_stop_all-Moves k p =
      confirm_silence-Moves (silence_all env k) (silences (silence_all env k) p refl refl refl)
