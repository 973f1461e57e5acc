-- ===== src/Handlers/Moved.antt =====
-- What the handlers share (Handlers.antt), as moves of the host; the children do the same for the handlers.
pub mod Prose
pub mod Playback
pub mod Jumps
pub mod Focus
pub mod Whereami
pub mod Navigation
pub mod Lifecycle
pub mod Decisions
pub mod Dispatch
use claude_tts.Prelude.{
  ℕ, ◌≡◌, inl, inr, refl, ap, sym, ◌∙◌, Bool, true, false, not, ◌&&◌, Option, none, some, List, [],
  ◌∷◌, arith, if◌then◌else◌, String, str_eq, ◌+++◌,
}
use claude_tts.Prelude.Dict
use claude_tts.Prelude.StrSet
use claude_tts.Sessions.{folder}
use claude_tts.Sessions.Text.{truthy}
use claude_tts.SpeechQueue
use claude_tts.SpeechQueue.{SpeechQueue}
use claude_tts.SpeechQueue.Copies.{copies, Fewer, clear-Fewer}
use claude_tts.SessionStream.{SessionStream}
use claude_tts.KeepGoing.{sanction_dead_read, is_stopped}
use claude_tts.Host.{Host, Env, Ask, plain, cue_ask}
use claude_tts.Host.Kernel.{stream, put_stream, enqueue, spearcon_path}
use claude_tts.Host.Moves.{Moves, asks, stream-some}
use claude_tts.Host.Calls.{either, case_of, stays, thins, rewrites}
use claude_tts.Handlers.{
  cancel, cleared, touch, sanction, answer, reply, hint_text, maybe_hint, lead,
}

module _ {A : Type 0} (env : Env A) where
  sanction-kept :
      (session : Option String) (whole : Bool) (k : Host A)
      → ((sanction env session whole k).0.streams ≡ k.streams)
        × ((sanction env session whole k).0.next_id ≡ k.next_id)
        × ((sanction env session whole k).0.voice_state ≡ k.voice_state)
  unfolding sanction_dead_read
  sanction-kept none whole k = (refl, refl, refl)
  sanction-kept (some s) whole k = (ground arith, ground arith, ground arith)

module _ {A : Type 0} (env : Env A) (l a f : Bool) {h : Host A} where
  pub sanction-Moves :
      (session : Option String) (whole : Bool) (k : Host A)
      → Moves env l a f h k
      → Moves env l a f h (sanction env session whole k).0
  sanction-Moves session whole k p =
      let kept = sanction-kept env session whole k in stays env l a f k p kept.0 kept.1 kept.2

  pub cancel-Moves : (k : Host A) → Moves env l a f h k → Moves env l a f h (cancel k)
  cancel-Moves k p = stays env l a f k p refl refl refl

  pub touch-Moves :
      (s : String) (k : Host A) → Moves env l a f h k → Moves env l a f h (touch env s k)
  touch-Moves s k p = rewrites env l a f k s (stream env s k) p refl refl refl

  -- the queue of a stream with the stop and the frontier of the one that is there
  pub cleared-Moves :
      (s : String) (st : SessionStream A) (k : Host A)
      → Moves env l a f h k
      → st.queue ≡ (stream env s k).queue
      → st.stopped ≡ (stream env s k).stopped
      → st.frontier ≡ (stream env s k).frontier
      → Moves env l a f h (cleared s st k)
  unfolding cleared
  cleared-Moves s st k p queue stopped frontier =
      thins env l a f k s (record st { queue = (SpeechQueue.clear st.queue).0 }) (stream env s k) p
        refl
        (λ n.
          ground (arith, clear-Fewer st.queue n, ap (λ (q : SpeechQueue). copies n q.items) queue))
        stopped frontier refl refl refl

  -- the same behind a write of the stream and a cut
  pub recleared-Moves :
      (s : String) (st st' : SessionStream A) (k : Host A)
      → Moves env l a f h (put_stream env s st k)
      → st'.queue ≡ st.queue
      → st'.stopped ≡ st.stopped
      → st'.frontier ≡ st.frontier
      → Moves env l a f h (cleared s st' (cancel (put_stream env s st k)))
  recleared-Moves s st st' k p queue stopped frontier =
      let opened : Host A = cancel (put_stream env s st k) in
      let there : stream env s opened ≡ st =
        stream-some env s opened (Dict.get-put_self s st k.streams) in
      cleared-Moves s st' opened (cancel-Moves (put_stream env s st k) p)
        (queue ∙ sym (ap (λ (t : SessionStream A). t.queue) there))
        (stopped ∙ sym (ap (λ (t : SessionStream A). t.stopped) there))
        (frontier ∙ sym (ap (λ (t : SessionStream A). t.frontier) there))

  -- an answer to a press behind its sanction
  pub answer-Moves :
      (s text : String) (k : Host A)
      → Moves env l a f h k
      → Moves env l a f h (answer env s text (sanction env (some s) false k).0)
  answer-Moves s text k p = asks (cue_ask true s text) (sanction-Moves (some s) false k p)

  pub reply-Moves :
      (s text : String) (k : Host A) → Moves env l a f h k → Moves env l a f h (reply env s text k)
  reply-Moves s text k p =
      asks (cue_ask (sanction env (some s) false k).1 s text) (sanction-Moves (some s) false k p)

  pub maybe_hint-Moves :
      (key : String) (session : Option String) (k : Host A)
      → Moves env l a f h k
      → Moves env l a f h (maybe_hint env key session k)
  unfolding maybe_hint
  maybe_hint-Moves key none k p = p
  maybe_hint-Moves key (some s) k p =
      let hinted : Host A = record k { hinted = StrSet.add key k.hinted } in
      let ask = plain s "prose" (hint_text env key) false in
      let told = enqueue env ask hinted in
      let rest : Host A = if is_stopped (Dict.get s k.streams) then k else told in
      either env l a f (StrSet.has key k.hinted) k
        (if not (str_eq env.verbosity "everything") then k else rest) p
        (either env l a f (not (str_eq env.verbosity "everything")) k rest p (
          either env l a f (is_stopped (Dict.get s k.streams)) k told p
            (asks ask (stays env l a f k p refl refl refl))))

  pub lead-Moves :
      (s : String) (k : Host A) → Moves env l a f h k → Moves env l a f h (lead env s k)
  unfolding lead
  lead-Moves s k p =
      let ask : String → Ask = λ name. record (plain s "prose" (name +++ ".") false) {
        audio_path = spearcon_path env (some name);
        control_cue = true;
        at_front = true;
        names_session = true;
      } in
      case_of env l a f (folder k.sessions s) k
        (λ name. if truthy name then enqueue env (ask name) k else k) p
        (λ name _.
          either env l a f (truthy name) (enqueue env (ask name) k) k (asks (ask name) p) p)
