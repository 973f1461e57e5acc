-- ===== src/Handlers/Moved/Whereami.antt =====
-- `on_where_am_i` and `on_announce` of src/sonari/daemon/features/control.py, as moves of the host.
use claude_tts.Prelude.{Bool, true, false, not, Option, none, some, if◌then◌else◌, is_some, String}
use claude_tts.Prelude.Dict
use claude_tts.Sessions.{workspace}
use claude_tts.Sessions.Text.{truthy}
use claude_tts.SpeechQueue.{SpeechItem}
use claude_tts.Host.{Host, Env, cue_ask, plain}
use claude_tts.Host.Kernel.{enqueue, cue, pending}
use claude_tts.Host.Moves.{Moves, asks}
use claude_tts.Host.Calls.{either, either_first, case_of, case_first, cue-Moves}
use claude_tts.KeepGoing.{is_stopped}
use claude_tts.Handlers.{cancel, sanction, reply, strip, answer}
use claude_tts.Handlers.Jumps.{again}
use claude_tts.Handlers.Whereami.{
  idle_readout, readout, parked, where_voiced, where_idle, on_where_am_i, landing, on_announce,
}
use claude_tts.Handlers.Moved.{sanction-Moves, cancel-Moves, reply-Moves}

module _ {A : Type 0} (env : Env A) (l a f : Bool) {h : Host A} where
  parked-Moves : (k cut : Host A) → Moves env l a f h cut → Moves env l a f h (parked env k cut)
  parked-Moves k cut p =
      let back : SpeechItem → Host A = λ cur. again env cur (pending cur.id k.pending_heard) cut in
      case_of env l a f k.current_item cut (λ cur. if is_some cur.render_id then cut else back cur)
        p
        (λ cur _. either env l a f (is_some cur.render_id) cut (back cur) p (
          asks
            (record (plain cur.session cur.kind cur.text cur.is_decision) {
              entry = pending cur.id k.pending_heard;
              control_cue = cur.control_cue;
              names_session = cur.names_session;
              audio_path = cur.audio_path;
              forward = cur.forward;
              at_front = true;
              prelude = cur.prelude;
            })
            p))

  where_voiced-Moves :
      (fg : String) (k : Host A) → Moves env l a f h k → Moves env l a f h (where_voiced env fg k)
  unfolding where_voiced
  where_voiced-Moves fg k p =
      let back = parked env k (cancel k) in
      sanction-Moves env l a f (some fg) true (answer env fg (readout env fg k) back) (
        asks (cue_ask true fg (readout env fg k))
          (parked-Moves k (cancel k) (cancel-Moves env l a f k p)))

  where_idle-Moves : (k : Host A) → Moves env l a f h k → Moves env l a f h (where_idle env k)
  unfolding where_idle
  where_idle-Moves k p =
      let fault = cue env "error" none none k in
      let q : Moves env l a f h fault = cue-Moves env l a f "error" none none k p in
      let told : String → Host A = λ ws. enqueue env (cue_ask false ws (idle_readout env ws k)) k in
      case_of env l a f (workspace k.sessions) fault
        (λ ws.
          if is_stopped (Dict.get ws k.streams)
          then fault
          else (sanction env (some ws) true (told ws)).0)
        q
        (λ ws _.
          either env l a f (is_stopped (Dict.get ws k.streams)) fault
            (sanction env (some ws) true (told ws)).0 q
            (sanction-Moves env l a f (some ws) true (told ws)
              (asks (cue_ask false ws (idle_readout env ws k)) p)))

  pub on_where_am_i-Moves :
      (k : Host A) → Moves env l a f h k → Moves env l a f h (on_where_am_i env k)
  unfolding on_where_am_i
  on_where_am_i-Moves k p =
      case_of env l a f k.sessions.speaker (where_idle env k) (λ fg. where_voiced env fg k)
        (where_idle-Moves k p) (λ fg _. where_voiced-Moves fg k p)

  pub on_announce-Moves :
      (text : Option String) (k : Host A)
      → Moves env l a f h k
      → Moves env l a f h (on_announce env text k).0
  unfolding on_announce
  on_announce-Moves text k p =
      let said = strip text in
      let at : String → Host A × Bool = λ target.
        if is_stopped (Dict.get target k.streams)
        then (k, false)
        else (reply env target said k, true) in
      either_first env l a f (not (truthy said)) (k, false)
        (elim (landing env k) as (λ _. Host A × Bool) [
          | none ↦ (k, false)
          | some target ↦ at target
        ])
        p
        (case_first env l a f (landing env k) (k, false) at p
          (λ target.
            either_first env l a f (is_stopped (Dict.get target k.streams)) (k, false)
              (reply env target said k, true) p (reply-Moves env l a f target said k p)))
