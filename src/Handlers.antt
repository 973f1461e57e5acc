-- ===== src/Handlers.antt =====
-- What the handlers of src/sonari/daemon/features share. The window that a handler raises
-- (src/sonari/raise_service.py) has no part in the state and is left out.
pub mod Prose
pub mod Playback
pub mod Jumps
pub mod Navigation
pub mod Focus
pub mod Control
pub mod Whereami
pub mod Lifecycle
pub mod Wording
pub mod Decisions
pub mod Teaching
pub mod Dispatch
pub mod Moved
pub mod Once
pub mod Silence
pub mod Heard
pub mod Answers
pub mod Waiting
pub mod Named
mod Tests
use Prim.Native.Char.{Char, code}
use claude_tts.Prelude.{
  ℕ, ◌+◌, String, Bool, true, false, not, ◌&&◌, ◌||◌, Option, none, some, List, [], ◌∷◌, leb, ◌==◌,
  if◌then◌else◌, str_eq, ◌+++◌,
}
use claude_tts.Prelude.Dict
use claude_tts.Prelude.StrSet
use claude_tts.Sessions.{folder}
use claude_tts.Sessions.Text.{truthy, or_text}
use claude_tts.SpeechQueue
use claude_tts.SpeechQueue.{SpeechItem}
use claude_tts.SessionStream.{SessionStream}
use claude_tts.Host.{Host, Env, plain, cue_ask}
use claude_tts.Host.Kernel.{stream, put_stream, drop_pending, enqueue, spearcon_path}
use claude_tts.KeepGoing.{sanction_dead_read, is_stopped}

-- `a or b` on session ids: an empty one counts as missing
abbrev pub or_session : Option String → Option String → Option String
or_session none b = b
or_session (some s) b = if truthy s then some s else b

-- `text or default`
abbrev pub or_default : Option String → String → String
or_default none d = d
or_default (some s) d = or_text s d

abbrev pub is_space : Char → Bool
is_space c =
    (leb 9 (code c) && leb (code c) 13)
    || (leb 28 (code c) && leb (code c) 32)
    || code c == 133
    || code c == 160
    || code c == 5760
    || (leb 8192 (code c) && leb (code c) 8202)
    || code c == 8232
    || code c == 8233
    || code c == 8239
    || code c == 8287
    || code c == 12288

lstrip : String → String
lstrip String.[] = String.[]
lstrip (String.◌∷◌ c s) = let rest = lstrip s in if is_space c then rest else String.◌∷◌ c s

rstrip : String → String
rstrip String.[] = String.[]
rstrip (String.◌∷◌ c s) =
    let rest = rstrip s in if is_space c && not (truthy rest) then String.[] else String.◌∷◌ c rest

-- `(text or "").strip()`
unfoldable pub strip : Option String → String
unfolding lstrip rstrip
strip none = ""
strip (some s) = lstrip (rstrip s)

module _ {A : Type 0} where
  -- `speaker.cancel()`
  abbrev pub cancel : Host A → Host A
  cancel h = record h { cancels = h.cancels + 1 }

  -- `_current_item` is there, and is of the session
  abbrev pub is_current : String → Host A → Bool
  is_current session h = elim h.current_item [ none ↦ false | some it ↦ str_eq it.session session ]

  -- `_drop_pending(st.queue.clear())` on a stream of the session
  unfoldable pub cleared : String → SessionStream A → Host A → Host A
  cleared session st h =
      let (q, items) = SpeechQueue.clear st.queue in
      record h {
        streams = Dict.put session (record st { queue = q }) h.streams;
        pending_heard = drop_pending items h.pending_heard;
      }

module _ {A : Type 0} (env : Env A) where
  -- `_stream(session)` that is only read
  abbrev pub touch : String → Host A → Host A
  touch session h = put_stream env session (stream env session h) h

  abbrev pub sanction : Option String → Bool → Host A → Host A × Bool
  sanction = sanction_dead_read env.has_pending env.exists

  -- a control cue in front of the queue of a session
  abbrev pub answer : String → String → Host A → Host A
  answer session text = enqueue env (cue_ask true session text)

  -- a control cue that goes in front where it is all that a dead session is sanctioned to say
  abbrev pub reply : String → String → Host A → Host A
  reply session text h =
      let (h', front) = sanction (some session) false h in
      enqueue env (cue_ask front session text) h'

  abbrev pub hint_text : String → String
  hint_text key =
      if str_eq key "decision"
      then "Press Control Command Return to approve, Escape to deny, or Control Command O to hear the options again."
      else if str_eq key "background_turn"
      then "A background session finished. Control Command J jumps the voice to it."
      else if str_eq key "chooser"
      then "Hold the chord and tap Tab to browse. Release to switch. Digits teleport."
      else "That was a summary. Control Command R repeats it."

  unfoldable pub maybe_hint : String → Option String → Host A → Host A
  unfolding enqueue
  maybe_hint key none h = h
  maybe_hint key (some session) h =
      if StrSet.has key h.hinted
      then h
      else if not (str_eq env.verbosity "everything")
      then h
      else if is_stopped (Dict.get session h.streams)
      then h
      else enqueue env (plain session "prose" (hint_text key) false)
          (record h { hinted = StrSet.add key h.hinted })

  -- the short cue with the folder that a crossing leads with
  unfoldable pub lead : String → Host A → Host A
  unfolding enqueue spearcon_path
  lead session h = elim (folder h.sessions session) [
    | none ↦ h
    | some f ↦
        if truthy f
        then enqueue env
            (record (plain session "prose" (f +++ ".") false) {
              audio_path = spearcon_path env (some f);
              control_cue = true;
              at_front = true;
              names_session = true;
            })
            h
        else h
  ]
