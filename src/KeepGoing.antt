-- ===== src/KeepGoing.antt =====
-- Whose queue the voice reads, in src/sonari/daemon/host.py: `_select_keep_going`, `_release_dead_speaker`,
-- `_sanction_dead_read`, `_stream_quiescent` and `_pop_held_control_cue`. `has_pending` stands for the method
-- of the assembler, `exists` for `os.path.exists`.
pub mod Selection
mod Tests
use claude_tts.Prelude.{
  ℕ, String, Bool, true, false, not, ◌&&◌, ◌||◌, Option, none, some, List, [], ◌∷◌, map, length,
  ltb, ◌==◌, if◌then◌else◌, any, is_some, str_eq,
}
use claude_tts.Prelude.Dict
use claude_tts.Prelude.Dict.{Dict}
use claude_tts.Sessions.{SessionManager, is_session, session_ids}
use claude_tts.Sessions.Terminal.{Liveness, live, pending, dead, liveness}
use claude_tts.SessionStream.{SessionStream}
use claude_tts.Host.{Host}
use claude_tts.SpeechQueue
use claude_tts.SpeechQueue.{SpeechItem, SpeechQueue}

abbrev pub is_empty {ℓ} : {B : Type ℓ} → List B → Bool
is_empty [] = true
is_empty (x ∷ xs) = false

abbrev pub is_dead : Liveness → Bool
is_dead live = false
is_dead pending = false
is_dead dead = true

-- the loops that keep the least id: the first of the least wins
unfoldable pub least : List (String × Option ℕ) → Option (String × ℕ) → Option (String × ℕ)
least [] best = best
least ((s, none) ∷ cs) best = least cs best
least ((s, some n) ∷ cs) none = least cs (some (s, n))
least ((s, some n) ∷ cs) (some b) = least cs (if ltb n b.1 then some (s, n) else some b)

abbrev pub name_of : Option (String × ℕ) → Option String
name_of none = none
name_of (some best) = some best.0

module _ {A : Type 0} where
  abbrev pub is_stopped : Option (SessionStream A) → Bool
  is_stopped none = false
  is_stopped (some st) = st.stopped

  -- the stopped streams, each with its oldest cue
  abbrev pub held_cue : SessionStream A → Option ℕ
  held_cue st = if not st.stopped then none else SpeechQueue.oldest_control_cue_id st.queue

  unfoldable pub pop_held_control_cue : Host A → Host A × Option SpeechItem
  unfolding least
  pop_held_control_cue host = elim (least (map (λ e. (e.0, held_cue e.1)) host.streams) none) [
    | none ↦ (host, none)
    | some best ↦ elim (Dict.get best.0 host.streams) [
      | none ↦ (host, none)
      | some st ↦
          let (q, item) = SpeechQueue.pop_control_cue st.queue in
          (record host { streams = Dict.put best.0 (record st { queue = q }) host.streams }, item)
    ]
  ]

module _ {A : Type 0} (has_pending : A → Bool) (exists : String → Option Bool) where
  abbrev pub stream_quiescent : Option (SessionStream A) → Bool
  stream_quiescent none = true
  stream_quiescent (some st) =
      is_empty st.queue.items && is_empty st.prose_buffer && not (has_pending st.assembler)

  -- the id that a stream competes with, if the voice may go on to it
  abbrev pub waiting : Option (SessionStream A) → Bool → Option ℕ
  waiting none gone = none
  waiting (some st) gone =
      if st.stopped || is_empty st.queue.items
      then none
      else if gone
      then none
      else SpeechQueue.oldest_id st.queue

  unfoldable pub candidate : Dict (SessionStream A) → SessionManager → String → Option ℕ
  candidate streams sessions s =
      if is_session sessions.speaker s
      then none
      else waiting (Dict.get s streams) (is_dead (liveness exists sessions s))

  unfoldable pub select_keep_going : Dict (SessionStream A) → SessionManager → Option String
  unfolding least candidate
  select_keep_going streams sessions =
      name_of (least (map (λ s. (s, candidate streams sessions s)) (session_ids sessions)) none)

  abbrev pub queue_is_empty : Option (SessionStream A) → Bool
  queue_is_empty none = true
  queue_is_empty (some st) = is_empty st.queue.items

  unfoldable pub release_dead_speaker :
      Host A → Option String → Option (SessionStream A) → Host A × Bool
  release_dead_speaker host fg st =
      let kept : Option String = elim host.deliberate_dead_read [
        | none ↦ none
        | some s ↦ if not (is_session fg s) || stream_quiescent st then none else some s
      ] in
      let host' : Host A = record host { deliberate_dead_read = kept } in
      elim fg [
        | none ↦ (host', false)
        | some f ↦
            if is_session kept f
            then (
              if not host.deliberate_dead_whole && not (queue_is_empty st)
                  then record host { deliberate_dead_read = none }
                  else host',
              false,
            )
            else if not (is_dead (liveness exists host.sessions f))
            then (host', false)
            else (record host' { sessions = record host.sessions { speaker = none } }, true)
      ]

  unfoldable pub sanction_dead_read : Option String → Bool → Host A → Host A × Bool
  sanction_dead_read none whole host = (host, false)
  sanction_dead_read (some s) whole host =
      if not (is_dead (liveness exists host.sessions s))
      then (host, false)
      else (let grain =
            if is_session host.deliberate_dead_read s
            then whole || host.deliberate_dead_whole
            else whole in
          let takes =
            not (is_some host.sessions.speaker)
            && (grain || not (is_stopped (Dict.get s host.streams))) in
          (
            record host {
              deliberate_dead_read = some s;
              deliberate_dead_whole = grain;
              sessions = if takes then record host.sessions { speaker = some s } else host.sessions;
            },
            true,
          ))

-- `_keepalive_items_waiting`: anything is queued, on any stream
abbrev pub items_waiting : {A : Type 0} → Dict (SessionStream A) → Bool
items_waiting streams = any streams (λ e. not (is_empty e.1.queue.items))
