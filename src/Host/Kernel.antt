-- ===== src/Host/Kernel.antt =====
-- The operations of the host that the handlers share, in src/sonari/daemon/host.py. The id that `_enqueue`
-- returns is the `next_id` behind it. The wake event and the stamps for diagnosis are left out.
use claude_tts.Prelude.{
  ℕ, ◌+◌, String, Bool, true, false, not, ◌&&◌, Option, none, some, List, [], ◌∷◌, ◌++◌, map,
  length, to_list, max, min, leb, ◌==◌, if◌then◌else◌,
}
use claude_tts.Prelude.Dict
use claude_tts.Prelude.Dict.{Dict}
use claude_tts.Prelude.Int.{pos_part, neg_part}
use claude_tts.Sessions.{folder}
use claude_tts.Sessions.Text.{truthy}
use claude_tts.SpeechQueue
use claude_tts.SpeechQueue.{SpeechItem, SpeechQueue}
use claude_tts.SessionStream
use claude_tts.SessionStream.{SessionStream, advance_frontier}
use claude_tts.History.{HistoryEntry, SessionHistory}
use claude_tts.Cues.{is_transient}
use claude_tts.Host.{
  Host, Env, Ask, VoiceState, flowing, quiet_hold, stopped_all, Decision, cue_ask, forward_ask,
}

-- the tests of `_voice_state`
abbrev pub is_flowing : VoiceState → Bool
is_flowing flowing = true
is_flowing _ = false

abbrev pub is_quiet_hold : VoiceState → Bool
is_quiet_hold quiet_hold = true
is_quiet_hold _ = false

abbrev pub is_stopped_all : VoiceState → Bool
is_stopped_all stopped_all = true
is_stopped_all _ = false

-- `_pending_heard`: a later entry for an id hides an earlier one
unfoldable pub pending : ℕ → List (ℕ × HistoryEntry) → Option HistoryEntry
pending id [] = none
pending id ((i, e) ∷ ps) = let rest = pending id ps in if i == id then some e else rest

unfoldable pub pop_pending : ℕ → List (ℕ × HistoryEntry) → List (ℕ × HistoryEntry)
pop_pending id [] = []
pop_pending id ((i, e) ∷ ps) =
    let rest = pop_pending id ps in if i == id then rest else (i, e) ∷ rest

unfoldable pub drop_pending : List SpeechItem → List (ℕ × HistoryEntry) → List (ℕ × HistoryEntry)
unfolding pop_pending
drop_pending [] ps = ps
drop_pending (it ∷ items) ps = drop_pending items (pop_pending it.id ps)

abbrev pub put_pending : ℕ → Option HistoryEntry → List (ℕ × HistoryEntry) → List (ℕ × HistoryEntry)
put_pending id none ps = ps
put_pending id (some e) ps = (id, e) ∷ ps

-- the ask of an id, and a write to it
unfoldable pub ask_of : ℕ → List (ℕ × Decision) → Option Decision
ask_of id [] = none
ask_of id ((i, pd) ∷ asks) = let rest = ask_of id asks in if i == id then some pd else rest

unfoldable pub write_ask : ℕ → (Decision → Decision) → List (ℕ × Decision) → List (ℕ × Decision)
write_ask id f [] = []
write_ask id f ((i, pd) ∷ asks) = (i, if i == id then f pd else pd) ∷ write_ask id f asks

-- `_pending_decisions.get(session)`
unfoldable pub asked : {A : Type 0} → String → Host A → Option Decision
unfolding ask_of
asked session h = elim (Dict.get session h.pending_decisions) [
  | none ↦ none
  | some id ↦ ask_of id h.asks
]

-- `entry.heard = True`
abbrev pub is_same : HistoryEntry → HistoryEntry → Bool
is_same e f =
    e.msg_id == f.msg_id
    && e.seq == f.seq
    && pos_part e.stamp + neg_part f.stamp == pos_part f.stamp + neg_part e.stamp

abbrev pub hear : HistoryEntry → HistoryEntry → HistoryEntry
hear e f = if is_same e f then record f { heard = true } else f

unfoldable pub mark_heard : String → HistoryEntry → SessionHistory → SessionHistory
mark_heard session e h = elim (Dict.get session h.entries) [
  | none ↦ h
  | some d ↦ record h { entries = Dict.put session (map (hear e) d) h.entries }
]

-- the queue that `_enqueue` leaves, beside what it evicted
unfoldable pub place : Ask → SpeechItem → SpeechQueue → SpeechQueue × Option SpeechItem
place ask item q =
    let otherwise : SpeechQueue × Option SpeechItem =
      if ask.at_front
      then (SpeechQueue.enqueue_front item q, none)
      else SpeechQueue.enqueue item q in
    elim ask.after_id [
      | none ↦ otherwise
      | some anchor ↦
          let (q', found) = SpeechQueue.insert_after anchor (item ∷ []) q in
          if found then (q', none) else otherwise
    ]

-- the streams behind `on_stop_all`: each is stopped, and an armed "Resumed." is off
abbrev pub silenced : {A : Type 0} → Dict (SessionStream A) → Dict (SessionStream A)
silenced = map (λ e. (e.0, record e.1 { stopped = true; announce_resume = false }))

module _ {A : Type 0} (env : Env A) where
  -- the stream that `_stream` makes where there is none
  abbrev pub born : Host A → SessionStream A
  born h = record (SessionStream.init env.fresh (some h.backlog_cap)) {
    stopped = is_stopped_all h.voice_state;
  }

  unfoldable pub stream : String → Host A → SessionStream A
  stream session h = elim (Dict.get session h.streams) [ none ↦ born h | some st ↦ st ]

  -- `_stream(session)` and what is then written to it
  abbrev pub put_stream : String → SessionStream A → Host A → Host A
  put_stream session st h = record h { streams = Dict.put session st h.streams }

  unfoldable pub spearcon_path : Option String → Option String
  spearcon_path none = none
  spearcon_path (some f) = if truthy f then env.spearcon f else none

  -- the new item: a decision without a prelude takes the call-sign, where there is one
  unfoldable pub item_of : Ask → Host A → SpeechItem
  unfolding spearcon_path
  item_of ask h =
      let item : SpeechItem = record {
        id = h.next_id + 1;
        session = ask.session;
        kind = ask.kind;
        text = ask.text;
        is_decision = ask.is_decision;
        control_cue = ask.control_cue;
        names_session = ask.names_session;
        audio_path = ask.audio_path;
        forward = ask.forward;
        voice = ask.voice;
        render_id = ask.render_id;
        catchup_burn = ask.catchup_burn;
        prelude = ask.prelude;
      } in
      let named : SpeechItem = elim (spearcon_path (folder h.sessions ask.session)) [
        | none ↦ item
        | some sp ↦ record item { prelude = sp ∷ []; names_session = true }
      ] in
      elim ask.prelude [ [] ↦ if ask.is_decision then named else item | p ∷ ps ↦ item ]

  unfoldable pub enqueue : Ask → Host A → Host A
  unfolding item_of stream place
  enqueue ask h =
      let item = item_of ask h in
      let st = stream ask.session h in
      let placed = place ask item st.queue in
      record h {
        next_id = h.next_id + 1;
        streams = Dict.put ask.session (record st { queue = placed.0 }) h.streams;
        pending_heard =
            drop_pending (to_list placed.1) (put_pending (h.next_id + 1) ask.entry h.pending_heard);
      }

  unfoldable pub minqueue : ℕ
  minqueue = elim env.minqueue [ none ↦ 1 | some n ↦ max 1 (min 10 (pos_part n)) ]

  -- the loop of `_flush_prose_buffer`
  unfoldable pub flush_loop : String → List (String × HistoryEntry) → Host A → Host A
  unfolding enqueue
  flush_loop session [] h = h
  flush_loop session ((text, entry) ∷ buf) h =
      flush_loop session buf (enqueue (forward_ask session "prose" text false entry) h)

  unfoldable pub flush_prose_buffer : String → Host A → Host A
  unfolding flush_loop
  flush_prose_buffer session h =
      let st = stream session h in
      flush_loop session st.prose_buffer (put_stream session (record st { prose_buffer = [] }) h)

  unfoldable pub buffer_prose : String → String → HistoryEntry → Host A → Host A
  unfolding flush_prose_buffer minqueue
  buffer_prose session text entry h =
      let st = stream session h in
      let buf : List (String × HistoryEntry) = st.prose_buffer ++ (text, entry) ∷ [] in
      let h' = put_stream session (record st { prose_buffer = buf }) h in
      if leb minqueue (length buf) then flush_prose_buffer session h' else h'

  -- `cue(kind, word=, session=)`
  unfoldable pub cue : String → Option String → Option String → Host A → Host A
  unfolding is_transient enqueue
  cue kind word session h =
      let toned = record h { tones = kind ∷ h.tones } in
      if not (is_transient kind) then h else elim word [
        | none ↦ toned
        | some text ↦ elim session [ none ↦ toned | some s ↦ enqueue (cue_ask false s text) toned ]
      ]
