-- ===== src/Handlers/Navigation.antt =====
-- src/sonari/daemon/features/navigation.py.
use claude_tts.Prelude.{
  ℕ, ◌+◌, ◌-◌, String, Bool, true, false, not, ◌&&◌, ◌||◌, Option, none, some, List, [], ◌∷◌, drop,
  length, min, ltb, leb, ◌==◌, if◌then◌else◌, str_eq, ◌+++◌, decimal,
}
use claude_tts.Sessions.{is_session, workspace, focus}
use claude_tts.SessionStream.{SessionStream}
use claude_tts.History.{
  HistoryEntry, SessionHistory, mem, get_elem?, turn_ids, message_ids, message_ids_in_turn,
  current_turn, entries_for_message,
}
use claude_tts.Host.{Host, Env, flowing, plain, cue_ask}
use claude_tts.Host.Kernel.{stream, put_stream, enqueue}
use claude_tts.Handlers.{cancel, cleared, sanction, lead}

-- `ids.index(i)`, of an id that is there
pub position : ℕ → List ℕ → ℕ
position i [] = 0
position i (j ∷ ids) = let rest = position i ids in if j == i then 0 else 1 + rest

-- `ids.index(i) if i in ids else len(ids) - 1`
abbrev pub position_of : Option ℕ → List ℕ → ℕ
position_of none ids = length ids - 1
position_of (some i) ids = if mem i ids then position i ids else length ids - 1

-- where a move leads among `n` messages; another word than the four leads nowhere
abbrev pub moved : String → ℕ → ℕ → Option ℕ
moved to cur n =
    if str_eq to "next"
    then some (min (cur + 1) (n - 1))
    else if str_eq to "prev"
    then some (cur - 1)
    else if str_eq to "first"
    then some 0
    else if str_eq to "last"
    then some (n - 1)
    else none

-- an anchor on a turn that the transcript no longer has is given up
abbrev pub anchored : {A : Type 0} → SessionHistory → String → SessionStream A → SessionStream A
anchored h session st = elim st.nav_turn [
  | none ↦ st
  | some t ↦
      if mem t (turn_ids h session) then st else record st { nav_turn = none; nav_cursor = none }
]

abbrev pub ids_of : SessionHistory → String → Option ℕ → List ℕ
ids_of h session none = message_ids h session
ids_of h session (some t) = message_ids_in_turn h session t

abbrev pub is_empty : List ℕ → Bool
is_empty [] = true
is_empty (i ∷ ids) = false

abbrev pub response_cue : ℕ → ℕ → String
response_cue new n =
    let back = n - 1 - new in
    if new == n - 1
    then "Back to the latest."
    else if new == 0
    then "Oldest response."
    else decimal back +++ " response" +++ (if back == 1 then "" else "s") +++ " back."

module _ {A : Type 0} (env : Env A) where
  abbrev pub say_cue : String → String → Host A → Host A
  say_cue session text = enqueue env (cue_ask false session text)

  unfoldable pub replay_entries : String → Bool → List HistoryEntry → Host A → Host A
  unfolding enqueue
  replay_entries session stopped [] h = h
  replay_entries session stopped (e ∷ es) h = replay_entries session stopped es (
      enqueue env
        (record (plain session e.kind e.text false) { entry = some e; control_cue = stopped }) h)

  -- the loops over the messages and their entries
  unfoldable pub replay : String → Bool → List ℕ → Host A → Host A
  unfolding replay_entries
  replay session stopped [] h = h
  replay session stopped (mid ∷ mids) h =
      replay session stopped mids
        (replay_entries session stopped (entries_for_message h.history session mid) h)

  -- the move to the message at `new`
  unfoldable pub seek : String → SessionStream A → List ℕ → ℕ → Host A → Host A
  unfolding replay cleared
  seek session st ids new h =
      let n = length ids in
      let st' : SessionStream A = record st {
        nav_cursor = if leb (n - 1) new then none else get_elem? ids new;
      } in
      replay session st.stopped (drop new ids) (cleared session st' (cancel h))

  unfoldable pub nav : String → String → Host A → Host A
  unfolding stream seek enqueue
  nav session to h =
      let st = anchored h.history session (stream env session h) in
      let opened = put_stream env session st h in
      let ids = ids_of opened.history session st.nav_turn in
      if is_empty ids
      then say_cue session "Nothing to navigate yet." opened
      else elim (moved to (position_of st.nav_cursor ids) (length ids)) [
        | none ↦ opened
        | some new ↦ seek session st ids new opened
      ]

  -- the replay of the response of a turn, from its start
  unfoldable pub seek_response : String → SessionStream A → ℕ → Bool → String → Host A → Host A
  unfolding cleared enqueue replay
  seek_response session st turn follow_live cue h =
      let mids = message_ids_in_turn h.history session turn in
      let st' : SessionStream A = record st {
        nav_turn = if follow_live then none else some turn;
        nav_cursor = if follow_live then none else get_elem? mids 0;
      } in
      replay session st.stopped mids (say_cue session cue (cleared session st' (cancel h)))

  unfoldable pub nav_response : String → String → Host A → Host A
  unfolding stream seek_response enqueue
  nav_response session direction h =
      let st = stream env session h in
      let opened = put_stream env session st h in
      let turns = turn_ids h.history session in
      let n = length turns in
      let cur = position_of st.nav_turn turns in
      let new = if str_eq direction "prev_response" then cur - 1 else min (cur + 1) (n - 1) in
      if ltb n 2
      then say_cue session
          (if is_empty turns then "Nothing to navigate yet." else "No other response.") opened
      else elim (get_elem? turns new) [
        | none ↦ opened
        | some turn ↦
            seek_response session st turn (new == n - 1 && turn == current_turn h.history session)
              (response_cue new n) opened
      ]

  unfoldable pub on_nav : String → Host A → Host A
  unfolding nav nav_response lead
  on_nav to h = elim (workspace h.sessions) [
    | none ↦ h
    | some target ↦
        let crossed = not (is_session h.sessions.speaker target) in
        let sanctioned = (sanction env (some target) true h).0 in
        let turned : Host A =
          if crossed
          then record sanctioned {
            sessions = focus target none sanctioned.sessions;
            voice_state = flowing;
          }
          else sanctioned in
        let responses = str_eq to "prev_response" || str_eq to "next_response" in
        let read = if responses then nav_response target to turned else nav target to turned in
        if crossed then lead env target read else read
  ]
