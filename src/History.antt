-- ===== src/History.antt =====
-- src/sonari/history.py: `HistoryEntry` and `SessionHistory`, the transcript of each session. A clock
-- reading is an argument of the operation that takes it, in whole ticks; a session's entries are held
-- by value.
pub mod Invariant
pub mod Frontier
pub mod Navigation
pub mod State
mod Tests
use claude_tts.Prelude.{
  ℕ, zero, suc, ◌+◌, ◌-◌, String, Bool, true, false, not, ◌&&◌, ◌||◌, Option, none, some, List, [],
  ◌∷◌, ◌++◌, map, length, drop, last?, ltb, leb, ◌==◌, if◌then◌else◌, filter, any,
}
use claude_tts.Prelude.Dict
use claude_tts.Prelude.Dict.{Dict}
use claude_tts.Prelude.Int.{ℤ, pos, negsuc, ◌-ℤ◌}
use mathlib.Core.List.{reverse}
use mathlib.Core.Option

pub record HistoryEntry : Type 0 where
  pub text : String
  pub kind : String
  pub msg_id : ℕ
  pub seq : ℕ
  pub turn_id : ℕ
  pub heard : Bool
  pub stamp : ℤ

pub record SessionHistory : Type 0 where
  pub cap : ℕ
  pub entries : Dict (List HistoryEntry)
  pub msg_id : Dict ℕ
  pub group_seq : Dict ℕ
  pub turn_id : Dict ℕ

abbrev pub init : ℕ → SessionHistory
init cap = record { cap = cap; entries = []; msg_id = []; group_seq = []; turn_id = [] }

-- `append` on a `deque(maxlen=cap)`: what is too much falls off at the front
pub push : ℕ → List HistoryEntry → HistoryEntry → List HistoryEntry
push cap d e = let longer = d ++ e ∷ [] in drop (length longer - cap) longer

-- the deque of a session; a missing one reads as empty
abbrev pub deque_of : SessionHistory → String → List HistoryEntry
deque_of h session = Dict.get_or session [] h.entries

unfoldable pub record_entry :
    ℤ → String → String → String → SessionHistory → SessionHistory × HistoryEntry
unfolding push
record_entry now session kind text h =
    let d = deque_of h session in
    let seq = Dict.get_or session 0 h.group_seq in
    let entry : HistoryEntry = record {
      text = text;
      kind = kind;
      msg_id = Dict.get_or session 0 h.msg_id;
      seq = seq;
      turn_id = Dict.get_or session 0 h.turn_id;
      heard = false;
      stamp = now;
    } in
    (
      record h {
        entries = Dict.put session (push h.cap d entry) h.entries;
        group_seq = Dict.put session (seq + 1) h.group_seq;
      },
      entry,
    )

unfoldable pub end_message : String → SessionHistory → SessionHistory
end_message session h = record h {
  msg_id = Dict.put session (Dict.get_or session 0 h.msg_id + 1) h.msg_id;
  group_seq = Dict.put session 0 h.group_seq;
}

unfoldable pub start_turn : String → SessionHistory → SessionHistory
start_turn session h = record h {
  turn_id = Dict.put session (Dict.get_or session 0 h.turn_id + 1) h.turn_id;
  msg_id = Dict.put session (Dict.get_or session 0 h.msg_id + 1) h.msg_id;
  group_seq = Dict.put session 0 h.group_seq;
}

unfoldable pub reset : String → SessionHistory → SessionHistory
reset session h = record h {
  entries = Dict.remove session h.entries;
  msg_id = Dict.remove session h.msg_id;
  group_seq = Dict.remove session h.group_seq;
  turn_id = Dict.remove session h.turn_id;
}

unfoldable pub entries_for_message : SessionHistory → String → ℕ → List HistoryEntry
entries_for_message h session id = filter (λ e. e.msg_id == id) (deque_of h session)

unfoldable pub last_message : SessionHistory → String → List HistoryEntry
last_message h session =
    let d = deque_of h session in
    elim (last? d) [ none ↦ [] | some e ↦ filter (λ f. f.msg_id == e.msg_id) d ]

-- `x in ids`, on a set or a list of numbers
unfoldable pub mem : ℕ → List ℕ → Bool
mem i [] = false
mem i (j ∷ ids) = let rest = mem i ids in if j == i then true else rest

-- one round of the loop of `message_ids_in_turn`, over the pair of `seen` and `ids`
ids_round : ℕ → List ℕ × List ℕ → HistoryEntry → List ℕ × List ℕ
unfolding mem
ids_round turn (seen, ids) e =
    if not (e.turn_id == turn)
    then (seen, ids)
    else if mem e.msg_id seen
    then (seen, ids)
    else (e.msg_id ∷ seen, if e.seq == 0 then ids ++ e.msg_id ∷ [] else ids)

pub ids_loop : ℕ → List ℕ × List ℕ → List HistoryEntry → List ℕ
unfolding ids_round
ids_loop turn acc [] = acc.1
ids_loop turn acc (e ∷ d) = ids_loop turn (ids_round turn acc e) d

unfoldable pub message_ids_in_turn : SessionHistory → String → ℕ → List ℕ
unfolding ids_loop
message_ids_in_turn h session turn = ids_loop turn ([], []) (deque_of h session)

unfoldable pub current_turn : SessionHistory → String → ℕ
current_turn h session = Dict.get_or session 0 h.turn_id

unfoldable pub message_ids : SessionHistory → String → List ℕ
message_ids h session = message_ids_in_turn h session (Dict.get_or session 0 h.turn_id)

-- the loop of `turn_ids`: distinct turns in order of their first entry
pub turns_loop : List ℕ → List HistoryEntry → List ℕ
unfolding mem
turns_loop ordered [] = ordered
turns_loop ordered (e ∷ d) =
    turns_loop (if mem e.turn_id ordered then ordered else ordered ++ e.turn_id ∷ []) d

-- `bool(ids)`
abbrev pub is_nonempty {ℓ} : {A : Type ℓ} → List A → Bool
is_nonempty [] = false
is_nonempty (x ∷ xs) = true

unfoldable pub turn_ids : SessionHistory → String → List ℕ
unfolding turns_loop
turn_ids h session =
    filter (λ t. is_nonempty (message_ids_in_turn h session t)) (turns_loop [] (deque_of h session))

-- the loop of `nth_last_message`, over the reversed deque
pub recent_loop : List ℕ → List HistoryEntry → List ℕ
unfolding mem
recent_loop ordered [] = ordered
recent_loop ordered (e ∷ d) =
    recent_loop (if mem e.msg_id ordered then ordered else ordered ++ e.msg_id ∷ []) d

-- `ids[n]`, if there is one
pub get_elem? : List ℕ → ℕ → Option ℕ
get_elem? [] n = none
get_elem? (i ∷ ids) zero = some i
get_elem? (i ∷ ids) (suc n) = get_elem? ids n

-- the rest of `nth_last_message`, behind its guard on `n`
pub nth_recent : List HistoryEntry → ℕ → List HistoryEntry
unfolding recent_loop get_elem?
nth_recent d n = elim (get_elem? (recent_loop [] (reverse d)) n) [
  | none ↦ []
  | some target ↦ filter (λ e. e.msg_id == target) d
]

unfoldable pub nth_last_message : SessionHistory → String → ℤ → List HistoryEntry
unfolding nth_recent
nth_last_message h session (pos n) = nth_recent (deque_of h session) n
nth_last_message h session (negsuc n) = []

unfoldable pub unheard : SessionHistory → String → List HistoryEntry
unheard h session =
    filter (λ e. e.turn_id == Dict.get_or session 0 h.turn_id && not e.heard) (deque_of h session)

unfoldable pub unheard_age : ℤ → SessionHistory → String → Option ℤ
unheard_age now h session = elim (unheard h session) [
  | [] ↦ none
  | e ∷ rest ↦ some (now -ℤ e.stamp)
]

-- the order of pairs in Python
abbrev pub Key : Type 0
Key = ℕ × ℕ

abbrev pub key_lt : Key → Key → Bool
key_lt a b = ltb a.0 b.0 || (a.0 == b.0 && ltb a.1 b.1)

abbrev pub key : HistoryEntry → Key
key e = (e.msg_id, e.seq)

-- the body of `unheard_from_frontier`; `not d` reads an empty deque as a missing one
unfoldable pub ahead_of : List HistoryEntry → Option Key → List HistoryEntry × Bool
ahead_of [] frontier = ([], false)
ahead_of (first ∷ rest) none = (first ∷ rest, false)
ahead_of (first ∷ rest) (some f) =
    (filter (λ e. key_lt f (key e)) (first ∷ rest), key_lt f (key first))

unfoldable pub unheard_from_frontier :
    SessionHistory → String → Option Key → List HistoryEntry × Bool
unfolding ahead_of
unheard_from_frontier h session frontier = ahead_of (deque_of h session) frontier

unfoldable pub newest_key : SessionHistory → String → Option Key
newest_key h session = Option.map key (last? (deque_of h session))

unfoldable pub session_ids : SessionHistory → List String
session_ids h = Dict.keys h.entries
