-- ===== src/History/State.antt =====
-- `SessionHistory.to_state` and `load_state` of src/sonari/history.py. The saved form is the JSON value
-- that crosses the restart: a field that `load_state` reads with a default may be missing.
pub mod RoundTrip
use claude_tts.Prelude.{ℕ, String, Bool, true, false, Option, none, some, List, [], ◌∷◌, map}
use mathlib.Core.List.{foldl}
use claude_tts.Prelude.Dict
use claude_tts.Prelude.Dict.{Dict}
use claude_tts.Prelude.Int.{ℤ, ◌-ℤ◌, min_ℤ}
use claude_tts.History.{HistoryEntry, SessionHistory, push}

pub record SavedEntry : Type 0 where
  pub text : String
  pub kind : String
  pub msg_id : ℕ
  pub seq : Option ℕ
  pub turn_id : Option ℕ
  pub heard : Option Bool
  pub wall_stamp : ℤ

pub record SavedSession : Type 0 where
  pub msg_id : Option ℕ
  pub group_seq : Option ℕ
  pub turn_id : Option ℕ
  pub entries : Option (List SavedEntry)

-- `d.get(field, default)` on a saved field
abbrev pub or_else {ℓ} : {A : Type ℓ} → Option A → A → A
or_else none a = a
or_else (some b) a = b

pub save_entry : ℤ → ℤ → HistoryEntry → SavedEntry
save_entry mono wall e = record {
  text = e.text;
  kind = e.kind;
  msg_id = e.msg_id;
  seq = some e.seq;
  turn_id = some e.turn_id;
  heard = some e.heard;
  wall_stamp = wall -ℤ (mono -ℤ e.stamp);
}

pub save_session : ℤ → ℤ → SessionHistory → String × List HistoryEntry → String × SavedSession
unfolding save_entry
save_session mono wall h (session, d) = (
  session,
  record {
    msg_id = some (Dict.get_or session 0 h.msg_id);
    group_seq = some (Dict.get_or session 0 h.group_seq);
    turn_id = some (Dict.get_or session 0 h.turn_id);
    entries = some (map (save_entry mono wall) d);
  },
)

-- `mono` and `wall` are the readings of the two clocks
unfoldable pub to_state : ℤ → ℤ → SessionHistory → Dict SavedSession
unfolding save_session
to_state mono wall h = map (save_session mono wall h) h.entries

pub load_entry : ℤ → ℤ → SavedEntry → HistoryEntry
load_entry mono wall ed = record {
  text = ed.text;
  kind = ed.kind;
  msg_id = ed.msg_id;
  seq = or_else ed.seq 0;
  turn_id = or_else ed.turn_id 0;
  heard = or_else ed.heard false;
  stamp = min_ℤ mono (mono -ℤ (wall -ℤ ed.wall_stamp));
}

-- the inner loop: each saved entry is appended to a new bounded deque
pub load_entries : ℕ → ℤ → ℤ → List HistoryEntry → List SavedEntry → List HistoryEntry
unfolding load_entry push
load_entries cap mono wall d [] = d
load_entries cap mono wall d (ed ∷ saved) =
    load_entries cap mono wall (push cap d (load_entry mono wall ed)) saved

-- one round of the outer loop
pub load_session : ℤ → ℤ → SessionHistory → String × SavedSession → SessionHistory
unfolding load_entries
load_session mono wall h (session, sd) = record h {
  entries = Dict.put session (load_entries h.cap mono wall [] (or_else sd.entries [])) h.entries;
  msg_id = Dict.put session (or_else sd.msg_id 0) h.msg_id;
  group_seq = Dict.put session (or_else sd.group_seq 0) h.group_seq;
  turn_id = Dict.put session (or_else sd.turn_id 0) h.turn_id;
}

unfoldable pub load_state : ℤ → ℤ → Dict SavedSession → SessionHistory → SessionHistory
unfolding load_session
load_state mono wall saved h = foldl (load_session mono wall) h saved
