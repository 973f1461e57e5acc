-- ===== src/History/State/RoundTrip.antt =====
-- A restart: what `load_state` makes of the output of `to_state`.
use claude_tts.Prelude.{
  ℕ, ◌-◌, String, ◌≡◌, refl, Option, none, some, List, [], ◌∷◌, map, length, drop,
}
use claude_tts.Prelude.Dict
use claude_tts.Prelude.Dict.{Dict, IsUnique, put-IsUnique, remove-IsUnique}
use claude_tts.Prelude.Int.{ℤ, ◌-ℤ◌, ◌+ℤ◌, ◌≤ℤ◌, int_laws, min_ℤ, min_ℤ_le, min_ℤ_of_le}
use claude_tts.History.{
  HistoryEntry, SessionHistory, deque_of, record_entry, end_message, start_turn, reset,
}
use mathlib.Core.Option
use claude_tts.History.Invariant.{
  msg_of, seq_of, turn_of, Op, note, close, open_turn, forget, step, run,
}
use claude_tts.History.State.{
  SavedEntry, SavedSession, or_else, save_entry, load_entry, load_entries,
}

-- A loaded entry never lies in the future.
pub load_entry-stamp-le :
    (mono wall : ℤ) (ed : SavedEntry) → (load_entry mono wall ed).stamp ≤ℤ mono
unfolding load_entry
load_entry-stamp-le mono wall ed = min_ℤ_le mono (mono -ℤ (wall -ℤ ed.wall_stamp))

-- An entry that is saved and loaded keeps all but its stamp, and its age grows by the time that
-- passed on the wall clock between the two, where that clock did not go back.
pub reload_entry :
    (mono wall mono' wall' : ℤ) (e : HistoryEntry)
    → e.stamp ≤ℤ mono
    → wall ≤ℤ wall'
    → (load_entry mono' wall' (save_entry mono wall e)
        ≡ record e { stamp = (load_entry mono' wall' (save_entry mono wall e)).stamp })
      × (mono' -ℤ (load_entry mono' wall' (save_entry mono wall e)).stamp
          ≡ (mono -ℤ e.stamp) +ℤ (wall' -ℤ wall))
unfolding load_entry save_entry
reload_entry mono wall mono' wall' e past onward =
    let age = wall' -ℤ (wall -ℤ (mono -ℤ e.stamp)) in
    let fits : (mono' -ℤ age) ≤ℤ mono' = omega int_laws in
    (refl, rw (min_ℤ_of_le mono' (mono' -ℤ age) fits) (omega int_laws))

-- the newest elements that a deque of the given bound holds
abbrev pub keep {ℓ} : {A : Type ℓ} → ℕ → List A → List A
keep cap xs = drop (length xs - cap) xs

-- a session of a history: its transcript, and what its next entry gets
abbrev pub View : Type 0
View = List HistoryEntry × ℕ × ℕ × ℕ

abbrev pub view : SessionHistory → String → View
view h s = (deque_of h s, msg_of h s, seq_of h s, turn_of h s)

-- the session that a saved one is loaded as
abbrev restored : ℕ → ℤ → ℤ → SavedSession → View
restored n mono wall sd = (
  load_entries n mono wall [] (or_else sd.entries []),
  or_else sd.msg_id 0,
  or_else sd.group_seq 0,
  or_else sd.turn_id 0,
)

abbrev restored_or : ℕ → ℤ → ℤ → Option SavedSession → View → View
restored_or n mono wall none v = v
restored_or n mono wall (some sd) v = restored n mono wall sd

step-IsUnique : (h : SessionHistory) (op : Op) → IsUnique h.entries → IsUnique (step h op).entries
unfolding step record_entry end_message start_turn reset
step-IsUnique h (note now session kind text) u = put-IsUnique session _ h.entries u
step-IsUnique h (close session) u = u
step-IsUnique h (open_turn session) u = u
step-IsUnique h (forget session) u = remove-IsUnique session h.entries u

pub run-IsUnique :
    (h : SessionHistory) (ops : List Op) → IsUnique h.entries → IsUnique (run h ops).entries
unfolding run
run-IsUnique h [] u = u
run-IsUnique h (op ∷ ops) u = run-IsUnique (step h op) ops (step-IsUnique h op u)

-- The session as the restart should bring it back at the bound `n`.
abbrev pub reloaded : ℕ → (HistoryEntry → HistoryEntry) → Option (List HistoryEntry) → View → View
reloaded n f none v = ([], 0, 0, 0)
reloaded n f (some d) v = (keep n (map f d), v.1, v.2, v.3)

-- An entry as it should come back: all of it, and its age grown by the time between the two wall clocks, but
-- no stamp in the future.
abbrev pub aged : ℤ → ℤ → ℤ → ℤ → HistoryEntry → HistoryEntry
aged mono wall mono' wall' e = record e {
  stamp = min_ℤ mono' (mono' -ℤ (wall' -ℤ (wall -ℤ (mono -ℤ e.stamp))));
}
