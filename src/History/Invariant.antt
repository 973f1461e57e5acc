-- ===== src/History/Invariant.antt =====
-- `SessionHistory` between two operations: the keys of a deque and the counters of its session.
use claude_tts.Prelude.{
  ℕ, ◌+◌, ◌-◌, ◌≤◌, ◌<◌, String, ◌≡◌, ◌⊎◌, refl, ap, sym, ◌∙◌, str_eq_refl, false, List, [], ◌∷◌,
  ◌++◌, arith, length, length-drop, All, All-map, All-append, All-drop, Ordered, Ordered-concat,
  Ordered-drop, str-cases, str_eq, inl, inr,
}
use claude_tts.Prelude.Dict
use claude_tts.Prelude.Dict.{Dict, get_or-put, get_or-remove}
use mathlib.Core.Path.{subst}
use claude_tts.Prelude.Int.{ℤ}
use claude_tts.History.{
  HistoryEntry, SessionHistory, Key, key, deque_of, init, push, record_entry, end_message,
  start_turn, reset,
}

abbrev pub Before : Key → Key → Type 0
Before a b = (a.0 < b.0) ⊎ ((a.0 ≡ b.0) × (a.1 < b.1))

-- an entry stands before another, in the same turn or an earlier one; entries of one message are in
-- one turn
pub record Precedes (e f : HistoryEntry) : Type 0 where
  pub keys : Before (key e) (key f)
  pub turns : e.turn_id ≤ f.turn_id
  pub group : e.msg_id ≡ f.msg_id → e.turn_id ≡ f.turn_id

-- an entry stands before whatever is recorded next at message `m`, place `q`, turn `t`
pub record Passed (m q t : ℕ) (e : HistoryEntry) : Type 0 where
  pub keys : Before (key e) (m, q)
  pub turns : e.turn_id ≤ t
  pub group : e.msg_id ≡ m → e.turn_id ≡ t

pub record Sound (cap : ℕ) (d : List HistoryEntry) (m q t : ℕ) : Type 0 where
  pub fits : length d ≤ cap
  pub ordered : Ordered Precedes d
  pub passed : All (Passed m q t) d

-- what the next entry of a session gets
abbrev pub msg_of : SessionHistory → String → ℕ
msg_of h s = Dict.get_or s 0 h.msg_id

abbrev pub seq_of : SessionHistory → String → ℕ
seq_of h s = Dict.get_or s 0 h.group_seq

abbrev pub turn_of : SessionHistory → String → ℕ
turn_of h s = Dict.get_or s 0 h.turn_id

pub record IsSound (h : SessionHistory) : Type 0 where
  pub at : (s : String) → Sound h.cap (deque_of h s) (msg_of h s) (seq_of h s) (turn_of h s)

-- One entry more.
push-Sound :
    (cap : ℕ) (d : List HistoryEntry) (m q t : ℕ) (e : HistoryEntry)
    → key e ≡ (m, q)
    → e.turn_id ≡ t
    → Sound cap d m q t
    → Sound cap (push cap d e) m (q + 1) t
unfolding push
push-Sound cap d m q t e at turn s =
    let place : e.msg_id ≡ m = ap (λ k. k.0) at in
    let seq : e.seq ≡ q = ap (λ k. k.1) at in
    let n = length (d ++ e ∷ []) - cap in
    record {
      fits = omega (arith, length-drop n (d ++ e ∷ []));
      ordered = Ordered-drop Precedes n (d ++ e ∷ []) (
          Ordered-concat Precedes d e s.ordered (
            All-map (Passed m q t) (λ f. Precedes f e)
              (λ f p. record {
                keys = ground (arith, p.keys);
                turns = omega (arith, p.turns);
                group = λ same. p.group (same ∙ place) ∙ sym turn;
              })
              d s.passed));
      passed = All-drop (Passed m (q + 1) t) n (d ++ e ∷ []) (
          All-append _ d (e ∷ [])
            (All-map (Passed m q t) (Passed m (q + 1) t)
              (λ f p. record { keys = ground (arith, p.keys); turns = p.turns; group = p.group }) d
              s.passed)
            (
              record { keys = inr (place, omega arith); turns = omega arith; group = λ _. turn },
              tt,
            ));
    }

-- The open group is closed, and the turn may pass.
close-Sound :
    {cap : ℕ} {d : List HistoryEntry} {m q t : ℕ} (t' : ℕ)
    → t ≤ t'
    → Sound cap d m q t
    → Sound cap d (m + 1) 0 t'
close-Sound {d = d} {m = m} {q = q} {t = t} t' le s = record {
  fits = s.fits;
  ordered = s.ordered;
  passed =
      All-map (Passed m q t) (Passed (m + 1) 0 t')
        (λ f p. record {
          keys = ground (arith, p.keys);
          turns = omega (arith, p.turns);
          group = λ same. absurd (ground (arith, p.keys));
        })
        d s.passed;
}

empty-Sound : (cap : ℕ) → Sound cap [] 0 0 0
empty-Sound cap = record { fits = omega arith; ordered = tt; passed = tt }

abbrev SoundAt : SessionHistory → String → Type 0
SoundAt h s = Sound h.cap (deque_of h s) (msg_of h s) (seq_of h s) (turn_of h s)

-- It is enough to look at the session that an operation writes, and at any other one.
by_session :
    (h : SessionHistory) (session : String)
    → SoundAt h session
    → ((s : String) → str_eq session s ≡ false → SoundAt h s)
    → IsSound h
by_session h session here others = record {
  at = λ s. elim (str-cases session s) [ inl e ↦ subst (SoundAt h) e here | inr ne ↦ others s ne ];
}

-- Every operation that writes keeps the invariant, for all sessions.
pub record_entry-IsSound :
    (now : ℤ) (session kind text : String) (h : SessionHistory)
    → IsSound h
    → IsSound (record_entry now session kind text h).0
unfolding record_entry
record_entry-IsSound now session kind text h i =
    by_session (record_entry now session kind text h).0 session
      (simp (get_or-put, str_eq_refl)
        (push-Sound h.cap (deque_of h session) (msg_of h session) (seq_of h session)
          (turn_of h session) _ refl refl (i.at session)))
      (λ s ne. simp (get_or-put, ne) (i.at s))

pub end_message-IsSound :
    (session : String) (h : SessionHistory) → IsSound h → IsSound (end_message session h)
unfolding end_message
end_message-IsSound session h i =
    by_session (end_message session h) session
      (simp (get_or-put, str_eq_refl)
        (close-Sound (turn_of h session) (omega arith) (i.at session)))
      (λ s ne. simp (get_or-put, ne) (i.at s))

pub start_turn-IsSound :
    (session : String) (h : SessionHistory) → IsSound h → IsSound (start_turn session h)
unfolding start_turn
start_turn-IsSound session h i =
    by_session (start_turn session h) session
      (simp (get_or-put, str_eq_refl)
        (close-Sound (turn_of h session + 1) (omega arith) (i.at session)))
      (λ s ne. simp (get_or-put, ne) (i.at s))

pub reset-IsSound : (session : String) (h : SessionHistory) → IsSound h → IsSound (reset session h)
unfolding reset
reset-IsSound session h i =
    by_session (reset session h) session (simp (get_or-remove, str_eq_refl) (empty-Sound h.cap))
      (λ s ne. simp (get_or-remove, ne) (i.at s))

pub data Op : Type 0 where
  note : ℤ → String → String → String → Op
  close : String → Op
  open_turn : String → Op
  forget : String → Op

unfoldable pub step : SessionHistory → Op → SessionHistory
step h (note now session kind text) = (record_entry now session kind text h).0
step h (close session) = end_message session h
step h (open_turn session) = start_turn session h
step h (forget session) = reset session h

unfoldable pub run : SessionHistory → List Op → SessionHistory
unfolding step
run h [] = h
run h (op ∷ ops) = run (step h op) ops

step-IsSound : (h : SessionHistory) (op : Op) → IsSound h → IsSound (step h op)
unfolding step
step-IsSound h (note now session kind text) i = record_entry-IsSound now session kind text h i
step-IsSound h (close session) i = end_message-IsSound session h i
step-IsSound h (open_turn session) i = start_turn-IsSound session h i
step-IsSound h (forget session) i = reset-IsSound session h i

run_from-IsSound : (h : SessionHistory) (ops : List Op) → IsSound h → IsSound (run h ops)
unfolding run
run_from-IsSound h [] i = i
run_from-IsSound h (op ∷ ops) i = run_from-IsSound (step h op) ops (step-IsSound h op i)

init-IsSound : (n : ℕ) → IsSound (init n)
unfolding Dict.get_or
init-IsSound n = record { at = λ s. empty-Sound n }

-- Whatever is recorded, closed, opened and forgotten, every session's transcript stays within the
-- cap, its keys grow, its turns never go back, and every entry stands before the next one's place.
pub run-IsSound : (n : ℕ) (ops : List Op) → IsSound (run (init n) ops)
run-IsSound n ops = run_from-IsSound (init n) ops (init-IsSound n)
