-- ===== src/History/Navigation.antt =====
-- The reads of `SessionHistory` that navigation uses: which messages and which turns can be reached.
use claude_tts.Prelude.{
  ℕ, ◌<◌, String, ◌≡◌, ◌≢◌, refl, ap, sym, ◌∙◌, Bool, true, false, ◌&&◌, ◌||◌, Option, none, some,
  List, [], ◌∷◌, ◌++◌, map, arith, last?, All, Ordered, Bool-cases, Option-cases, ◌==◌, inl, inr,
  filter, any, append-nil, append_assoc,
}
use mathlib.Core.List.{head?, reverse, reverse-cons}
use mathlib.Core.Option
use claude_tts.Prelude.Int.{pos}
use claude_tts.History.{
  HistoryEntry, SessionHistory, deque_of, mem, ids_loop, message_ids_in_turn, turns_loop, turn_ids,
  is_nonempty, recent_loop, get_elem?, nth_recent, nth_last_message, last_message,
}
use claude_tts.History.Invariant.{IsSound, Precedes}

-- an entry that begins a message of the turn
abbrev pub is_head : ℕ → HistoryEntry → Bool
is_head t e = e.turn_id == t && e.seq == 0

-- a message that was seen has begun: what follows of it is no head
abbrev Begun : List ℕ → HistoryEntry → Type 0
Begun seen f = mem f.msg_id seen ≡ true → f.seq ≢ 0

Begun-cons :
    (seen : List ℕ) (e f : HistoryEntry) → Precedes e f → Begun seen f → Begun (e.msg_id ∷ seen) f
unfolding mem
Begun-cons seen e f p b h = ground (arith, p.keys, b)

Begun-cons_later :
    (seen : List ℕ) (e : HistoryEntry) (d : List HistoryEntry)
    → All (Precedes e) d
    → All (Begun seen) d
    → All (Begun (e.msg_id ∷ seen)) d
Begun-cons_later seen e [] p b = tt
Begun-cons_later seen e (f ∷ d) p b =
    (Begun-cons seen e f p.0 b.0, Begun-cons_later seen e d p.1 b.1)

Begun-nil : (d : List HistoryEntry) → All (Begun []) d
unfolding mem
Begun-nil [] = tt
Begun-nil (f ∷ d) = (λ h. cc, Begun-nil d)

ids_loop-eq :
    (t : ℕ) (seen ids : List ℕ) (d : List HistoryEntry)
    → Ordered Precedes d
    → All (Begun seen) d
    → ids_loop t (seen, ids) d ≡ ids ++ map (λ e. e.msg_id) (filter (is_head t) d)
unfolding ids_loop filter
ids_loop-eq t seen ids [] o b = sym (append-nil ids)
ids_loop-eq t seen ids (e ∷ d) o b = elim (Bool-cases (e.turn_id == t)) [
  | inr other ↦ simp other (ids_loop-eq t seen ids d o.1 b.1)
  | inl same ↦ elim (Bool-cases (mem e.msg_id seen)) [
    | inl old ↦
        let later : (e.seq == 0) ≡ false = ground (arith, b.0 old) in
        simp (same, old, later) (ids_loop-eq t seen ids d o.1 b.1)
    | inr new ↦
        let begun : All (Begun (e.msg_id ∷ seen)) d = Begun-cons_later seen e d o.0 b.1 in
        elim (Bool-cases (e.seq == 0)) [
          | inl head ↦
              simp (same, new, head)
                (ids_loop-eq t (e.msg_id ∷ seen) (ids ++ e.msg_id ∷ []) d o.1 begun
                  ∙ append_assoc ids (e.msg_id ∷ []) _)
          | inr inside ↦ simp (same, new, inside) (ids_loop-eq t (e.msg_id ∷ seen) ids d o.1 begun)
        ]
  ]
]

heads_of : ℕ → List HistoryEntry → List ℕ
heads_of t d = map (λ e. e.msg_id) (filter (is_head t) d)

heads_after :
    (t : ℕ) (e : HistoryEntry) (d : List HistoryEntry)
    → e.seq ≡ 0
    → All (Precedes e) d
    → All (λ i. e.msg_id < i) (heads_of t d)
unfolding heads_of filter
heads_after t e [] z p = tt
heads_after t e (f ∷ d) z p = elim (Bool-cases (is_head t f)) [
  | inl h ↦ simp h (ground (arith, p.0.keys), heads_after t e d z p.1)
  | inr h ↦ simp h (heads_after t e d z p.1)
]

heads-Ordered :
    (t : ℕ) (d : List HistoryEntry)
    → Ordered Precedes d
    → Ordered (λ (i j : ℕ). i < j) (heads_of t d)
unfolding heads_of filter
heads-Ordered t [] o = tt
heads-Ordered t (e ∷ d) o = elim (Bool-cases (is_head t e)) [
  | inl h ↦ simp h (heads_after t e d (ground arith) o.0, heads-Ordered t d o.1)
  | inr h ↦ simp h (heads-Ordered t d o.1)
]

-- On a sound history the messages of a turn that navigation reaches are those whose first entry is
-- still in the transcript, one id for each, in growing order: no fragment and no repetition.
pub message_ids_in_turn_lem :
    (h : SessionHistory) (s : String) (t : ℕ)
    → IsSound h
    → (message_ids_in_turn h s t ≡ map (λ e. e.msg_id) (filter (is_head t) (deque_of h s)))
      × Ordered (λ (i j : ℕ). i < j) (message_ids_in_turn h s t)
unfolding message_ids_in_turn
message_ids_in_turn_lem h s t i =
    let d = deque_of h s in
    let o = (i.at s).ordered in
    let e = ids_loop-eq t [] [] d o (Begun-nil d) in
    (e, rw e (unfold heads_of in heads-Ordered t d o))

mem-concat : (i j : ℕ) (ids : List ℕ) → mem i (ids ++ j ∷ []) ≡ (mem i ids || j == i)
unfolding mem
mem-concat i j [] = ground arith
mem-concat i j (k ∷ ids) = ground (arith, mem-concat i j ids)

mem-turns_loop :
    (t : ℕ) (acc : List ℕ) (d : List HistoryEntry)
    → mem t (turns_loop acc d) ≡ (mem t acc || any d (λ e. e.turn_id == t))
unfolding turns_loop any
mem-turns_loop t acc [] = ground arith
mem-turns_loop t acc (e ∷ d) = elim (Bool-cases (mem e.turn_id acc)) [
  | inl old ↦ simp old (ground (arith, mem-turns_loop t acc d, old))
  | inr new ↦
      simp new
        (ground (arith, mem-turns_loop t (acc ++ e.turn_id ∷ []) d, mem-concat t e.turn_id acc))
]

mem-filter : (p : ℕ → Bool) (i : ℕ) (ids : List ℕ) → mem i (filter p ids) ≡ (mem i ids && p i)
unfolding mem filter
mem-filter p i [] = refl
mem-filter p i (j ∷ ids) = ground (arith, mem-filter p i ids, ap p)

nonempty_has_turn :
    (t : ℕ) (d : List HistoryEntry)
    → is_nonempty (heads_of t d) ≡ true
    → any d (λ e. e.turn_id == t) ≡ true
unfolding heads_of filter any
nonempty_has_turn t [] h = cc
nonempty_has_turn t (e ∷ d) h = ground (arith, nonempty_has_turn t d)

-- On a sound history a turn can be navigated to exactly where it still has a message that can be
-- reached.
pub mem-turn_ids :
    (h : SessionHistory) (s : String) (t : ℕ)
    → IsSound h
    → mem t (turn_ids h s) ≡ is_nonempty (message_ids_in_turn h s t)
unfolding turn_ids
mem-turn_ids h s t i =
    let d = deque_of h s in
    let heads : message_ids_in_turn h s t ≡ heads_of t d =
      unfold heads_of in (message_ids_in_turn_lem h s t i).0 in
    ground (
      arith,
      mem-filter (λ u. is_nonempty (message_ids_in_turn h s u)) t (turns_loop [] d),
      mem-turns_loop t [] d,
      nonempty_has_turn t d,
      ap (is_nonempty {A = ℕ}) heads,
      Bool-cases (is_nonempty (heads_of t d)),
    )

recent_loop-head :
    (i : ℕ) (ids : List ℕ) (d : List HistoryEntry) → get_elem? (recent_loop (i ∷ ids) d) 0 ≡ some i
unfolding recent_loop get_elem?
recent_loop-head i ids [] = refl
recent_loop-head i ids (e ∷ d) = elim (Bool-cases (mem e.msg_id (i ∷ ids))) [
  | inl old ↦ simp old (recent_loop-head i ids d)
  | inr new ↦ simp new (recent_loop-head i (ids ++ e.msg_id ∷ []) d)
]

head?-concat :
    (l : List HistoryEntry) (e f : HistoryEntry) → head? l ≡ some f → head? (l ++ e ∷ []) ≡ some f
head?-concat [] e f h = cc
head?-concat (g ∷ l) e f h = h

-- the last element comes first in the reversed list
head?-reverse :
    (d : List HistoryEntry) {f : HistoryEntry} → last? d ≡ some f → head? (reverse d) ≡ some f
head?-reverse [] h = cc
head?-reverse (e ∷ []) h = h
head?-reverse (e ∷ g ∷ d) {f} h =
    rw reverse-cons (head?-concat (reverse (g ∷ d)) e f (head?-reverse (g ∷ d) h))

recent-first :
    (l : List HistoryEntry) (f : HistoryEntry)
    → head? l ≡ some f
    → get_elem? (recent_loop [] l) 0 ≡ some f.msg_id
unfolding recent_loop
recent-first [] f h = cc
recent-first (e ∷ l) f h =
    recent_loop-head e.msg_id [] l
    ∙ ap (λ (o : Option HistoryEntry). Option.map (λ (g : HistoryEntry). g.msg_id) o) h

nth_recent_zero :
    (d : List HistoryEntry) (f : HistoryEntry)
    → last? d ≡ some f
    → nth_recent d 0 ≡ filter (λ e. e.msg_id == f.msg_id) d
unfolding nth_recent
nth_recent_zero d f h = rw (recent-first (reverse d) f (head?-reverse d h), nth_recent)

last?-cons : (e : HistoryEntry) (d : List HistoryEntry) → last? (e ∷ d) ≢ none
last?-cons e [] h = cc
last?-cons e (f ∷ d) h = last?-cons f d h

nth_recent_empty : (d : List HistoryEntry) → last? d ≡ none → nth_recent d 0 ≡ []
unfolding nth_recent recent_loop get_elem?
nth_recent_empty [] h = refl
nth_recent_empty (e ∷ []) h = cc
nth_recent_empty (e ∷ f ∷ d) h = absurd (last?-cons e (f ∷ d) h)

last_message-some :
    (h : SessionHistory) (s : String) {f : HistoryEntry}
    → last? (deque_of h s) ≡ some f
    → last_message h s ≡ filter (λ e. e.msg_id == f.msg_id) (deque_of h s)
unfolding last_message
last_message-some h s e = ground arith

last_message-none :
    (h : SessionHistory) (s : String) → last? (deque_of h s) ≡ none → last_message h s ≡ []
unfolding last_message
last_message-none h s e = ground arith

-- The message that lies no step back is the last message.
pub nth_last_message-zero :
    (h : SessionHistory) (s : String) → nth_last_message h s (pos 0) ≡ last_message h s
unfolding nth_last_message
nth_last_message-zero h s = elim (Option-cases (last? (deque_of h s))) [
  | inl e ↦ nth_recent_empty (deque_of h s) e ∙ sym (last_message-none h s e)
  | inr (f, e) ↦ nth_recent_zero (deque_of h s) f e ∙ sym (last_message-some h s e)
]
