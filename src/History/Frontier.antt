-- ===== src/History/Frontier.antt =====
-- The reads of `SessionHistory` that look at the frontier: what lies ahead of a key.
use claude_tts.Prelude.{
  String, ◌≡◌, ◌≢◌, ◌↔◌, refl, ap, sym, ◌∙◌, filter-All, Bool, true, false, some, List, [], ◌∷◌,
  ◌++◌, arith, last?, All, All-map, Ordered, Bool-cases, inl, inr, filter,
}
use mathlib.Core.Option
use claude_tts.History.{
  HistoryEntry, SessionHistory, Key, key, key_lt, deque_of, unheard_from_frontier, ahead_of,
  newest_key,
}
use claude_tts.History.Invariant.{IsSound, Precedes}

abbrev is_ahead : Key → HistoryEntry → Bool
is_ahead f e = key_lt f (key e)

ahead_later :
    (f : Key) (e g : HistoryEntry) → is_ahead f e ≡ true → Precedes e g → is_ahead f g ≡ true
ahead_later f e g h p = ground (arith, p.keys)

filter-id :
    (p : HistoryEntry → Bool) (d : List HistoryEntry) → All (λ e. p e ≡ true) d → filter p d ≡ d
unfolding filter
filter-id p [] h = refl
filter-id p (e ∷ d) h = ground (arith, h.0, filter-id p d h.1)

ahead_of_earlier :
    (f : Key) (e : HistoryEntry) (d : List HistoryEntry)
    → is_ahead f e ≡ true
    → All (Precedes e) d
    → All (λ g. is_ahead f g ≡ true) d
ahead_of_earlier f e d h =
    All-map (Precedes e) (λ g. is_ahead f g ≡ true) (λ g. ahead_later f e g h) d

-- the entries ahead of a key are the tail of an ordered list
ahead_cut :
    (f : Key) (d : List HistoryEntry)
    → Ordered Precedes d
    → (passed : List HistoryEntry) × (d ≡ passed ++ filter (is_ahead f) d)
      × All (λ e. is_ahead f e ≡ false) passed
unfolding filter
ahead_cut f [] o = ([], refl, tt)
ahead_cut f (e ∷ d) o = elim (Bool-cases (is_ahead f e)) [
  | inl h ↦ ([], sym (filter-id (is_ahead f) (e ∷ d) (h, ahead_of_earlier f e d h o.0)), tt)
  | inr h ↦
      let (passed, cut, misses) = ahead_cut f d o.1 in
      (e ∷ passed, simp h (ap (◌∷◌ e) cut), (h, misses))
]

ahead_of_read : (d : List HistoryEntry) (f : Key) → (ahead_of d (some f)).0 ≡ filter (is_ahead f) d
unfolding ahead_of filter
ahead_of_read [] f = refl
ahead_of_read (e ∷ d) f = refl

aged_out_iff :
    (d : List HistoryEntry) (f : Key)
    → Ordered Precedes d
    → ((ahead_of d (some f)).1 ≡ true) ↔ ((d ≢ []) × All (λ e. is_ahead f e ≡ true) d)
unfolding ahead_of
aged_out_iff [] f o = (λ h. cc, λ h. absurd (h.0 refl))
aged_out_iff (e ∷ d) f o = (λ h. (λ p. cc, (h, ahead_of_earlier f e d h o.0)), λ h. h.1.0)

-- On a sound history the entries ahead of a frontier are the newest part of the transcript: it is cut
-- in two, all keys at the frontier or behind it, then all keys ahead of it. The flag `aged_out` is
-- raised exactly where there are entries and every one of them lies ahead of the frontier.
pub unheard_from_frontier_lem :
    (h : SessionHistory) (s : String) (f : Key)
    → IsSound h
    → ((passed : List HistoryEntry) × (deque_of h s
          ≡ passed ++ (unheard_from_frontier h s (some f)).0)
        × All (λ e. key_lt f (key e) ≡ false) passed
        × All (λ e. key_lt f (key e) ≡ true) (unheard_from_frontier h s (some f)).0)
      × (((unheard_from_frontier h s (some f)).1 ≡ true)
          ↔ ((deque_of h s ≢ []) × All (λ e. key_lt f (key e) ≡ true) (deque_of h s)))
unfolding unheard_from_frontier
unheard_from_frontier_lem h s f i =
    let d = deque_of h s in
    let (passed, cut, misses) = ahead_cut f d ((i.at s).ordered) in
    let read = ahead_of_read d f in
    (
      (passed, cut ∙ ap (λ l. passed ++ l) (sym read), misses, rw read (filter-All (is_ahead f) d)),
      aged_out_iff d f ((i.at s).ordered),
    )

-- the newest key is behind nothing
none_ahead_of_last :
    (d : List HistoryEntry) {k : Key}
    → Ordered Precedes d
    → Option.map key (last? d) ≡ some k
    → All (λ e. is_ahead k e ≡ false) d
none_ahead_of_last [] o h = tt
none_ahead_of_last (e ∷ []) o h = (ground arith, tt)
none_ahead_of_last (e ∷ g ∷ d) {k} o h =
    let rest = none_ahead_of_last (g ∷ d) {k = k} o.1 h in
    (ground (arith, o.0.0.keys, rest.0), rest)

filter_none :
    (p : HistoryEntry → Bool) (d : List HistoryEntry) → All (λ e. p e ≡ false) d → filter p d ≡ []
unfolding filter
filter_none p [] h = refl
filter_none p (e ∷ d) h = ground (arith, h.0, filter_none p d h.1)

nothing_ahead :
    (d : List HistoryEntry) (k : Key)
    → All (λ e. is_ahead k e ≡ false) d
    → ahead_of d (some k) ≡ ([], false)
unfolding ahead_of
nothing_ahead [] k h = refl
nothing_ahead (e ∷ d) k h = ground (arith, h.0, filter_none (is_ahead k) (e ∷ d) h)

-- With the frontier at the newest key nothing is left ahead of it, and no gap is reported.
pub caught_up :
    (h : SessionHistory) (s : String) (k : Key)
    → IsSound h
    → newest_key h s ≡ some k
    → unheard_from_frontier h s (some k) ≡ ([], false)
unfolding newest_key unheard_from_frontier
caught_up h s k i e =
    nothing_ahead (deque_of h s) k (none_ahead_of_last (deque_of h s) ((i.at s).ordered) e)
