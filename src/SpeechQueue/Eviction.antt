-- ===== src/SpeechQueue/Eviction.antt =====
-- `SpeechQueue.enqueue` at its cap: which item makes room.
use claude_tts.Prelude.{
  ℕ, ◌≤◌, ◌≡◌, ◌⊎◌, refl, ap, ◌∙◌, Bool, true, false, not, none, some, List, [], ◌∷◌, ◌++◌, arith,
  filter, pop_first, All, All-map, Bool-cases, Option-cases, inl, inr, filter-append, length,
}
use claude_tts.SpeechQueue.{SpeechItem, SpeechQueue, enqueue, evictable, is_full}
use claude_tts.SpeechQueue.Shape.{pop_first-some, pop_first-none, filter-not-pop_first}

abbrev pub decisions : List SpeechItem → List SpeechItem
decisions = filter (λ it. it.is_decision)

not-not : (b : Bool) → not (not b) ≡ b
not-not true = refl
not-not false = refl

decisions-pop_first :
    (items : List SpeechItem) → decisions (pop_first evictable items).1 ≡ decisions items
unfolding filter
decisions-pop_first items = simp not-not at (filter-not-pop_first evictable items)

-- Whatever the cap, an `enqueue` keeps every queued decision, in order, and adds the new item's.
pub enqueue_keeps_decisions :
    (item : SpeechItem) (q : SpeechQueue)
    → decisions (enqueue item q).0.items ≡ decisions q.items ++ decisions (item ∷ [])
unfolding enqueue
enqueue_keeps_decisions item q = elim (Bool-cases (is_full q)) [
  | inl e ↦ simp (e, filter-append, decisions-pop_first)
  | inr e ↦ simp (e, filter-append)
]

is_decision_of_kept : (it : SpeechItem) → evictable it ≡ false → it.is_decision ≡ true
is_decision_of_kept it h = ground arith

is_full-cap :
    (q : SpeechQueue) → is_full q ≡ true → (c : ℕ) × (q.cap ≡ some c) × (c ≤ length q.items)
unfolding is_full
is_full-cap q h = elim (Option-cases q.cap) [
  | inl e ↦ absurd (ground arith)
  | inr (c, e) ↦ (c, e, ground arith)
]

enqueue-some :
    (item : SpeechItem) (q : SpeechQueue) {e : SpeechItem}
    → (enqueue item q).1 ≡ some e
    → (is_full q ≡ true)
      × ((pop_first evictable q.items).0 ≡ some e)
      × ((enqueue item q).0.items ≡ (pop_first evictable q.items).1 ++ item ∷ [])
unfolding enqueue
enqueue-some item q h = ground arith

-- An item is handed back only by a queue that holds as many items as its cap or more, and it is the
-- oldest non-decision: every item in front of it is a decision. The rest keeps its order, with the
-- new item at the end.
pub enqueue_evicts_oldest :
    (item : SpeechItem) (q : SpeechQueue) {e : SpeechItem}
    → (enqueue item q).1 ≡ some e
    → (c : ℕ) × (before : List SpeechItem) × (after : List SpeechItem) × (q.cap ≡ some c)
      × (c ≤ length q.items)
      × (q.items ≡ before ++ e ∷ after)
      × ((enqueue item q).0.items ≡ (before ++ after) ++ item ∷ [])
      × (e.is_decision ≡ false)
      × All (λ it. it.is_decision ≡ true) before
enqueue_evicts_oldest item q {e} h =
    let (full, found, new) = enqueue-some item q h in
    let (c, bounded, reached) = is_full-cap q full in
    let (before, after, cut, left, hit, kept) = pop_first-some evictable q.items found in
    (
      c,
      before,
      after,
      bounded,
      reached,
      cut,
      new ∙ ap (λ l. l ++ item ∷ []) left,
      ground arith,
      All-map _ _ is_decision_of_kept before kept,
    )

enqueue-none :
    (item : SpeechItem) (q : SpeechQueue)
    → (enqueue item q).1 ≡ none
    → is_full q ≡ true
    → ((pop_first evictable q.items).0 ≡ none)
      × ((enqueue item q).0.items ≡ (pop_first evictable q.items).1 ++ item ∷ [])
unfolding enqueue
enqueue-none item q h full = ground arith

-- Where nothing is handed back, no item left the queue: the new one stands behind all the others.
-- Either there was room, or every queued item is a decision and the cap is passed.
pub enqueue_appends :
    (item : SpeechItem) (q : SpeechQueue)
    → (enqueue item q).1 ≡ none
    → ((enqueue item q).0.items ≡ q.items ++ item ∷ [])
      × ((is_full q ≡ false) ⊎ All (λ it. it.is_decision ≡ true) q.items)
enqueue_appends item q h = elim (Bool-cases (is_full q)) [
  | inl full ↦
      let (missed, new) = enqueue-none item q h full in
      let (same, kept) = pop_first-none evictable q.items missed in
      (new ∙ ap (λ l. l ++ item ∷ []) same, inr (All-map _ _ is_decision_of_kept q.items kept))
  | inr room ↦ (unfold enqueue in simp room, inl room)
]
