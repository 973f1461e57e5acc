-- ===== src/SpeechQueue/Copies.antt =====
-- How often an id stands in a queue, under every operation of `SpeechQueue`.
use claude_tts.Prelude.{
  ℕ, suc, ◌+◌, ◌≤◌, ◌≡◌, ap, Bool, not, List, [], ◌∷◌, ◌++◌, arith, filter, to_list, pop_first, inl,
  inr, Bool-cases, ◌==◌, if◌then◌else◌,
}
use claude_tts.SpeechQueue.{
  SpeechItem, SpeechQueue, enqueue, enqueue_front, pop_next, pop_control_cue, jump_to_decision,
  claim_head_as_control_cue, clear, remove_where, remove_by_id, insert_after, is_full, evictable,
}
use claude_tts.SpeechQueue.Removal.{remove_where_lem, jump_to_decision_lem, insert_after_lem}

unfoldable pub copies : ℕ → List SpeechItem → ℕ
copies n [] = 0
copies n (it ∷ items) = let rest = copies n items in if it.id == n then suc rest else rest

-- no id stands in the first queue more often than in the second
abbrev pub Fewer : SpeechQueue → SpeechQueue → Type 0
Fewer new old = (n : ℕ) → copies n new.items ≤ copies n old.items

pub copies-append :
    (n : ℕ) (xs ys : List SpeechItem) → copies n (xs ++ ys) ≡ copies n xs + copies n ys
unfolding copies
copies-append n [] ys = omega arith
copies-append n (x ∷ xs) ys = ground (arith, copies-append n xs ys)

copies-filter :
    (n : ℕ) (p : SpeechItem → Bool) (xs : List SpeechItem) → copies n (filter p xs) ≤ copies n xs
unfolding copies filter
copies-filter n p [] = omega arith
copies-filter n p (x ∷ xs) = ground (arith, copies-filter n p xs)

copies-pop_first :
    (n : ℕ) (p : SpeechItem → Bool) (xs : List SpeechItem)
    → copies n (pop_first p xs).1 + copies n (to_list (pop_first p xs).0) ≡ copies n xs
unfolding copies pop_first
copies-pop_first n p [] = omega arith
copies-pop_first n p (x ∷ xs) = ground (arith, copies-pop_first n p xs)

pub clear-Fewer : (q : SpeechQueue) → Fewer (clear q).0 q
unfolding clear copies
clear-Fewer q n = omega arith

pub remove_where-Fewer :
    (pred : SpeechItem → Bool) (q : SpeechQueue) → Fewer (remove_where pred q).0 q
remove_where-Fewer pred q n =
    rw ((remove_where_lem pred q).0) (copies-filter n (λ it. not (pred it)) q.items)

pub remove_by_id-Fewer : (id : ℕ) (q : SpeechQueue) → Fewer (remove_by_id id q).0 q
unfolding remove_by_id
remove_by_id-Fewer id q n = omega (arith, copies-pop_first n (λ item. item.id == id) q.items)

pub jump_to_decision-Fewer : (q : SpeechQueue) → Fewer (jump_to_decision q).0 q
jump_to_decision-Fewer q n = omega (
  arith,
  ap (copies n) ((jump_to_decision_lem q).0),
  copies-append n (jump_to_decision q).1 (jump_to_decision q).0.items,
)

pub claim_head-Fewer : (q : SpeechQueue) → Fewer (claim_head_as_control_cue q).0 q
unfolding claim_head_as_control_cue copies
claim_head-Fewer q n =
    elim q.items
      as (λ items.
        copies n (claim_head_as_control_cue (record q { items = items })).0.items
        ≤ copies n items) [ [] ↦ omega arith | item ∷ rest ↦ ground arith ]

-- What is popped is what leaves the queue.
pub pop_next-copies :
    (n : ℕ) (q : SpeechQueue)
    → copies n (pop_next q).0.items + copies n (to_list (pop_next q).1) ≡ copies n q.items
unfolding pop_next copies
pop_next-copies n q =
    elim q.items
      as (λ items.
        copies n (pop_next (record q { items = items })).0.items
          + copies n (to_list (pop_next (record q { items = items })).1)
        ≡ copies n items) [ [] ↦ omega arith | item ∷ rest ↦ ground arith ]

pub pop_control_cue-copies :
    (n : ℕ) (q : SpeechQueue)
    → copies n (pop_control_cue q).0.items + copies n (to_list (pop_control_cue q).1)
      ≡ copies n q.items
unfolding pop_control_cue
pop_control_cue-copies n q = copies-pop_first n (λ item. item.control_cue) q.items

pub enqueue_front-copies :
    (n : ℕ) (item : SpeechItem) (q : SpeechQueue)
    → copies n (enqueue_front item q).items ≡ copies n (item ∷ []) + copies n q.items
unfolding enqueue_front copies
enqueue_front-copies n item q = ground arith

pub enqueue-copies :
    (n : ℕ) (item : SpeechItem) (q : SpeechQueue)
    → copies n (enqueue item q).0.items ≤ copies n q.items + copies n (item ∷ [])
unfolding enqueue is_full
enqueue-copies n item q = elim (Bool-cases (is_full q)) [
  | inl e ↦ ground (
    arith,
    e,
    copies-append n (pop_first evictable q.items).1 (item ∷ []),
    copies-pop_first n evictable q.items,
  )
  | inr e ↦ ground (arith, e, copies-append n q.items (item ∷ []))
]

pub insert_after-copies :
    (n id : ℕ) (item : SpeechItem) (q : SpeechQueue)
    → copies n (insert_after id (item ∷ []) q).0.items ≤ copies n q.items + copies n (item ∷ [])
insert_after-copies n id item q = elim (insert_after_lem id (item ∷ []) q) [
  | inl (before, it, after, cut, done, found, same, others) ↦ omega (
    arith,
    ap (copies n) cut,
    ap (copies n) done,
    copies-append n before (it ∷ after),
    copies-append n (it ∷ []) after,
    copies-append n before (it ∷ []),
    copies-append n (before ++ it ∷ []) (item ∷ after),
    copies-append n (item ∷ []) after,
  )
  | inr (missed, others) ↦ omega (arith, ap (λ r. copies n r.0.items) missed)
]
