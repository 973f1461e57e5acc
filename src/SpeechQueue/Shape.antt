-- ===== src/SpeechQueue/Shape.antt =====
-- What the loops of `SpeechQueue` do to the list of items.
use claude_tts.Prelude.{
  ℕ, ◌+◌, ◌≡◌, refl, ap, ◌∙◌, Bool, true, false, not, none, some, List, [], ◌∷◌, ◌++◌, arith, ◌==◌,
  filter, pop_first, find, All, to_list, Bool-cases, inl, inr, ◌⊎◌, append-nil, append_assoc,
  length, length-append, ◌≢◌,
}
use mathlib.Core.Path.{subst}
use claude_tts.SpeechQueue.{
  SpeechItem, split_decision, partition_loop, insert, insert_loop, index_of,
}

module _ {ℓ} {A : Type ℓ} (p : A → Bool) where
  -- Where an element was found, the list is cut at the first one that passes.
  pub pop_first-some :
      (xs : List A) {x : A}
      → (pop_first p xs).0 ≡ some x
      → (before : List A) × (after : List A) × (xs ≡ before ++ x ∷ after)
        × ((pop_first p xs).1 ≡ before ++ after)
        × (p x ≡ true)
        × All (λ y. p y ≡ false) before
  unfolding pop_first
  pop_first-some [] h = ground arith
  pop_first-some (y ∷ xs) {x} h = elim (Bool-cases (p y)) [
    | inl e ↦ ([], xs, ground arith, rw e, ground arith, tt)
    | inr e ↦
        let found : (pop_first p xs).0 ≡ some x = rw e at h in
        let (before, after, cut, left, hit, misses) = pop_first-some xs found in
        (y ∷ before, after, ap (◌∷◌ y) cut, rw e (ap (◌∷◌ y) left), hit, (e, misses))
  ]

  pub pop_first-none :
      (xs : List A)
      → (pop_first p xs).0 ≡ none
      → ((pop_first p xs).1 ≡ xs) × All (λ y. p y ≡ false) xs
  unfolding pop_first
  pop_first-none [] h = (refl, tt)
  pop_first-none (y ∷ xs) h = elim (Bool-cases (p y)) [
    | inl e ↦ absurd (ground arith)
    | inr e ↦
        let (same, misses) = pop_first-none xs (rw e at h) in (rw e (ap (◌∷◌ y) same), (e, misses))
  ]

  -- The element that is popped is the one that a search without removal finds.
  pub pop_first-find : (xs : List A) → (pop_first p xs).0 ≡ find p xs
  unfolding pop_first find
  pop_first-find [] = refl
  pop_first-find (y ∷ xs) = ground (arith, pop_first-find xs)

  -- Removing the first element that passes leaves the others that pass, in order.
  pub filter-pop_first :
      (xs : List A) → filter p xs ≡ to_list (pop_first p xs).0 ++ filter p (pop_first p xs).1
  unfolding pop_first filter
  filter-pop_first [] = refl
  filter-pop_first (y ∷ xs) = ground (arith, filter-pop_first xs)

  pub filter-not-pop_first :
      (xs : List A) → filter (λ x. not (p x)) (pop_first p xs).1 ≡ filter (λ x. not (p x)) xs
  unfolding pop_first filter
  filter-not-pop_first [] = refl
  filter-not-pop_first (y ∷ xs) = ground (arith, filter-not-pop_first xs)

  pub length-pop_first :
      (xs : List A) → length (pop_first p xs).1 + length (to_list (pop_first p xs).0) ≡ length xs
  unfolding pop_first
  length-pop_first [] = omega arith
  length-pop_first (y ∷ xs) = ground (arith, length-pop_first xs)

-- The loop of `remove_where` is a stable partition.
pub partition_loop-eq :
    (pred : SpeechItem → Bool) (kept removed items : List SpeechItem)
    → partition_loop pred kept removed items
      ≡ (kept ++ filter (λ it. not (pred it)) items, removed ++ filter pred items)
unfolding partition_loop filter
partition_loop-eq pred kept removed [] = simp append-nil
partition_loop-eq pred kept removed (it ∷ items) = elim (Bool-cases (pred it)) [
  | inl e ↦ simp (e, partition_loop-eq pred kept (removed ++ it ∷ []) items, append_assoc)
  | inr e ↦ simp (e, partition_loop-eq pred (kept ++ it ∷ []) removed items, append_assoc)
]

insert_at_length :
    (before : List SpeechItem) (x : SpeechItem) (after : List SpeechItem)
    → insert (length before) x (before ++ after) ≡ before ++ x ∷ after
unfolding insert
insert_at_length [] x [] = refl
insert_at_length [] x (y ∷ after) = refl
insert_at_length (b ∷ before) x after = ap (◌∷◌ b) (insert_at_length before x after)

-- Inserting one by one at growing positions is a splice.
pub insert_loop-splice :
    (before news after : List SpeechItem)
    → insert_loop (length before) news (before ++ after) ≡ before ++ (news ++ after)
unfolding insert_loop
insert_loop-splice before [] after = refl
insert_loop-splice before (new ∷ news) after =
    let longer : length before + 1 ≡ length (before ++ new ∷ []) =
      omega (arith, length-append before (new ∷ [])) in
    rw (insert_at_length, longer)
      (subst
        (λ l. insert_loop (length (before ++ new ∷ [])) news l ≡ before ++ (new ∷ (news ++ after)))
        (append_assoc before (new ∷ []) after)
        (insert_loop-splice (before ++ new ∷ []) news after
          ∙ append_assoc before (new ∷ []) (news ++ after)))

-- The position found is behind items of other ids.
pub index_of-some :
    (i item_id : ℕ) (items : List SpeechItem) {k : ℕ}
    → index_of i item_id items ≡ some k
    → (before : List SpeechItem) × (it : SpeechItem) × (after : List SpeechItem) × (items
        ≡ before ++ it ∷ after)
      × (k ≡ i + length before)
      × (it.id ≡ item_id)
      × All (λ y. y.id ≢ item_id) before
unfolding index_of
index_of-some i item_id [] h = ground arith
index_of-some i item_id (it ∷ items) {k} h = elim (Bool-cases (it.id == item_id)) [
  | inl e ↦ ([], it, items, refl, ground arith, ground arith, tt)
  | inr e ↦
      let (before, hit, after, cut, place, same, others) =
        index_of-some (i + 1) item_id items (rw e at h) in
      (it ∷ before, hit, after, ap (◌∷◌ it) cut, omega arith, same, (ground arith, others))
]

pub index_of-none :
    (i item_id : ℕ) (items : List SpeechItem)
    → index_of i item_id items ≡ none
    → All (λ y. y.id ≢ item_id) items
unfolding index_of
index_of-none i item_id [] h = tt
index_of-none i item_id (it ∷ items) h = elim (Bool-cases (it.id == item_id)) [
  | inl e ↦ absurd (ground arith)
  | inr e ↦ (ground arith, index_of-none (i + 1) item_id items (rw e at h))
]

-- `jump_to_decision` cuts the list in front of the first decision.
pub split_decision_cut :
    (items : List SpeechItem) → items ≡ (split_decision items).0 ++ (split_decision items).1
unfolding split_decision
split_decision_cut [] = refl
split_decision_cut (it ∷ items) = ground (arith, split_decision_cut items)

pub split_decision_dropped :
    (items : List SpeechItem) → All (λ it. it.is_decision ≡ false) (split_decision items).0
unfolding split_decision
split_decision_dropped [] = tt
split_decision_dropped (it ∷ items) = elim (Bool-cases it.is_decision) [
  | inl e ↦ simp e tt
  | inr e ↦ simp e (refl, split_decision_dropped items)
]

-- What is left after the cut is empty or begins with a decision.
pub split_decision_head :
    (items : List SpeechItem)
    → ((split_decision items).1 ≡ [])
      ⊎ ((it : SpeechItem) × (rest : List SpeechItem) × ((split_decision items).1 ≡ it ∷ rest)
          × (it.is_decision ≡ true))
unfolding split_decision
split_decision_head [] = inl refl
split_decision_head (it ∷ items) = elim (Bool-cases it.is_decision) [
  | inl e ↦ simp e (inr (it, items, refl, e))
  | inr e ↦ simp e (split_decision_head items)
]
