-- ===== src/SpeechQueue/Runs.antt =====
-- Runs of the operations of `SpeechQueue`, and how long a queue grows in them.
use mathlib.Core.List.{Sublistᴰ}
use mathlib.Core.Path.{subst}
use claude_tts.Prelude.{
  ℕ, zero, suc, ◌+◌, ◌≤◌, ◌<◌, max, min, ◌≡◌, ◌⊎◌, refl, ap, ◌∙◌, Bool, true, false, not, Option,
  some, by_option, List, [], ◌∷◌, ◌++◌, map, arith, filter, pop_first, inl, inr, Bool-cases, length,
  length-append, length-filter-le, filter-append, Sublistᴰ_refl, Sublistᴰ_nil, length-sublist,
  length-filter-sublist, map-sublist, filter-Sublistᴰ, pop_first-Sublistᴰ,
}
use claude_tts.SpeechQueue
use claude_tts.SpeechQueue.{
  SpeechItem, SpeechQueue, split_decision, is_full, evictable, insert, insert_loop, index_of,
}
use claude_tts.SpeechQueue.Eviction.{decisions}
use claude_tts.SpeechQueue.Removal.{remove_where_lem}

pub data Op : Type 0 where
  enqueue enqueue_front : SpeechItem → Op
  insert_after : ℕ → List SpeechItem → Op
  pop_next pop_control_cue claim_head jump_to_decision clear : Op
  remove_by_id : ℕ → Op
  remove_where : (SpeechItem → Bool) → Op

unfoldable pub step : SpeechQueue → Op → SpeechQueue
step q (enqueue item) = (SpeechQueue.enqueue item q).0
step q (enqueue_front item) = SpeechQueue.enqueue_front item q
step q (insert_after i items) = (SpeechQueue.insert_after i items q).0
step q pop_next = (SpeechQueue.pop_next q).0
step q pop_control_cue = (SpeechQueue.pop_control_cue q).0
step q claim_head = (SpeechQueue.claim_head_as_control_cue q).0
step q jump_to_decision = (SpeechQueue.jump_to_decision q).0
step q clear = (SpeechQueue.clear q).0
step q (remove_by_id i) = (SpeechQueue.remove_by_id i q).0
step q (remove_where pred) = (SpeechQueue.remove_where pred q).0

unfoldable pub run : SpeechQueue → List Op → SpeechQueue
run q [] = q
run q (op ∷ ops) = run (step q op) ops

-- what the operations leave alone of an item, a claimed head included
abbrev tag : SpeechItem → ℕ × Bool
tag it = (it.id, it.is_decision)

abbrev tags : SpeechQueue → List (ℕ × Bool)
tags q = map tag q.items

split_decision-Sublistᴰ : (items : List SpeechItem) → Sublistᴰ (split_decision items).1 items
unfolding split_decision
split_decision-Sublistᴰ [] = Sublistᴰ.slnil
split_decision-Sublistᴰ (it ∷ items) = elim (Bool-cases it.is_decision) [
  | inl e ↦ simp e (Sublistᴰ_refl (it ∷ items))
  | inr e ↦ simp e (Sublistᴰ.cons (split_decision-Sublistᴰ items))
]

-- the operations that only take away
abbrev takes_away : Op → Bool
takes_away (enqueue item) = false
takes_away (enqueue_front item) = false
takes_away (insert_after i items) = false
takes_away _ = true

pop_next_thins :
    (items : List SpeechItem) (cap : Option ℕ)
    → Sublistᴰ (tags (SpeechQueue.pop_next (record { items = items; cap = cap })).0) (map tag items)
unfolding SpeechQueue.pop_next
pop_next_thins [] cap = Sublistᴰ.slnil
pop_next_thins (it ∷ items) cap = Sublistᴰ.cons (Sublistᴰ_refl (map tag items))

claim_head_thins :
    (items : List SpeechItem) (cap : Option ℕ)
    → Sublistᴰ
        (tags (SpeechQueue.claim_head_as_control_cue (record { items = items; cap = cap })).0)
        (map tag items)
unfolding SpeechQueue.claim_head_as_control_cue
claim_head_thins [] cap = Sublistᴰ.slnil
claim_head_thins (it ∷ items) cap = Sublistᴰ_refl (map tag (it ∷ items))

step_thins :
    (q : SpeechQueue) (op : Op) → takes_away op ≡ true → Sublistᴰ (tags (step q op)) (tags q)
unfolding step SpeechQueue.clear SpeechQueue.jump_to_decision SpeechQueue.pop_control_cue
    SpeechQueue.remove_by_id
step_thins q (enqueue item) h = absurd (ground arith)
step_thins q (enqueue_front item) h = absurd (ground arith)
step_thins q (insert_after i items) h = absurd (ground arith)
step_thins q pop_next h = pop_next_thins q.items q.cap
step_thins q pop_control_cue h = map-sublist tag (pop_first-Sublistᴰ _ q.items)
step_thins q claim_head h = claim_head_thins q.items q.cap
step_thins q jump_to_decision h = map-sublist tag (split_decision-Sublistᴰ q.items)
step_thins q clear h = Sublistᴰ_nil (tags q)
step_thins q (remove_by_id i) h = map-sublist tag (pop_first-Sublistᴰ _ q.items)
step_thins q (remove_where pred) h =
    rw ((remove_where_lem pred q).0) (map-sublist tag (filter-Sublistᴰ _ q.items))

step-cap : (q : SpeechQueue) (op : Op) → (step q op).cap ≡ q.cap
unfolding step SpeechQueue.enqueue SpeechQueue.clear SpeechQueue.jump_to_decision
    SpeechQueue.pop_control_cue SpeechQueue.remove_by_id SpeechQueue.pop_next
    SpeechQueue.claim_head_as_control_cue SpeechQueue.remove_where SpeechQueue.enqueue_front
    SpeechQueue.insert_after
step-cap q op = ground arith

-- how many of the tagged items could be evicted, and how many not
abbrev loose : List (ℕ × Bool) → ℕ
loose ts = length (filter (λ t. not t.1) ts)

abbrev firm : List (ℕ × Bool) → ℕ
firm ts = length (filter (λ t. t.1) ts)

length-loose-firm : (ts : List (ℕ × Bool)) → length ts ≡ loose ts + firm ts
unfolding filter
length-loose-firm [] = omega arith
length-loose-firm (t ∷ ts) = ground (arith, length-loose-firm ts)

-- at most `c` items, or one that could be evicted, beside `u` that were put in past the cap
record IsBounded (c u : ℕ) (ts : List (ℕ × Bool)) : Type 0 where
  bound : (length ts ≤ c + u) ⊎ (loose ts ≤ u + 1)

IsBounded-sublist :
    {c u : ℕ} {ts us : List (ℕ × Bool)} → Sublistᴰ ts us → IsBounded c u us → IsBounded c u ts
IsBounded-sublist s h = record {
  bound = grind (arith, h.bound, length-sublist s, length-filter-sublist (λ t. not t.1) s);
}

IsBounded-more :
    (n : ℕ) {c u : ℕ} {ts : List (ℕ × Bool)} → IsBounded c u ts → IsBounded c (u + n) ts
IsBounded-more n h = record { bound = grind (arith, h.bound) }

loose-tags : (items : List SpeechItem) → loose (map tag items) ≡ length (filter evictable items)
unfolding filter
loose-tags [] = refl
loose-tags (it ∷ items) = ground (arith, loose-tags items)

length-tags : (items : List SpeechItem) → length (map tag items) ≡ length items
length-tags [] = refl
length-tags (it ∷ items) = ap suc (length-tags items)

-- the eviction loop takes out one item if there is one to evict
evicts_one :
    (items : List SpeechItem)
    → (length (pop_first evictable items).1 + min 1 (length (filter evictable items))
        ≡ length items)
      × (length (filter evictable (pop_first evictable items).1)
            + min 1 (length (filter evictable items))
          ≡ length (filter evictable items))
unfolding pop_first filter
evicts_one [] = (omega arith, omega arith)
evicts_one (it ∷ items) = ground (arith, evicts_one items)

enqueue_room :
    (item : SpeechItem) (q : SpeechQueue) {c : ℕ}
    → q.cap ≡ some c
    → is_full q ≡ false
    → ((SpeechQueue.enqueue item q).0.items ≡ q.items ++ item ∷ []) × (length q.items < c)
unfolding SpeechQueue.enqueue is_full
enqueue_room item q bounded room = ground arith

enqueue_full :
    (item : SpeechItem) (q : SpeechQueue) {c : ℕ}
    → q.cap ≡ some c
    → is_full q ≡ true
    → ((SpeechQueue.enqueue item q).0.items ≡ (pop_first evictable q.items).1 ++ item ∷ [])
      × (c ≤ length q.items)
unfolding SpeechQueue.enqueue is_full
enqueue_full item q bounded full = ground arith

loose_concat :
    (items : List SpeechItem) (item : SpeechItem)
    → length (filter evictable (items ++ item ∷ [])) ≤ length (filter evictable items) + 1
loose_concat items item = rw filter-append (
    omega (
      arith,
      length-append (filter evictable items) (filter evictable (item ∷ [])),
      length-filter-le evictable (item ∷ []),
    ))

enqueue-IsBounded :
    (item : SpeechItem) (q : SpeechQueue) {c u : ℕ}
    → q.cap ≡ some c
    → IsBounded c u (tags q)
    → IsBounded c u (tags (SpeechQueue.enqueue item q).0)
enqueue-IsBounded item q {c} {u} bounded h = elim (Bool-cases (is_full q)) [
  | inl full ↦
      let (new, reached) = enqueue_full item q bounded full in
      let kept = (pop_first evictable q.items).1 in
      rw new (record {
        bound = grind (
          arith,
          h.bound,
          length-tags (kept ++ item ∷ []),
          loose-tags (kept ++ item ∷ []),
          length-tags q.items,
          loose-tags q.items,
          evicts_one q.items,
          length-append kept (item ∷ []),
          loose_concat kept item,
        );
      })
  | inr room ↦
      let (new, left) = enqueue_room item q bounded room in
      rw new (record {
        bound =
            inl (
              omega (arith, length-tags (q.items ++ item ∷ []), length-append q.items (item ∷ [])));
      })
]

-- what an operation puts in past the cap
abbrev pub uncapped : Op → ℕ
uncapped (enqueue_front item) = 1
uncapped (insert_after i items) = length items
uncapped _ = 0

insert_grows :
    (at : ℕ) (new : SpeechItem) (items : List SpeechItem)
    → (length (insert at new items) ≡ length items + 1)
      × (length (filter evictable (insert at new items)) ≤ length (filter evictable items) + 1)
unfolding insert filter
insert_grows at new [] = (refl, ground arith)
insert_grows zero new (it ∷ items) = (ground arith, ground arith)
insert_grows (suc at) new (it ∷ items) = ground (arith, insert_grows at new items)

insert_loop_grows :
    (at : ℕ) (news items : List SpeechItem)
    → (length (insert_loop at news items) ≡ length items + length news)
      × (length (filter evictable (insert_loop at news items))
          ≤ length (filter evictable items) + length news)
unfolding insert_loop
insert_loop_grows at [] items = (omega arith, omega arith)
insert_loop_grows at (new ∷ news) items =
    let once = insert_grows at new items in
    let rest = insert_loop_grows (at + 1) news (insert at new items) in
    (omega (arith, once.0, rest.0), omega (arith, once.1, rest.1))

-- a queue with at most `n` more items
grown-IsBounded :
    (n : ℕ) {c u : ℕ} (items items' : List SpeechItem)
    → length items' ≤ length items + n
    → length (filter evictable items') ≤ length (filter evictable items) + n
    → IsBounded c u (map tag items)
    → IsBounded c (u + n) (map tag items')
grown-IsBounded n items items' more looser h = record {
  bound = grind (
    arith,
    h.bound,
    length-tags items,
    length-tags items',
    loose-tags items,
    loose-tags items',
    more,
    looser,
  );
}

thinned-IsBounded :
    (q : SpeechQueue) (op : Op) {c u : ℕ}
    → takes_away op ≡ true
    → IsBounded c u (tags q)
    → IsBounded c (u + uncapped op) (tags (step q op))
thinned-IsBounded q op h b = IsBounded-more (uncapped op) (IsBounded-sublist (step_thins q op h) b)

insert_after-IsBounded :
    (i : ℕ) (news : List SpeechItem) (q : SpeechQueue) {c u : ℕ}
    → IsBounded c u (tags q)
    → IsBounded c (u + length news) (tags (SpeechQueue.insert_after i news q).0)
unfolding SpeechQueue.insert_after
insert_after-IsBounded i news q {c} {u} h =
    by_option (λ (r : SpeechQueue × Bool). IsBounded c (u + length news) (tags r.0))
      (index_of 0 i q.items) (q, false)
      (λ k. (record q { items = insert_loop (k + 1) news q.items }, true))
      (λ _. IsBounded-more (length news) h)
      (λ k _.
        let (more, looser) = insert_loop_grows (k + 1) news q.items in
        grown-IsBounded (length news) q.items (insert_loop (k + 1) news q.items)
          (omega (arith, more)) looser h)

step-IsBounded :
    (q : SpeechQueue) (op : Op) {c u : ℕ}
    → q.cap ≡ some c
    → IsBounded c u (tags q)
    → IsBounded c (u + uncapped op) (tags (step q op))
unfolding step SpeechQueue.enqueue_front filter
step-IsBounded q (enqueue item) bounded h = IsBounded-more 0 (enqueue-IsBounded item q bounded h)
step-IsBounded q (enqueue_front item) bounded h =
    grown-IsBounded 1 q.items (item ∷ q.items) (omega arith) (ground arith) h
step-IsBounded q (insert_after i news) bounded h = insert_after-IsBounded i news q h
step-IsBounded q pop_next bounded h = thinned-IsBounded q pop_next refl h
step-IsBounded q pop_control_cue bounded h = thinned-IsBounded q pop_control_cue refl h
step-IsBounded q claim_head bounded h = thinned-IsBounded q claim_head refl h
step-IsBounded q jump_to_decision bounded h = thinned-IsBounded q jump_to_decision refl h
step-IsBounded q clear bounded h = thinned-IsBounded q clear refl h
step-IsBounded q (remove_by_id i) bounded h = thinned-IsBounded q (remove_by_id i) refl h
step-IsBounded q (remove_where p) bounded h = thinned-IsBounded q (remove_where p) refl h

-- how many items a run puts in past the cap
unfoldable pub total_uncapped : List Op → ℕ
total_uncapped [] = 0
total_uncapped (op ∷ ops) = uncapped op + total_uncapped ops

run-IsBounded :
    (q : SpeechQueue) (ops : List Op) {c u : ℕ}
    → q.cap ≡ some c
    → IsBounded c u (tags q)
    → IsBounded c (u + total_uncapped ops) (tags (run q ops))
unfolding run total_uncapped
run-IsBounded q [] bounded h = IsBounded-more 0 h
run-IsBounded q (op ∷ ops) {c} {u} bounded h =
    let rest =
      run-IsBounded (step q op) ops (step-cap q op ∙ bounded) (step-IsBounded q op bounded h) in
    subst (λ n. IsBounded c n (tags (run (step q op) ops)))
      (let e : (u + uncapped op) + total_uncapped ops ≡ u + (uncapped op + total_uncapped ops) =
          omega arith in
        e)
      rest

firm-tags : (items : List SpeechItem) → firm (map tag items) ≡ length (decisions items)
unfolding filter
firm-tags [] = refl
firm-tags (it ∷ items) = ground (arith, firm-tags items)

-- A queue with a cap that starts empty, in any run of the operations of the class: beside the items that
-- `enqueue_front` and `insert_after` put in past the cap, it never holds more than the larger of its
-- cap and one item beside the decisions.
pub run_memory :
    (c : ℕ) (ops : List Op)
    → length (run (SpeechQueue.init (some c)) ops).items
      ≤ max c (length (decisions (run (SpeechQueue.init (some c)) ops).items) + 1)
        + total_uncapped ops
run_memory c ops =
    let items = (run (SpeechQueue.init (some c)) ops).items in
    let bounded : IsBounded c (0 + total_uncapped ops) (map tag items) =
      run-IsBounded (SpeechQueue.init (some c)) ops refl (record { bound = inl (omega arith) }) in
    grind
      (arith, bounded.bound, length-loose-firm (map tag items), length-tags items, firm-tags items)
