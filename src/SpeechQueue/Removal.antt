-- ===== src/SpeechQueue/Removal.antt =====
-- The operations of `SpeechQueue` that take items out of the middle, or put them there.
use mathlib.Core.Option
use claude_tts.Prelude.{
  ℕ, ◌+◌, ◌≡◌, ◌≢◌, ◌⊎◌, sym, ap, ◌∙◌, Bool, true, false, not, none, some, List, [], ◌∷◌, ◌++◌,
  arith, filter, All, inl, inr, Option-cases, append_assoc, length, length-append,
}
use claude_tts.SpeechQueue.{
  SpeechItem, SpeechQueue, pop_control_cue, oldest_control_cue_id, jump_to_decision, remove_where,
  insert_after, index_of, insert_loop,
}
use claude_tts.SpeechQueue.Shape.{
  pop_first-find, pop_first-some, partition_loop-eq, insert_loop-splice, index_of-some,
  index_of-none, split_decision_cut, split_decision_dropped, split_decision_head,
}

-- The id that `oldest_control_cue_id` returns is that of the item which `pop_control_cue` then pops,
-- and `pop_control_cue` finds nothing exactly where there is no such id.
pub oldest_control_cue_id-pop :
    (q : SpeechQueue)
    → oldest_control_cue_id q ≡ Option.map (λ (it : SpeechItem). it.id) (pop_control_cue q).1
unfolding oldest_control_cue_id pop_control_cue
oldest_control_cue_id-pop q =
    ap (Option.map (λ (it : SpeechItem). it.id))
      (sym (pop_first-find (λ it. it.control_cue) q.items))

-- A jump drops exactly the items in front of the first decision, none of them a decision, and what
-- stays is empty or begins with one.
pub jump_to_decision_lem :
    (q : SpeechQueue)
    → (q.items ≡ (jump_to_decision q).1 ++ (jump_to_decision q).0.items)
      × All (λ it. it.is_decision ≡ false) (jump_to_decision q).1
      × (((jump_to_decision q).0.items ≡ [])
          ⊎ ((it : SpeechItem) × (rest : List SpeechItem) × ((jump_to_decision q).0.items
                ≡ it ∷ rest)
              × (it.is_decision ≡ true)))
unfolding jump_to_decision
jump_to_decision_lem q =
    (split_decision_cut q.items, split_decision_dropped q.items, split_decision_head q.items)

-- `remove_where` splits the queue by the test: what stays and what is returned keep their order.
pub remove_where_lem :
    (pred : SpeechItem → Bool) (q : SpeechQueue)
    → ((remove_where pred q).0.items ≡ filter (λ it. not (pred it)) q.items)
      × ((remove_where pred q).1 ≡ filter pred q.items)
unfolding remove_where
remove_where_lem pred q =
    let e = partition_loop-eq pred [] [] q.items in (ap (λ t. t.0) e, ap (λ t. t.1) e)

insert_after-none :
    (item_id : ℕ) (news : List SpeechItem) (q : SpeechQueue)
    → index_of 0 item_id q.items ≡ none
    → insert_after item_id news q ≡ (q, false)
unfolding insert_after
insert_after-none item_id news q h = ground arith

insert_after-some :
    (item_id : ℕ) (news : List SpeechItem) (q : SpeechQueue) {k : ℕ}
    → index_of 0 item_id q.items ≡ some k
    → insert_after item_id news q ≡ (record q { items = insert_loop (k + 1) news q.items }, true)
unfolding insert_after
insert_after-some item_id news q h = ground arith

insert_loop_behind :
    (before : List SpeechItem) (it : SpeechItem) (news after items : List SpeechItem) (k : ℕ)
    → items ≡ before ++ it ∷ after
    → k ≡ 0 + length before
    → insert_loop (k + 1) news items ≡ (before ++ it ∷ []) ++ (news ++ after)
insert_loop_behind before it news after items k cut place =
    let at : k + 1 ≡ length (before ++ it ∷ []) = omega (arith, length-append before (it ∷ [])) in
    let whole : items ≡ (before ++ it ∷ []) ++ after =
      cut ∙ sym (append_assoc before (it ∷ []) after) in
    rw (at, whole) (insert_loop-splice (before ++ it ∷ []) news after)

-- `insert_after` puts the new items directly behind the first item with the id, all else keeping its
-- place; where no item has the id it returns `false` and leaves the queue alone.
pub insert_after_lem :
    (item_id : ℕ) (news : List SpeechItem) (q : SpeechQueue)
    → ((before : List SpeechItem) × (it : SpeechItem) × (after : List SpeechItem) × (q.items
          ≡ before ++ it ∷ after)
        × ((insert_after item_id news q).0.items ≡ (before ++ it ∷ []) ++ (news ++ after))
        × ((insert_after item_id news q).1 ≡ true)
        × (it.id ≡ item_id)
        × All (λ y. y.id ≢ item_id) before)
      ⊎ ((insert_after item_id news q ≡ (q, false)) × All (λ y. y.id ≢ item_id) q.items)
insert_after_lem item_id news q = elim (Option-cases (index_of 0 item_id q.items)) [
  | inl missed ↦
      inr (insert_after-none item_id news q missed, index_of-none 0 item_id q.items missed)
  | inr (k, found) ↦
      let done = insert_after-some item_id news q found in
      let (before, it, after, cut, place, same, others) = index_of-some 0 item_id q.items found in
      inl (
        before,
        it,
        after,
        cut,
        ap (λ r. r.0.items) done ∙ insert_loop_behind before it news after q.items k cut place,
        ap (λ r. r.1) done,
        same,
        others,
      )
]

-- what `pop_control_cue` pops is a control cue
pub popped_cue :
    (q : SpeechQueue) (item : SpeechItem)
    → (pop_control_cue q).1 ≡ some item
    → item.control_cue ≡ true
unfolding pop_control_cue
popped_cue q item e =
    let (before, after, cut, left, hit, rest) = pop_first-some (λ it. it.control_cue) q.items e in
    hit
