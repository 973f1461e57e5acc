-- ===== src/SpeechQueue.antt =====
-- src/sonari/queue.py: `SpeechItem` and `SpeechQueue`. A method returns the new queue, beside its
-- result where it has one. The items of a queue are held by value: an item handed out is not
-- written to through the queue afterwards.
mod Shape
pub mod Eviction
pub mod Removal
pub mod Runs
pub mod Copies
mod Tests
use claude_tts.Prelude.{
  ℕ, zero, suc, ◌+◌, String, Bool, true, false, not, Option, none, some, List, [], ◌∷◌, ◌++◌,
  length, leb, ◌==◌, if◌then◌else◌, any, find, pop_first,
}
use mathlib.Core.Option

pub record SpeechItem : Type 0 where
  pub id : ℕ
  pub session : String
  pub kind : String
  pub text : String
  pub is_decision : Bool
  pub control_cue : Bool
  pub names_session : Bool
  pub audio_path : Option String
  pub forward : Bool
  pub voice : Option String
  pub render_id : Option ℕ
  pub catchup_burn : Bool
  pub prelude : List String

pub record SpeechQueue : Type 0 where
  pub items : List SpeechItem
  pub cap : Option ℕ

-- `__init__`
abbrev pub init : Option ℕ → SpeechQueue
init cap = record { items = []; cap = cap }

-- `self._cap is not None and len(self._items) >= self._cap`
pub is_full : SpeechQueue → Bool
is_full q = elim q.cap [ none ↦ false | some c ↦ leb c (length q.items) ]

-- the test of the eviction loop
abbrev pub evictable : SpeechItem → Bool
evictable it = not it.is_decision

unfoldable pub enqueue : SpeechItem → SpeechQueue → SpeechQueue × Option SpeechItem
unfolding is_full pop_first
enqueue item q =
    let (evicted, kept) = pop_first evictable q.items in
    if is_full q
    then (record q { items = kept ++ item ∷ [] }, evicted)
    else (record q { items = q.items ++ item ∷ [] }, none)

unfoldable pub enqueue_front : SpeechItem → SpeechQueue → SpeechQueue
enqueue_front item q = record q { items = item ∷ q.items }

unfoldable pub pop_next : SpeechQueue → SpeechQueue × Option SpeechItem
pop_next q = elim q.items [ [] ↦ (q, none) | item ∷ rest ↦ (record q { items = rest }, some item) ]

unfoldable pub pop_control_cue : SpeechQueue → SpeechQueue × Option SpeechItem
unfolding pop_first
pop_control_cue q =
    let (found, rest) = pop_first (λ item. item.control_cue) q.items in
    (record q { items = rest }, found)

unfoldable pub claim_head_as_control_cue : SpeechQueue → SpeechQueue × Bool
claim_head_as_control_cue q = elim q.items [
  | [] ↦ (q, false)
  | item ∷ rest ↦ (record q { items = record item { control_cue = true } ∷ rest }, true)
]

-- the `while` loop of `jump_to_decision`: what is dropped, and what stays
pub split_decision : List SpeechItem → List SpeechItem × List SpeechItem
split_decision [] = ([], [])
split_decision (item ∷ items) =
    let rest = split_decision items in
    if item.is_decision then ([], item ∷ items) else (item ∷ rest.0, rest.1)

unfoldable pub jump_to_decision : SpeechQueue → SpeechQueue × List SpeechItem
unfolding split_decision
jump_to_decision q =
    let (dropped, rest) = split_decision q.items in (record q { items = rest }, dropped)

unfoldable pub has_decision : SpeechQueue → Bool
unfolding any
has_decision q = any q.items (λ item. item.is_decision)

unfoldable pub clear : SpeechQueue → SpeechQueue × List SpeechItem
clear q = (record q { items = [] }, q.items)

unfoldable pub oldest_id : SpeechQueue → Option ℕ
oldest_id q = elim q.items [ [] ↦ none | item ∷ rest ↦ some item.id ]

unfoldable pub oldest_control_cue_id : SpeechQueue → Option ℕ
unfolding find
oldest_control_cue_id q =
    Option.map (λ (item : SpeechItem). item.id) (find (λ item. item.control_cue) q.items)

unfoldable pub remove_by_id : ℕ → SpeechQueue → SpeechQueue × Option SpeechItem
unfolding pop_first
remove_by_id item_id q =
    let (found, rest) = pop_first (λ item. item.id == item_id) q.items in
    (record q { items = rest }, found)

-- the loop of `remove_where`: each item goes to the end of one of two lists
pub partition_loop :
    (SpeechItem → Bool)
    → List SpeechItem
    → List SpeechItem
    → List SpeechItem
    → List SpeechItem × List SpeechItem
partition_loop pred kept removed [] = (kept, removed)
partition_loop pred kept removed (it ∷ items) =
    partition_loop pred (if pred it then kept else kept ++ it ∷ [])
      (if pred it then removed ++ it ∷ [] else removed) items

unfoldable pub remove_where : (SpeechItem → Bool) → SpeechQueue → SpeechQueue × List SpeechItem
unfolding partition_loop
remove_where pred q =
    let (kept, removed) = partition_loop pred [] [] q.items in (record q { items = kept }, removed)

-- `deque.insert(i, x)`: past the end it appends
insert : ℕ → SpeechItem → List SpeechItem → List SpeechItem
insert i x [] = x ∷ []
insert zero x (y ∷ items) = x ∷ y ∷ items
insert (suc i) x (y ∷ items) = y ∷ insert i x items

-- `for offset, new in enumerate(items, start=1): self._items.insert(i + offset, new)`
pub insert_loop : ℕ → List SpeechItem → List SpeechItem → List SpeechItem
unfolding insert
insert_loop at [] items = items
insert_loop at (new ∷ news) items = insert_loop (at + 1) news (insert at new items)

-- the position of the first item with the id, counted by `enumerate` from `i`
pub index_of : ℕ → ℕ → List SpeechItem → Option ℕ
index_of i item_id [] = none
index_of i item_id (it ∷ items) =
    let rest = index_of (i + 1) item_id items in if it.id == item_id then some i else rest

unfoldable pub insert_after : ℕ → List SpeechItem → SpeechQueue → SpeechQueue × Bool
unfolding insert_loop index_of
insert_after item_id news q = elim (index_of 0 item_id q.items) [
  | none ↦ (q, false)
  | some i ↦ (record q { items = insert_loop (i + 1) news q.items }, true)
]
