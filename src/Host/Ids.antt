-- ===== src/Host/Ids.antt =====
-- How often an id stands in the queues, under the moves of Host/Moves.antt.
use claude_tts.Prelude.{
  ℕ, ◌+◌, ◌≤◌, ◌≡◌, inl, inr, refl, ap, Bool, [], ◌∷◌, arith, ltb, leb, ◌&&◌, if◌then◌else◌,
  Option-cases, String,
}
use claude_tts.Prelude.Dict
use claude_tts.Prelude.Dict.{Dict}
use claude_tts.SpeechQueue.{SpeechItem, SpeechQueue}
use claude_tts.SpeechQueue.Copies.{
  copies, enqueue-copies, enqueue_front-copies, insert_after-copies,
}
use claude_tts.SessionStream.{SessionStream}
use claude_tts.Host.{Host, Env, Ask}
use claude_tts.Host.Kernel.{silenced, stream, place, item_of, enqueue}
use claude_tts.Host.Moves.{
  Moves, edits, puts, asks, silences, removes, here, total, copies_at, total-put, total-remove,
  stream-none, stream-some,
}

-- one for the ids that were given out between the two counts
abbrev pub fresh : ℕ → ℕ → ℕ → ℕ
fresh n a b = if ltb a n && leb n b then 1 else 0

abbrev pub Grows : {A : Type 0} → Host A → Host A → Type 0
Grows h h' =
    (h.next_id ≤ h'.next_id)
    × ((n : ℕ) → total n h'.streams ≤ total n h.streams + fresh n h.next_id h'.next_id)

place-copies :
    (n : ℕ) (ask : Ask) (item : SpeechItem) (q : SpeechQueue)
    → copies n (place ask item q).0.items ≤ copies n q.items + copies n (item ∷ [])
unfolding place
place-copies n ask item q = elim (Option-cases ask.after_id) [
  | inl e ↦ ground (arith, e, enqueue-copies n item q, enqueue_front-copies n item q)
  | inr (anchor, e) ↦ ground (
    arith,
    e,
    enqueue-copies n item q,
    enqueue_front-copies n item q,
    insert_after-copies n anchor item q,
  )
]

module _ {A : Type 0} (env : Env A) where
  item_of-id : (ask : Ask) (h : Host A) → (item_of env ask h).id ≡ h.next_id + 1
  unfolding item_of
  item_of-id ask h = ground arith

  pub stream-copies :
      (n : ℕ) (s : String) (h : Host A)
      → copies n (stream env s h).queue.items ≡ copies_at n (Dict.get s h.streams)
  unfolding copies
  stream-copies n s h = elim (Option-cases (Dict.get s h.streams)) [
    | inl e ↦ rw (stream-none env s h e, e) refl
    | inr (st, e) ↦ rw (stream-some env s h e, e) refl
  ]

  enqueue-Grows : (ask : Ask) (h : Host A) → Grows h (enqueue env ask h)
  unfolding enqueue copies
  enqueue-Grows ask h =
      let item = item_of env ask h in
      let st = stream env ask.session h in
      let placed = place ask item st.queue in
      (
        omega arith,
        λ n. ground (
          arith,
          total-put n ask.session (record st { queue = placed.0 }) h.streams,
          stream-copies n ask.session h,
          place-copies n ask item st.queue,
          item_of-id ask h,
        ),
      )

  Grows_trans : (h k l : Host A) → Grows h k → Grows k l → Grows h l
  Grows_trans h k l p q = (omega (arith, p.0, q.0), λ n. ground (arith, p.0, q.0, p.1 n, q.1 n))

  total-silenced : (n : ℕ) (d : Dict (SessionStream A)) → total n (silenced d) ≡ total n d
  unfolding total
  total-silenced n [] = refl
  total-silenced n ((s, st) ∷ d) = ap (◌+◌ (copies n st.queue.items)) (total-silenced n d)

  -- one more move
  grown :
      (h k k' : Host A)
      → Grows h k
      → k'.next_id ≡ k.next_id
      → ((n : ℕ) → total n k'.streams ≤ total n k.streams)
      → Grows h k'
  grown h k k' p next fewer =
      (omega (arith, p.0, next), λ n. ground (arith, p.0, p.1 n, next, fewer n))

  -- Whatever is moved, an id stands nowhere more often than before, but for those given out on the way.
  pub moves-Grows :
      {lifts advances forgets : Bool} {h h' : Host A}
      → Moves env lifts advances forgets h h'
      → Grows h h'
  moves-Grows here = (omega arith, λ n. omega arith)
  moves-Grows {h = h} (edits {k = k} k' p streams next held) =
      grown h k k' (moves-Grows p) next (λ n. omega (arith, ap (total n) streams))
  moves-Grows {h = h} (puts {k = k} k' s st p streams next held tame) =
      grown h k k' (moves-Grows p) next (λ n.
        omega
          (arith, ap (total n) streams, total-put n s st k.streams, stream-copies n s k, tame.0 n))
  moves-Grows {h = h} (asks {k = k} ask p) =
      Grows_trans h k (enqueue env ask k) (moves-Grows p) (enqueue-Grows ask k)
  moves-Grows {h = h} (silences {k = k} k' p streams next all) =
      grown h k k' (moves-Grows p) next
        (λ n. omega (arith, ap (total n) streams, total-silenced n k.streams))
  moves-Grows {h = h} (removes {k = k} k' s p forgot streams next held) =
      grown h k k' (moves-Grows p) next
        (λ n. omega (arith, ap (total n) streams, total-remove n s k.streams))
