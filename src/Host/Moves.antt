-- ===== src/Host/Moves.antt =====
-- How a handler may change the host, as a step relation: every handler of src/sonari/daemon/features is a
-- composition of these moves. Three flags say what it may do besides: `lifts` that it may start a stream or
-- end a stop of all sessions, `advances` that it may advance a frontier, `forgets` that it may drop a stream.
use claude_tts.Prelude.{
  ℕ, ◌+◌, ◌≤◌, ◌≡◌, ◌⊎◌, inl, inr, ap, Bool, true, Option, none, some, [], ◌∷◌, arith, Bool-cases,
  str_eq, String,
}
use claude_tts.Prelude.Dict
use claude_tts.Prelude.Dict.{Dict}
use claude_tts.SpeechQueue.Copies.{copies, Fewer}
use claude_tts.SessionStream.{SessionStream}
use claude_tts.SessionStream.Frontier.{behind}
use claude_tts.Host.{Host, Env, Ask}
use claude_tts.Host.Kernel.{silenced, born, stream, enqueue, is_stopped_all}

module _ {A : Type 0} where
  -- how often an id stands in the queues
  unfoldable pub total : ℕ → Dict (SessionStream A) → ℕ
  total n [] = 0
  total n ((s, st) ∷ d) = copies n st.queue.items + total n d

  abbrev pub copies_at : ℕ → Option (SessionStream A) → ℕ
  copies_at n none = 0
  copies_at n (some st) = copies n st.queue.items

  pub total-put :
      (n : ℕ) (s : String) (st : SessionStream A) (d : Dict (SessionStream A))
      → total n (Dict.put s st d) + copies_at n (Dict.get s d) ≡ total n d + copies n st.queue.items
  unfolding total Dict.put Dict.get
  total-put n s st [] = omega arith
  total-put n s st ((j, w) ∷ d) = elim (Bool-cases (str_eq j s)) [
    | inl e ↦ rw e (omega arith)
    | inr e ↦ rw e (omega (arith, total-put n s st d))
  ]

  pub total-remove :
      (n : ℕ) (s : String) (d : Dict (SessionStream A)) → total n (Dict.remove s d) ≤ total n d
  unfolding total Dict.remove
  total-remove n s [] = omega arith
  total-remove n s ((j, w) ∷ d) = elim (Bool-cases (str_eq j s)) [
    | inl e ↦ rw e (omega (arith, total-remove n s d))
    | inr e ↦ rw e (omega (arith, total-remove n s d))
  ]

module _ {A : Type 0} (env : Env A) (lifts advances forgets : Bool) where
  abbrev pub Holds : Host A → Host A → Type 0
  Holds h h' =
      (lifts ≡ true) ⊎ (is_stopped_all h.voice_state ≡ true → is_stopped_all h'.voice_state ≡ true)

  -- a stream after a change: its queue, its stop and its frontier
  abbrev pub Tame : SessionStream A → SessionStream A → Type 0
  Tame new old =
      Fewer new.queue old.queue
      × ((lifts ≡ true) ⊎ (old.stopped ≡ true → new.stopped ≡ true))
      × ((new.frontier ≡ old.frontier)
          ⊎ ((advances ≡ true) × (behind old.frontier new.frontier ≡ true)))

  pub data Moves (h : Host A) : Host A → Type 0 where
    here : Moves h h
    edits :
        {k : Host A} (k' : Host A)
        → Moves h k
        → k'.streams ≡ k.streams
        → k'.next_id ≡ k.next_id
        → Holds k k'
        → Moves h k'
    puts :
        {k : Host A} (k' : Host A) (s : String) (st : SessionStream A)
        → Moves h k
        → k'.streams ≡ Dict.put s st k.streams
        → k'.next_id ≡ k.next_id
        → Holds k k'
        → Tame st (stream env s k)
        → Moves h k'
    asks : {k : Host A} (ask : Ask) → Moves h k → Moves h (enqueue env ask k)
    silences :
        {k : Host A} (k' : Host A)
        → Moves h k
        → k'.streams ≡ silenced k.streams
        → k'.next_id ≡ k.next_id
        → is_stopped_all k'.voice_state ≡ true
        → Moves h k'
    removes :
        {k : Host A} (k' : Host A) (s : String)
        → Moves h k
        → forgets ≡ true
        → k'.streams ≡ Dict.remove s k.streams
        → k'.next_id ≡ k.next_id
        → Holds k k'
        → Moves h k'

module _ {A : Type 0} (env : Env A) where
  pub stream-none :
      (s : String) (h : Host A) → Dict.get s h.streams ≡ none → stream env s h ≡ born env h
  unfolding stream
  stream-none s h e =
      ap (λ (o : Option (SessionStream A)). elim o [ none ↦ born env h | some st ↦ st ]) e

  pub stream-some :
      (s : String) (h : Host A) {st : SessionStream A}
      → Dict.get s h.streams ≡ some st
      → stream env s h ≡ st
  unfolding stream
  stream-some s h e =
      ap (λ (o : Option (SessionStream A)). elim o [ none ↦ born env h | some st ↦ st ]) e
