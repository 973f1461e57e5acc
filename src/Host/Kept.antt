-- ===== src/Host/Kept.antt =====
-- The stops and the frontiers under the moves of Host/Moves.antt.
use claude_tts.Prelude.{
  ◌≡◌, ◌⊎◌, inl, inr, refl, ap, sym, ◌∙◌, Bool, true, false, Option, none, some, [], ◌∷◌, arith,
  if◌then◌else◌, Bool-cases, Option-cases, String, str_eq, eq_iff,
}
use claude_tts.Prelude.Dict
use claude_tts.Prelude.Dict.{Dict, Each, Each-put, Each-get, Each-remove, get-put}
use mathlib.Core.Path.{subst}
use claude_tts.SessionStream.{SessionStream}
use claude_tts.SessionStream.Frontier.{behind, behind_refl, behind_trans}
use claude_tts.History.{Key}
use claude_tts.Host.{Host, Env}
use claude_tts.Host.Kernel.{silenced, stream, enqueue, is_stopped_all}
use claude_tts.Host.Moves.{
  Moves, edits, puts, asks, silences, removes, here, stream-none, stream-some,
}

-- everything is stopped, and a stream that is made will be
abbrev pub IsMuted : {A : Type 0} → Host A → Type 0
IsMuted h = (is_stopped_all h.voice_state ≡ true) × Each (λ st. st.stopped ≡ true) h.streams

abbrev pub frontier_at : {A : Type 0} → Option (SessionStream A) → Option Key
frontier_at none = none
frontier_at (some st) = st.frontier

-- how far a session was heard; one without a stream has no frontier
abbrev pub frontier_of : {A : Type 0} → String → Host A → Option Key
frontier_of s h = frontier_at (Dict.get s h.streams)

module _ {A : Type 0} (env : Env A) where
  pub stream-stopped : (s : String) (h : Host A) → IsMuted h → (stream env s h).stopped ≡ true
  stream-stopped s h m = elim (Option-cases (Dict.get s h.streams)) [
    | inl e ↦ rw (stream-none env s h e) m.0
    | inr (st, e) ↦
        rw (stream-some env s h e) (Each-get (λ st. st.stopped ≡ true) s h.streams e m.1)
  ]

  pub stream-frontier : (s : String) (h : Host A) → (stream env s h).frontier ≡ frontier_of s h
  stream-frontier s h = elim (Option-cases (Dict.get s h.streams)) [
    | inl e ↦ rw (stream-none env s h e, e) refl
    | inr (st, e) ↦ rw (stream-some env s h e, e) refl
  ]

  Each-silenced : (d : Dict (SessionStream A)) → Each (λ st. st.stopped ≡ true) (silenced d)
  Each-silenced [] = tt
  Each-silenced ((s, st) ∷ d) = (refl, Each-silenced d)

  -- the voice state and the streams are what `IsMuted` reads
  IsMuted-of :
      (h h' : Host A)
      → (is_stopped_all h.voice_state ≡ true → is_stopped_all h'.voice_state ≡ true)
      → IsMuted h
      → Each (λ st. st.stopped ≡ true) h'.streams
      → IsMuted h'
  IsMuted-of h h' voice m all = (voice m.0, all)

  -- what a premise of a move says where nothing may be started
  kept {κ} : {P : Type κ} → (false ≡ true) ⊎ P → P
  kept (inl wrong) = absurd (ground (arith, wrong))
  kept (inr p) = p

  pub moves-IsMuted :
      {advances forgets : Bool} {h h' : Host A}
      → Moves env false advances forgets h h'
      → IsMuted h
      → IsMuted h'
  unfolding enqueue
  moves-IsMuted here m = m
  moves-IsMuted (edits {k = h} h' p streams next held) m0 =
      let m = moves-IsMuted p m0 in
      IsMuted-of h h' (kept held) m (subst (Each (λ st. st.stopped ≡ true)) (sym streams) m.1)
  moves-IsMuted (puts {k = h} h' s st p streams next held tame) m0 =
      let m = moves-IsMuted p m0 in
      IsMuted-of h h' (kept held) m (
        subst (Each (λ st. st.stopped ≡ true)) (sym streams) (
          Each-put (λ st. st.stopped ≡ true) s st h.streams (kept tame.1 (stream-stopped s h m))
            m.1))
  moves-IsMuted (asks {k = h} ask p) m0 =
      let m = moves-IsMuted p m0 in
      (
        m.0,
        Each-put (λ st. st.stopped ≡ true) ask.session _ h.streams (stream-stopped ask.session h m)
            m.1,
      )
  moves-IsMuted (silences {k = h} h' p streams next all) m =
      (all, subst (Each (λ st. st.stopped ≡ true)) (sym streams) (Each-silenced h.streams))
  moves-IsMuted (removes {k = h} h' s p forgot streams next held) m0 =
      let m = moves-IsMuted p m0 in
      IsMuted-of h h' (kept held) m (
        subst (Each (λ st. st.stopped ≡ true)) (sym streams)
          (Each-remove (λ st. st.stopped ≡ true) s h.streams m.1))

  get-silenced :
      (s : String) (d : Dict (SessionStream A))
      → frontier_at (Dict.get s (silenced d)) ≡ frontier_at (Dict.get s d)
  unfolding Dict.get
  get-silenced s [] = refl
  get-silenced s ((j, st) ∷ d) = elim (Bool-cases (str_eq j s)) [
    | inl e ↦ rw e refl
    | inr e ↦ rw e (get-silenced s d)
  ]

  frontier-put :
      (t s : String) (st : SessionStream A) (h : Host A)
      → frontier_at (Dict.get t (Dict.put s st h.streams))
        ≡ (if str_eq s t then st.frontier else frontier_of t h)
  frontier-put t s st h = elim (Bool-cases (str_eq s t)) [
    | inl e ↦ rw (get-put s t st h.streams, e) refl
    | inr e ↦ rw (get-put s t st h.streams, e) refl
  ]

  -- the frontier of `t` behind a change of the stream of `s`
  behind-put :
      (t s : String) (st : SessionStream A) (h : Host A)
      → behind (stream env s h).frontier st.frontier ≡ true
      → behind (frontier_of t h) (frontier_at (Dict.get t (Dict.put s st h.streams))) ≡ true
  behind-put t s st h ahead = elim (Bool-cases (str_eq s t)) [
    | inl e ↦
        rw (frontier-put t s st h, e)
          (subst (λ f. behind f st.frontier ≡ true)
            (stream-frontier s h ∙ ap (λ u. frontier_of u h) ((eq_iff s t).0 e)) ahead)
    | inr e ↦ rw (frontier-put t s st h, e) (behind_refl (frontier_of t h))
  ]

  moved_ahead :
      {advances : Bool} (old new : Option Key)
      → (new ≡ old) ⊎ ((advances ≡ true) × (behind old new ≡ true))
      → behind old new ≡ true
  moved_ahead old new (inl same) = subst (λ f. behind old f ≡ true) (sym same) (behind_refl old)
  moved_ahead old new (inr (may, ahead)) = ahead

  pub moves-behind :
      {lifts advances : Bool} {h h' : Host A}
      → Moves env lifts advances false h h'
      → (t : String) → behind (frontier_of t h) (frontier_of t h') ≡ true
  unfolding enqueue
  moves-behind {h = h} here t = behind_refl (frontier_of t h)
  moves-behind {h = h} (edits {k = k} k' p streams next held) t = rw streams (moves-behind p t)
  moves-behind {h = h} (puts {k = k} k' s st p streams next held tame) t = rw streams (
      behind_trans (frontier_of t h) (frontier_of t k) _ (moves-behind p t)
        (behind-put t s st k (moved_ahead (stream env s k).frontier st.frontier tame.2)))
  moves-behind {h = h} (asks {k = k} ask p) t =
      behind_trans (frontier_of t h) (frontier_of t k) (frontier_of t (enqueue env ask k))
        (moves-behind p t)
        (behind-put t ask.session _ k (behind_refl (stream env ask.session k).frontier))
  moves-behind {h = h} (silences {k = k} k' p streams next all) t =
      rw (streams, get-silenced t k.streams) (moves-behind p t)
  moves-behind (removes k' s p forgot streams next held) t = absurd (ground (arith, forgot))

  pub same-put :
      (t s : String) (st : SessionStream A) (h : Host A)
      → st.frontier ≡ (stream env s h).frontier
      → frontier_at (Dict.get t (Dict.put s st h.streams)) ≡ frontier_of t h
  same-put t s st h same = elim (Bool-cases (str_eq s t)) [
    | inl e ↦
        rw (frontier-put t s st h, e)
          (same ∙ stream-frontier s h ∙ ap (λ u. frontier_of u h) ((eq_iff s t).0 e))
    | inr e ↦ rw (frontier-put t s st h, e) refl
  ]

  -- a frontier that may not advance
  still :
      (old new : Option Key) → (new ≡ old) ⊎ ((false ≡ true) × (behind old new ≡ true)) → new ≡ old
  still old new (inl same) = same
  still old new (inr (may, ahead)) = absurd (ground (arith, may))

  pub moves-frontier :
      {lifts : Bool} {h h' : Host A}
      → Moves env lifts false false h h'
      → (t : String) → frontier_of t h' ≡ frontier_of t h
  unfolding enqueue
  moves-frontier here t = refl
  moves-frontier (edits k' p streams next held) t = rw streams (moves-frontier p t)
  moves-frontier (puts {k = k} k' s st p streams next held tame) t =
      rw streams (
        same-put t s st k (still (stream env s k).frontier st.frontier tame.2) ∙ moves-frontier p t)
  moves-frontier (asks {k = k} ask p) t = same-put t ask.session _ k refl ∙ moves-frontier p t
  moves-frontier (silences {k = k} k' p streams next all) t =
      rw streams (get-silenced t k.streams ∙ moves-frontier p t)
  moves-frontier (removes k' s p forgot streams next held) t = absurd (ground (arith, forgot))
