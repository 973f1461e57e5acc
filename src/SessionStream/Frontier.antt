-- ===== src/SessionStream/Frontier.antt =====
-- The frontier over prompts, stops and restarts.
use claude_tts.Prelude.{
  ℕ, ◌≡◌, refl, Bool, true, false, not, Option, none, some, List, [], ◌∷◌, arith, Option-cases, inl,
  inr, All,
}
use claude_tts.History.{Key, key_lt}
use claude_tts.SessionStream.{
  SessionStream, init, reset_for_new_prompt, advance_frontier, to_state, load_state,
}

-- what happens to a stream: an advance, a new prompt, a stop or start, and a restart of the daemon
pub data Op : Type 0 where
  advances : Option Key → Op
  prompts : Op
  holds : Bool → Op
  restarts : Option ℕ → Op

-- the frontier of the first is not ahead of that of the second
abbrev pub behind : Option Key → Option Key → Bool
behind none g = true
behind (some f) none = false
behind (some f) (some g) = not (key_lt g f)

pub behind_refl : (f : Option Key) → behind f f ≡ true
behind_refl none = refl
behind_refl (some f) = ground arith

pub behind_trans : (f g h : Option Key) → behind f g ≡ true → behind g h ≡ true → behind f h ≡ true
behind_trans none g h p q = refl
behind_trans (some f) none h p q = cc
behind_trans (some f) (some g) none p q = cc
behind_trans (some f) (some g) (some h) p q = ground (arith, p, q)

module _ {A : Type 0} (fresh : A) where
  unfoldable pub step : SessionStream A → Op → SessionStream A
  unfolding reset_for_new_prompt advance_frontier to_state load_state
  step s (advances k) = advance_frontier k s
  step s prompts = reset_for_new_prompt fresh s
  step s (holds b) = record s { stopped = b }
  step s (restarts cap) = load_state (to_state s) (init fresh cap)

  unfoldable pub run : SessionStream A → List Op → SessionStream A
  unfolding step
  run s [] = s
  run s (op ∷ ops) = run (step s op) ops

  pub advance-behind :
      (s : SessionStream A) (k : Option Key)
      → (behind s.frontier (advance_frontier k s).frontier ≡ true)
        × (behind k (advance_frontier k s).frontier ≡ true)
  unfolding advance_frontier
  advance-behind s none = (behind_refl s.frontier, refl)
  advance-behind s (some k) = elim (Option-cases s.frontier) [
    | inl e ↦ (ground (arith, e), ground (arith, e))
    | inr (f, e) ↦ (ground (arith, e), ground (arith, e))
  ]

  step-behind : (s : SessionStream A) (op : Op) → behind s.frontier (step s op).frontier ≡ true
  unfolding step reset_for_new_prompt to_state load_state
  step-behind s (advances k) = (advance-behind s k).0
  step-behind s prompts = behind_refl s.frontier
  step-behind s (holds b) = behind_refl s.frontier
  step-behind s (restarts cap) = behind_refl s.frontier

  -- the keys that the run advances to
  abbrev pub reaches : List Op → List (Option Key)
  reaches [] = []
  reaches (advances k ∷ ops) = k ∷ reaches ops
  reaches (prompts ∷ ops) = reaches ops
  reaches (holds b ∷ ops) = reaches ops
  reaches (restarts cap ∷ ops) = reaches ops

  run-behind : (s : SessionStream A) (ops : List Op) → behind s.frontier (run s ops).frontier ≡ true
  unfolding run
  run-behind s [] = behind_refl s.frontier
  run-behind s (op ∷ ops) =
      behind_trans s.frontier (step s op).frontier (run (step s op) ops).frontier (step-behind s op)
        (run-behind (step s op) ops)

  reached :
      (s : SessionStream A) (ops : List Op)
      → All (λ k. behind k (run s ops).frontier ≡ true) (reaches ops)
  unfolding run step
  reached s [] = tt
  reached s (advances k ∷ ops) =
      let s' = advance_frontier k s in
      (
        behind_trans k s'.frontier (run s' ops).frontier (advance-behind s k).1 (run-behind s' ops),
        reached s' ops,
      )
  reached s (prompts ∷ ops) = reached (step s prompts) ops
  reached s (holds b ∷ ops) = reached (step s (holds b)) ops
  reached s (restarts cap ∷ ops) = reached (step s (restarts cap)) ops

  -- Through any advances, new prompts, stops and restarts of the daemon the frontier never retreats, and
  -- behind them it is not behind any key that it was advanced to.
  pub frontier_monotone :
      (s : SessionStream A) (ops : List Op)
      → (behind s.frontier (run s ops).frontier ≡ true)
        × All (λ k. behind k (run s ops).frontier ≡ true) (reaches ops)
  frontier_monotone s ops = (run-behind s ops, reached s ops)
