-- ===== src/KeepAlive/Streams.antt =====
-- `KeepAliveManager`: `set_active(True)` and `oldest_player_age`.
use claude_tts.Prelude.{
  ℕ, ◌≤◌, ◌≡◌, refl, sym, ◌↔◌, ◌⊎◌, Bool, true, false, ◌||◌, none, some, List, [], ◌∷◌, ◌++◌, arith,
  filter, any, All, All-map, min,
}
use claude_tts.Prelude.Int.{ℤ, pos, ◌-ℤ◌, ◌≤ℤ◌, int_laws}
use claude_tts.KeepAlive.{
  KeepAliveManager, World, Player, alive, live, set_active, activate, cancel_hold, forgive, spawn,
  arm_overlap, oldest_player_age, age_of, earliest,
}

any-snoc :
    (f : Player → Bool) (ps : List Player) (q : Player) → any (ps ++ q ∷ []) f ≡ (any ps f || f q)
unfolding any
any-snoc f [] q = ground arith
any-snoc f (p ∷ ps) q = ground (arith, any-snoc f ps q)

-- Where the manager is enabled and has not given up, or gave up before the wish went off, a call of
-- `set_active(True)` whose player starts and does not exit at once leaves a player that is alive.
pub set_active_streams :
    (w : World) (m : KeepAliveManager) (p : ℕ)
    → m.enabled ≡ true
    → (m.want ≡ false) ⊎ (m.degraded ≡ false)
    → w.popen ≡ some p
    → w.exited p ≡ false
    → live w (set_active w true m).players ≡ true
unfolding set_active activate live cancel_hold forgive spawn arm_overlap
set_active_streams w m p on ready starts stays =
    ground (arith, on, ready, starts, stays, any-snoc (alive w) m.players (p, w.started))

-- the first start among those of the list is not after any of them
earliest-le : (t : ℕ) (ps : List Player) → earliest t ps ≤ t × All (λ q. earliest t ps ≤ q.1) ps
earliest-le t [] = (omega arith, tt)
earliest-le t (p ∷ ps) =
    let (first, rest) = earliest-le (min t p.1) ps in
    (omega (arith, first), (omega (arith, first), rest))

nothing-live :
    (w : World) (ps : List Player)
    → (age_of w.now (filter (alive w) ps) ≡ none) ↔ (live w ps ≡ false)
unfolding live any filter
nothing-live w [] = (λ h. refl, λ h. refl)
nothing-live w (p ∷ ps) =
    let (f, g) = nothing-live w ps in (λ h. ground (arith, f, h), λ h. ground (arith, g, h))

age_bound :
    (now : ℕ) (ps : List Player) (a : ℤ)
    → age_of now ps ≡ some a
    → All (λ q. (pos now -ℤ pos q.1) ≤ℤ a) ps
age_bound now [] a h = tt
age_bound now (p ∷ ps) a h =
    let (first, rest) = earliest-le p.1 ps in
    let e : pos now -ℤ pos (earliest p.1 ps) ≡ a = ground (arith, h) in
    (
      rw (sym e) (omega (int_laws, first)),
      All-map (λ q. earliest p.1 ps ≤ q.1) (λ q. (pos now -ℤ pos q.1) ≤ℤ a)
          (λ q le. rw (sym e) (omega (int_laws, le))) ps rest,
    )

-- The reported age is missing exactly where no player is alive, and it is at least the age of each one
-- that is.
pub oldest_player_age_lem :
    (w : World) (m : KeepAliveManager)
    → ((oldest_player_age w m ≡ none) ↔ (live w m.players ≡ false))
      × ((a : ℤ)
          → oldest_player_age w m ≡ some a
          → All (λ q. (pos w.now -ℤ pos q.1) ≤ℤ a) (filter (alive w) m.players))
unfolding oldest_player_age
oldest_player_age_lem w m =
    (nothing-live w m.players, λ a h. age_bound w.now (filter (alive w) m.players) a h)
