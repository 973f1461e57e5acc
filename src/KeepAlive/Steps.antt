-- ===== src/KeepAlive/Steps.antt =====
-- The calls of `KeepAliveManager` and its two timer callbacks as steps, in any order.
use claude_tts.Prelude.{ℕ, Bool, List, [], ◌∷◌}
use claude_tts.KeepAlive.{
  KeepAliveManager, World, set_enabled, set_active, tick, stop, overlap_due, hold_expired,
}

-- a timer callback can come at any time, for a timer that was cancelled too
pub data Op : Type 0 where
  configures : Bool → Op
  asserts : World → Bool → Op
  ticks : World → Op
  stops : Op
  overlaps : World → ℕ → Op
  holds : ℕ → Op

-- the manager behind a step, and the children that the step hands to the reaper
unfoldable pub step : KeepAliveManager → Op → KeepAliveManager × List ℕ
step m (configures on) = set_enabled on m
step m (asserts w active) = (set_active w active m, [])
step m (ticks w) = tick w m
step m stops = stop m
step m (overlaps w timer) = (overlap_due w timer m, [])
step m (holds timer) = hold_expired timer m

unfoldable pub run : KeepAliveManager → List Op → KeepAliveManager
unfolding step
run m [] = m
run m (op ∷ ops) = run (step m op).0 ops
