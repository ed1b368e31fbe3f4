-- ===== src/Copying.antt =====
-- src/hl_observer/copying: from the delta of a leader to a sized paper trade. What its modules share.
pub mod Score
pub mod Kelly
pub mod Leaders
pub mod Engine
pub mod Pipeline
mod Tests
mod SessionTests
use hyperliquid_smart_wallet.Prelude.{Bool, String, List, [], ◌∷◌, if◌then◌else◌}
use hyperliquid_smart_wallet.Float.{Float, max_of, min_of}

-- The texts whose test holds, in order.
abbrev pub flags : List (Bool × String) → List String
flags [] = []
flags ((holds, text) ∷ checks) = let rest = flags checks in if holds then text ∷ rest else rest

module _ {F : Type 0} ⦃f : Float F⦄ where
  -- realtime_magic_score.py: `clamp`.
  unfoldable pub clamp : F → F → F → F
  clamp value minimum maximum = max_of minimum (min_of maximum value)
