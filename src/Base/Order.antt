-- ===== src/Base/Order.antt =====
-- The interface between a key type and an ordered container: a comparison as the source's
-- operator< gives it, with the laws of a strict total order.
use mathlib.Core.Path.{◌≡◌}
use mathlib.Core.Bool.{Bool, true, false}

pub record KeyOrder {ℓ} (K : Type ℓ) : Type ℓ where
  pub lt : K → K → Bool
  pub lt_irrefl : (a : K) → lt a a ≡ false
  pub lt_trans : (a b c : K) → lt a b ≡ true → lt b c ≡ true → lt a c ≡ true
  pub lt_connected : (a b : K) → lt a b ≡ false → lt b a ≡ false → a ≡ b
