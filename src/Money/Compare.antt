-- ===== src/Money/Compare.antt =====
-- `compareAmounts` of packages/types/src/money.ts on the integers that its amounts stand for.
use corridor_in_a_box.Base.{◌≡◌, refl, List, ℕ, arith}
use corridor_in_a_box.Base.Int.{ℤ, pos, negsuc}
use corridor_in_a_box.Outcome.{ok}
use corridor_in_a_box.Money.{to_scaled, compare_amounts, Order, equal, order_of}
use corridor_in_a_box.Money.Exact.{StandsFor, both_of}

module _ (x y : List ℕ) (scale : ℕ) where
  pub compare_amounts_exact :
      (o : Order)
      → compare_amounts x y scale ≡ ok o
      → (a : ℤ) × (b : ℤ) × StandsFor x scale a × StandsFor y scale b × (order_of a b ≡ o)
  unfolding compare_amounts
  compare_amounts_exact o h = both_of (to_scaled x scale) (to_scaled y scale) order_of o h

  pub compare_amounts_of :
      (a b : ℤ)
      → StandsFor x scale a
      → StandsFor y scale b
      → compare_amounts x y scale ≡ ok (order_of a b)
  unfolding compare_amounts
  compare_amounts_of a b h k = rw (h, k) refl

pub order_of_self : (a : ℤ) → order_of a a ≡ equal
order_of_self a = ground arith

pub equal-order_of : (a b : ℤ) → order_of a b ≡ equal → a ≡ b
equal-order_of (pos a) (pos b) h = ground arith
equal-order_of (pos a) (negsuc b) h = ground arith
equal-order_of (negsuc a) (pos b) h = ground arith
equal-order_of (negsuc a) (negsuc b) h = ground arith
