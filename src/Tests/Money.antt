-- ===== src/Tests/Money.antt =====
-- Amounts in decimal text.
use corridor_in_a_box.Base.{ℕ, ◌*◌, codes, ◌≡◌, refl, false}
use corridor_in_a_box.Money.{is_valid_amount, add_amounts, sub_amounts, apply_price}
use corridor_in_a_box.Money.{to_scaled, from_scaled, stroop_scale}
use corridor_in_a_box.Money.RoundTrip.{to_scaled-from_scaled}
use corridor_in_a_box.Money.Exact.{StandsFor, IsNearest, apply_price-IsNearest}
use corridor_in_a_box.Base.Int.{pos, negsuc}
use corridor_in_a_box.Outcome.{ok}

add_mixed : add_amounts (codes "1.5") (codes " 2.25 ") 7 ≡ ok (codes "3.75")
unfolding add_amounts
add_mixed = refl

sub_below_zero : sub_amounts (codes "1.5") (codes "2") 7 ≡ ok (codes "-0.5")
unfolding sub_amounts
sub_below_zero = refl

price_rounded : apply_price (codes "3") (codes "0.3333333") 7 ≡ ok (codes "0.9999999")
unfolding apply_price
price_rounded = refl

dangling_dot : is_valid_amount (codes "1.") ≡ false
unfolding is_valid_amount
dangling_dot = refl

to_scaled-from_scaled_example :
    to_scaled (from_scaled (negsuc 14_999_999) 7) 7 ≡ ok (negsuc 14_999_999)
to_scaled-from_scaled_example = to_scaled-from_scaled (negsuc 14_999_999) 7

three : StandsFor (codes "3") stroop_scale (pos 30_000_000)
unfolding to_scaled
three = refl

a_third : StandsFor (codes "0.3333333") stroop_scale (pos 3_333_333)
unfolding to_scaled
a_third = refl

apply_price-IsNearest_example :
    (v : ℕ) × StandsFor (codes "0.9999999") stroop_scale (pos v)
    × IsNearest (30_000_000 * 3_333_333) v
apply_price-IsNearest_example =
    apply_price-IsNearest (codes "3") (codes "0.3333333") (codes "0.9999999") 30_000_000 3_333_333
      three a_third price_rounded
