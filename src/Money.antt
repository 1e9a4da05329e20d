-- ===== src/Money.antt =====
-- packages/types/src/money.ts: decimal amounts as text, and arithmetic on scaled integers.
-- A text is its code points.
pub mod Digits
pub mod RoundTrip
pub mod Exact
pub mod Compare
use corridor_in_a_box.Base.{
  ℕ, zero, suc, ◌+◌, ◌-◌, ◌*◌, ◌/◌, ◌%◌, ◌^◌, Bool, true, false, not, ◌&&◌, ◌||◌, Option, none,
  some, List, [], ◌∷◌, ◌++◌, if◌then◌else◌, ◌==◌, leb, ltb, length, all, str_eq,
}
use corridor_in_a_box.Base.Int.{
  ℤ, pos, is_neg, magnitude, neg, ◌+ℤ◌, ◌-ℤ◌, ◌*ℤ◌, ltb_ℤ, div_towards_zero,
}
use corridor_in_a_box.Types.{Money, amount_invalid}
use corridor_in_a_box.Outcome.{Outcome, ok, err, fail, ◌>>=◌}

abbrev pub stroop_scale : ℕ
stroop_scale = 7

-- What `trim()` takes off: white space and line ends.
is_space : ℕ → Bool
is_space c =
    (leb 9 c && leb c 13)
    || c == 32
    || c == 0xa0
    || c == 0x1680
    || (leb 0x2000 c && leb c 0x200a)
    || c == 0x2028
    || c == 0x2029
    || c == 0x202f
    || c == 0x205f
    || c == 0x3000
    || c == 0xfeff

trim_start : List ℕ → List ℕ
trim_start [] = []
trim_start (c ∷ s) = if is_space c then trim_start s else c ∷ s

-- A character before the rest, dropped where nothing follows and it is one to drop.
abbrev unless_last : (ℕ → Bool) → ℕ → List ℕ → List ℕ
unless_last drops c [] = if drops c then [] else c ∷ []
unless_last drops c (d ∷ r) = c ∷ d ∷ r

trim_end : List ℕ → List ℕ
trim_end [] = []
trim_end (c ∷ s) = unless_last is_space c (trim_end s)

unfoldable pub trim : List ℕ → List ℕ
unfolding trim_start trim_end is_space
trim s = trim_end (trim_start s)

-- `\d`.
abbrev pub is_digit : ℕ → Bool
is_digit c = leb 48 c && leb c 57

-- `\d+`.
unfoldable pub is_digits : List ℕ → Bool
is_digits [] = false
is_digits (c ∷ s) = all is_digit (c ∷ s)

-- A leading minus sign, and what follows it.
unfoldable pub split_sign : List ℕ → Bool × List ℕ
split_sign [] = (false, [])
split_sign (c ∷ s) = if c == b'-' then (true, s) else (false, c ∷ s)

-- What stands before the first dot, and what stands after it if there is one.
unfoldable pub split_dot : List ℕ → List ℕ × Option (List ℕ)
split_dot [] = ([], none)
split_dot (c ∷ s) = let (i, f) = split_dot s in if c == b'.' then ([], some s) else (c ∷ i, f)

frac_ok : Option (List ℕ) → Bool
frac_ok none = true
frac_ok (some f) = is_digits f

-- `AMOUNT_RE.test(t)`, with `AMOUNT_RE = /^-?\d+(\.\d+)?$/`.
unfoldable pub matches_amount : List ℕ → Bool
unfolding split_sign split_dot is_digits frac_ok
matches_amount t = let (i, f) = split_dot (split_sign t).1 in is_digits i && frac_ok f

unfoldable pub is_valid_amount : List ℕ → Bool
unfolding matches_amount trim
is_valid_amount s = matches_amount (trim s)

-- `BigInt` of a text of digits.
unfoldable pub digits_value : ℕ → List ℕ → ℕ
digits_value acc [] = acc
digits_value acc (c ∷ s) = digits_value (acc * 10 + (c - 48)) s

unfoldable pub zeros : ℕ → List ℕ
zeros zero = []
zeros (suc n) = b'0' ∷ zeros n

abbrev pub text_or_empty : Option (List ℕ) → List ℕ
text_or_empty none = []
text_or_empty (some f) = f

unfoldable pub to_scaled : List ℕ → ℕ → Outcome ℤ
unfolding matches_amount trim digits_value zeros split_sign split_dot
to_scaled amount scale =
    let t = trim amount in
    let (minus, body) = split_sign t in
    let (i, f) = split_dot body in
    let frac = text_or_empty f in
    let mag = digits_value 0 (i ++ frac ++ zeros (scale - length frac)) in
    if not (matches_amount t)
    then fail amount_invalid
    else if ltb scale (length frac)
    then fail amount_invalid
    else ok (if minus then neg mag else pos mag)

abbrev is_positive : Outcome ℤ → Bool
is_positive (ok v) = ltb_ℤ (pos 0) v
is_positive (err e) = false

unfoldable pub is_settleable_amount : List ℕ → ℕ → Bool
unfolding to_scaled
is_settleable_amount s scale = is_positive (to_scaled s scale)

-- `toString()` of a number, on fuel: `show_digits (suc n) n acc` writes every digit of `n`.
unfoldable pub show_digits : ℕ → ℕ → List ℕ → List ℕ
show_digits zero n acc = acc
show_digits (suc fuel) n acc =
    let more = show_digits fuel (n / 10) ((48 + n % 10) ∷ acc) in
    if ltb n 10 then (48 + n) ∷ acc else more

abbrev pub show : ℕ → List ℕ
show n = show_digits (suc n) n []

-- `.replace(/0+$/, "")`.
unfoldable pub strip_zeros : List ℕ → List ℕ
strip_zeros [] = []
strip_zeros (c ∷ s) = unless_last (λ d. d == b'0') c (strip_zeros s)

-- `slice(0, cut)` and `slice(cut)`.
unfoldable pub take : ℕ → List ℕ → List ℕ
take zero s = []
take (suc n) [] = []
take (suc n) (c ∷ s) = c ∷ take n s

unfoldable pub drop : ℕ → List ℕ → List ℕ
drop zero s = s
drop (suc n) [] = []
drop (suc n) (c ∷ s) = drop n s

abbrev join_dot : List ℕ → List ℕ → List ℕ
join_dot i [] = i
join_dot i (c ∷ f) = i ++ b'.' ∷ c ∷ f

unfoldable pub from_magnitude : ℕ → ℕ → List ℕ
unfolding show_digits strip_zeros take drop zeros
from_magnitude v scale =
    let shown = show v in
    let digits = zeros (scale + 1 - length shown) ++ shown in
    let cut = length digits - scale in join_dot (take cut digits) (strip_zeros (drop cut digits))

unfoldable pub from_scaled : ℤ → ℕ → List ℕ
unfolding from_magnitude
from_scaled v scale = (if is_neg v then b'-' ∷ [] else []) ++ from_magnitude (magnitude v) scale

combine : List ℕ → List ℕ → (ℤ → ℤ → ℤ) → ℕ → Outcome (List ℕ)
combine a b op scale = do
  x ← to_scaled a scale
  y ← to_scaled b scale
  ok (from_scaled (op x y) scale)

unfoldable pub add_amounts : List ℕ → List ℕ → ℕ → Outcome (List ℕ)
unfolding combine to_scaled from_scaled ◌+ℤ◌
add_amounts a b scale = combine a b ◌+ℤ◌ scale

unfoldable pub sub_amounts : List ℕ → List ℕ → ℕ → Outcome (List ℕ)
unfolding combine to_scaled from_scaled ◌-ℤ◌
sub_amounts a b scale = combine a b ◌-ℤ◌ scale

pub data Order : Type 0 where
  below equal above : Order

abbrev pub order_of : ℤ → ℤ → Order
order_of x y = if ltb_ℤ x y then below else if ltb_ℤ y x then above else equal

unfoldable pub compare_amounts : List ℕ → List ℕ → ℕ → Outcome Order
unfolding to_scaled
compare_amounts a b scale = do x ← to_scaled a scale; y ← to_scaled b scale; ok (order_of x y)

-- `(product + (product >= 0n ? half : -half)) / factor`.
unfoldable pub round_scaled : ℤ → ℕ → ℤ
unfolding ◌+ℤ◌
round_scaled product factor =
    div_towards_zero (product +ℤ (if is_neg product then neg (factor / 2) else pos (factor / 2)))
      factor

unfoldable pub apply_price : List ℕ → List ℕ → ℕ → Outcome (List ℕ)
unfolding to_scaled from_scaled round_scaled ◌*ℤ◌
apply_price amount price scale = do
  a ← to_scaled amount scale
  p ← to_scaled price scale
  ok (from_scaled (round_scaled (a *ℤ p) (10 ^ scale)) scale)

unfoldable pub money_add : Money → Money → Outcome Money
unfolding add_amounts
money_add a b = if not (str_eq a.asset b.asset) then fail amount_invalid else do
  sum ← add_amounts a.amount b.amount stroop_scale
  ok (record { asset = a.asset; amount = sum })
