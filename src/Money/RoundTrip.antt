-- ===== src/Money/RoundTrip.antt =====
-- `toScaled` after `fromScaled` of packages/types/src/money.ts.
use corridor_in_a_box.Base.{
  ℕ, suc, ◌+◌, ◌-◌, ◌≤◌, ◌<◌, ◌≡◌, refl, ap, ◌∙◌, Bool, true, false, ◌||◌, Option, none, some, List,
  [], ◌∷◌, ◌++◌, ◌==◌, all, length, length-append, append_assoc, arith, if◌then◌else◌,
}
use corridor_in_a_box.Base.Int.{ℤ, pos, negsuc, neg}
use corridor_in_a_box.Outcome.{ok}
use corridor_in_a_box.Money.{
  is_space, trim_start, trim_end, trim, is_digit, is_digits, split_sign, split_dot, frac_ok,
  matches_amount, digits_value, zeros, text_or_empty, to_scaled, show, strip_zeros, take, drop,
  join_dot, from_magnitude, from_scaled,
}
use corridor_in_a_box.Money.Digits.{
  digits_value-show_digits, all-append, all-show_digits, lt-length-show_digits, length-zeros,
  all-zeros, digits_value-zeros, take-append-drop, length-take, all-take, all-drop, all-strip_zeros,
  strip_zeros-append-zeros,
}

-- The characters of a printed amount.
abbrev is_plain : ℕ → Bool
is_plain c = is_digit c || c == b'.' || c == b'-'

plain_not_space : (c : ℕ) → is_plain c ≡ true → is_space c ≡ false
unfolding is_space
plain_not_space c h = ground arith

trim_start_plain : (s : List ℕ) → all is_plain s ≡ true → trim_start s ≡ s
unfolding trim_start
trim_start_plain [] h = refl
trim_start_plain (c ∷ s) h = rw (plain_not_space c (ground arith)) refl

trim_end_plain : (s : List ℕ) → all is_plain s ≡ true → trim_end s ≡ s
unfolding trim_end
trim_end_plain [] h = refl
trim_end_plain (c ∷ []) h = rw (plain_not_space c (ground arith)) refl
trim_end_plain (c ∷ d ∷ s) h = rw (trim_end_plain (d ∷ s) (ground arith)) refl

trim_plain : (s : List ℕ) → all is_plain s ≡ true → trim s ≡ s
unfolding trim
trim_plain s h = ap trim_end (trim_start_plain s h) ∙ trim_end_plain s h

digits_plain : (s : List ℕ) → all is_digit s ≡ true → all is_plain s ≡ true
digits_plain [] h = refl
digits_plain (c ∷ s) h = ground (arith, digits_plain s)

split_dot_digits : (i : List ℕ) → all is_digit i ≡ true → split_dot i ≡ (i, none)
unfolding split_dot
split_dot_digits [] h = refl
split_dot_digits (c ∷ i) h = rw (split_dot_digits i (ground arith)) (ground arith)

split_dot_point : (i r : List ℕ) → all is_digit i ≡ true → split_dot (i ++ b'.' ∷ r) ≡ (i, some r)
unfolding split_dot
split_dot_point [] r h = refl
split_dot_point (c ∷ i) r h = rw (split_dot_point i r (ground arith)) (ground arith)

abbrev point : List ℕ → Option (List ℕ)
point [] = none
point (c ∷ f) = some (c ∷ f)

split_dot-join_dot :
    (i f : List ℕ) → all is_digit i ≡ true → split_dot (join_dot i f) ≡ (i, point f)
split_dot-join_dot i [] h = split_dot_digits i h
split_dot-join_dot i (c ∷ f) h = split_dot_point i (c ∷ f) h

join_dot_plain :
    (i f : List ℕ)
    → all is_digit i ≡ true
    → all is_digit f ≡ true
    → all is_plain (join_dot i f) ≡ true
join_dot_plain i [] h k = digits_plain i h
join_dot_plain i (c ∷ f) h k =
    all-append is_plain i (b'.' ∷ c ∷ f) (digits_plain i h) (digits_plain (c ∷ f) k)

text_or_empty-point : (f : List ℕ) → text_or_empty (point f) ≡ f
text_or_empty-point [] = refl
text_or_empty-point (c ∷ f) = refl

frac_ok-point : (f : List ℕ) → all is_digit f ≡ true → frac_ok (point f) ≡ true
unfolding is_digits frac_ok
frac_ok-point [] h = refl
frac_ok-point (c ∷ f) h = h

is_digits_some : (i : List ℕ) → 0 < length i → all is_digit i ≡ true → is_digits i ≡ true
unfolding is_digits
is_digits_some [] n h = elim n [ ]
is_digits_some (c ∷ i) n h = h

-- The text of an amount: a sign, and digits with a point before the fraction if there is one.
abbrev signed : Bool → List ℕ → List ℕ
signed minus t = (if minus then b'-' ∷ [] else []) ++ t

signed_plain :
    (minus : Bool) (t : List ℕ) → all is_plain t ≡ true → all is_plain (signed minus t) ≡ true
signed_plain true t h = h
signed_plain false t h = h

digit_first : (c : ℕ) (s : List ℕ) → is_digit c ≡ true → split_sign (c ∷ s) ≡ (false, c ∷ s)
unfolding split_sign
digit_first c s h = ground arith

split_sign-signed :
    (minus : Bool) (i f : List ℕ)
    → 0 < length i
    → all is_digit i ≡ true
    → split_sign (signed minus (join_dot i f)) ≡ (minus, join_dot i f)
unfolding split_sign
split_sign-signed true i f n h = refl
split_sign-signed false [] f n h = elim n [ ]
split_sign-signed false (c ∷ i) [] n h = digit_first c i (ground arith)
split_sign-signed false (c ∷ i) (d ∷ f) n h = digit_first c (i ++ b'.' ∷ d ∷ f) (ground arith)

module _ (minus : Bool) (i f : List ℕ) (scale : ℕ) (some_digit : 0 < length i)
    (i_digits : all is_digit i ≡ true) (f_digits : all is_digit f ≡ true)
    (fits : length f ≤ scale) where
  matches_amount-signed : matches_amount (signed minus (join_dot i f)) ≡ true
  unfolding matches_amount
  matches_amount-signed = rw (split_sign-signed minus i f some_digit i_digits) (
      rw (split_dot-join_dot i f i_digits)
        (rw (is_digits_some i some_digit i_digits) (frac_ok-point f f_digits)))

  -- An amount is read as the value of its digits, filled up to the scale.
  to_scaled-signed :
      let v = digits_value 0 (i ++ f ++ zeros (scale - length f)) in
      to_scaled (signed minus (join_dot i f)) scale ≡ ok (if minus then neg v else pos v)
  unfolding to_scaled
  to_scaled-signed =
      rw
        (trim_plain (signed minus (join_dot i f))
          (signed_plain minus (join_dot i f) (join_dot_plain i f i_digits f_digits)))
        (rw matches_amount-signed (
          rw (split_sign-signed minus i f some_digit i_digits)
            (rw (split_dot-join_dot i f i_digits) (rw (text_or_empty-point f) (ground arith)))))

-- What `from_magnitude` prints.
record Printed (n scale : ℕ) : Type 0 where
  whole : List ℕ
  frac : List ℕ
  printed : from_magnitude n scale ≡ join_dot whole frac
  some_digit : 0 < length whole
  whole_digits : all is_digit whole ≡ true
  frac_digits : all is_digit frac ≡ true
  fits : length frac ≤ scale
  value : digits_value 0 (whole ++ frac ++ zeros (scale - length frac)) ≡ n

abbrev padded : ℕ → ℕ → List ℕ
padded n scale = zeros (scale + 1 - length (show n)) ++ show n

padded_digits : (n scale : ℕ) → all is_digit (padded n scale) ≡ true
padded_digits n scale =
    all-append is_digit (zeros (scale + 1 - length (show n))) (show n) (all-zeros _)
      (all-show_digits (suc n) n [] refl)

padded_value : (n scale : ℕ) → digits_value 0 (padded n scale) ≡ n
unfolding digits_value
padded_value n scale =
    digits_value-zeros (scale + 1 - length (show n)) (show n)
    ∙ digits_value-show_digits (suc n) n [] (omega arith)

padded_long : (n scale : ℕ) → scale < length (padded n scale)
padded_long n scale = omega (
  arith,
  length-append (zeros (scale + 1 - length (show n))) (show n),
  length-zeros (scale + 1 - length (show n)),
  lt-length-show_digits n n [],
)

from_magnitude-Printed : (n scale : ℕ) → Printed n scale
unfolding from_magnitude
from_magnitude-Printed n scale =
    let digits = padded n scale in
    let cut = length digits - scale in
    let rest = drop cut digits in
    let (k, filled) = strip_zeros-append-zeros rest in
    let long = padded_long n scale in
    let kept = length-take cut digits (omega arith) in
    let whole_and_rest = take-append-drop cut digits in
    let sizes = length-append (take cut digits) rest in
    let all_size = ap length whole_and_rest in
    let size = length-append (strip_zeros rest) (zeros k) in
    let filled_size = ap length filled in
    let count = length-zeros k in
    let missing : scale - length (strip_zeros rest) ≡ k = omega arith in
    record {
      whole = take cut digits;
      frac = strip_zeros rest;
      printed = refl;
      some_digit = omega arith;
      whole_digits = all-take is_digit cut digits (padded_digits n scale);
      frac_digits =
          all-strip_zeros is_digit rest (all-drop is_digit cut digits (padded_digits n scale));
      fits = omega arith;
      value =
          ap (λ t. digits_value 0 ((take cut digits ++ strip_zeros rest) ++ zeros t)) missing
          ∙ ap (digits_value 0) (
              append_assoc (take cut digits) (strip_zeros rest) (zeros k)
              ∙ ap (λ t. take cut digits ++ t) filled
              ∙ whole_and_rest)
          ∙ padded_value n scale;
    }

to_scaled-printed :
    (minus : Bool) (n scale : ℕ)
    → to_scaled (signed minus (from_magnitude n scale)) scale ≡ ok (if minus then neg n else pos n)
to_scaled-printed minus n scale =
    let p = from_magnitude-Printed n scale in
    ap (λ t. to_scaled (signed minus t) scale) p.printed
    ∙ to_scaled-signed minus p.whole p.frac scale p.some_digit p.whole_digits p.frac_digits p.fits
    ∙ ap (λ v. ok (if minus then neg v else pos v)) p.value

-- A scaled integer that is printed as an amount is read back as it was, at every scale.
pub to_scaled-from_scaled : (v : ℤ) (scale : ℕ) → to_scaled (from_scaled v scale) scale ≡ ok v
unfolding from_scaled
to_scaled-from_scaled (pos n) scale = to_scaled-printed false n scale
to_scaled-from_scaled (negsuc n) scale = to_scaled-printed true (suc n) scale
