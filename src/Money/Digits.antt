-- ===== src/Money/Digits.antt =====
-- Digits and their values in packages/types/src/money.ts.
use corridor_in_a_box.Base.{
  ℕ, zero, suc, ◌+◌, ◌-◌, ◌*◌, ◌/◌, ◌%◌, ◌≤◌, ◌<◌, ◌≡◌, refl, ap, ◌∙◌, Bool, true, List, [], ◌∷◌,
  ◌++◌, ltb, ◌==◌, all, length, arith, Bool-cases, inl, inr,
}
use corridor_in_a_box.Money.{
  is_digit, digits_value, zeros, show_digits, strip_zeros, take, drop, unless_last,
}

pub digits_value-append :
    (k : ℕ) (xs ys : List ℕ) → digits_value k (xs ++ ys) ≡ digits_value (digits_value k xs) ys
unfolding digits_value
digits_value-append k [] ys = refl
digits_value-append k (c ∷ xs) ys = digits_value-append (k * 10 + (c - 48)) xs ys

-- The digits of a number have its value.
pub digits_value-show_digits :
    (fuel n : ℕ) (acc : List ℕ)
    → n < fuel
    → digits_value 0 (show_digits fuel n acc) ≡ digits_value n acc
unfolding show_digits digits_value
digits_value-show_digits zero n acc h = elim h [ ]
digits_value-show_digits (suc fuel) n acc h = elim (Bool-cases (ltb n 10)) [
  | inl small ↦ rw small (ap (λ t. digits_value t acc) (omega arith))
  | inr large ↦ rw large (
      digits_value-show_digits fuel (n / 10) ((48 + n % 10) ∷ acc) (ground arith)
      ∙ ap (λ t. digits_value t acc) (omega arith))
]

pub all-append :
    (p : ℕ → Bool) (xs ys : List ℕ) → all p xs ≡ true → all p ys ≡ true → all p (xs ++ ys) ≡ true
all-append p [] ys h k = k
all-append p (x ∷ xs) ys h k = ground (arith, all-append p xs ys)

pub all-show_digits :
    (fuel n : ℕ) (acc : List ℕ)
    → all is_digit acc ≡ true
    → all is_digit (show_digits fuel n acc) ≡ true
unfolding show_digits
all-show_digits zero n acc h = h
all-show_digits (suc fuel) n acc h = elim (Bool-cases (ltb n 10)) [
  | inl small ↦ rw small (ground arith)
  | inr large ↦ rw large (all-show_digits fuel (n / 10) ((48 + n % 10) ∷ acc) (ground arith))
]

pub lt-length-show_digits :
    (fuel n : ℕ) (acc : List ℕ) → length acc < length (show_digits (suc fuel) n acc)
unfolding show_digits
lt-length-show_digits zero n acc = ground arith
lt-length-show_digits (suc fuel) n acc = elim (Bool-cases (ltb n 10)) [
  | inl small ↦ rw small (omega arith)
  | inr large ↦ rw large (omega (arith, lt-length-show_digits fuel (n / 10) ((48 + n % 10) ∷ acc)))
]

pub length-zeros : (n : ℕ) → length (zeros n) ≡ n
unfolding zeros
length-zeros zero = refl
length-zeros (suc n) = omega (arith, length-zeros n)

pub all-zeros : (n : ℕ) → all is_digit (zeros n) ≡ true
unfolding zeros
all-zeros zero = refl
all-zeros (suc n) = all-zeros n

pub digits_value-zeros : (n : ℕ) (s : List ℕ) → digits_value 0 (zeros n ++ s) ≡ digits_value 0 s
unfolding zeros digits_value
digits_value-zeros zero s = refl
digits_value-zeros (suc n) s = digits_value-zeros n s

pub take-append-drop : (n : ℕ) (s : List ℕ) → take n s ++ drop n s ≡ s
unfolding take drop
take-append-drop zero s = refl
take-append-drop (suc n) [] = refl
take-append-drop (suc n) (c ∷ s) = ap (λ t. c ∷ t) (take-append-drop n s)

pub length-take : (n : ℕ) (s : List ℕ) → n ≤ length s → length (take n s) ≡ n
unfolding take
length-take zero s h = refl
length-take (suc n) [] h = elim h [ ]
length-take (suc n) (c ∷ s) h = omega (arith, length-take n s (omega arith))

pub all-take : (p : ℕ → Bool) (n : ℕ) (s : List ℕ) → all p s ≡ true → all p (take n s) ≡ true
unfolding take
all-take p zero s h = refl
all-take p (suc n) [] h = refl
all-take p (suc n) (c ∷ s) h = ground (arith, all-take p n s)

pub all-drop : (p : ℕ → Bool) (n : ℕ) (s : List ℕ) → all p s ≡ true → all p (drop n s) ≡ true
unfolding drop
all-drop p zero s h = h
all-drop p (suc n) [] h = refl
all-drop p (suc n) (c ∷ s) h = all-drop p n s (ground arith)

all-unless_last :
    (p drops : ℕ → Bool) (c : ℕ) (s : List ℕ)
    → p c ≡ true
    → all p s ≡ true
    → all p (unless_last drops c s) ≡ true
all-unless_last p drops c [] h k = ground arith
all-unless_last p drops c (d ∷ r) h k = ground arith

pub all-strip_zeros : (p : ℕ → Bool) (s : List ℕ) → all p s ≡ true → all p (strip_zeros s) ≡ true
unfolding strip_zeros
all-strip_zeros p [] h = refl
all-strip_zeros p (c ∷ s) h =
    all-unless_last p (λ d. d == b'0') c (strip_zeros s) (ground arith)
      (all-strip_zeros p s (ground arith))

strip_step :
    (c k : ℕ) (t : List ℕ)
    → (j : ℕ) × (unless_last (λ d. d == b'0') c t ++ zeros j ≡ c ∷ (t ++ zeros k))
unfolding zeros
strip_step c k (d ∷ r) = (k, refl)
strip_step c k [] = elim (Bool-cases (c == b'0')) [
  | inl nought ↦ (suc k, rw nought (ground arith))
  | inr other ↦ (k, rw other refl)
]

-- What is stripped is put back by zeros.
pub strip_zeros-append-zeros : (s : List ℕ) → (k : ℕ) × (strip_zeros s ++ zeros k ≡ s)
unfolding strip_zeros zeros
strip_zeros-append-zeros [] = (0, refl)
strip_zeros-append-zeros (c ∷ s) =
    let (k, e) = strip_zeros-append-zeros s in
    let (j, f) = strip_step c k (strip_zeros s) in (j, f ∙ ap (λ t. c ∷ t) e)
