-- ===== src/Engine/Protocol/Crashes.antt =====
-- What a crash in the middle of `execute` of packages/engine/src/run.ts leaves behind: the log up to
-- there, and the row that was written last.
use corridor_in_a_box.Base.{
  ℕ, zero, suc, ◌≤◌, ◌≡◌, ◌⊎◌, inl, inr, refl, Bool, true, false, Option, none, some, List, [], ◌∷◌,
  ◌++◌, arith, orelse, if◌then◌else◌, Bool-cases,
}
use corridor_in_a_box.State.{CorridorState, settling}
use corridor_in_a_box.Engine.{Effect}
use corridor_in_a_box.Engine.Protocol.{
  is_committed, row_of, last_row, is_payment, payments, expose, forgets, unsaved, exposed,
}

-- After so many payments, the row that was written last does not hide one.
abbrev pub Shows : ℕ → Option CorridorState → Type 0
Shows m row = (m ≡ 0) ⊎ ((s : CorridorState) × (row ≡ some s) × (is_committed s ≡ true))

-- Whenever a call is cut off behind an effect, so that what it did after it is lost, the row that had
-- been written before that effect does not hide the payments made up to it.
abbrev pub IsSaved : List Effect → Type 0
IsSaved [] = Unit
IsSaved (e ∷ log) = Shows (payments (e ∷ log)) (last_row log) × IsSaved log

expose-Shows : (m n : ℕ) (row : Option CorridorState) → expose row n ≡ 0 → (n ≡ 0) × Shows m row
expose-Shows m n none h = absurd (omega (arith, h))
expose-Shows m n (some settling) h = (h, inr (settling, refl, refl))
expose-Shows m n (some s) h = absurd (omega (arith, h))

paying :
    (b : Bool) (m n : ℕ) (row : Option CorridorState)
    → (if b then expose row n else n) ≡ 0
    → (n ≡ 0 → Shows m row)
    → (n ≡ 0) × Shows (if b then suc m else m) row
paying true m n row h ih = expose-Shows (suc m) n row h
paying false m n row h ih = (h, ih h)

forgets-Shows : (m n : ℕ) (s : CorridorState) → forgets m s n ≡ 0 → (n ≡ 0) × Shows m (some s)
forgets-Shows zero n s h = (h, inl refl)
forgets-Shows (suc m) n s h = elim (Bool-cases (is_committed s)) [
  | inl c ↦ (rw c at h, inr (s, refl, c))
  | inr u ↦ absurd (let k = rw u at h in omega (arith, k))
]

writing :
    (r : Option CorridorState) (m n : ℕ) (row : Option CorridorState)
    → unsaved r m n ≡ 0
    → (n ≡ 0 → Shows m row)
    → (n ≡ 0) × Shows m (orelse r row)
writing none m n row h ih = (h, ih h)
writing (some s) m n row h ih = forgets-Shows m n s h

writing_zero : (r : Option CorridorState) (m n : ℕ) → unsaved r m n ≡ 0 → n ≡ 0
writing_zero none m n h = h
writing_zero (some s) m n h = (forgets-Shows m n s h).0

-- A log that exposes nothing shows its payments at every moment.
pub exposed-IsSaved :
    (log : List Effect) → exposed log ≡ 0 → IsSaved log × Shows (payments log) (last_row log)
exposed-IsSaved [] h = (tt, inl refl)
exposed-IsSaved (e ∷ log) h =
    let k = writing_zero (row_of e) (payments (e ∷ log)) _ h in
    let p =
      paying (is_payment e) (payments log) (exposed log) (last_row log) k
        (λ z. (exposed-IsSaved log z).1) in
    (
      (p.1, (exposed-IsSaved log p.0).0),
      (writing (row_of e) (payments (e ∷ log)) _ (last_row log) h (λ z. p.1)).1,
    )

pub IsSaved-cut :
    (later earlier : List Effect) (e : Effect)
    → IsSaved (later ++ e ∷ earlier)
    → Shows (payments (e ∷ earlier)) (last_row earlier)
IsSaved-cut [] earlier e h = h.0
IsSaved-cut (x ∷ later) earlier e h = IsSaved-cut later earlier e h.1

one_more : (b : Bool) (m n : ℕ) → m ≤ n → m ≤ (if b then suc n else n)
one_more true m n h = omega (arith, h)
one_more false m n h = h

pub payments-cut : (later log : List Effect) → payments log ≤ payments (later ++ log)
payments-cut [] log = omega arith
payments-cut (x ∷ later) log =
    one_more (is_payment x) (payments log) (payments (later ++ log)) (payments-cut later log)
