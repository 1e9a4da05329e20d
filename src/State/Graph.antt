-- ===== src/State/Graph.antt =====
-- The transition table of packages/engine/src/state.ts as a graph: walks, what a settled payment
-- can still reach, and how long a walk can be.
use corridor_in_a_box.Base.{
  ℕ, ◌+◌, ◌*◌, ◌≤◌, ◌≡◌, refl, ◌≢◌, Bool, true, false, not, List, [], ◌∷◌, ◌++◌, length, arith, suc,
  if◌then◌else◌,
}
use corridor_in_a_box.State.{
  CorridorState, created, quoted, compliant, opened, funding, funded, verifying, settling, retrying,
  settled, reconciled, completed, recovering, refund_pending, refunded, held, failed, is,
  can_transition, is_terminal,
}

-- A list of states that follows the table, from `s`.
abbrev pub IsWalk : CorridorState → List CorridorState → Type 0
IsWalk s [] = Unit
IsWalk s (t ∷ ts) = (can_transition s t ≡ true) × IsWalk t ts

-- Where a walk from `s` ends.
abbrev pub end_of : CorridorState → List CorridorState → CorridorState
end_of s [] = s
end_of s (t ∷ ts) = end_of t ts

pub IsWalk-snoc :
    (s t : CorridorState) (ts : List CorridorState)
    → IsWalk s ts
    → can_transition (end_of s ts) t ≡ true
    → IsWalk s (ts ++ t ∷ [])
IsWalk-snoc s t [] w h = (h, tt)
IsWalk-snoc s t (u ∷ us) w h = (w.0, IsWalk-snoc u t us w.1 h)

pub end_of-snoc : (s t : CorridorState) (ts : List CorridorState) → end_of s (ts ++ t ∷ []) ≡ t
end_of-snoc s t [] = refl
end_of-snoc s t (u ∷ us) = end_of-snoc u t us

-- Money may have left: `settled` and whatever lies beyond it.
abbrev pub is_past_settle : CorridorState → Bool
is_past_settle settled = true
is_past_settle reconciled = true
is_past_settle completed = true
is_past_settle recovering = true
is_past_settle refund_pending = true
is_past_settle refunded = true
is_past_settle held = true
is_past_settle failed = true
is_past_settle _ = false

past_settle-step :
    (s t : CorridorState)
    → is_past_settle s ≡ true
    → can_transition s t ≡ true
    → is_past_settle t ≡ true
unfolding can_transition
past_settle-step settled t p h = ground arith
past_settle-step s t p h = ground arith

past_settle-walk :
    (s : CorridorState) (ts : List CorridorState)
    → is_past_settle s ≡ true
    → IsWalk s ts
    → is_past_settle (end_of s ts) ≡ true
past_settle-walk s [] p w = p
past_settle-walk s (t ∷ ts) p w = past_settle-walk t ts (past_settle-step s t p w.0) w.1

-- From `settled`, `recovering` or any state that lies beyond settlement, no walk leads to
-- `settling`.
pub settling_unreachable :
    (s : CorridorState) (ts : List CorridorState)
    → is_past_settle s ≡ true
    → IsWalk s ts
    → end_of s ts ≢ settling
settling_unreachable s ts p w e = cc (past_settle-walk s ts p w)

-- A state has no successor exactly when it is terminal, and every other state may fail.
pub can_transition-failed : (s : CorridorState) → can_transition s failed ≡ not (is_terminal s)
unfolding can_transition is_terminal
can_transition-failed created = refl
can_transition-failed s = refl

pub terminal_absorbs : (s t : CorridorState) → is_terminal s ≡ true → can_transition s t ≡ false
unfolding can_transition is_terminal
terminal_absorbs created t h = cc
terminal_absorbs s t h = ground arith

rank : CorridorState → ℕ
rank created = 12
rank quoted = 11
rank compliant = 10
rank opened = 9
rank funding = 8
rank funded = 7
rank verifying = 6
rank settling = 5
rank retrying = 7
rank settled = 4
rank reconciled = 3
rank recovering = 2
rank refund_pending = 1
rank _ = 0

abbrev pub retries : List CorridorState → ℕ
retries [] = 0
retries (t ∷ ts) = if is t retrying then suc (retries ts) else retries ts

rank-step :
    (s t : CorridorState)
    → can_transition s t ≡ true
    → suc (rank t) ≤ rank s + (if is t retrying then 3 else 0)
unfolding can_transition rank
rank-step created t h = ground arith
rank-step s t h = ground arith

walk_bound :
    (s : CorridorState) (ts : List CorridorState)
    → IsWalk s ts
    → length ts + rank (end_of s ts) ≤ rank s + 3 * retries ts
walk_bound s [] w = omega arith
walk_bound s (t ∷ ts) w = ground (arith, rank-step s t w.0, walk_bound t ts w.1)

-- A payment that retries its settle leg `k` times passes at most 12 + 3k further states.
pub walk_length : (ts : List CorridorState) → IsWalk created ts → length ts ≤ 12 + 3 * retries ts
unfolding rank
walk_length ts w = omega (arith, walk_bound created ts w)
