-- ===== src/State.antt =====
-- packages/engine/src/state.ts: the states of a payment and the table of legal transitions.
pub mod Graph
use corridor_in_a_box.Base.{ℕ, Bool, List, [], ◌∷◌, any, ◌==◌}

pub data CorridorState : Type 0 where
  created quoted compliant opened funding funded verifying settling retrying : CorridorState
  settled reconciled completed recovering refund_pending refunded held failed : CorridorState

-- The position in `ALL_STATES`, by which two states are compared.
abbrev pub position : CorridorState → ℕ
position created = 0
position quoted = 1
position compliant = 2
position opened = 3
position funding = 4
position funded = 5
position verifying = 6
position settling = 7
position retrying = 8
position settled = 9
position reconciled = 10
position completed = 11
position recovering = 12
position refund_pending = 13
position refunded = 14
position held = 15
position failed = 16

-- `===` on states.
abbrev pub is : CorridorState → CorridorState → Bool
is s t = position s == position t

-- `NEXT`.
unfoldable pub next : CorridorState → List CorridorState
next created = quoted ∷ failed ∷ []
next quoted = compliant ∷ recovering ∷ failed ∷ []
next compliant = opened ∷ recovering ∷ failed ∷ []
next opened = funding ∷ verifying ∷ recovering ∷ failed ∷ []
next funding = funded ∷ recovering ∷ failed ∷ []
next funded = verifying ∷ recovering ∷ failed ∷ []
next verifying = settling ∷ recovering ∷ failed ∷ []
next settling = settled ∷ retrying ∷ recovering ∷ failed ∷ []
next retrying = verifying ∷ recovering ∷ failed ∷ []
next settled = reconciled ∷ recovering ∷ failed ∷ []
next reconciled = completed ∷ failed ∷ []
next completed = []
next recovering = refund_pending ∷ refunded ∷ held ∷ failed ∷ []
next refund_pending = refunded ∷ held ∷ failed ∷ []
next refunded = []
next held = []
next failed = []

unfoldable pub can_transition : CorridorState → CorridorState → Bool
unfolding next
can_transition from to = any (is to) (next from)

abbrev terminal : List CorridorState
terminal = completed ∷ refunded ∷ held ∷ failed ∷ []

unfoldable pub is_terminal : CorridorState → Bool
is_terminal s = any (is s) terminal
