-- ===== src/HaltWatch/Nodes.antt =====
-- internal/haltwatch/node.go: when a node was last alive, by its Ready condition.
use nut_operator.Prelude.{Bool, false, List, [], ◌∷◌, Option, none, some, if◌then◌else◌}
use nut_operator.Prelude.Int.{ℤ, pos, ltb_ℤ, eq_ℤ}
use nut_operator.Text.{Text, codes, text_eq}

-- What of a node's condition is read.
pub record Condition : Type 0 where
  pub kind : Text
  pub status : Text
  pub heartbeat : ℤ
  pub transition : ℤ

-- The conditions of a node, or none where there is no node.
unfoldable ready_in : List Condition → Option Condition
ready_in [] = none
ready_in (c ∷ cs) =
    let rest = ready_in cs in if text_eq c.kind (codes "Ready") then some c else rest

unfoldable ready_condition : Option (List Condition) → Option Condition
unfolding ready_in
ready_condition none = none
ready_condition (some cs) = ready_in cs

unfoldable pub reporting : Option (List Condition) → Bool
unfolding ready_condition
reporting node = elim (ready_condition node) [
  | none ↦ false
  | some c ↦ text_eq c.status (codes "True")
]

-- The zero time where the node has no Ready condition.
unfoldable pub last_alive_at : Option (List Condition) → ℤ
unfolding ready_condition
last_alive_at node = elim (ready_condition node) [
  | none ↦ pos 0
  | some c ↦
      if eq_ℤ c.heartbeat (pos 0)
      then c.transition
      else if eq_ℤ c.transition (pos 0)
      then c.heartbeat
      else if ltb_ℤ c.heartbeat c.transition
      then c.heartbeat
      else c.transition
]
