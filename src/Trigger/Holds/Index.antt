-- ===== src/Trigger/Holds/Index.antt =====
-- holdIndex (internal/trigger/evaluator.go) over a sequence of ticks.
use nut_operator.Prelude.{◌≡◌, inl, inr, List, [], ◌∷◌, All, some, is_empty, Bool-cases, ◌||◌}
use mathlib.Core.Path.{subst}
use nut_operator.Text.{Text, text_eq, trim_space}
use nut_operator.Text.Laws.{text_eq→eq}
use nut_operator.Text.Maps.{lookup, insert, lookup-insert}
use nut_operator.Trigger.Inputs.{HoldState, Inputs, hold_key, add_hold, hold_index_from}
use nut_operator.Trigger.Holds.{HeldSince, IsTrue}

-- Every hold of the index was true since it began.
abbrev pub IndexTrue : List Inputs → List (Text × HoldState) → Type 0
IndexTrue past index =
    (key : Text) (h : HoldState) → lookup key index ≡ some h → HeldSince key h.started_at past

insert-IndexTrue :
    (past : List Inputs) (index : List (Text × HoldState)) (key : Text) (h : HoldState)
    → HeldSince key h.started_at past
    → IndexTrue past index
    → IndexTrue past (insert key h index)
insert-IndexTrue past index key h held all j h' e = elim (Bool-cases (text_eq key j)) [
  | inl same ↦
      let e' = rw (lookup-insert key j h index, same) at e in
      let key_eq = text_eq→eq key j same in
      subst (λ k. HeldSince k h'.started_at past) key_eq
        (subst (λ (x : HoldState). HeldSince key x.started_at past) (some_inj h h' e') held)
  | inr other ↦ all j h' (rw (lookup-insert key j h index, other) at e)
]
  where
    some_inj : (a b : HoldState) → some a ≡ some b → a ≡ b
    some_inj a b p = cc

add_hold-IndexTrue :
    (past : List Inputs) (index : List (Text × HoldState)) (x : HoldState)
    → IsTrue past x
    → IndexTrue past index
    → IndexTrue past (add_hold index x)
unfolding add_hold
add_hold-IndexTrue past index x h all =
    let tid = trim_space x.trigger_id in
    let device = trim_space x.ups_device in
    elim (Bool-cases (is_empty tid || is_empty device)) [
      | inl blank ↦ rw blank all
      | inr named ↦ rw named (
          insert-IndexTrue past index (hold_key tid device)
            (record x { trigger_id = tid; ups_device = device }) h all)
    ]

pub hold_index_from-IndexTrue :
    (past : List Inputs) (index : List (Text × HoldState)) (hs : List HoldState)
    → IndexTrue past index
    → All (IsTrue past) hs
    → IndexTrue past (hold_index_from index hs)
unfolding hold_index_from
hold_index_from-IndexTrue past index [] all h = all
hold_index_from-IndexTrue past index (x ∷ xs) all h =
    hold_index_from-IndexTrue past (add_hold index x) xs (add_hold-IndexTrue past index x h.0 all)
      h.1
