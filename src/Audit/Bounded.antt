-- ===== src/Audit/Bounded.antt =====
-- internal/audit/bounded.go: the bound on each database call, and the latch that a timeout opens.
-- The database is what each call answers. The calls of one reconcile follow one another.
use nut_operator.Prelude.{
  ℕ, ◌+◌, ◌≤◌, Bool, true, false, not, ◌&&◌, List, [], ◌∷◌, ◌++◌, Option, none, some, if◌then◌else◌,
  ◌≡◌, refl, arith, Bool-cases, if_both, inl, inr, ◌⊎◌,
}
use nut_operator.Prelude.Int.{ℤ, pos, leb_ℤ}
use nut_operator.Text.{Text}

pub data CallError : Type 0 where
  store_error : Text → CallError
  context_done : CallError

-- What the latch holds is the joined errors of the call that opened it.
pub record BoundedStore : Type 0 where
  pub limit : ℤ
  pub failure : Option (List CallError)

unfoldable pub new_bounded_store : Bool → ℤ → Option BoundedStore
new_bounded_store has_store limit =
    if not has_store
    then none
    else if leb_ℤ limit (pos 0)
    then none
    else some (record { limit = limit; failure = none })

-- A call: whether the caller's context is done before it, whether the bounded context is done after
-- it, and what the database answers in between.
pub record StoreCall : Type 0 where
  pub done_before : Bool
  pub done_after : Bool
  pub answer : Option Text

-- `begin`: what keeps the call from the database.
pub data Refusal : Type 0 where
  latched : List CallError → Refusal
  canceled : Refusal

unfoldable pub begin : BoundedStore → StoreCall → Option Refusal
begin s c = elim s.failure [
  | some cause ↦ some (latched cause)
  | none ↦ if c.done_before then some canceled else none
]

abbrev pub answer_errors : Option Text → List CallError
answer_errors none = []
answer_errors (some why) = store_error why ∷ []

abbrev pub latch : List CallError → BoundedStore → BoundedStore
latch errors s = elim s.failure [ some old ↦ s | none ↦ record s { failure = some errors } ]

-- `finish`: the errors of the call, and the latch.
unfoldable pub finish : BoundedStore → StoreCall → List CallError × BoundedStore
finish s c =
    let errors = answer_errors c.answer in
    if c.done_after
    then (errors ++ context_done ∷ [], latch (errors ++ context_done ∷ []) s)
    else (errors, s)

-- One method of the store: what it answers, and the store afterwards.
pub data Answer : Type 0 where
  refused : Refusal → Answer
  reached : List CallError → Answer

unfoldable pub bounded_call : BoundedStore → StoreCall → Answer × BoundedStore
unfolding begin finish
bounded_call s c = elim (begin s c) [
  | some r ↦ (refused r, s)
  | none ↦ let (errors, next) = finish s c in (reached errors, next)
]

abbrev pub has_reached : Answer → Bool
has_reached (refused r) = false
has_reached (reached errors) = true

-- The calls that reached the database and were still there when their time was over.
unfoldable pub spent : List StoreCall → BoundedStore → ℕ
unfolding bounded_call
spent [] s = 0
spent (c ∷ cs) s =
    let (answer, next) = bounded_call s c in
    (if has_reached answer && c.done_after then 1 else 0) + spent cs next

abbrev HasOpened : BoundedStore → Type 0
HasOpened s = (cause : List CallError) × (s.failure ≡ some cause)

opened_call :
    (s : BoundedStore) (c : StoreCall)
    → HasOpened s
    → (has_reached (bounded_call s c).0 ≡ false) × ((bounded_call s c).1 ≡ s)
unfolding bounded_call begin
opened_call s c (cause, h) = ground arith

pub opened_spent : (cs : List StoreCall) (s : BoundedStore) → HasOpened s → spent cs s ≡ 0
unfolding spent
opened_spent [] s h = refl
opened_spent (c ∷ cs) s h =
    let (unreached, same) = opened_call s c h in
    rw (unreached, same) (omega (arith, opened_spent cs s h))

open_call :
    (s : BoundedStore) (c : StoreCall)
    → s.failure ≡ none
    → (((bounded_call s c).1.failure ≡ none)
        × ((has_reached (bounded_call s c).0 && c.done_after) ≡ false))
      ⊎ HasOpened (bounded_call s c).1
unfolding bounded_call begin finish
open_call s c h = elim (Bool-cases c.done_before) [
  | inl e ↦ inl (ground arith)
  | inr e ↦ elim (Bool-cases c.done_after) [
    | inl f ↦ inr (answer_errors c.answer ++ context_done ∷ [], ground arith)
    | inr f ↦ inl (ground arith)
  ]
]

-- From a store whose latch is shut, over any calls one after another: no more than one of them
-- reaches the database and is still there when its time is over.
pub spent_bound : (cs : List StoreCall) (s : BoundedStore) → s.failure ≡ none → spent cs s ≤ 1
unfolding spent
spent_bound [] s h = omega arith
spent_bound (c ∷ cs) s h = elim (open_call s c h) [
  | inl (still, unspent) ↦ rw unspent (omega (arith, spent_bound cs (bounded_call s c).1 still))
  | inr opened ↦ rw (opened_spent cs (bounded_call s c).1 opened) (
      if_both (λ (n : ℕ). n + 0 ≤ 1) (has_reached (bounded_call s c).0 && c.done_after) 1 0
        (omega arith) (omega arith))
]
