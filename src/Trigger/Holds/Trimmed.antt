-- ===== src/Trigger/Holds/Trimmed.antt =====
-- holdKey (internal/trigger/evaluator.go): the trimmed names of which a hold's key is made.
use nut_operator.Prelude.{
  ℕ, ◌≡◌, refl, ◌∙◌, ap, List, [], ◌∷◌, ◌++◌, map, arith, All, is_empty, Bool-cases, inl, inr,
}
use nut_operator.Text.{
  Text, codes, is_space, trim_left, trim_right, trim_space, lower, three_digits,
}
use nut_operator.Text.Laws.{trim_space_idem, trim_right-lower, trim_right-append, trim_right_idem}
use nut_operator.Text.Sorting.{sort_by-All}
use nut_operator.Trigger.Inputs.{
  Trigger, UpsState, default_id, normalize_trigger, named_states, normalize_ups_states, device_lt,
  string_set,
}
use nut_operator.Trigger.Evaluator.{keep, select_ups_states}

abbrev pub IsTrimmed : Text → Type 0
IsTrimmed t = trim_space t ≡ t

-- A dash and a trimmed class end in no blank.
dashed :
    (class : Text)
    → trim_right (45 ∷ map lower (trim_space class)) ≡ 45 ∷ map lower (trim_space class)
unfolding trim_right trim_space is_space
dashed class =
    ap (λ t. 45 ∷ t)
      (trim_right-lower (trim_space class) ∙ ap (map lower) (trim_right_idem (trim_left class)))

default_id-IsTrimmed : (index : ℕ) (class : Text) → IsTrimmed (default_id index (trim_space class))
unfolding trim_space trim_left is_space
default_id-IsTrimmed index class =
    ap (λ t. codes "trigger-" ++ t)
      (trim_right-append (three_digits index) (45 ∷ map lower (trim_space class)) (dashed class)
        refl).0

pub normalize_trigger-IsTrimmed :
    (index : ℕ) (t : Trigger) → IsTrimmed (normalize_trigger index t).id
unfolding normalize_trigger
normalize_trigger-IsTrimmed index t = elim (Bool-cases (is_empty (trim_space t.id))) [
  | inl e ↦ rw e (default_id-IsTrimmed index t.class)
  | inr e ↦ rw e (trim_space_idem t.id)
]

named_states-IsTrimmed : (ss : List UpsState) → All (λ s. IsTrimmed s.ups_device) (named_states ss)
unfolding named_states
named_states-IsTrimmed [] = tt
named_states-IsTrimmed (s ∷ ss) =
    ground (arith, trim_space_idem s.ups_device, named_states-IsTrimmed ss)

pub states-IsTrimmed :
    (ss : List UpsState) → All (λ s. IsTrimmed s.ups_device) (normalize_ups_states ss)
unfolding normalize_ups_states
states-IsTrimmed ss =
    sort_by-All device_lt (λ s. IsTrimmed s.ups_device) (named_states ss)
      (named_states-IsTrimmed ss)

module _ (P : UpsState → Type 0) where
  keep-All : (ds ms : List Text) (ss : List UpsState) → All P ss → All P (keep ds ms ss)
  unfolding keep
  keep-All ds ms [] h = tt
  keep-All ds ms (s ∷ ss) h = ground (arith, keep-All ds ms ss h.1)

  pub select-All : (t : Trigger) (ss : List UpsState) → All P ss → All P (select_ups_states t ss)
  unfolding select_ups_states
  select-All t ss h =
      ground (arith, keep-All (string_set t.ups_devices) (string_set t.power_domains) ss h)
