-- ===== src/Trigger/Holds/Scan.antt =====
-- The loop of evaluateTrigger (internal/trigger/evaluator.go) over one trigger's candidates.
use nut_operator.Prelude.{
  true, ◌≡◌, refl, ◌⊎◌, inl, inr, List, [], ◌∷◌, ◌++◌, arith, All, All-append, All-of_mem,
  mem-of_All, Option, none, some, Bool-cases, if◌then◌else◌,
}
use nut_operator.Prelude.Int.{pos, ◌+ℤ◌, ◌≤ℤ◌}
use mathlib.Core.List.{Memᴰ}
use nut_operator.Text.{Text}
use nut_operator.Text.Maps.{lookup}
use nut_operator.Trigger.Inputs.{
  Trigger, UpsState, HoldState, Inputs, normalize_ups_states, hold_key, hold_index,
}
use nut_operator.Trigger.Evaluator.{
  trigger_matches_state, select_ups_states, Scan, empty_scan, started_or, started, is_due, visit,
  scan_all,
}
use nut_operator.Trigger.Holds.{numbered, Holding, HeldSince, begins, continues, Kept, IsTrue}
use nut_operator.Trigger.Holds.Trimmed.{IsTrimmed, states-IsTrimmed, select-All}
use nut_operator.Trigger.Holds.Index.{IndexTrue, hold_index_from-IndexTrue}

module _ (i : Inputs) (past : List Inputs) (true_before : All (IsTrue past) i.holds) where
  abbrev pub index : List (Text × HoldState)
  index = hold_index i.holds

  index-IndexTrue : IndexTrue past index
  unfolding hold_index
  index-IndexTrue =
      hold_index_from-IndexTrue past [] i.holds (λ k h e. unfold lookup in cc) true_before

  -- What a scan may have gathered.
  pub record IsSound (scan : Scan) : Type 0 where
    pub holds_true : All (IsTrue (i ∷ past)) scan.next_holds
    pub kept_devices : All (Kept i past) scan.selected

  started-HeldSince :
      (t : Trigger) (s : UpsState)
      → Holding i (hold_key t.id s.ups_device)
      → HeldSince (hold_key t.id s.ups_device) (started i.observed_at t index s) (i ∷ past)
  started-HeldSince t s h = go (lookup (hold_key t.id s.ups_device) index) refl
    where
      go :
          (o : Option HoldState)
          → lookup (hold_key t.id s.ups_device) index ≡ o
          → HeldSince (hold_key t.id s.ups_device) (started_or o i.observed_at) (i ∷ past)
      go none e = begins i past refl h
      go (some x) e = continues i past h (index-IndexTrue (hold_key t.id s.ups_device) x e)

  module _ (t : Trigger) (configured : Memᴰ t (numbered 0 i.triggers))
      (trimmed : IsTrimmed t.id) where
    -- A candidate of the trigger.
    pub record IsCandidate (s : UpsState) : Type 0 where
      pub chosen : Memᴰ s (select_ups_states t (normalize_ups_states i.ups_states))
      pub device_trimmed : IsTrimmed s.ups_device

    candidate-Holding :
        (s : UpsState)
        → IsCandidate s
        → (trigger_matches_state t s).0 ≡ true
        → Holding i (hold_key t.id s.ups_device)
    candidate-Holding s c m = record {
      trigger = t;
      state = s;
      configured = configured;
      chosen = c.chosen;
      matches = m;
      keyed = refl;
    }

    is_due_lem :
        (s : UpsState)
        → is_due i.observed_at t index s ≡ true
        → (t.hold_for ≤ℤ pos 0) ⊎ (started i.observed_at t index s +ℤ t.hold_for ≤ℤ i.observed_at)
    is_due_lem s d = ground arith

    candidate-Kept :
        (s : UpsState)
        → IsCandidate s
        → (trigger_matches_state t s).0 ≡ true
        → is_due i.observed_at t index s ≡ true
        → Kept i past s.ups_device
    candidate-Kept s c m d = record {
      trigger = t;
      start = started i.observed_at t index s;
      configured = configured;
      held = started-HeldSince t s (candidate-Holding s c m);
      long_enough = is_due_lem s d;
    }

    new_hold-IsTrue :
        (s : UpsState)
        → IsCandidate s
        → (trigger_matches_state t s).0 ≡ true
        → IsTrue (i ∷ past) (record {
          trigger_id = t.id;
          ups_device = s.ups_device;
          started_at = started i.observed_at t index s;
        })
    new_hold-IsTrue s c m =
        rw (trimmed, c.device_trimmed) (started-HeldSince t s (candidate-Holding s c m))

    selected-Kept :
        (scan : Scan) (s : UpsState)
        → IsCandidate s
        → (trigger_matches_state t s).0 ≡ true
        → IsSound scan
        → All (Kept i past) (
            if is_due i.observed_at t index s
            then scan.selected ++ s.ups_device ∷ []
            else scan.selected)
    selected-Kept scan s c m h = elim (Bool-cases (is_due i.observed_at t index s)) [
      | inl d ↦ rw d (
          All-append (Kept i past) scan.selected (s.ups_device ∷ []) h.kept_devices
            (candidate-Kept s c m d, tt))
      | inr d ↦ rw d h.kept_devices
    ]

    visit-IsSound :
        (scan : Scan) (s : UpsState)
        → IsCandidate s
        → IsSound scan
        → IsSound (visit i.observed_at t index scan s)
    unfolding visit
    visit-IsSound scan s c h = elim (Bool-cases (trigger_matches_state t s).0) [
      | inr none_new ↦
          rw none_new (record { holds_true = h.holds_true; kept_devices = h.kept_devices })
      | inl m ↦ rw m (record {
        holds_true =
            All-append (IsTrue (i ∷ past)) scan.next_holds _ h.holds_true
              (new_hold-IsTrue s c m, tt);
        kept_devices = selected-Kept scan s c m h;
      })
    ]

    pub scan_all-IsSound :
        (scan : Scan) (ss : List UpsState)
        → All IsCandidate ss
        → IsSound scan
        → IsSound (scan_all i.observed_at t index scan ss)
    unfolding scan_all
    scan_all-IsSound scan [] cs h = h
    scan_all-IsSound scan (s ∷ ss) cs h =
        scan_all-IsSound (visit i.observed_at t index scan s) ss cs.1 (visit-IsSound scan s cs.0 h)

    candidates : All IsCandidate (select_ups_states t (normalize_ups_states i.ups_states))
    candidates =
        All-of_mem IsCandidate (select_ups_states t (normalize_ups_states i.ups_states)) λ s m.
          record {
            chosen = m;
            device_trimmed =
                mem-of_All (λ (x : UpsState). IsTrimmed x.ups_device) s _
                  (select-All (λ x. IsTrimmed x.ups_device) t _ (states-IsTrimmed i.ups_states)) m;
          }

    -- The scan over all candidates of a trigger.
    pub scan-IsSound : IsSound (
        scan_all i.observed_at t index empty_scan
          (select_ups_states t (normalize_ups_states i.ups_states)))
    scan-IsSound =
        scan_all-IsSound empty_scan (select_ups_states t (normalize_ups_states i.ups_states))
          candidates (record { holds_true = tt; kept_devices = tt })
