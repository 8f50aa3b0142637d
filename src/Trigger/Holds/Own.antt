-- ===== src/Trigger/Holds/Own.antt =====
-- holdKey (internal/trigger/evaluator.go): where the configuration stays and its triggers' IDs are
-- distinct and have no NUL, a hold's key stands for one trigger and one device.
use nut_operator.Prelude.{
  true, false, ◌≡◌, ◌∙◌, sym, ap, List, [], ◌∷◌, map, arith, All, mem-of_All,
}
use nut_operator.Prelude.Int.{ℤ}
use mathlib.Core.List.{Memᴰ}
use mathlib.Core.Path.{subst}
use nut_operator.Text.{Text}
use nut_operator.Text.Laws.{has_code, cut_at, text_eq_refl}
use nut_operator.Text.Maps.{contains, are_distinct}
use nut_operator.Trigger.Inputs.{Trigger, Inputs, hold_key, normalize_ups_states}
use nut_operator.Trigger.Evaluator.{trigger_matches_state, select_ups_states}
use nut_operator.Trigger.Holds.{
  numbered, Holding, HeldSince, begins, continues, Kept, Met, MetSince, begins_at, goes_on,
  Justified,
}

-- The IDs of the triggers as the evaluator reads them.
abbrev pub trigger_ids : List Trigger → List Text
trigger_ids ts = map (λ (t : Trigger). t.id) ts

id_of_mem : (t : Trigger) (ts : List Trigger) → Memᴰ t ts → contains (trigger_ids ts) t.id ≡ true
unfolding contains
id_of_mem t [] m = elim m [ ]
id_of_mem t (u ∷ ts) (Memᴰ.head e) = ground (arith, text_eq_refl t.id, ap (λ (x : Trigger). x.id) e)
id_of_mem t (u ∷ ts) (Memᴰ.tail m) = ground (arith, id_of_mem t ts m)

-- Triggers with one ID are the same one.
one_trigger :
    (t u : Trigger) (ts : List Trigger)
    → are_distinct (trigger_ids ts) ≡ true
    → t.id ≡ u.id
    → Memᴰ t ts
    → Memᴰ u ts
    → t ≡ u
one_trigger t u [] h e m k = elim m [ ]
one_trigger t u (x ∷ ts) h e (Memᴰ.head p) (Memᴰ.head q) = p ∙ sym q
one_trigger t u (x ∷ ts) h e (Memᴰ.head p) (Memᴰ.tail k) =
    absurd (ground (arith, h, e, ap (λ (y : Trigger). y.id) p, id_of_mem u ts k))
one_trigger t u (x ∷ ts) h e (Memᴰ.tail m) (Memᴰ.head q) =
    absurd (ground (arith, h, e, ap (λ (y : Trigger). y.id) q, id_of_mem t ts m))
one_trigger t u (x ∷ ts) h e (Memᴰ.tail m) (Memᴰ.tail k) =
    one_trigger t u ts (ground (arith, h)) e m k

module _ (ts : List Trigger)
    (plain : All (λ (t : Trigger). has_code 0 t.id ≡ false) (numbered 0 ts))
    (distinct : are_distinct (trigger_ids (numbered 0 ts)) ≡ true) where
  -- Each tick has this configuration.
  abbrev pub IsConfigured : Inputs → Type 0
  IsConfigured i = i.triggers ≡ ts

  Holding-Met :
      (t : Trigger) (device : Text) (i : Inputs)
      → Memᴰ t (numbered 0 ts)
      → IsConfigured i
      → Holding i (hold_key t.id device)
      → Met t device i
  Holding-Met t device i m same h =
      let there : Memᴰ h.trigger (numbered 0 ts) = rw same at h.configured in
      let (one_id, one_device) =
        cut_at 0 h.trigger.id t.id h.state.ups_device device
          (mem-of_All (λ (u : Trigger). has_code 0 u.id ≡ false) h.trigger _ plain there)
          (mem-of_All (λ (u : Trigger). has_code 0 u.id ≡ false) t _ plain m) h.keyed in
      let own : h.trigger ≡ t = one_trigger h.trigger t (numbered 0 ts) distinct one_id there m in
      record {
        configured = subst (λ (u : Trigger). Memᴰ u (numbered 0 i.triggers)) own h.configured;
        state = h.state;
        chosen =
            subst
              (λ (u : Trigger).
                Memᴰ h.state (select_ups_states u (normalize_ups_states i.ups_states)))
              own h.chosen;
        named = one_device;
        matches = subst (λ (u : Trigger). (trigger_matches_state u h.state).0 ≡ true) own h.matches;
      }

  HeldSince-MetSince :
      (t : Trigger) (device : Text) (start : ℤ) (past : List Inputs)
      → Memᴰ t (numbered 0 ts)
      → All IsConfigured past
      → HeldSince (hold_key t.id device) start past
      → MetSince t device start past
  HeldSince-MetSince t device start [] m same h = elim h [ ]
  HeldSince-MetSince t device start (i ∷ past) m same (begins _ _ at h) =
      begins_at i past at (Holding-Met t device i m same.0 h)
  HeldSince-MetSince t device start (i ∷ past) m same (continues _ _ h since) =
      goes_on i past (Holding-Met t device i m same.0 h)
        (HeldSince-MetSince t device start past m same.1 since)

  pub Kept-Justified :
      (i : Inputs) (past : List Inputs) (device : Text)
      → All IsConfigured (i ∷ past)
      → Kept i past device
      → Justified i past device
  Kept-Justified i past device same k = record {
    trigger = k.trigger;
    start = k.start;
    held =
        HeldSince-MetSince k.trigger device k.start (i ∷ past) (rw same.0 at k.configured) same
          k.held;
    long_enough = k.long_enough;
  }
