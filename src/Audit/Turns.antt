-- ===== src/Audit/Turns.antt =====
-- internal/audit/replay.go: what one line of a drain does.
use nut_operator.Prelude.{
  ℕ, suc, Bool, true, false, List, [], ◌∷◌, ◌++◌, Option, none, some, if◌then◌else◌, ◌≡◌, refl,
  arith, ◌⊎◌, inl, inr, is_empty, Bool-cases, Option-cases, mem_last, sym, ◌∙◌,
}
use mathlib.Core.List.Memᴰ
use mathlib.Core.List.{Memᴰ}
use mathlib.Core.Option.{some_inj}
use mathlib.Core.Path.{subst}
use nut_operator.Audit.Spool.{replay_refused}
use nut_operator.Text.{Text}
use nut_operator.Audit.Journal.{
  Kind, kind_of, kind_name, kind_of-kind_name, Entry, SpoolRecord, ReplayRecord, Json, IsJson,
}
use nut_operator.Audit.Replay.{
  Drain, not_applied, refused, applied, decode_and_apply, replay_record, replay_line, settle,
  read_one, skip_one, refuse_one, replay_one,
}

-- The record that a line holds, if it is one.
module _ {Payload : Kind → Type 0} (json : Json Payload) where
  abbrev decode_payload : Option Kind → Text → Option (Entry Payload)
  decode_payload none raw = none
  decode_payload (some k) raw = elim (json.unmarshal_payload k raw) [
    | none ↦ none
    | some p ↦ some (k, p)
  ]

  unfoldable pub decode_line : Text → Option (Entry Payload)
  unfolding kind_of
  decode_line l = if is_empty l then none else elim (json.unmarshal_line l) [
    | none ↦ none
    | some r ↦ decode_payload (kind_of r.kind) r.payload
  ]

  decode_payload_lem :
      (k : Kind) (raw : Text) (p : Payload k)
      → json.unmarshal_payload k raw ≡ some p
      → decode_payload (some k) raw ≡ some (k, p)
  decode_payload_lem k raw p e = rw (e, decode_payload) refl

  -- A line that is written decodes to the record that it was written for.
  pub decode_line-marshal :
      IsJson json
      → (r : SpoolRecord Payload) (l : Text) → r.kind ≡ kind_name r.payload.0
      → json.marshal r ≡ some l
      → decode_line l ≡ some r.payload
  unfolding decode_line
  decode_line-marshal laws r l named e =
      let (raw, read, back) = laws.reads_back r l e in
      rw ((laws.one_line r l e).1, read, named, kind_of-kind_name r.payload.0)
        (decode_payload_lem r.payload.0 raw r.payload.1 back)

  -- What is true once a line is behind a drain, and what a line leaves as it was.
  abbrev pub IsBehind : Text → List (Entry Payload) → Drain → Type 0
  IsBehind l log d =
      (is_empty d.failures ≡ true)
      → d.stats.skipped ≡ 0
      → (e : Entry Payload) → decode_line l ≡ some e
      → Memᴰ e log

  pub record Turn (l : Text) (d : Drain) (log : List (Entry Payload))
      (r : Drain × List (Entry Payload)) : Type 0 where
    pub behind : IsBehind l r.1 r.0
    pub keeps : (e : Entry Payload) → Memᴰ e log → Memᴰ e r.1
    pub no_failure : is_empty r.0.failures ≡ true → is_empty d.failures ≡ true
    pub no_skip : r.0.stats.skipped ≡ 0 → d.stats.skipped ≡ 0
    pub same_snapshot : r.0.snapshot ≡ d.snapshot
    pub same_lines : r.0.lines ≡ d.lines
    pub same_length : r.0.too_long ≡ d.too_long

  is_empty-append_one : {A : Type 0} (xs : List A) (x : A) → is_empty (xs ++ x ∷ []) ≡ false
  is_empty-append_one [] x = refl
  is_empty-append_one (y ∷ ys) x = refl

  skipped_turn :
      (l : Text) (d : Drain) (log : List (Entry Payload))
      → Turn l d log (skip_one (read_one d), log)
  skipped_turn l d log = record {
    behind = λ clean none e f. elim (contradiction none) [ ];
    keeps = λ e m. m;
    no_failure = λ h. h;
    no_skip = λ h. elim (contradiction h) [ ];
    same_snapshot = refl;
    same_lines = refl;
    same_length = refl;
  }
    where
      contradiction : {n : ℕ} → suc n ≡ 0 → ⊥
      contradiction h = omega arith

  refused_turn :
      (l : Text) (r : ReplayRecord) (d : Drain) (log : List (Entry Payload))
      → Turn l d log (refuse_one r (read_one d), log)
  refused_turn l r d log = record {
    behind = λ clean none e f. elim (impossible clean) [ ];
    keeps = λ e m. m;
    no_failure = λ h. elim (impossible h) [ ];
    no_skip = λ h. h;
    same_snapshot = refl;
    same_lines = refl;
    same_length = refl;
  }
    where
      impossible : is_empty (d.failures ++ replay_refused r.kind r.key ∷ []) ≡ true → ⊥
      impossible h =
          let no = is_empty-append_one d.failures (replay_refused r.kind r.key) in ground arith

  applied_turn :
      (l : Text) (d : Drain) (log : List (Entry Payload)) (e : Entry Payload)
      → decode_line l ≡ some e
      → Turn l d log (replay_one (read_one d), log ++ e ∷ [])
  applied_turn l d log e is_e = record {
    behind =
        λ clean none f is_f. subst (λ x. Memᴰ x (log ++ e ∷ [])) (same f is_f) (mem_last e log);
    keeps = λ f m. Memᴰ.append_left (e ∷ []) m;
    no_failure = λ h. h;
    no_skip = λ h. h;
    same_snapshot = refl;
    same_lines = refl;
    same_length = refl;
  }
    where
      same : (f : Entry Payload) → decode_line l ≡ some f → e ≡ f
      same f is_f = some_inj.0 (sym is_e ∙ is_f)

  replay_record_cases :
      (r : ReplayRecord) (accepts : Bool)
      → ((replay_record json r accepts ≡ not_applied) ⊎ (replay_record json r accepts ≡ refused))
        ⊎ ((e : Entry Payload) × (replay_record json r accepts ≡ applied e)
            × (decode_payload (kind_of r.kind) r.payload ≡ some e))
  unfolding replay_record decode_and_apply
  replay_record_cases r accepts = elim (Option-cases (kind_of r.kind)) [
    | inl e ↦ inl (inl (rw (e, replay_record) refl))
    | inr (k, e) ↦
        rw (e, replay_record)
          (elim (Option-cases (json.unmarshal_payload k r.payload)) [
            | inl f ↦ inl (inl (rw (f, decode_and_apply) refl))
            | inr (p, f) ↦ elim (Bool-cases accepts) [
              | inl taken ↦
                  inr (
                    (k, p),
                    rw (f, taken, decode_and_apply) refl,
                    decode_payload_lem k r.payload p f,
                  )
              | inr denied ↦ inl (inr (rw (f, denied, decode_and_apply) refl))
            ]
          ])
  ]

  settled_turn :
      (l : Text) (r : ReplayRecord) (accepts : Bool) (d : Drain) (log : List (Entry Payload))
      → decode_line l ≡ decode_payload (kind_of r.kind) r.payload
      → Turn l d log (settle r (replay_record json r accepts) (read_one d) log)
  settled_turn l r accepts d log e = elim (replay_record_cases r accepts) [
    | inl (inl f) ↦ rw f (skipped_turn l d log)
    | inl (inr f) ↦ rw f (refused_turn l r d log)
    | inr (x, f, g) ↦ rw f (applied_turn l d log x (e ∙ g))
  ]

  empty_turn :
      (l : Text) (d : Drain) (log : List (Entry Payload))
      → decode_line l ≡ none
      → Turn l d log (d, log)
  empty_turn l d log undecoded = record {
    behind = λ clean none e f. elim (contradiction e f) [ ];
    keeps = λ e m. m;
    no_failure = λ h. h;
    no_skip = λ h. h;
    same_snapshot = refl;
    same_lines = refl;
    same_length = refl;
  }
    where
      contradiction : (e : Entry Payload) → decode_line l ≡ some e → ⊥
      contradiction e f = let g = sym undecoded ∙ f in ground arith

  pub replay_line_turn :
      (l : Text) (accepts : Bool) (d : Drain) (log : List (Entry Payload))
      → Turn l d log (replay_line json l accepts d log)
  unfolding replay_line decode_line
  replay_line_turn l accepts d log = elim (Bool-cases (is_empty l)) [
    | inl e ↦ rw e (empty_turn l d log (rw e refl))
    | inr e ↦ rw e (elim (Option-cases (json.unmarshal_line l)) [
      | inl f ↦ rw f (skipped_turn l d log)
      | inr (r, f) ↦ rw f (settled_turn l r accepts d log (rw (e, f) refl))
    ])
  ]
