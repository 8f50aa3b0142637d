-- ===== src/Audit/Filed.antt =====
-- internal/audit/spool.go: what an append leaves in the journal.
use nut_operator.Prelude.{
  ℕ, suc, true, false, [], ◌∷◌, ◌++◌, Option, none, some, if◌then◌else◌, ◌≡◌, refl, arith, ◌⊎◌, inl,
  inr, is_empty, Option-cases, if_both,
}
use nut_operator.Text.{Text}
use nut_operator.Text.Lines.{newline}
use nut_operator.Audit.Journal.{Kind, kind_name, SpoolRecord, Json, Journal}
use nut_operator.Audit.Spool.{
  SpoolWriter, Paths, Disk, opened, append_line, primary_refused, Appended, append, is_over,
}
use nut_operator.Audit.System.{System, Recording, record_in}

abbrev pub bytes_of : Option Journal → Text
bytes_of none = []
bytes_of (some f) = f.contents

-- The spooled record of a call.
abbrev pub Appends : Text → Option Journal → Option Journal → Type 0
Appends line file next = bytes_of next ≡ bytes_of file ++ line

abbrev pub SameBytes : Option Journal → Option Journal → Type 0
SameBytes file next = bytes_of next ≡ bytes_of file

abbrev pub IsWholeWrite : Disk → Type 0
IsWholeWrite disk = disk.cut_short ≡ none

-- An append that is neither refused nor dropped.
abbrev pub IsTaken : SpoolWriter → Appended → Type 0
IsTaken w a = (is_empty a.failures ≡ true) × (a.writer.dropped_writes ≡ w.dropped_writes)

abbrev Outcome : SpoolWriter → Text → Option Journal → Appended → Type 0
Outcome w line file a = (SameBytes file a.file × (IsTaken w a → ⊥)) ⊎ Appends line file a.file

bytes_of-opened :
    (disk : Disk) (file : Option Journal) → (opened disk file).contents ≡ bytes_of file
bytes_of-opened disk none = refl
bytes_of-opened disk (some f) = refl

refused_not_taken : {B : Type 0} → (false ≡ true) × B → ⊥
refused_not_taken h = let e = h.0 in ground arith

dropped_not_taken : {A : Type 0} (n : ℕ) → A × (suc n ≡ n) → ⊥
dropped_not_taken n h = omega (arith, h.1)

append_line_cases :
    (w : SpoolWriter) (disk : Disk) (path why line : Text) (file : Option Journal)
    → IsWholeWrite disk
    → Outcome w line file (append_line w disk path why line file)
unfolding append_line
append_line_cases w disk path why line file whole =
    let P = Outcome w line file in
    let same = bytes_of-opened disk file in
    if_both P disk.canceled_locked _ _ (inl (refl, refused_not_taken)) (
      if_both P disk.directory_fails _ _ (inl (refl, refused_not_taken)) (
        if_both P disk.open_fails _ _ (inl (refl, refused_not_taken)) (
          if_both P disk.stat_fails _ _ (inl (same, refused_not_taken)) (
            if_both P (is_over w (opened disk file) line) _ _
              (inl (same, dropped_not_taken w.dropped_writes)) (inr (rw (whole, same) refl))))))

module _ {Payload : Kind → Type 0} (json : Json Payload) (paths : Paths) where
  abbrev pub spool_record : Recording Payload → Text → SpoolRecord Payload
  spool_record r why = record {
    kind = kind_name r.entry.0;
    key = r.key;
    spooled_at = r.disk.clock;
    primary_error = why;
    payload = r.entry;
  }

  -- The line that a call that the primary writer refuses is to leave.
  abbrev pub LineOf : Recording Payload → Text → Type 0
  LineOf r l = (why : Text) × (r.answer ≡ some why) × (json.marshal (spool_record r why) ≡ some l)

  abbrev appended : Recording Payload → Text → Option Journal → Appended
  appended r why file =
      append json paths r.writer r.disk (kind_name r.entry.0) r.key why r.entry file

  abbrev Result : Recording Payload → Text → Option Journal → Appended → Type 0
  Result r why file a =
      (SameBytes file a.file × (IsTaken r.writer a → ⊥))
      ⊎ ((l : Text) × (json.marshal (spool_record r why) ≡ some l)
          × Appends (l ++ newline ∷ []) file a.file)

  append_cases :
      (r : Recording Payload) (why : Text) (file : Option Journal)
      → IsWholeWrite r.disk
      → Result r why file (appended r why file)
  unfolding append
  append_cases r why file whole =
      if_both (Result r why file) r.disk.canceled_before _ _ (inl (refl, refused_not_taken))
        (elim (Option-cases (json.marshal (spool_record r why))) [
          | inl e ↦ rw e (inl (refl, refused_not_taken))
          | inr (l, e) ↦
              rw e
                (elim (append_line_cases r.writer r.disk
                  (paths.join r.writer.directory r.writer.file_name) why (l ++ newline ∷ []) file
                  whole) [ inl same ↦ inl same | inr more ↦ inr (l, refl, more) ])
        ])

  joined :
      (r : Recording Payload) (why : Text) (file : Option Journal) (a : Appended)
      → Result r why file a
      → Result r why file (
          if is_empty a.failures
          then a
          else record a { failures = primary_refused why ∷ a.failures })
  joined r why file a h =
      if_both (Result r why file) (is_empty a.failures) _ _ h
        (elim h [ inl same ↦ inl (same.0, refused_not_taken) | inr more ↦ inr more ])

  pub record_in_cases :
      (r : Recording Payload) (s : System Payload)
      → IsWholeWrite r.disk
      → (SameBytes s.file (record_in json paths r s).file
          × (IsTaken r.writer (record_in json paths r s) → r.answer ≡ none))
        ⊎ ((l : Text) × LineOf r l
            × Appends (l ++ newline ∷ []) s.file (record_in json paths r s).file)
  unfolding record_in
  record_in_cases r s whole = elim (Option-cases r.answer) [
    | inl e ↦ rw e (inl (refl, λ taken. refl))
    | inr (why, e) ↦
        rw e (elim (joined r why s.file (appended r why s.file) (append_cases r why s.file whole)) [
          | inl (same, none_taken) ↦ inl (same, λ taken. elim (none_taken taken) [ ])
          | inr (l, line, more) ↦ inr (l, (why, refl, line), more)
        ])
  ]
