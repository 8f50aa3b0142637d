-- ===== src/Telemetry/Symbols.antt =====
-- `normalizeStatusSymbols` of internal/telemetry/normalize.go.
use nut_operator.Prelude.{
  Bool, true, false, ◌||◌, List, [], ◌∷◌, map, if◌then◌else◌, ◌≡◌, refl, arith, is_empty, ◌↔◌,
  if_cases, if_both, sym,
}
use nut_operator.Text.{Text, codes, text_eq, upper, fields, trim_space}
use nut_operator.Text.Laws.{text_eq→eq}
use nut_operator.Text.Maps.{contains}
use nut_operator.Diagnostics.{Diagnostic}
use nut_operator.Telemetry.Aliases.{apply_aliases}
use nut_operator.Telemetry.{
  known_status_symbols, unknown_symbol, keep_symbols, normalize_status_symbols, unknown, online,
  on_battery, low_battery, stale, unavailable, phase, Numbers, Sample, normalize, value_in,
}

-- No text stands twice, nor among those seen.
abbrev pub AreDistinct : List Text → List Text → Type 0
AreDistinct seen [] = Unit
AreDistinct seen (x ∷ xs) = (contains seen x ≡ false) × AreDistinct (x ∷ seen) xs

-- The findings that unknown symbols draw: one for each, in order.
unfoldable pub unknown_symbols : List Text → List Diagnostic
unknown_symbols [] = []
unknown_symbols (s ∷ ss) =
    if contains known_status_symbols s
    then unknown_symbols ss
    else unknown_symbol s ∷ unknown_symbols ss

keep_symbols_distinct : (seen tokens : List Text) → AreDistinct seen (keep_symbols seen tokens).0
unfolding keep_symbols
keep_symbols_distinct seen [] = tt
keep_symbols_distinct seen (t ∷ ts) =
    if_cases (λ (r : List Text × List Diagnostic). AreDistinct seen r.0)
      (contains seen (map upper t)) _ _ (λ e. keep_symbols_distinct seen ts)
      (λ e. (e, keep_symbols_distinct (map upper t ∷ seen) ts))

keep_symbols_told :
    (seen tokens : List Text)
    → (keep_symbols seen tokens).1 ≡ unknown_symbols (keep_symbols seen tokens).0
unfolding keep_symbols unknown_symbols
keep_symbols_told seen [] = refl
keep_symbols_told seen (t ∷ ts) =
    ground (arith, keep_symbols_told seen ts, keep_symbols_told (map upper t ∷ seen) ts)

already : (a b c d : Bool) → (d ≡ true → b ≡ true) → (a || b) ≡ (c || b) → (a || b) ≡ (d || c || b)
already a b c true h e = rw (h refl) (ground arith)
already a b c false h e = e

newly : (a b c d : Bool) → (a || (d || b)) ≡ (c || (d || b)) → ((d || a) || b) ≡ ((d || c) || b)
newly a b c true e = refl
newly a b c false e = e

seen_same :
    (seen : List Text) (u s : Text)
    → contains seen u ≡ true
    → text_eq u s ≡ true
    → contains seen s ≡ true
seen_same seen u s h e = rw (sym (text_eq→eq u s e)) h

keep_symbols-contains :
    (seen tokens : List Text) (s : Text)
    → (contains (keep_symbols seen tokens).0 s || contains seen s)
      ≡ (contains (map (map upper) tokens) s || contains seen s)
unfolding keep_symbols contains
keep_symbols-contains seen [] s = refl
keep_symbols-contains seen (t ∷ ts) s =
    let u = map upper t in
    if_cases
      (λ (r : List Text × List Diagnostic).
        (contains r.0 s || contains seen s)
        ≡ (text_eq u s || contains (map (map upper) ts) s || contains seen s))
      (contains seen u) _ _
      (λ e.
        already (contains (keep_symbols seen ts).0 s) (contains seen s)
          (contains (map (map upper) ts) s) (text_eq u s) (seen_same seen u s e)
          (keep_symbols-contains seen ts s))
      (λ e.
        newly (contains (keep_symbols (u ∷ seen) ts).0 s) (contains seen s)
          (contains (map (map upper) ts) s) (text_eq u s) (keep_symbols-contains (u ∷ seen) ts s))

or_false : (a b : Bool) → (a || false) ≡ (b || false) → a ≡ b
or_false a b e = ground arith

-- What the status shows, as the tokens in upper case.
abbrev pub tokens_of : Text → List Text
tokens_of status = map (map upper) (fields status)

pub symbols_contain :
    (status s : Text)
    → contains (normalize_status_symbols status).0 s ≡ contains (tokens_of status) s
unfolding normalize_status_symbols fields contains
symbols_contain [] s = refl
symbols_contain (c ∷ cs) s =
    or_false (contains (keep_symbols [] (fields (c ∷ cs))).0 s)
      (contains (map (map upper) (fields (c ∷ cs))) s)
      (keep_symbols-contains [] (fields (c ∷ cs)) s)

-- The symbols of a status are its tokens in upper case, none of them twice; where the status is
-- not empty, the findings are one for each unknown symbol, in their order.
pub normalize_status_symbols_lem :
    (status : Text)
    → ((s : Text) → contains (normalize_status_symbols status).0 s ≡ contains (tokens_of status) s)
      × AreDistinct [] (normalize_status_symbols status).0
      × (is_empty status ≡ false
          → (normalize_status_symbols status).1
            ≡ unknown_symbols (normalize_status_symbols status).0)
unfolding normalize_status_symbols
normalize_status_symbols_lem status = (
  symbols_contain status,
  if_both (λ (r : List Text × List Diagnostic). AreDistinct [] r.0) (is_empty status) _ _ tt
      (keep_symbols_distinct [] (fields status)),
  λ filled. rw filled (keep_symbols_told [] (fields status)),
)

-- The phase of a snapshot by the tokens of its status.
phase_congr :
    (a b : List Text) (status : Text)
    → ((s : Text) → contains a s ≡ contains b s)
    → phase a status ≡ phase b status
unfolding phase
phase_congr a b status h =
    rw
      (
        h (codes "NOCOMM"),
        h (codes "OFF"),
        h (codes "FSD"),
        h (codes "LB"),
        h (codes "OB"),
        h (codes "OL"),
      )
      refl

pub normalize_phase :
    {F : Type 0} (numbers : Numbers F) (sample : Sample)
    → (normalize numbers sample).phase
      ≡ phase
          (tokens_of (normalize numbers sample).ups_status)
          (normalize numbers sample).ups_status
unfolding normalize
normalize_phase numbers sample =
    let status =
      trim_space
        (value_in (apply_aliases sample.variables sample.aliases).0 (codes "ups.status")) in
    phase_congr (normalize_status_symbols status).0 (tokens_of status) status
      (symbols_contain status)

-- The tokens that say something worse than that the device is online.
abbrev pub IsCalm : List Text → Type 0
IsCalm tokens =
    (contains tokens (codes "NOCOMM") ≡ false)
    × (contains tokens (codes "OFF") ≡ false)
    × (contains tokens (codes "FSD") ≡ false)
    × (contains tokens (codes "LB") ≡ false)
    × (contains tokens (codes "OB") ≡ false)

online_flags :
    (empty no_comm off fsd lb ob ol : Bool)
    → ((if empty || no_comm
          then stale
          else if off
          then unavailable
          else if fsd || lb
          then low_battery
          else if ob
          then on_battery
          else if ol
          then online
          else unknown)
        ≡ online)
      ↔ ((empty ≡ false)
          × (ol ≡ true)
          × ((no_comm ≡ false) × (off ≡ false) × (fsd ≡ false) × (lb ≡ false) × (ob ≡ false)))
online_flags empty no_comm off fsd lb ob ol = ground arith

phase_online :
    (tokens : List Text) (status : Text)
    → (phase tokens status ≡ online)
      ↔ ((is_empty status ≡ false) × (contains tokens (codes "OL") ≡ true) × IsCalm tokens)
unfolding phase
phase_online tokens status =
    online_flags (is_empty status) (contains tokens (codes "NOCOMM"))
      (contains tokens (codes "OFF")) (contains tokens (codes "FSD")) (contains tokens (codes "LB"))
      (contains tokens (codes "OB")) (contains tokens (codes "OL"))

-- A snapshot's phase is Online exactly when the status is not empty, and its tokens in upper case
-- have OL and none of NOCOMM, OFF, FSD, LB and OB.
pub normalize_online :
    {F : Type 0} (numbers : Numbers F) (sample : Sample)
    → ((normalize numbers sample).phase ≡ online) ↔ (
        (is_empty (normalize numbers sample).ups_status ≡ false)
        × (contains (tokens_of (normalize numbers sample).ups_status) (codes "OL") ≡ true)
        × IsCalm (tokens_of (normalize numbers sample).ups_status))
normalize_online numbers sample =
    let s = normalize numbers sample in
    rw (normalize_phase numbers sample) (phase_online (tokens_of s.ups_status) s.ups_status)
