-- ===== src/Actuator/Once.antt =====
-- watchSignals (cmd/node-actuator/main.go, state.go): each signal is acted on once.
use nut_operator.Prelude.{
  ℕ, suc, ◌+◌, ◌≤◌, Bool, true, false, ◌||◌, List, [], ◌∷◌, ◌++◌, map, some, length, ◌≡◌, refl,
  arith, sym, ap, ◌∙◌, ◌⊎◌, inl, inr, All, length-append, if_both, if_cases,
}
use mathlib.Core.Path.{subst}
use mathlib.Core.List.{map-append, append_assoc, append-nil}
use nut_operator.Text.{Text, text_lt}
use nut_operator.Text.Maps.{contains, add_key}
use nut_operator.Text.Sorting.{sort_by, insert_sorted, sort_texts}
use nut_operator.Actuator.Inspect.{SignalStatus, ignored, active, ShutdownSignal}
use nut_operator.Actuator.Scan.{
  Config, World, Actuation, Scan, accept, is_from_future, is_other_flow, judge, inspect,
  scan_signal_paths,
}
use nut_operator.Actuator.Watch.{
  prune_actuated_keys, actuated_keys, Watch, new_watch, Turn, pass, restart, filed, turn,
  watch_signals,
}

abbrev pub keys_of : List Actuation → List Text
keys_of acted = map (λ (a : Actuation). a.key) acted

-- None of the keys is among those before it.
unfoldable pub IsFresh : List Text → List Text → Type 0
IsFresh before [] = Unit
IsFresh before (k ∷ ks) = (contains before k ≡ false) × IsFresh (before ++ k ∷ []) ks

IsFresh-append :
    (before ks js : List Text)
    → IsFresh before ks
    → IsFresh (before ++ ks) js
    → IsFresh before (ks ++ js)
unfolding IsFresh
IsFresh-append before [] js h k = rw (sym (append-nil before)) k
IsFresh-append before (x ∷ ks) js (new, h) k =
    (new, IsFresh-append (before ++ x ∷ []) ks js h (rw (append_assoc before (x ∷ []) ks) k))

contains-append :
    (xs ys : List Text) (k : Text) → contains (xs ++ ys) k ≡ (contains xs k || contains ys k)
unfolding contains
contains-append [] ys k = refl
contains-append (x ∷ xs) ys k = ground (arith, contains-append xs ys k)

contains-insert_sorted :
    (x : Text) (xs : List Text) (k : Text)
    → contains (insert_sorted text_lt x xs) k ≡ contains (x ∷ xs) k
unfolding contains insert_sorted
contains-insert_sorted x [] k = refl
contains-insert_sorted x (y ∷ ys) k = ground (arith, contains-insert_sorted x ys k)

contains-sort_texts : (xs : List Text) (k : Text) → contains (sort_texts xs) k ≡ contains xs k
unfolding contains sort_texts sort_by
contains-sort_texts [] k = refl
contains-sort_texts (x ∷ xs) k =
    contains-insert_sorted x (sort_by text_lt xs) k ∙ ground (arith, contains-sort_texts xs k)

length-insert_sorted :
    (x : Text) (xs : List Text) → length (insert_sorted text_lt x xs) ≡ suc (length xs)
unfolding insert_sorted
length-insert_sorted x [] = refl
length-insert_sorted x (y ∷ ys) = ground (arith, length-insert_sorted x ys)

length-sort_texts : (xs : List Text) → length (sort_texts xs) ≡ length xs
unfolding sort_texts sort_by
length-sort_texts [] = refl
length-sort_texts (x ∷ xs) =
    length-insert_sorted x (sort_by text_lt xs) ∙ ap (λ (n : ℕ). suc n) (length-sort_texts xs)

-- No more than 64 keys are kept whole.
actuated_keys-whole : (seen : List Text) → length seen ≤ 64 → actuated_keys seen ≡ sort_texts seen
unfolding actuated_keys prune_actuated_keys
actuated_keys-whole seen few = ground (arith, length-sort_texts seen, few)

-- A pass acts on nothing, or on one signal whose key it had not seen.
IsScan : List Text → Scan → Type 0
IsScan seen s =
    ((s.seen ≡ seen) × (s.acted ≡ []))
    ⊎ ((a : Actuation) × (contains seen a.key ≡ false)
        × (s.seen ≡ seen ++ a.key ∷ [])
        × (s.acted ≡ a ∷ []))

accept-IsScan :
    (path key : Text) (p : ShutdownSignal) (seen : List Text) → IsScan seen (accept path key p seen)
unfolding IsScan
accept-IsScan path key p seen =
    if_cases (IsScan seen) (contains seen key)
      (record { seen = seen; acted = []; clock_skewed = [] })
      (record {
        seen = add_key key seen;
        acted = record { path = path; key = key; payload = p } ∷ [];
        clock_skewed = [];
      })
      (λ old. inl (refl, refl))
      (λ new. inr (record { path = path; key = key; payload = p }, new, rw new refl, refl))

judge-IsScan :
    (config : Config) (path : Text) (seen : List Text) (s : SignalStatus) (rest : Scan)
    → IsScan seen rest
    → IsScan seen (judge config path seen s rest)
unfolding IsScan
judge-IsScan config path seen (ignored reason) rest h =
    if_both (IsScan seen) (is_from_future reason)
      (record rest { clock_skewed = path ∷ rest.clock_skewed }) rest h h
judge-IsScan config path seen (active key p) rest h =
    if_both (IsScan seen) (is_other_flow config p) rest (accept path key p seen) h
      (accept-IsScan path key p seen)

scan_signal_paths-IsScan :
    (config : Config) (world : World) (paths seen : List Text)
    → IsScan seen (scan_signal_paths config world paths seen)
unfolding scan_signal_paths IsScan
scan_signal_paths-IsScan config world [] seen = inl (refl, refl)
scan_signal_paths-IsScan config world (path ∷ paths) seen =
    judge-IsScan config path seen (inspect config world path)
      (scan_signal_paths config world paths seen) (scan_signal_paths-IsScan config world paths seen)

-- The watch remembers all it acted on, in memory and in its file, and no more than that.
record IsKept (done : List Text) (w : Watch) : Type 0 where
  in_memory : (k : Text) → contains done k ≡ true → contains w.seen k ≡ true
  in_file : (k : Text) → contains done k ≡ true → contains (filed w.file) k ≡ true
  few_seen : length w.seen ≤ length done
  few_filed : length (filed w.file) ≤ length done

-- The state file could be written, or read.
abbrev pub IsFiled : Turn → Type 0
IsFiled (pass world written) = written ≡ true
IsFiled (restart readable) = readable ≡ true

unseen :
    (done : List Text) (w : Watch) (k : Text)
    → IsKept done w
    → contains w.seen k ≡ false
    → contains done k ≡ false
unseen done w k h new = ground (arith, h.in_memory k, new)

-- The keys that a turn acts on are fresh, and the watch remembers them.
IsTurn : List Text → Watch × List Actuation → Type 0
IsTurn done r = IsFresh done (keys_of r.1) × IsKept (done ++ keys_of r.1) r.0

written-IsKept :
    (done seen : List Text)
    → ((k : Text) → contains done k ≡ true → contains seen k ≡ true)
    → length seen ≤ length done
    → length done ≤ 64
    → IsKept done (record { seen = seen; file = some (actuated_keys seen) })
written-IsKept done seen covers few bound =
    let whole = actuated_keys-whole seen (omega (arith, few, bound)) in
    record {
      in_memory = covers;
      in_file = λ k d. rw (whole, contains-sort_texts seen k) (covers k d);
      few_seen = few;
      few_filed = rw whole (omega (arith, length-sort_texts seen, few));
    }

covers_last :
    (done seen : List Text) (x : Text)
    → ((k : Text) → contains done k ≡ true → contains seen k ≡ true)
    → (k : Text) → contains (done ++ x ∷ []) k ≡ true
    → contains (seen ++ x ∷ []) k ≡ true
covers_last done seen x covers k =
    rw (contains-append done (x ∷ []) k, contains-append seen (x ∷ []) k)
      (or_mono (contains done k) (contains seen k) (contains (x ∷ []) k) (covers k))
  where
    or_mono : (a b c : Bool) → (a ≡ true → b ≡ true) → (a || c) ≡ true → (b || c) ≡ true
    or_mono a b c h k = ground (arith, h, k)

scanned-IsTurn :
    (done : List Text) (w : Watch) (s : Scan)
    → IsKept done w
    → IsScan w.seen s
    → length done + length s.acted ≤ 64
    → IsTurn done (record { seen = s.seen; file = some (actuated_keys s.seen) }, s.acted)
unfolding IsTurn IsScan IsFresh
scanned-IsTurn done w s h (inl (same, none_acted)) few =
    rw (none_acted, same, append-nil done)
      (tt, written-IsKept done w.seen h.in_memory h.few_seen (omega (arith, few)))
scanned-IsTurn done w s h (inr (a, new, grown, one)) few =
    let few_one : length done + 1 ≤ 64 =
      subst (λ (acted : List Actuation). length done + length acted ≤ 64) one few in
    rw (one, grown)
      (
        (unseen done w a.key h new, tt),
        written-IsKept (done ++ a.key ∷ []) (w.seen ++ a.key ∷ [])
            (covers_last done w.seen a.key h.in_memory)
            (omega (
              arith,
              length-append w.seen (a.key ∷ []),
              length-append done (a.key ∷ []),
              h.few_seen,
            ))
            (omega (arith, length-append done (a.key ∷ []), few_one)),
      )

restarted-IsTurn :
    (done : List Text) (w : Watch)
    → IsKept done w
    → IsTurn done (record w { seen = filed w.file }, [])
unfolding IsTurn IsFresh
restarted-IsTurn done w h = rw (append-nil done) (
  tt,
  record {
    in_memory = h.in_file;
    in_file = h.in_file;
    few_seen = h.few_filed;
    few_filed = h.few_filed;
  },
)

turn-IsTurn :
    (config : Config) (t : Turn) (done : List Text) (w : Watch)
    → IsFiled t
    → IsKept done w
    → length done + length (turn config t w).1 ≤ 64
    → IsTurn done (turn config t w)
unfolding turn
turn-IsTurn config (pass world written) done w wrote h few = rw wrote (
    scanned-IsTurn done w (scan_signal_paths config world config.signal_paths w.seen) h
      (scan_signal_paths-IsScan config world config.signal_paths w.seen) few)
turn-IsTurn config (restart readable) done w wrote h few = rw wrote (restarted-IsTurn done w h)

length-keys_of : (acted : List Actuation) → length (keys_of acted) ≡ length acted
length-keys_of [] = refl
length-keys_of (a ∷ acted) = ap (λ (n : ℕ). suc n) (length-keys_of acted)

first_few :
    (d : ℕ) (acted later : List Actuation)
    → d + length (acted ++ later) ≤ 64
    → d + length acted ≤ 64
first_few d acted later few = omega (arith, length-append acted later, few)

later_few :
    (done : List Text) (acted later : List Actuation)
    → length done + length (acted ++ later) ≤ 64
    → length (done ++ keys_of acted) + length later ≤ 64
later_few done acted later few = omega (
  arith,
  length-append acted later,
  length-append done (keys_of acted),
  length-keys_of acted,
  few,
)

watch_signals-kept :
    (config : Config) (ts : List Turn) (done : List Text) (w : Watch)
    → All IsFiled ts
    → IsKept done w
    → length done + length (watch_signals config ts w).1 ≤ 64
    → IsFresh done (keys_of (watch_signals config ts w).1)
unfolding watch_signals IsFresh IsTurn
watch_signals-kept config [] done w wrote h few = tt
watch_signals-kept config (t ∷ ts) done w (wrote, all) h few =
    let (next, acted) = turn config t w in
    let later = (watch_signals config ts next).1 in
    let first = turn-IsTurn config t done w wrote h (first_few (length done) acted later few) in
    rw (map-append (λ (a : Actuation). a.key) acted later) (
      IsFresh-append done (keys_of acted) (keys_of later) first.0 (
        watch_signals-kept config ts (done ++ keys_of acted) next all first.1
          (later_few done acted later few)))

-- From a new watch, over any passes and any restarts between passes, where each pass could write
-- its state file, each restart could read and parse it, and no more than 64 signals are acted on
-- in all: no signal key is acted on twice.
pub watch_signals-IsFresh :
    (config : Config) (ts : List Turn)
    → All IsFiled ts
    → length (watch_signals config ts new_watch).1 ≤ 64
    → IsFresh [] (keys_of (watch_signals config ts new_watch).1)
watch_signals-IsFresh config ts wrote few =
    watch_signals-kept config ts [] new_watch wrote
      (record {
        in_memory = λ k d. d;
        in_file = λ k d. d;
        few_seen = omega arith;
        few_filed = omega arith;
      })
      (omega (arith, few))
