-- ===== src/HaltWatch/Filing.antt =====
-- internal/haltwatch/observer.go: the pending attempts, filed under their nodes.
use nut_operator.Prelude.{
  Bool, true, false, ◌&&◌, List, [], ◌∷◌, ◌++◌, Option, none, some, if◌then◌else◌, ◌≡◌, refl, arith,
  sym, ap, ◌∙◌, Bool-cases, inl, inr, if_both, if_cases,
}
use nut_operator.Prelude.Int.{ℤ}
use nut_operator.Text.{Text, text_eq, text_lt}
use nut_operator.Text.Laws.{text_eq→eq, text_eq_refl}
use nut_operator.Text.Maps.{lookup, insert, remove, lookup-insert, lookup-remove}
use nut_operator.Text.Sorting.{sort_by, insert_sorted}
use nut_operator.HaltWatch.{
  Attempt, Result, Observer, deadline, since, is_attempt, signal_written, halt_of, node_stopped,
  is_overdue, timeout_of, sweep, node_lt, expire, forget, Call, call_written, call_stopped,
  call_expire, call_forget, step,
}

-- What one node sees of the watch: the attempt that is open, and how each call answers it.
abbrev pub overdue_answer : Bool → Attempt → ℤ → Option Attempt × List Result
overdue_answer true a now = (none, timeout_of a now ∷ [])
overdue_answer false a now = (some a, [])

unfoldable pub answer : ℤ → Text → Call → Option Attempt → Option Attempt × List Result
unfolding since
answer limit n (call_written a) s = (if text_eq a.node n && is_attempt a then some a else s, [])
answer limit n (call_stopped k t) none = (none, [])
answer limit n (call_stopped k t) (some a) =
    if text_eq k n then (none, halt_of a t ∷ []) else (some a, [])
answer limit n (call_expire now) none = (none, [])
answer limit n (call_expire now) (some a) = overdue_answer (is_overdue limit now a) a now
answer limit n (call_forget k) s = (if text_eq k n then none else s, [])

unfoldable pub answers : ℤ → Text → List Call → Option Attempt → Option Attempt × List Result
unfolding answer
answers limit n [] s = (s, [])
answers limit n (c ∷ cs) s =
    let (next, results) = answer limit n c s in
    let (last, later) = answers limit n cs next in (last, results ++ later)

-- The results about one node.
unfoldable pub about : Text → List Result → List Result
about n [] = []
about n (r ∷ rs) = if text_eq r.attempt.node n then r ∷ about n rs else about n rs

pub about-append : (n : Text) (rs ss : List Result) → about n (rs ++ ss) ≡ about n rs ++ about n ss
unfolding about
about-append n [] ss = refl
about-append n (r ∷ rs) ss = ground (arith, about-append n rs ss)

-- Each attempt stands once, under its node.
unfoldable pub IsFiled : List (Text × Attempt) → Type 0
IsFiled [] = Unit
IsFiled ((k, a) ∷ m) = (a.node ≡ k) × (lookup k m ≡ none) × IsFiled m

text_lt_irrefl : (a : Text) → text_lt a a ≡ false
unfolding text_lt
text_lt_irrefl [] = refl
text_lt_irrefl (x ∷ xs) = ground (arith, text_lt_irrefl xs)

about-insert_sorted :
    (n : Text) (r : Result) (rs : List Result)
    → about n (insert_sorted node_lt r rs) ≡ about n (r ∷ rs)
unfolding about insert_sorted
about-insert_sorted n r [] = refl
about-insert_sorted n r (s ∷ ss) = ground (
  arith,
  about-insert_sorted n r ss,
  text_eq→eq s.attempt.node n,
  text_eq→eq r.attempt.node n,
  text_lt_irrefl n,
)

pub about-sort_by : (n : Text) (rs : List Result) → about n (sort_by node_lt rs) ≡ about n rs
unfolding about sort_by
about-sort_by n [] = refl
about-sort_by n (r ∷ rs) =
    about-insert_sorted n r (sort_by node_lt rs) ∙ ground (arith, about-sort_by n rs)

absent-insert :
    (k j : Text) (a : Attempt) (m : List (Text × Attempt))
    → text_eq j k ≡ false
    → lookup k m ≡ none
    → lookup k (insert j a m) ≡ none
absent-insert k j a m differ h = rw (lookup-insert j k a m, differ) h

insert-IsFiled : (a : Attempt) (m : List (Text × Attempt)) → IsFiled m → IsFiled (insert a.node a m)
unfolding IsFiled insert lookup
insert-IsFiled a [] filed = (refl, refl, tt)
insert-IsFiled a ((k, b) ∷ m) (named, once, filed) =
    if_cases IsFiled (text_eq k a.node) ((a.node, a) ∷ m) ((k, b) ∷ insert a.node a m)
      (λ same. (refl, rw (sym (text_eq→eq k a.node same)) once, filed))
      (λ differ. (
        named,
        absent-insert k a.node a m (ground (arith, differ, text_eq→eq a.node k, text_eq_refl k))
            once,
        insert-IsFiled a m filed,
      ))

remove-IsFiled : (n : Text) (m : List (Text × Attempt)) → IsFiled m → IsFiled (remove n m)
unfolding IsFiled remove
remove-IsFiled n [] filed = tt
remove-IsFiled n ((k, b) ∷ m) (named, once, filed) =
    if_cases IsFiled (text_eq k n) (remove n m) ((k, b) ∷ remove n m)
      (λ same. remove-IsFiled n m filed)
      (λ differ. (named, ground (arith, lookup-remove n k m, once), remove-IsFiled n m filed))

-- The sweep answers each node for itself.
unfoldable pub swept : ℤ → ℤ → Option Attempt → Option Attempt × List Result
swept limit now none = (none, [])
swept limit now (some a) = overdue_answer (is_overdue limit now a) a now

sweep_other :
    (limit now : ℤ) (n k : Text) (a : Attempt) (m : List (Text × Attempt))
    → a.node ≡ k
    → text_eq k n ≡ false
    → (lookup n (sweep limit now ((k, a) ∷ m)).0 ≡ lookup n (sweep limit now m).0)
      × (about n (sweep limit now ((k, a) ∷ m)).1 ≡ about n (sweep limit now m).1)
unfolding lookup sweep about
sweep_other limit now n k a m named differ =
    let other : text_eq a.node n ≡ false = rw named differ in
    if_both
      (λ (r : List (Text × Attempt) × List Result).
        (lookup n r.0 ≡ lookup n (sweep limit now m).0)
        × (about n r.1 ≡ about n (sweep limit now m).1))
      (is_overdue limit now a) ((sweep limit now m).0, timeout_of a now ∷ (sweep limit now m).1)
      ((k, a) ∷ (sweep limit now m).0, (sweep limit now m).1) (refl, rw other refl)
      (rw differ refl, refl)

sweep_own :
    (limit now : ℤ) (n k : Text) (a : Attempt) (m : List (Text × Attempt))
    → a.node ≡ k
    → text_eq k n ≡ true
    → lookup n (sweep limit now m).0 ≡ none
    → about n (sweep limit now m).1 ≡ []
    → (lookup n (sweep limit now ((k, a) ∷ m)).0 ≡ (swept limit now (some a)).0)
      × (about n (sweep limit now ((k, a) ∷ m)).1 ≡ (swept limit now (some a)).1)
unfolding lookup sweep about swept
sweep_own limit now n k a m named same none_left none_due =
    let own : text_eq a.node n ≡ true = rw named same in
    elim (Bool-cases (is_overdue limit now a)) [
      | inl due ↦ rw due (none_left, rw (own, none_due) refl)
      | inr early ↦ rw early (rw same refl, none_due)
    ]

pub sweep-swept :
    (limit now : ℤ) (n : Text) (m : List (Text × Attempt))
    → IsFiled m
    → (lookup n (sweep limit now m).0 ≡ (swept limit now (lookup n m)).0)
      × (about n (sweep limit now m).1 ≡ (swept limit now (lookup n m)).1)
unfolding IsFiled lookup swept sweep about
sweep-swept limit now n [] filed = (refl, refl)
sweep-swept limit now n ((k, a) ∷ m) (named, once, filed) =
    let (left, due) = sweep-swept limit now n m filed in
    elim (Bool-cases (text_eq k n)) [
      | inl same ↦
          let missing : lookup n m ≡ none = rw (sym (text_eq→eq k n same)) once in
          rw same (
            sweep_own limit now n k a m named same
              (left ∙ ap (λ (s : Option Attempt). (swept limit now s).0) missing)
              (due ∙ ap (λ (s : Option Attempt). (swept limit now s).1) missing))
      | inr differ ↦
          let (l, d) = sweep_other limit now n k a m named differ in rw differ (l ∙ left, d ∙ due)
    ]

sweep-absent :
    (limit now : ℤ) (k : Text) (m : List (Text × Attempt))
    → IsFiled m
    → lookup k m ≡ none
    → lookup k (sweep limit now m).0 ≡ none
unfolding swept
sweep-absent limit now k m filed h =
    (sweep-swept limit now k m filed).0 ∙ ap (λ (s : Option Attempt). (swept limit now s).0) h

sweep-IsFiled :
    (limit now : ℤ) (m : List (Text × Attempt)) → IsFiled m → IsFiled (sweep limit now m).0
unfolding IsFiled sweep
sweep-IsFiled limit now [] filed = tt
sweep-IsFiled limit now ((k, a) ∷ m) (named, once, filed) =
    if_both (λ (r : List (Text × Attempt) × List Result). IsFiled r.0) (is_overdue limit now a)
      ((sweep limit now m).0, timeout_of a now ∷ (sweep limit now m).1)
      ((k, a) ∷ (sweep limit now m).0, (sweep limit now m).1) (sweep-IsFiled limit now m filed)
      (named, sweep-absent limit now k m filed once, sweep-IsFiled limit now m filed)

pub step-IsFiled : (c : Call) (o : Observer) → IsFiled o.pending → IsFiled (step c o).0.pending
unfolding step signal_written forget expire node_stopped
step-IsFiled (call_written a) o filed =
    if_both (λ (p : Observer). IsFiled p.pending) (is_attempt a)
      (record o { pending = insert a.node a o.pending }) o (insert-IsFiled a o.pending filed) filed
step-IsFiled (call_stopped n t) o filed = ground (arith, filed, remove-IsFiled n o.pending filed)
step-IsFiled (call_expire now) o filed = sweep-IsFiled (deadline o.configured) now o.pending filed
step-IsFiled (call_forget n) o filed = remove-IsFiled n o.pending filed

pub step-configured : (c : Call) (o : Observer) → (step c o).0.configured ≡ o.configured
unfolding step signal_written forget expire node_stopped
step-configured (call_written a) o = ground arith
step-configured (call_stopped n t) o = ground arith
step-configured (call_expire now) o = refl
step-configured (call_forget n) o = refl
