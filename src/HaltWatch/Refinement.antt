-- ===== src/HaltWatch/Refinement.antt =====
-- The watch of internal/haltwatch/observer.go, seen from one node.
use nut_operator.Prelude.{
  ℕ, suc, ◌+◌, ◌≤◌, true, false, ◌&&◌, List, [], ◌∷◌, Option, none, some, if◌then◌else◌, length,
  ◌≡◌, refl, arith, sym, ap, ◌∙◌, Bool-cases, Option-cases, inl, inr,
}
use nut_operator.Prelude.Int.{ℤ}
use nut_operator.Text.{Text, text_eq}
use nut_operator.Text.Laws.{text_eq→eq}
use nut_operator.Text.Maps.{lookup, remove, lookup-insert, lookup-remove}
use nut_operator.HaltWatch.{
  Attempt, Result, Observer, deadline, is_attempt, signal_written, halt_of, node_stopped, sweep,
  expire, forget, Call, call_written, call_stopped, call_expire, call_forget, step, run,
}
use nut_operator.HaltWatch.Filing.{
  IsFiled, about, about-append, about-sort_by, answer, answers, step-IsFiled, step-configured,
  sweep-swept, swept,
}

-- A node's share of a step.
IsAnswer : Text → Observer → Observer × List Result → Option Attempt × List Result → Type 0
IsAnswer n o r s = (lookup n r.0.pending ≡ s.0) × (about n r.1 ≡ s.1)

filed-node :
    (k : Text) (a : Attempt) (m : List (Text × Attempt))
    → IsFiled m
    → lookup k m ≡ some a
    → a.node ≡ k
unfolding IsFiled lookup
filed-node k a [] filed h = grind (arith, h)
filed-node k a ((j, b) ∷ m) (named, once, filed) h = elim (Bool-cases (text_eq j k)) [
  | inl same ↦
      let found : some b ≡ some a = sym (rw same refl) ∙ h in
      ap (λ (o : Option Attempt). elim o [ none ↦ [] | some c ↦ c.node ]) (sym found)
      ∙ named
      ∙ text_eq→eq j k same
  | inr differ ↦ filed-node k a m filed (sym (rw differ refl) ∙ h)
]

stopped_elsewhere :
    (limit : ℤ) (n k : Text) (t : ℤ) (s : Option Attempt)
    → text_eq k n ≡ false
    → answer limit n (call_stopped k t) s ≡ (s, [])
unfolding answer
stopped_elsewhere limit n k t none differ = refl
stopped_elsewhere limit n k t (some a) differ = rw differ refl

unwatched_answer :
    (n k : Text) (t : ℤ) (o : Observer)
    → lookup k o.pending ≡ none
    → answer (deadline o.configured) n (call_stopped k t) (lookup n o.pending)
      ≡ (lookup n o.pending, [])
unfolding answer
unwatched_answer n k t o h = elim (Bool-cases (text_eq k n)) [
  | inl same ↦
      let missing : lookup n o.pending ≡ none = rw (sym (text_eq→eq k n same)) h in rw missing refl
  | inr differ ↦ stopped_elsewhere (deadline o.configured) n k t (lookup n o.pending) differ
]

unwatched_step :
    (k : Text) (t : ℤ) (o : Observer)
    → lookup k o.pending ≡ none
    → step (call_stopped k t) o ≡ (o, [])
unfolding step node_stopped
unwatched_step k t o h = rw (h, step, node_stopped) refl

watched_step :
    (k : Text) (t : ℤ) (o : Observer) (a : Attempt)
    → lookup k o.pending ≡ some a
    → step (call_stopped k t) o ≡ (record o { pending = remove k o.pending }, halt_of a t ∷ [])
unfolding step node_stopped
watched_step k t o a h = rw (h, step, node_stopped) refl

-- A node that stops, by what stands under its name.
stopped_answer :
    (n k : Text) (t : ℤ) (o : Observer)
    → IsFiled o.pending
    → IsAnswer n o
        (step (call_stopped k t) o)
        (answer (deadline o.configured) n (call_stopped k t) (lookup n o.pending))
unfolding IsAnswer answer about
stopped_answer n k t o filed = elim (Option-cases (lookup k o.pending)) [
  | inl h ↦ rw (unwatched_answer n k t o h, unwatched_step k t o h) (refl, refl)
  | inr (a, h) ↦
      let named = filed-node k a o.pending filed h in
      elim (Bool-cases (text_eq k n)) [
        | inl same ↦
            let found : lookup n o.pending ≡ some a = rw (sym (text_eq→eq k n same)) h in
            let gone : lookup n (remove k o.pending) ≡ none =
              rw (lookup-remove k n o.pending, same) refl in
            let own : text_eq a.node n ≡ true = rw named same in
            rw (watched_step k t o a h, found, same) (gone, rw own refl)
        | inr differ ↦
            let kept : lookup n (remove k o.pending) ≡ lookup n o.pending =
              rw (lookup-remove k n o.pending, differ) refl in
            let other : text_eq a.node n ≡ false = rw named differ in
            rw
              (
                watched_step k t o a h,
                stopped_elsewhere (deadline o.configured) n k t (lookup n o.pending) differ,
              )
              (kept, rw other refl)
      ]
]

swept-answer :
    (limit now : ℤ) (n : Text) (s : Option Attempt)
    → answer limit n (call_expire now) s ≡ swept limit now s
unfolding answer swept
swept-answer limit now n none = refl
swept-answer limit now n (some a) = refl

step-answer :
    (n : Text) (c : Call) (o : Observer)
    → IsFiled o.pending
    → IsAnswer n o (step c o) (answer (deadline o.configured) n c (lookup n o.pending))
unfolding IsAnswer step answer signal_written expire forget about
step-answer n (call_written a) o filed = (ground (arith, lookup-insert a.node n a o.pending), refl)
step-answer n (call_stopped k t) o filed = stopped_answer n k t o filed
step-answer n (call_expire now) o filed =
    let (left, due) = sweep-swept (deadline o.configured) now n o.pending filed in
    rw (swept-answer (deadline o.configured) now n (lookup n o.pending))
      (left, about-sort_by n (sweep (deadline o.configured) now o.pending).1 ∙ due)
step-answer n (call_forget k) o filed = (lookup-remove k n o.pending, refl)

-- From pending attempts that stand once, each under its node, and over any calls: for each node
-- the attempt that is open at the end and the results about it, in their order, are those of a
-- watch over this node alone, and the attempts still stand once, each under its node.
pub run-answers :
    (n : Text) (cs : List Call) (o : Observer)
    → IsFiled o.pending
    → let (last, results) = run cs o in
      let (s, own) = answers (deadline o.configured) n cs (lookup n o.pending) in
      (lookup n last.pending ≡ s) × (about n results ≡ own) × IsFiled last.pending
unfolding run answers about IsAnswer
run-answers n [] o filed = (refl, refl, filed)
run-answers n (c ∷ cs) o filed =
    let (next, results) = step c o in
    let (left, told) = step-answer n c o filed in
    let (l, t, f) = run-answers n cs next (step-IsFiled c o filed) in
    let limit = deadline o.configured in
    let same : answers (deadline next.configured) n cs (lookup n next.pending)
        ≡ answers limit n cs (answer limit n c (lookup n o.pending)).0 =
      rw (step-configured c o, left) refl in
    (
      l ∙ ap (λ (r : Option Attempt × List Result). r.0) same,
      about-append n results (run cs next).1
          ∙ rw (told, t ∙ ap (λ (r : Option Attempt × List Result). r.1) same) refl,
      f,
    )

-- The signals that are written for a node.
unfoldable pub writes : Text → List Call → ℕ
writes n [] = 0
writes n (call_written a ∷ cs) =
    let rest = writes n cs in if text_eq a.node n then suc rest else rest
writes n (call_stopped k t ∷ cs) = writes n cs
writes n (call_expire now ∷ cs) = writes n cs
writes n (call_forget k ∷ cs) = writes n cs

abbrev pub open_attempts : Option Attempt → ℕ
open_attempts none = 0
open_attempts (some a) = 1

answers-length :
    (limit : ℤ) (n : Text) (cs : List Call) (s : Option Attempt)
    → length (answers limit n cs s).1 + open_attempts (answers limit n cs s).0
      ≤ writes n cs + open_attempts s
unfolding answers writes answer
answers-length limit n [] s = omega arith
answers-length limit n (call_written a ∷ cs) s = ground (
  arith,
  answers-length limit n cs (if text_eq a.node n && is_attempt a then some a else s),
  one_at_most s,
)
  where
    one_at_most : (s : Option Attempt) → open_attempts s ≤ 1
    one_at_most s = ground arith
answers-length limit n (call_stopped k t ∷ cs) none = answers-length limit n cs none
answers-length limit n (call_stopped k t ∷ cs) (some a) =
    ground (arith, answers-length limit n cs none, answers-length limit n cs (some a))
answers-length limit n (call_expire now ∷ cs) none = answers-length limit n cs none
answers-length limit n (call_expire now ∷ cs) (some a) =
    ground (arith, answers-length limit n cs none, answers-length limit n cs (some a))
answers-length limit n (call_forget k ∷ cs) s =
    ground (arith, answers-length limit n cs s, answers-length limit n cs none)

-- From pending attempts that stand once, each under its node, and over any calls: the results
-- about a node and the attempt open at the end are together no more than the signals written for
-- it and the attempt open before.
pub run-results_bound :
    (n : Text) (cs : List Call) (o : Observer)
    → IsFiled o.pending
    → length (about n (run cs o).1) + open_attempts (lookup n (run cs o).0.pending)
      ≤ writes n cs + open_attempts (lookup n o.pending)
run-results_bound n cs o filed =
    let (left, told, f) = run-answers n cs o filed in
    rw (left, told) (answers-length (deadline o.configured) n cs (lookup n o.pending))
