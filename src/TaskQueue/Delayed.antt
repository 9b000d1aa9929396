-- ===== src/TaskQueue/Delayed.antt =====
-- The delayed queue of TaskQueueStdlib as a map: `operator<` of its keys is a strict total order, and
-- a write by a fresh key keeps the list sorted and loses no entry.
use mathlib.Core.List.{Perm}
use mathlib.Core.List.Perm
use tqlib.Prelude.{
  ℕ, ◌≡◌, ◌≢◌, inl, inr, true, false, List, [], ◌∷◌, arith, All, All-imp, Bool-cases,
}
use tqlib.TaskQueue.{DelayedEntryTimeout, timeout_lt, assign}

pub timeout_lt_trans :
    (a b c : DelayedEntryTimeout)
    → timeout_lt a b ≡ true
    → timeout_lt b c ≡ true
    → timeout_lt a c ≡ true
unfolding timeout_lt
timeout_lt_trans a b c h k = ground arith

pub timeout_lt_total :
    (a b : DelayedEntryTimeout) → a.order ≢ b.order → timeout_lt a b ≡ false → timeout_lt b a ≡ true
unfolding timeout_lt
timeout_lt_total a b ne h = ground arith

pub timeout_lt_irrefl : (a : DelayedEntryTimeout) → timeout_lt a a ≡ false
unfolding timeout_lt
timeout_lt_irrefl a = ground arith

abbrev pub Delayed {ℓ} : Type ℓ → Type ℓ
Delayed Task = List (DelayedEntryTimeout × Task)

-- The entries stand in ascending order of their keys.
abbrev pub IsSorted {ℓ} : {Task : Type ℓ} → List (DelayedEntryTimeout × Task) → Type 0
IsSorted [] = Unit
IsSorted ((k, u) ∷ m) = All (λ e. timeout_lt k e.0 ≡ true) m × IsSorted m

-- No entry has this order.
abbrev pub IsFresh {ℓ} : {Task : Type ℓ} → ℕ → List (DelayedEntryTimeout × Task) → Type 0
IsFresh o m = All (λ e. e.0.order ≢ o) m

module _ {ℓ} {Task : Type ℓ} where
  pub assign-All {κ} :
      (P : DelayedEntryTimeout × Task → Type κ) (e : DelayedEntryTimeout) (t : Task)
      (m : Delayed Task)
      → P (e, t)
      → All P m
      → All P (assign e t m)
  unfolding assign
  assign-All P e t [] p h = (p, tt)
  assign-All P e t ((k, u) ∷ m) p (q, h) = ground (arith, assign-All P e t m p h)

  pub assign-IsSorted :
      (e : DelayedEntryTimeout) (t : Task) (m : Delayed Task)
      → IsFresh e.order m
      → IsSorted m
      → IsSorted (assign e t m)
  unfolding assign
  assign-IsSorted e t [] f s = (tt, tt)
  assign-IsSorted e t ((k, u) ∷ m) (ne, f) (a, s) = elim (Bool-cases (timeout_lt k e)) [
    | inl lt ↦
        rw lt (assign-All (λ x. timeout_lt k x.0 ≡ true) e t m lt a, assign-IsSorted e t m f s)
    | inr ge ↦
        let lt = timeout_lt_total k e ne ge in
        rw (ge, lt) ((lt, All-imp _ _ m (λ x. timeout_lt_trans e k x.0 lt) a), (a, s))
  ]

  pub assign-perm :
      (e : DelayedEntryTimeout) (t : Task) (m : Delayed Task)
      → IsFresh e.order m
      → Perm (assign e t m) ((e, t) ∷ m)
  unfolding assign
  assign-perm e t [] f = Perm.refl _
  assign-perm e t ((k, u) ∷ m) (ne, f) = elim (Bool-cases (timeout_lt k e)) [
    | inl lt ↦ rw lt (Perm.trans (Perm.cons (k, u) (assign-perm e t m f)) (Perm.swap _ _ _))
    | inr ge ↦ rw (ge, timeout_lt_total k e ne ge) (Perm.refl _)
  ]
