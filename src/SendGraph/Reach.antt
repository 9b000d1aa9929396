-- ===== src/SendGraph/Reach.antt =====
-- The threads that a blocking call reaches in the graph of thread.cc, and the loop that collects them.
use mathlib.Core.WellFounded.{Acc}
use tqlib.Prelude.{
  ℕ, zero, suc, ◌+◌, ◌≡◌, ◌⊎◌, refl, sym, subst, inl, inr, true, false, Option, none, some, List,
  [], ◌∷◌, ◌++◌, arith, Bool-cases, ◌==◌,
}
use tqlib.SendGraph.{Graph, c_count, collect_targets}

abbrev pub IsIn : ℕ → List ℕ → Type 0
IsIn t [] = ⊥
IsIn t (u ∷ us) = (u ≡ t) ⊎ IsIn t us

pub IsIn-append_left : (t : ℕ) (us vs : List ℕ) → IsIn t us → IsIn t (us ++ vs)
IsIn-append_left t [] vs h = absurd h
IsIn-append_left t (u ∷ us) vs (inl e) = inl e
IsIn-append_left t (u ∷ us) vs (inr h) = inr (IsIn-append_left t us vs h)

pub IsIn-append_right : (t : ℕ) (us vs : List ℕ) → IsIn t vs → IsIn t (us ++ vs)
IsIn-append_right t [] vs h = h
IsIn-append_right t (u ∷ us) vs h = inr (IsIn-append_right t us vs h)

pub IsIn-append : (t : ℕ) (us vs : List ℕ) → IsIn t (us ++ vs) → IsIn t us ⊎ IsIn t vs
IsIn-append t [] vs h = inr h
IsIn-append t (u ∷ us) vs (inl e) = inl (inl e)
IsIn-append t (u ∷ us) vs (inr h) = elim (IsIn-append t us vs h) [
  | inl k ↦ inl (inr k)
  | inr k ↦ inr k
]

-- A thread sends to another one, directly.
abbrev pub Sends : Graph → ℕ → ℕ → Type 0
Sends g b a = IsIn b (g a)

-- No chain of sends goes on for ever, so none is a cycle.
abbrev pub IsAcyclic : Graph → Type 0
IsAcyclic g = (a : ℕ) → Acc (Sends g) a

-- A chain of sends from one thread to another, of any length.
pub data Reaches (g : Graph) : ℕ → ℕ → Type 0 where
  here : {a : ℕ} → Reaches g a a
  there : {a b c : ℕ} → IsIn b (g a) → Reaches g b c → Reaches g a c

-- Two numbers that are told apart.
pub eq_of_test : (a b : ℕ) → (a == b) ≡ true → a ≡ b
eq_of_test a b e = ground (arith, e)

pub test_of_eq : (a : ℕ) → (a == a) ≡ true
test_of_eq a = ground arith

pub counted : (t : ℕ) (us : List ℕ) → (c_count t us == 0) ≡ false → IsIn t us
unfolding c_count
counted t [] h = absurd (ground (arith, h))
counted t (u ∷ us) h = elim (Bool-cases (u == t)) [
  | inl e ↦ inl (eq_of_test u t e)
  | inr e ↦ inr (counted t us (rw e at h))
]

pub not_counted : (t : ℕ) (us : List ℕ) → (c_count t us == 0) ≡ true → IsIn t us → ⊥
unfolding c_count
not_counted t [] h k = k
not_counted t (u ∷ us) h k = elim (Bool-cases (u == t)) [
  | inl e ↦ absurd (positive (c_count t us) (rw e at h))
  | inr e ↦ elim k [
    | inl q ↦ absurd (ground (arith, e, q))
    | inr q ↦ not_counted t us (rw e at h) q
  ]
]
  where
    positive : (n : ℕ) → (n + 1 == 0) ≡ true → ⊥
    positive n h = ground (arith, h)

-- What the loop collects holds what it starts from, and the targets of whatever it holds.
pub record IsClosed (g : Graph) (from all : List ℕ) : Type 0 where
  pub starts : (t : ℕ) → IsIn t from → IsIn t all
  pub targets : (t u : ℕ) → IsIn t all → IsIn u (g t) → IsIn u all

pub Option-cases : (o : Option (List ℕ)) → (o ≡ none) ⊎ ((us : List ℕ) × (o ≡ some us))
Option-cases none = inl refl
Option-cases (some us) = inr (us, refl)

collect_nil :
    (fuel : ℕ) (g : Graph) (all : List ℕ) → collect_targets fuel g [] ≡ some all → all ≡ []
unfolding collect_targets
collect_nil zero g all h = ground (arith, h)
collect_nil (suc fuel) g all h = ground (arith, h)

collect_split :
    (fuel : ℕ) (g : Graph) (t : ℕ) (ts all : List ℕ)
    → collect_targets (suc fuel) g (t ∷ ts) ≡ some all
    → (us : List ℕ) × (collect_targets fuel g (ts ++ g t) ≡ some us) × (all ≡ t ∷ us)
unfolding collect_targets
collect_split fuel g t ts all h = elim (Option-cases (collect_targets fuel g (ts ++ g t))) [
  | inl n ↦ absurd (ground (arith, rw (n, collect_targets) at h))
  | inr (us, n) ↦ (us, n, ground (arith, rw (n, collect_targets) at h))
]

pub collect-IsClosed :
    (fuel : ℕ) (g : Graph) (from all : List ℕ)
    → collect_targets fuel g from ≡ some all
    → IsClosed g from all
unfolding collect_targets
collect-IsClosed fuel g [] all h =
    rw (collect_nil fuel g all h) (record { starts = λ t m. m; targets = λ t u m n. absurd m })
collect-IsClosed zero g (t ∷ ts) all h = absurd (ground (arith, h))
collect-IsClosed (suc fuel) g (t ∷ ts) all h =
    let (us, k, e) = collect_split fuel g t ts all h in
    let c = collect-IsClosed fuel g (ts ++ g t) us k in
    rw e (record {
      starts = λ u m. elim m [
        | inl q ↦ inl q
        | inr q ↦ inr (c.starts u (IsIn-append_left u ts (g t) q))
      ];
      targets = λ u v m n. elim m [
        | inl q ↦
            inr (c.starts v (IsIn-append_right v ts (g t) (subst (λ a. IsIn v (g a)) (sym q) n)))
        | inr q ↦ inr (c.targets u v q n)
      ];
    })

-- What the loop collects is reached from what it starts from.
pub collect-Reaches :
    (fuel : ℕ) (g : Graph) (from all : List ℕ)
    → collect_targets fuel g from ≡ some all
    → (u : ℕ) → IsIn u all
    → (t : ℕ) × IsIn t from × Reaches g t u
unfolding collect_targets
collect-Reaches fuel g [] all h u m = absurd (subst (IsIn u) (collect_nil fuel g all h) m)
collect-Reaches zero g (t ∷ ts) all h u m = absurd (ground (arith, h))
collect-Reaches (suc fuel) g (t ∷ ts) all h u m =
    let (us, k, e) = collect_split fuel g t ts all h in
    elim (subst (IsIn u) e m) [
      | inl q ↦ (t, inl refl, subst (Reaches g t) q here)
      | inr q ↦
          let (v, n, r) = collect-Reaches fuel g (ts ++ g t) us k u q in
          elim (IsIn-append v ts (g t) n) [
            | inl p ↦ (v, inr p, r)
            | inr p ↦ (t, inl refl, there p r)
          ]
    ]
