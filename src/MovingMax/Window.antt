-- ===== src/MovingMax/Window.antt =====
-- What the counter's deque stands for (moving_max_counter.h).
use tqlib.Prelude.{
  ◌≡◌, ◌⊎◌, inl, inr, Bool, true, false, Option, none, some, List, [], ◌∷◌, ◌++◌, arith,
  if◌then◌else◌, Bool-cases, All, All-append, Any,
}
use tqlib.Prelude.Int.{ℤ, ◌≤ℤ◌, ◌<ℤ◌, ltb_ℤ}
use tqlib.MovingMax.{MovingMaxCounter, erase_before, back_before, max, reset, pop_small, add}

-- The calls that a counter has had, the last one first.
pub data Call (T : Type 0) : Type 0 where
  added : T → ℤ → Call T
  asked : ℤ → Call T
  cleared : Call T

-- The samples since the last reset.
abbrev pub recorded : {T : Type 0} → List (Call T) → List (ℤ × T)
recorded [] = []
recorded (added x t ∷ cs) = (t, x) ∷ recorded cs
recorded (asked t ∷ cs) = recorded cs
recorded (cleared ∷ cs) = []

-- The times of the calls do not decrease, and the last is not after `now`.
abbrev pub IsTimely : {T : Type 0} → ℤ → List (Call T) → Type 0
IsTimely now [] = Unit
IsTimely now (added x t ∷ cs) = (t ≤ℤ now) × IsTimely t cs
IsTimely now (asked t ∷ cs) = (t ≤ℤ now) × IsTimely t cs
IsTimely now (cleared ∷ cs) = IsTimely now cs

module _ {T : Type 0} (le : T → T → Bool) where
  -- The counter after the calls.
  abbrev pub run : ℤ → List (Call T) → MovingMaxCounter T
  run w [] = record { window_length_ms = w; samples = [] }
  run w (added x t ∷ cs) = add le x t (run w cs)
  run w (asked t ∷ cs) = (max t (run w cs)).1
  run w (cleared ∷ cs) = reset (run w cs)

  -- The largest sample of the window, or none where the window has none.
  abbrev pub IsWindowMax : ℤ → List (ℤ × T) → Option T → Type 0
  IsWindowMax begin h none = All (λ e. e.0 <ℤ begin) h
  IsWindowMax begin h (some m) =
      Any (λ e. (begin ≤ℤ e.0) × (m ≡ e.1)) h × All (λ e. (e.0 <ℤ begin) ⊎ (le e.1 m ≡ true)) h

  -- Times ascend and samples descend from the front.
  abbrev pub IsSorted : List (ℤ × T) → Type 0
  IsSorted [] = Unit
  IsSorted (e ∷ s) = All (λ f. (e.0 <ℤ f.0) × (le e.1 f.1 ≡ false)) s × IsSorted s

  abbrev pub Covers : ℤ × T → ℤ × T → Type 0
  Covers e f = (e.0 ≤ℤ f.0) × (le e.1 f.1 ≡ true)

module _ {T : Type 0} where
  pub erase_before-All :
      (P : ℤ × T → Type 0) (begin : ℤ) (s : List (ℤ × T)) → All P s → All P (erase_before begin s)
  unfolding erase_before
  erase_before-All P begin [] h = tt
  erase_before-All P begin (e ∷ s) (p, h) = elim (Bool-cases (ltb_ℤ e.0 begin)) [
    | inl q ↦ rw q (erase_before-All P begin s h)
    | inr q ↦ rw q (p, h)
  ]

  pub erase_before-Any :
      (P : ℤ × T → Type 0) (begin : ℤ) (s : List (ℤ × T))
      → Any P s
      → Any P (erase_before begin s) ⊎ Any (λ e. P e × (e.0 <ℤ begin)) s
  unfolding erase_before
  erase_before-Any P begin [] h = absurd h
  erase_before-Any P begin (e ∷ s) h = elim (Bool-cases (ltb_ℤ e.0 begin)) [
    | inl q ↦ elim h [
      | inl p ↦ inr (inl (p, ground arith))
      | inr k ↦ elim (erase_before-Any P begin s k) [ inl a ↦ inl (rw q a) | inr b ↦ inr (inr b) ]
    ]
    | inr q ↦ inl (rw q h)
  ]

  abbrev pub FrontFrom : ℤ → List (ℤ × T) → Type 0
  FrontFrom begin [] = Unit
  FrontFrom begin (e ∷ s) = begin ≤ℤ e.0

  pub erase_before-front : (begin : ℤ) (s : List (ℤ × T)) → FrontFrom begin (erase_before begin s)
  unfolding erase_before
  erase_before-front begin [] = tt
  erase_before-front begin (e ∷ s) = elim (Bool-cases (ltb_ℤ e.0 begin)) [
    | inl q ↦ rw q (erase_before-front begin s)
    | inr q ↦ rw q (let h : begin ≤ℤ e.0 = ground arith in h)
  ]

module _ {T : Type 0} (le : T → T → Bool) where
  pub erase_before-IsSorted :
      (begin : ℤ) (s : List (ℤ × T)) → IsSorted le s → IsSorted le (erase_before begin s)
  unfolding erase_before
  erase_before-IsSorted begin [] h = tt
  erase_before-IsSorted begin (e ∷ s) h = elim (Bool-cases (ltb_ℤ e.0 begin)) [
    | inl q ↦ rw q (erase_before-IsSorted begin s h.1)
    | inr q ↦ rw q h
  ]

  pub pop_small-All :
      (P : ℤ × T → Type 0) (x : T) (s : List (ℤ × T)) → All P s → All P (pop_small le x s)
  unfolding pop_small
  pop_small-All P x [] h = tt
  pop_small-All P x (e ∷ s) (p, h) = go (pop_small le x s) (pop_small-All P x s h)
    where
      go :
          (r : List (ℤ × T))
          → All P r
          → All P (elim r [ [] ↦ if le e.1 x then [] else e ∷ [] | f ∷ t ↦ e ∷ f ∷ t ])
      go [] k = elim (Bool-cases (le e.1 x)) [ inl q ↦ rw q tt | inr q ↦ rw q (p, tt) ]
      go (f ∷ t) k = (p, k)

  pub pop_small-IsSorted :
      (x : T) (s : List (ℤ × T)) → IsSorted le s → IsSorted le (pop_small le x s)
  unfolding pop_small
  pop_small-IsSorted x [] h = tt
  pop_small-IsSorted x (e ∷ s) (a, h) =
      go (pop_small le x s) (pop_small-All _ x s a) (pop_small-IsSorted x s h)
    where
      go :
          (r : List (ℤ × T))
          → All (λ f. (e.0 <ℤ f.0) × (le e.1 f.1 ≡ false)) r
          → IsSorted le r
          → IsSorted le (elim r [ [] ↦ if le e.1 x then [] else e ∷ [] | f ∷ t ↦ e ∷ f ∷ t ])
      go [] b k = elim (Bool-cases (le e.1 x)) [ inl q ↦ rw q tt | inr q ↦ rw q (tt, tt) ]
      go (f ∷ t) b k = (b, k)

  -- What is dropped is not larger than the sample.
  pub pop_small-Any :
      (P : ℤ × T → Type 0) (x : T) (s : List (ℤ × T))
      → Any P s
      → Any P (pop_small le x s) ⊎ Any (λ e. P e × (le e.1 x ≡ true)) s
  unfolding pop_small
  pop_small-Any P x [] h = absurd h
  pop_small-Any P x (e ∷ s) h =
      go (pop_small le x s) (elim h [ inl p ↦ inl p | inr k ↦ inr (pop_small-Any P x s k) ])
    where
      go :
          (r : List (ℤ × T))
          → P e ⊎ (Any P r ⊎ Any (λ e. P e × (le e.1 x ≡ true)) s)
          → Any P (elim r [ [] ↦ if le e.1 x then [] else e ∷ [] | f ∷ t ↦ e ∷ f ∷ t ])
            ⊎ Any (λ e. P e × (le e.1 x ≡ true)) (e ∷ s)
      go r (inr (inr k)) = inr (inr k)
      go [] (inr (inl k)) = absurd k
      go [] (inl p) = elim (Bool-cases (le e.1 x)) [
        | inl q ↦ inr (inl (p, q))
        | inr q ↦ inl (rw q (inl p))
      ]
      go (f ∷ t) (inl p) = inl (inl p)
      go (f ∷ t) (inr (inl k)) = inl (inr k)

  pub back_before-All :
      (now : ℤ) (s : List (ℤ × T))
      → IsSorted le s
      → back_before now s ≡ true
      → All (λ e. e.0 <ℤ now) s
  unfolding back_before
  back_before-All now [] h q = tt
  back_before-All now (e ∷ []) h q = (ground arith, tt)
  back_before-All now (e ∷ f ∷ s) h q =
      let (k, r) = back_before-All now (f ∷ s) h.1 q in let first = h.0.0.0 in (omega arith, (k, r))

  pub back_before-Any :
      (Q : ℤ × T → Type 0) (now : ℤ) (s : List (ℤ × T))
      → All Q s
      → back_before now s ≡ false
      → Any (λ e. (now ≤ℤ e.0) × Q e) s
  unfolding back_before
  back_before-Any Q now [] h q = absurd (ground arith)
  back_before-Any Q now (e ∷ []) h q = inl (ground arith, h.0)
  back_before-Any Q now (e ∷ f ∷ s) h q = inr (back_before-Any Q now (f ∷ s) h.1 q)

  pub append-IsSorted :
      (now : ℤ) (x : T) (s : List (ℤ × T))
      → IsSorted le s
      → All (λ e. e.0 <ℤ now) s
      → All (λ e. le e.1 x ≡ false) s
      → IsSorted le (s ++ ((now, x) ∷ []))
  append-IsSorted now x [] h a b = (tt, tt)
  append-IsSorted now x (e ∷ s) h a b =
      (All-append _ s ((now, x) ∷ []) h.0 ((a.0, b.0), tt), append-IsSorted now x s h.1 a.1 b.1)
