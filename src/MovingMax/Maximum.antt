-- ===== src/MovingMax/Maximum.antt =====
-- What Add, Max and Reset of moving_max_counter.h do to the window's samples.
use tqlib.Prelude.{
  ◌≡◌, refl, subst, ap, ◌⊎◌, inl, inr, Bool, true, false, none, some, List, [], ◌∷◌, arith,
  if◌then◌else◌, Bool-cases, All, All-imp, All-append, All-zip, Any, Any-imp, Any-All,
  Any-append_left, Any-append_last,
}
use tqlib.Prelude.Int.{ℤ, ◌-ℤ◌, ◌≤ℤ◌, ◌<ℤ◌, -ℤ_parts}
use tqlib.MovingMax.{
  MovingMaxCounter, erase_before, roll_window, back_before, push, max, reset, pop_small, add,
}
use tqlib.MovingMax.Window.{
  Call, added, asked, cleared, recorded, IsTimely, run, IsWindowMax, IsSorted, Covers, FrontFrom,
  erase_before-All, erase_before-Any, erase_before-front, erase_before-IsSorted, pop_small-All,
  pop_small-IsSorted, pop_small-Any, back_before-All, back_before-Any, append-IsSorted,
}

module _ {T : Type 0} (le : T → T → Bool) where
  -- What ties the deque to the samples recorded so far, at the time `now`.
  pub record Tracks (w now : ℤ) (h : List (ℤ × T)) (c : MovingMaxCounter T) : Type 0 where
    pub window : c.window_length_ms ≡ w
    pub sorted : IsSorted le c.samples
    pub sampled : All (λ e. Any (λ f. e ≡ f) h) c.samples
    pub no_future : All (λ e. e.0 ≤ℤ now) h
    pub covered : All (λ e. (e.0 <ℤ now -ℤ w) ⊎ Any (Covers le e) c.samples) h

module _ {T : Type 0} (le : T → T → Bool) (le_total : (a b : T) → le a b ≡ false → le b a ≡ true)
    (le_trans : (a b c : T) → le a b ≡ true → le b c ≡ true → le a c ≡ true) where
  le_refl : (a : T) → le a a ≡ true
  le_refl a = elim (Bool-cases (le a a)) [ inl q ↦ q | inr q ↦ le_total a a q ]

  -- What is left after the loop of Add is larger than the sample.
  pop_small-larger :
      (x : T) (s : List (ℤ × T)) → IsSorted le s → All (λ e. le e.1 x ≡ false) (pop_small le x s)
  unfolding pop_small
  pop_small-larger x [] h = tt
  pop_small-larger x (e ∷ s) (a, h) =
      go (pop_small le x s) (pop_small-All le _ x s a) (pop_small-larger x s h)
    where
      go :
          (r : List (ℤ × T))
          → All (λ f. (e.0 <ℤ f.0) × (le e.1 f.1 ≡ false)) r
          → All (λ f. le f.1 x ≡ false) r
          → All
              (λ f. le f.1 x ≡ false)
              (elim r [ [] ↦ if le e.1 x then [] else e ∷ [] | f ∷ t ↦ e ∷ f ∷ t ])
      go [] b k = elim (Bool-cases (le e.1 x)) [ inl q ↦ rw q tt | inr q ↦ rw q (q, tt) ]
      go (f ∷ t) b k = (
        elim (Bool-cases (le e.1 x)) [
          | inl q ↦ absurd (grind (arith, b.0.1, le_trans e.1 x f.1 q (le_total f.1 x k.0)))
          | inr q ↦ q
        ],
        k,
      )

  -- After a push something covers the new sample, and what covered before still does.
  push-new :
      (now : ℤ) (x : T) (s : List (ℤ × T))
      → All (λ e. le e.1 x ≡ false) s
      → Any (Covers le (now, x)) (push now x s)
  unfolding push
  push-new now x s b = elim (Bool-cases (back_before now s)) [
    | inl q ↦ rw q (Any-append_last _ s (now, x) (omega arith, le_refl x))
    | inr q ↦
        rw q (Any-imp _ _ s (λ e h. (h.0, le_total e.1 x h.1)) (back_before-Any le _ now s b q))
  ]

  push-Any :
      (P : ℤ × T → Type 0) (now : ℤ) (x : T) (s : List (ℤ × T)) → Any P s → Any P (push now x s)
  unfolding push
  push-Any P now x s h = elim (Bool-cases (back_before now s)) [
    | inl q ↦ rw q (Any-append_left _ s _ h)
    | inr q ↦ rw q h
  ]

  push-All :
      (P : ℤ × T → Type 0) (now : ℤ) (x : T) (s : List (ℤ × T))
      → P (now, x)
      → All P s
      → All P (push now x s)
  unfolding push
  push-All P now x s p h = elim (Bool-cases (back_before now s)) [
    | inl q ↦ rw q (All-append _ s _ h (p, tt))
    | inr q ↦ rw q h
  ]

  push-IsSorted :
      (now : ℤ) (x : T) (s : List (ℤ × T))
      → IsSorted le s
      → All (λ e. le e.1 x ≡ false) s
      → IsSorted le (push now x s)
  unfolding push
  push-IsSorted now x s h b = elim (Bool-cases (back_before now s)) [
    | inl q ↦ rw q (append-IsSorted le now x s h (back_before-All le now s h q) b)
    | inr q ↦ rw q h
  ]

  Any-trans :
      (e g : ℤ × T) (s : List (ℤ × T)) → Covers le e g → Any (Covers le g) s → Any (Covers le e) s
  Any-trans e g s c h =
      Any-imp _ _ s (λ f k. (omega (arith, c.0, k.0), le_trans e.1 g.1 f.1 c.1 k.1)) h

  later :
      {w t now : ℤ} {h : List (ℤ × T)} {c : MovingMaxCounter T}
      → t ≤ℤ now
      → Tracks le w t h c
      → Tracks le w now h c
  later {w} {t} {now} {h} {c} p k = record {
    window = k.window;
    sorted = k.sorted;
    sampled = k.sampled;
    no_future = All-imp _ _ h (λ e q. omega arith) k.no_future;
    covered =
        All-imp _ _ h
          (λ e. elim [ inl q ↦ inl (omega (arith, -ℤ_parts t w, -ℤ_parts now w)) | inr q ↦ inr q ])
          k.covered;
  }

  roll_window-Tracks :
      {w t : ℤ} (now : ℤ) {h : List (ℤ × T)} {c : MovingMaxCounter T}
      → t ≤ℤ now
      → Tracks le w t h c
      → Tracks le w now h (roll_window now c)
  unfolding roll_window
  roll_window-Tracks {w} {t} now {h} {c} p k₀ =
      let k = later p k₀ in
      let begin = now -ℤ c.window_length_ms in
      let same : begin ≡ now -ℤ w = ap (λ z. now -ℤ z) k.window in
      record {
        window = k.window;
        sorted = erase_before-IsSorted le begin c.samples k.sorted;
        sampled = erase_before-All _ begin c.samples k.sampled;
        no_future = k.no_future;
        covered =
            All-imp _ _ h
              (λ e. elim [
                | inl q ↦ inl q
                | inr a ↦ elim (erase_before-Any _ begin c.samples a) [
                  | inl b ↦ inr b
                  | inr b ↦ inl (
                      subst (λ z. e.0 <ℤ z) same
                        (Any-All (λ f. Unit) (λ f. Covers le e f × (f.0 <ℤ begin)) (e.0 <ℤ begin)
                          c.samples (λ f u v. omega (arith, v.0.0, v.1))
                          (All-imp _ _ c.samples (λ f u. tt) k.sampled) b))
                ]
              ])
              k.covered;
      }

  add-Tracks :
      {w t : ℤ} (x : T) (now : ℤ) {h : List (ℤ × T)} {c : MovingMaxCounter T}
      → t ≤ℤ now
      → Tracks le w t h c
      → Tracks le w now ((now, x) ∷ h) (add le x now c)
  unfolding add
  add-Tracks {w} {t} x now {h} {c} p k₀ =
      let k = roll_window-Tracks now p k₀ in
      let s = (roll_window now c).samples in
      let larger = pop_small-larger x s k.sorted in
      let fresh = push-new now x (pop_small le x s) larger in
      record {
        window = k.window;
        sorted = push-IsSorted now x _ (pop_small-IsSorted le x s k.sorted) larger;
        sampled =
            push-All _ now x _ (inl refl)
              (pop_small-All le _ x s (All-imp _ _ s (λ e a. inr a) k.sampled));
        no_future = (omega arith, k.no_future);
        covered = (
          inr fresh,
          All-imp _ _ h
              (λ e. λ z. elim z.1 [
                | inl q ↦ inl q
                | inr a ↦ elim (pop_small-Any le _ x s a) [
                  | inl b ↦ inr (push-Any _ now x _ b)
                  | inr b ↦ inr (
                      Any-trans e (now, x) _
                        (z.0, Any-All _ _ _ s (λ f u v. le_trans e.1 f.1 x v.0.1 v.1) k.sampled b)
                        fresh)
                ]
              ])
              (All-zip _ _ h k.no_future k.covered),
        );
      }

  front-IsWindowMax :
      (begin : ℤ) (h s : List (ℤ × T))
      → IsSorted le s
      → FrontFrom begin s
      → All (λ e. Any (λ f. e ≡ f) h) s
      → All (λ e. (e.0 <ℤ begin) ⊎ Any (Covers le e) s) h
      → IsWindowMax le begin h (elim s [ [] ↦ none | e ∷ s ↦ some e.1 ])
  front-IsWindowMax begin h [] o f m c =
      All-imp _ _ h (λ e. elim [ inl q ↦ q | inr a ↦ absurd a ]) c
  front-IsWindowMax begin h (g ∷ r) o f m c = (
    Any-imp _ _ h (λ e q. (subst (λ z. begin ≤ℤ z.0) q f, ap (λ z. z.1) q)) m.0,
    All-imp _ _ h
        (λ e. elim [
          | inl q ↦ inl q
          | inr (inl k) ↦ inr k.1
          | inr (inr a) ↦
              inr (Any-All _ _ _ r (λ z u v. le_trans e.1 z.1 g.1 v.1 (le_total g.1 z.1 u.1)) o.0 a)
        ])
        c,
  )

  run-Tracks :
      (w now : ℤ) (cs : List (Call T))
      → IsTimely now cs
      → Tracks le w now (recorded cs) (run le w cs)
  unfolding max reset
  run-Tracks w now [] h = record {
    window = refl;
    sorted = tt;
    sampled = tt;
    no_future = tt;
    covered = tt;
  }
  run-Tracks w now (added x t ∷ cs) (p, h) =
      later p (add-Tracks x t (omega arith) (run-Tracks w t cs h))
  run-Tracks w now (asked t ∷ cs) (p, h) =
      later p (roll_window-Tracks t (omega arith) (run-Tracks w t cs h))
  run-Tracks w now (cleared ∷ cs) h = record {
    window = (run-Tracks w now cs h).window;
    sorted = tt;
    sampled = tt;
    no_future = tt;
    covered = tt;
  }

  -- After any calls whose times do not decrease, Max at a time that is not earlier gives the largest
  -- of the samples that were added since the last Reset and are not older than the window's length.
  -- It gives none exactly when all of them are older. The samples' `<=` is total and transitive.
  pub max_correct :
      (w now : ℤ) (cs : List (Call T))
      → IsTimely now cs
      → IsWindowMax le (now -ℤ w) (recorded cs) (max now (run le w cs)).0
  unfolding max roll_window
  max_correct w now cs h =
      let k₀ = run-Tracks w now cs h in
      let k = roll_window-Tracks now (omega arith) k₀ in
      let same = ap (λ z. now -ℤ z) k₀.window in
      front-IsWindowMax (now -ℤ w) (recorded cs) _ k.sorted
        (subst
          (λ z.
            FrontFrom z
              (erase_before (now -ℤ (run le w cs).window_length_ms) (run le w cs).samples))
          same (erase_before-front _ (run le w cs).samples))
        k.sampled k.covered

  -- After any calls whose times do not decrease, the times in the deque strictly increase from its
  -- front, and the samples strictly decrease.
  pub run-IsSorted :
      (w now : ℤ) (cs : List (Call T)) → IsTimely now cs → IsSorted le (run le w cs).samples
  run-IsSorted w now cs h = (run-Tracks w now cs h).sorted
