-- ===== src/Percentile/Moving/Window.antt =====
-- The window of MovingPercentileFilter (rtc_base/numerics/moving_percentile_filter.h).
use mathlib.Core.List.{
  Perm, mem-cons_self, perm_append_singleton, perm-cons, Mem, ne-nil_of_mem, mem_of_ne_of_mem,
}
use mathlib.Core.List.Perm
use tqlib.Prelude.{
  ℕ, zero, suc, ◌≤◌, ◌<◌, ◌≡◌, refl, sym, ap, ◌∙◌, subst, inl, inr, true, false, List, [], ◌∷◌,
  ◌++◌, min, arith, ltb, ◌==◌, if◌then◌else◌, Bool-cases, length, get_or, take, drop, All,
}
use tqlib.Prelude.Int.{ℤ, pos, eqb_ℤ}
use tqlib.Percentile.{PercentileFilter, empty_filter, erase_value}
use tqlib.Percentile.Position.{IsAscending}
use tqlib.Percentile.Multiset.{IsInRange, IsAtTarget}
use tqlib.Percentile.Insert.{insert_value_correct}
use tqlib.Percentile.Erase.{erase_value_correct}
use tqlib.Percentile.Correct.{empty-IsAtTarget, value_of_target}
use tqlib.Percentile.Moving.{
  MovingPercentileFilter, new_moving, front, push_sample, pop_sample, insert_sample, reset_moving,
  get_filtered_value, get_number_of_samples_stored,
}

-- The calls that a filter has had, the last one first, and its samples since the last Reset.
pub data Call : Type 0 where
  sampled : ℤ → Call
  cleared : Call

abbrev pub recorded : List Call → List ℤ
recorded [] = []
recorded (sampled x ∷ cs) = x ∷ recorded cs
recorded (cleared ∷ cs) = []

abbrev pub backwards : List ℤ → List ℤ
backwards [] = []
backwards (x ∷ xs) = backwards xs ++ x ∷ []

oldest :
    (n : ℕ) (xs : List ℤ)
    → n < length xs
    → backwards (take (suc n) xs) ≡ get_or xs n (pos 0) ∷ backwards (take n xs)
oldest n [] h = absurd (omega (arith, h))
oldest zero (x ∷ xs) h = refl
oldest (suc n) (x ∷ xs) h = ap (λ r. r ++ x ∷ []) (oldest n xs (omega (arith, h)))

take_fits : (n : ℕ) (xs : List ℤ) → length xs ≤ n → take (suc n) xs ≡ take n xs
take_fits zero [] h = refl
take_fits (suc n) [] h = refl
take_fits zero (x ∷ xs) h = absurd (omega (arith, h))
take_fits (suc n) (x ∷ xs) h = ap (λ r. x ∷ r) (take_fits n xs (omega (arith, h)))

same_tested : (v : ℤ) → eqb_ℤ v v ≡ true
same_tested v = ground arith

not_mem : (v : ℤ) (xs : List ℤ) → All (λ e. eqb_ℤ e v ≡ false) xs → Mem v xs → ⊥
not_mem v [] a m = ne-nil_of_mem m refl
not_mem v (x ∷ xs) a m =
    not_mem v xs a.1
      (mem_of_ne_of_mem (λ e. let t = rw (sym e) at a.0 in ground (arith, same_tested v, t)) m)

module _ (target : ℕ → ℕ) where
  abbrev pub run : ℕ → List Call → MovingPercentileFilter
  run w [] = new_moving w
  run w (sampled x ∷ cs) = insert_sample target x (run w cs)
  run w (cleared ∷ cs) = reset_moving (run w cs)

  -- What ties the filter to its samples, the last one first.
  pub record Holds (w : ℕ) (xs : List ℤ) (m : MovingPercentileFilter) : Type 0 where
    pub size : m.window_size ≡ w
    pub at_target : IsAtTarget target m.percentile_filter
    pub in_window : m.samples ≡ backwards (take w xs)
    pub stored : m.samples_stored ≡ min w (length xs)
    pub same_values : Perm m.percentile_filter.set (backwards (take w xs))

  -- A value that stands at the front is found, and what is left are the others.
  erased_front :
      (f : PercentileFilter) (v : ℤ) (rest : List ℤ)
      → IsInRange target
      → IsAtTarget target f
      → Perm f.set (v ∷ rest)
      → IsAtTarget target (erase_value target v f).1 × Perm (erase_value target v f).1.set rest
  erased_front f v rest range a p =
      let (b, r) = erase_value_correct target range v f a in
      (
        b,
        elim r [
          | inl (e, q) ↦ (perm-cons v).0 (Perm.trans (Perm.symm q) p)
          | inr (e, same, differ) ↦
              absurd (not_mem v f.set differ ((Perm.mem_iff p).1 mem-cons_self))
        ],
      )

  new-Holds : (w : ℕ) → Holds w [] (new_moving w)
  unfolding new_moving empty_filter
  new-Holds w = record {
    size = refl;
    at_target = empty-IsAtTarget target;
    in_window = ap backwards (sym (take_none w));
    stored = omega arith;
    same_values = rw (take_none w) Perm.rfl;
  }
    where
      take_none : (n : ℕ) → take {A = ℤ} n [] ≡ []
      take_none zero = refl
      take_none (suc n) = refl

  pushed :
      (w : ℕ) (x : ℤ) (xs : List ℤ) (m : MovingPercentileFilter)
      → IsInRange target
      → Holds w xs m
      → let m1 = push_sample target x m in
        IsAtTarget target m1.percentile_filter
        × (m1.samples ≡ backwards (take (suc w) (x ∷ xs)))
        × Perm m1.percentile_filter.set (backwards (take (suc w) (x ∷ xs)))
  unfolding push_sample
  pushed w x xs m range h =
      let (a, p) = insert_value_correct target range x m.percentile_filter h.at_target in
      (
        a,
        ap (λ r. r ++ x ∷ []) h.in_window,
        Perm.trans p
            (Perm.trans (Perm.cons x h.same_values) (Perm.symm (perm_append_singleton x _))),
      )

  popped :
      (w : ℕ) (x : ℤ) (xs : List ℤ) (m : MovingPercentileFilter)
      → IsInRange target
      → m.window_size ≡ w
      → m.samples_stored ≡ suc w
      → w ≤ length xs
      → IsAtTarget target m.percentile_filter
      → m.samples ≡ backwards (take (suc w) (x ∷ xs))
      → Perm m.percentile_filter.set (backwards (take (suc w) (x ∷ xs)))
      → Holds w (x ∷ xs) (pop_sample target m)
  unfolding pop_sample
  popped w x xs m range size stored le a s p =
      let e = oldest w (x ∷ xs) (omega (arith, le)) in
      let f = m.percentile_filter in
      let ordered =
        subst (λ l. Perm f.set (front l ∷ drop 1 l)) (sym (s ∙ e))
          (subst (λ l. Perm f.set l) e p) in
      let (b, q) = erased_front f (front m.samples) (drop 1 m.samples) range a ordered in
      let window = ap (λ l. drop 1 l) (s ∙ e) in
      record {
        size = size;
        at_target = b;
        in_window = window;
        stored = omega (arith, stored, le);
        same_values = subst (λ l. Perm (erase_value target (front m.samples) f).1.set l) window q;
      }

  insert-Holds :
      (w : ℕ) (x : ℤ) (xs : List ℤ) (m : MovingPercentileFilter)
      → IsInRange target
      → Holds w xs m
      → Holds w (x ∷ xs) (insert_sample target x m)
  unfolding insert_sample push_sample
  insert-Holds w x xs m range h =
      let m1 = push_sample target x m in
      let (a, s, p) = pushed w x xs m range h in
      elim (Bool-cases (ltb m.window_size (suc m.samples_stored))) [
        | inl full ↦
            let le : w ≤ length xs = ground (arith, full, h.size, h.stored) in
            rw (full, insert_sample)
              (popped w x xs m1 range h.size (omega (arith, h.stored, le)) le a s p)
        | inr room ↦
            let lt : length xs < w = ground (arith, room, h.size, h.stored) in
            let same = ap backwards (take_fits w (x ∷ xs) (omega (arith, lt))) in
            rw (room, insert_sample)
              (record {
                size = h.size;
                at_target = a;
                in_window = s ∙ same;
                stored = omega (arith, h.stored, lt);
                same_values = subst (λ l. Perm m1.percentile_filter.set l) same p;
              })
      ]

  reset-Holds :
      (w : ℕ) (xs : List ℤ) (m : MovingPercentileFilter)
      → Holds w xs m
      → Holds w [] (reset_moving m)
  unfolding reset_moving new_moving
  reset-Holds w xs m h =
      let n = new-Holds w in
      record {
        size = h.size;
        at_target = n.at_target;
        in_window = n.in_window;
        stored = n.stored;
        same_values = n.same_values;
      }

  run-Holds : (w : ℕ) (cs : List Call) → IsInRange target → Holds w (recorded cs) (run w cs)
  run-Holds w [] range = new-Holds w
  run-Holds w (sampled x ∷ cs) range =
      insert-Holds w x (recorded cs) (run w cs) range (run-Holds w cs range)
  run-Holds w (cleared ∷ cs) range = reset-Holds w (recorded cs) (run w cs) (run-Holds w cs range)

  -- After any calls of Insert and Reset, the values of the percentile filter are the latest
  -- `window_size` samples since the last Reset, or all of them if they are fewer, in ascending order;
  -- GetNumberOfSamplesStored counts them, and GetFilteredValue returns the one at the computed position,
  -- or 0 where there is none.
  pub moving_filter_correct :
      (w : ℕ) (cs : List Call)
      → IsInRange target
      → let m = run w cs in
        let set = m.percentile_filter.set in
        Perm set (backwards (take w (recorded cs)))
        × IsAscending set
        × (get_number_of_samples_stored m ≡ min w (length (recorded cs)))
        × (get_filtered_value m
            ≡ (if length set == 0 then pos 0 else get_or set (target (length set)) (pos 0)))
  unfolding get_number_of_samples_stored get_filtered_value
  moving_filter_correct w cs range =
      let h = run-Holds w cs range in
      (h.same_values, h.at_target.ascends, h.stored, value_of_target target _ h.at_target)
