-- ===== src/Percentile/Multiset.antt =====
-- The multiset of PercentileFilter as a list, and its iterator's invariant
-- (rtc_base/numerics/percentile_filter.h).
use mathlib.Core.List.{Perm, perm_middle}
use mathlib.Core.List.Perm
use tqlib.Prelude.{
  ℕ, zero, suc, ◌+◌, ◌<◌, ◌≡◌, refl, sym, ◌∙◌, ap, subst, inl, inr, some, List, [], ◌∷◌, ◌++◌,
  arith, Bool-cases, ◌==◌, length, get_elem?, take, drop, take-append-drop, All, All-imp,
  length-append,
}
use tqlib.Prelude.Int.{ℤ, ltb_ℤ, ◌≤ℤ◌}
use tqlib.Percentile.{
  PercentileFilter, upper_place, multiset_insert, multiset_erase, update_percentile_iterator,
}
use tqlib.Percentile.Position.{IsAscending}

-- What the computed position keeps to.
abbrev pub IsInRange : (ℕ → ℕ) → Type 0
IsInRange target = (n : ℕ) → 0 < n → target n < n

-- The invariant: the values ascend, and unless there is none the iterator and the index are at the
-- computed position.
pub record IsAtTarget (target : ℕ → ℕ) (f : PercentileFilter) : Type 0 where
  pub ascends : IsAscending f.set
  pub iterator : 0 < length f.set → f.percentile_it ≡ target (length f.set)
  pub index : 0 < length f.set → f.percentile_index ≡ target (length f.set)

-- Wherever the iterator is, if the index agrees the update leads to the computed position.
pub update-IsAtTarget :
    (target : ℕ → ℕ) (f : PercentileFilter)
    → IsAscending f.set
    → f.percentile_it ≡ f.percentile_index
    → IsAtTarget target (update_percentile_iterator target f)
      × ((update_percentile_iterator target f).set ≡ f.set)
unfolding update_percentile_iterator
update-IsAtTarget target f s e = elim (Bool-cases (length f.set == 0)) [
  | inl q ↦ rw q (
    record {
      ascends = s;
      iterator = λ h. absurd (ground (arith, h, q));
      index = λ h. absurd (ground (arith, h, q));
    },
    refl,
  )
  | inr q ↦ rw q (record { ascends = s; iterator = λ h. omega (arith, e); index = λ h. refl }, refl)
]

pub inserted_length : (v : ℤ) (s : List ℤ) → length (multiset_insert v s) ≡ suc (length s)
unfolding multiset_insert
inserted_length v s =
    length-append (take (upper_place v s) s) (v ∷ drop (upper_place v s) s)
    ∙ grow (length (take (upper_place v s) s)) (length (drop (upper_place v s) s)) (length s) (
        sym (length-append (take (upper_place v s) s) (drop (upper_place v s) s))
        ∙ ap length (take-append-drop (upper_place v s) s))
  where
    grow : (a b n : ℕ) → a + b ≡ n → a + suc b ≡ suc n
    grow a b n h = omega (arith, h)

insert-All : (P : ℤ → Type 0) (v : ℤ) (s : List ℤ) → P v → All P s → All P (multiset_insert v s)
unfolding multiset_insert upper_place
insert-All P v [] p h = (p, tt)
insert-All P v (e ∷ s) p (q, h) = elim (Bool-cases (ltb_ℤ v e)) [
  | inl a ↦ rw a (p, (q, h))
  | inr a ↦ rw a (q, insert-All P v s p h)
]

pub insert-IsAscending : (v : ℤ) (s : List ℤ) → IsAscending s → IsAscending (multiset_insert v s)
unfolding multiset_insert upper_place
insert-IsAscending v [] h = (tt, tt)
insert-IsAscending v (e ∷ s) (all, h) = elim (Bool-cases (ltb_ℤ v e)) [
  | inl a ↦ rw a ((ground (arith, a), All-imp _ _ s (λ f k. ground (arith, a, k)) all), (all, h))
  | inr a ↦ rw a (insert-All (λ f. e ≤ℤ f) v s (ground (arith, a)) all, insert-IsAscending v s h)
]

erase-All : (P : ℤ → Type 0) (p : ℕ) (s : List ℤ) → All P s → All P (multiset_erase p s)
unfolding multiset_erase
erase-All P zero [] h = tt
erase-All P zero (e ∷ s) (q, h) = h
erase-All P (suc p) [] h = tt
erase-All P (suc p) (e ∷ s) (q, h) = (q, erase-All P p s h)

pub erase-IsAscending : (p : ℕ) (s : List ℤ) → IsAscending s → IsAscending (multiset_erase p s)
unfolding multiset_erase
erase-IsAscending zero [] h = tt
erase-IsAscending zero (e ∷ s) (all, h) = h
erase-IsAscending (suc p) [] h = tt
erase-IsAscending (suc p) (e ∷ s) (all, h) =
    (erase-All (λ f. e ≤ℤ f) p s all, erase-IsAscending p s h)

pub insert-perm : (v : ℤ) (s : List ℤ) → Perm (multiset_insert v s) (v ∷ s)
unfolding multiset_insert
insert-perm v s = Perm.trans (perm_middle (take (upper_place v s) s) (drop (upper_place v s) s)) (
    subst (λ r. Perm (v ∷ (take (upper_place v s) s ++ drop (upper_place v s) s)) (v ∷ r))
      (take-append-drop (upper_place v s) s) (Perm.refl _))

pub erase-perm :
    (p : ℕ) (v : ℤ) (s : List ℤ) → get_elem? s p ≡ some v → Perm s (v ∷ multiset_erase p s)
unfolding multiset_erase
erase-perm p v [] h = absurd (ground (arith, h))
erase-perm zero v (e ∷ s) h =
    let q : e ≡ v = cc in subst (λ x. Perm (e ∷ s) (x ∷ s)) q (Perm.refl _)
erase-perm (suc p) v (e ∷ s) h = Perm.trans (Perm.cons e (erase-perm p v s h)) (Perm.swap _ _ _)
