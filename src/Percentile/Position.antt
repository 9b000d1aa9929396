-- ===== src/Percentile/Position.antt =====
-- Positions in the ascending list of PercentileFilter, before and after a change
-- (rtc_base/numerics/percentile_filter.h).
use tqlib.Prelude.{
  ℕ, zero, suc, ◌-◌, ◌≤◌, ◌<◌, ◌≡◌, refl, ◌∙◌, inl, inr, true, false, List, [], ◌∷◌, ◌++◌, arith,
  Bool-cases, ltb, leb, ◌==◌, if◌then◌else◌, length, get_or, take, drop, All,
}
use tqlib.Prelude.Int.{ℤ, pos, ltb_ℤ, leb_ℤ, ◌≤ℤ◌}
use tqlib.Percentile.{lower_place, upper_place, value_at}

abbrev pub IsAscending : List ℤ → Type 0
IsAscending [] = Unit
IsAscending (e ∷ s) = All (λ f. e ≤ℤ f) s × IsAscending s

All-get_or : (P : ℤ → Type 0) (s : List ℤ) (i : ℕ) → All P s → i < length s → P (get_or s i (pos 0))
All-get_or P [] i h l = absurd (omega (arith, l))
All-get_or P (e ∷ s) zero (p, h) l = p
All-get_or P (e ∷ s) (suc i) (p, h) l = All-get_or P s i h (omega (arith, l))

-- A value is less than those from its upper bound on, and greater than those before its lower bound.
pub upper_place_lem :
    (v : ℤ) (s : List ℤ) (i : ℕ)
    → IsAscending s
    → i < length s
    → ltb_ℤ v (value_at i s) ≡ leb (upper_place v s) i
unfolding upper_place value_at
upper_place_lem v [] i h l = absurd (omega (arith, l))
upper_place_lem v (e ∷ s) zero (all, h) l = elim (Bool-cases (ltb_ℤ v e)) [
  | inl q ↦ rw q (ground arith)
  | inr q ↦ rw q (ground arith)
]
upper_place_lem v (e ∷ s) (suc i) (all, h) l = elim (Bool-cases (ltb_ℤ v e)) [
  | inl q ↦ let above = All-get_or _ s i all (omega (arith, l)) in rw q (ground (arith, above, q))
  | inr q ↦ rw q (upper_place_lem v s i h (omega (arith, l)) ∙ shift (upper_place v s) i)
]
  where
    shift : (p i : ℕ) → leb p i ≡ leb (suc p) (suc i)
    shift p i = ground arith

pub lower_place_lem :
    (v : ℤ) (s : List ℤ) (i : ℕ)
    → IsAscending s
    → i < length s
    → leb_ℤ v (value_at i s) ≡ leb (lower_place v s) i
unfolding lower_place value_at
lower_place_lem v [] i h l = absurd (omega (arith, l))
lower_place_lem v (e ∷ s) zero (all, h) l = elim (Bool-cases (ltb_ℤ e v)) [
  | inl q ↦ rw q (ground (arith, q))
  | inr q ↦ rw q (ground (arith, q))
]
lower_place_lem v (e ∷ s) (suc i) (all, h) l = elim (Bool-cases (ltb_ℤ e v)) [
  | inl q ↦ rw q (lower_place_lem v s i h (omega (arith, l)) ∙ shift (lower_place v s) i)
  | inr q ↦ let above = All-get_or _ s i all (omega (arith, l)) in rw q (ground (arith, above, q))
]
  where
    shift : (p i : ℕ) → leb p i ≡ leb (suc p) (suc i)
    shift p i = ground arith

pub upper_place-le : (v : ℤ) (s : List ℤ) → upper_place v s ≤ length s
unfolding upper_place
upper_place-le v [] = omega arith
upper_place-le v (e ∷ s) = elim (Bool-cases (ltb_ℤ v e)) [
  | inl q ↦ rw q (omega arith)
  | inr q ↦ rw q (omega (arith, upper_place-le v s))
]

-- An iterator that moves with its value still points to it.
pub inserted_at :
    (p i : ℕ) (v : ℤ) (s : List ℤ)
    → p ≤ length s
    → i < length s
    → get_or (take p s ++ v ∷ drop p s) (if leb p i then suc i else i) (pos 0) ≡ get_or s i (pos 0)
inserted_at zero i v s h l = elim (Bool-cases (leb 0 i)) [
  | inl q ↦ rw q refl
  | inr q ↦ absurd (ground (arith, q))
]
inserted_at (suc p) i v [] h l = absurd (omega (arith, l))
inserted_at (suc p) zero v (e ∷ s) h l = let q : leb (suc p) 0 ≡ false = ground arith in rw q refl
inserted_at (suc p) (suc i) v (e ∷ s) h l = elim (Bool-cases (leb p i)) [
  | inl q ↦
      let r : leb (suc p) (suc i) ≡ true = ground (arith, q) in
      rw r (rw q at (inserted_at p i v s (omega (arith, h)) (omega (arith, l))))
  | inr q ↦
      let r : leb (suc p) (suc i) ≡ false = ground (arith, q) in
      rw r (rw q at (inserted_at p i v s (omega (arith, h)) (omega (arith, l))))
]

pub erased_at :
    (p i : ℕ) (s : List ℤ)
    → p < length s
    → i < length s
    → (p == i) ≡ false
    → get_or (take p s ++ drop (suc p) s) (if ltb p i then i - 1 else i) (pos 0)
      ≡ get_or s i (pos 0)
erased_at p i [] h l ne = absurd (omega (arith, l))
erased_at zero zero (e ∷ s) h l ne = absurd (ground (arith, ne))
erased_at zero (suc i) (e ∷ s) h l ne =
    let q : ltb 0 (suc i) ≡ true = ground arith in
    let r : suc i - 1 ≡ i = omega arith in rw (q, r) refl
erased_at (suc p) zero (e ∷ s) h l ne = let q : ltb (suc p) 0 ≡ false = ground arith in rw q refl
erased_at (suc p) (suc i) (e ∷ s) h l ne =
    let apart : (p == i) ≡ false = ground (arith, ne) in
    let rest = erased_at p i s (omega (arith, h)) (omega (arith, l)) apart in
    elim (Bool-cases (ltb p i)) [
      | inl q ↦
          let r : ltb (suc p) (suc i) ≡ true = ground (arith, q) in
          let n : suc i - 1 ≡ suc (i - 1) = ground (arith, q) in rw (r, n) (rw q at rest)
      | inr q ↦ let r : ltb (suc p) (suc i) ≡ false = ground (arith, q) in rw r (rw q at rest)
    ]
