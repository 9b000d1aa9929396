-- ===== src/MovingAverage/Average.antt =====
-- The rounded averages of moving_average.cc.
use native.Mathlib.Nat.{mod-eq_of_lt, div-lt_iff_lt-mul, div-mul-le_self, lt-div-mul-add}
use tqlib.Prelude.{
  ℕ, zero, suc, ◌+◌, ◌*◌, ◌/◌, ◌%◌, ◌^◌, ◌≤◌, ◌<◌, ◌≡◌, refl, ap, ◌⊎◌, inl, inr, Option, none, some,
  List, [], ◌∷◌, min, arith, ◌==◌, false, length, take, All, length-take,
}
use tqlib.Prelude.Int.{ℤ, pos, negsuc, pos_part, neg_part, +ℤ_parts, one_part}
use tqlib.MovingAverage.{
  MovingAverage, get_average_rounded_down, get_average_rounded_to_closest, size, to_uint64, to_int,
}
use tqlib.MovingAverage.Window.{Call, recorded, run, total, Holds, run-Holds}

-- A sample that is not negative and fits an int.
abbrev pub IsNatural : ℤ → Type 0
IsNatural x = (neg_part x ≡ 0) × (pos_part x < 2 ^ 31)

take-All : (n : ℕ) (xs : List ℤ) → All IsNatural xs → All IsNatural (take n xs)
take-All zero xs h = tt
take-All (suc n) [] h = tt
take-All (suc n) (x ∷ xs) (p, h) = (p, take-All n xs h)

total-bounds :
    (xs : List ℤ)
    → All IsNatural xs
    → (neg_part (total xs) ≡ 0) × (pos_part (total xs) ≤ length xs * 2147483647)
total-bounds [] h = (refl, omega arith)
total-bounds (x ∷ xs) (p, h) =
    let (n, b) = total-bounds xs h in
    elim (one_part (total (x ∷ xs))) [
      | inl z ↦ (omega (arith, n, p.0, z, +ℤ_parts x (total xs)), omega (arith, z))
      | inr z ↦ (z, omega (arith, z, n, b, p.0, p.1, +ℤ_parts x (total xs)))
    ]

natural : (z : ℤ) → neg_part z ≡ 0 → pos_part z < 2 ^ 64 → to_uint64 z ≡ pos_part z
natural (pos n) h b = mod-eq_of_lt b
natural (negsuc n) h b = absurd (omega arith)

to_int_small : (n : ℕ) → n < 2 ^ 31 → to_int n ≡ pos n
to_int_small n h = ground arith

-- The quotient of a sum by the number of its samples, with the bounds that the source relies on.
abbrev pub IsQuotient : ℕ → ℕ → Option ℤ → Type 0
IsQuotient n k r = (a : ℕ) × (r ≡ some (pos a)) × (a * k ≤ n) × (n < a * k + k)

quotient : (n k : ℕ) → 0 < k → n < 2147483648 * k → IsQuotient n k (some (to_int (n / k)))
quotient n k p h = (
  n / k,
  ap (λ z. some z) (to_int_small (n / k) ((div-lt_iff_lt-mul p).1 h)),
  div-mul-le_self n k,
  lt-div-mul-add p,
)

averages_of :
    (w : ℕ) (xs : List ℤ) (m : MovingAverage)
    → 0 < w
    → w < 2 ^ 32
    → All IsNatural xs
    → Holds w xs m
    → let k = min (length xs) w in
      let n = pos_part (total (take w xs)) in
      ((k ≡ 0) × (get_average_rounded_down m ≡ none) × (get_average_rounded_to_closest m ≡ none))
      ⊎ ((0 < k)
          × IsQuotient n k (get_average_rounded_down m)
          × IsQuotient (n + k / 2) k (get_average_rounded_to_closest m))
unfolding get_average_rounded_down get_average_rounded_to_closest size
averages_of w [] m p q h k = inl (omega arith, rw (k.counted) refl, rw (k.counted) refl)
averages_of w (x ∷ xs) m p q h k =
    let ys = take w (x ∷ xs) in
    let some_sample : (length (x ∷ xs) == 0) ≡ false = ground arith in
    let (z, b) = total-bounds ys (take-All w (x ∷ xs) h) in
    let len : length ys ≡ min (length (x ∷ xs)) w = omega (arith, length-take w (x ∷ xs)) in
    let word : to_uint64 (total ys) ≡ pos_part (total ys) =
      natural (total ys) z (omega (arith, b, len)) in
    let half : (pos_part (total ys) + min (length (x ∷ xs)) w / 2) % 2 ^ 64
        ≡ pos_part (total ys) + min (length (x ∷ xs)) w / 2 =
      mod-eq_of_lt (omega (arith, b, len)) in
    inr (
      omega arith,
      rw (k.counted, k.full_length, some_sample, k.summed, word)
          (quotient (pos_part (total ys)) (min (length (x ∷ xs)) w) (omega arith)
            (omega (arith, b, len))),
      rw (k.counted, k.full_length, some_sample, k.summed, word, half)
          (quotient (pos_part (total ys) + min (length (x ∷ xs)) w / 2) (min (length (x ∷ xs)) w)
            (omega arith) (omega (arith, b, len))),
    )

-- After any calls whose samples since the last Reset are non-negative ints, both rounded averages are
-- none if there is no sample. Otherwise one is the sum of the window divided by its size and rounded
-- down, and the other is that quotient rounded to the closest integer. The window has from 1 to
-- 2 ^ 32 - 1 places.
pub averages_correct :
    (w : ℕ) (cs : List Call)
    → 0 < w
    → w < 2 ^ 32
    → All IsNatural (recorded cs)
    → let k = min (length (recorded cs)) w in
      let n = pos_part (total (take w (recorded cs))) in
      ((k ≡ 0)
        × (get_average_rounded_down (run w cs) ≡ none)
        × (get_average_rounded_to_closest (run w cs) ≡ none))
      ⊎ ((0 < k)
          × IsQuotient n k (get_average_rounded_down (run w cs))
          × IsQuotient (n + k / 2) k (get_average_rounded_to_closest (run w cs)))
averages_correct zero cs p q h = absurd (omega arith)
averages_correct (suc v) cs p q h =
    averages_of (suc v) (recorded cs) (run (suc v) cs) p q h (run-Holds v cs)
