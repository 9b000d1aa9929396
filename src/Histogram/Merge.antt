-- ===== src/Histogram/Merge.antt =====
-- How often each value is counted (histogram_percentile_counter.cc), after Add of a value and after
-- Add of another counter.
use native.Mathlib.Decide.{dec_lt}
use tqlib.Prelude.{
  ℕ, zero, suc, ◌+◌, ◌-◌, ◌≤◌, ◌<◌, ◌≡◌, refl, ap, ◌∙◌, inl, inr, List, [], ◌∷◌, arith, ltb, ◌==◌,
  if◌then◌else◌, get_or, set, length, All, Bool-cases,
}
use tqlib.Histogram.{High, Counter, add_high, add, add_each, add_low_from, merge}
use tqlib.Histogram.Percentile.{IsValid, add-IsValid}

-- How often the map counts a value.
abbrev pub high_times : ℕ → High → ℕ
high_times v [] = 0
high_times v ((k, n) ∷ m) = (if k == v then n else 0) + high_times v m

-- How often a counter counts a value.
abbrev pub times : ℕ → Counter → ℕ
times v c = get_or c.histogram_low v 0 + high_times v c.histogram_high

get_or-set :
    (xs : List ℕ) (i j v : ℕ)
    → i < length xs
    → get_or (set xs i v) j 0 ≡ (if i == j then v else get_or xs j 0)
get_or-set [] i j v h = absurd (omega arith)
get_or-set (x ∷ xs) zero zero v h = refl
get_or-set (x ∷ xs) zero (suc j) v h = ground arith
get_or-set (x ∷ xs) (suc i) zero v h = ground arith
get_or-set (x ∷ xs) (suc i) (suc j) v h = ground (arith, get_or-set xs i j v (omega arith))

high_times-add :
    (w v n : ℕ) (m : High)
    → high_times w (add_high v n m) ≡ high_times w m + (if v == w then n else 0)
unfolding add_high
high_times-add w v n [] = ground arith
high_times-add w v n ((k, j) ∷ m) = ground (arith, high_times-add w v n m)

-- `Add(value, count)` counts its value that often, and changes the count of no other.
pub times-add :
    (w v n : ℕ) {c : Counter}
    → IsValid c
    → times w (add v n c) ≡ times w c + (if v == w then n else 0)
unfolding add
times-add w v n {c} h = ground (
  arith,
  h.sized,
  get_or-set c.histogram_low v w (get_or c.histogram_low v 0 + n),
  high_times-add w v n c.histogram_high,
)

add_each-times :
    (w : ℕ) (m : High) {c : Counter}
    → IsValid c
    → times w (add_each m c) ≡ times w c + high_times w m
unfolding add_each
add_each-times w [] h = omega arith
add_each-times w ((v, n) ∷ m) {c} h =
    omega (arith, add_each-times w m (add-IsValid v n h), times-add w v n h)

-- The count of a value in the part of another counter's vector from index `i` on.
abbrev from : ℕ → ℕ → List ℕ → ℕ
from w i [] = 0
from w i (n ∷ ns) = (if i == w then n else 0) + from w (i + 1) ns

add-boundary : (v n : ℕ) (c : Counter) → (add v n c).long_tail_boundary ≡ c.long_tail_boundary
unfolding add
add-boundary v n c = ground arith

-- Below all keys the map counts nothing, and from the boundary on the vector counts nothing.
high_times-below : (w b : ℕ) (m : High) → w < b → All (λ e. b ≤ e.0) m → high_times w m ≡ 0
high_times-below w b [] lt h = refl
high_times-below w b ((k, n) ∷ m) lt (p, h) = ground (arith, high_times-below w b m lt h)

get_or-beyond : (xs : List ℕ) (i : ℕ) → length xs ≤ i → get_or xs i 0 ≡ 0
get_or-beyond [] i h = refl
get_or-beyond (x ∷ xs) zero h = absurd (omega arith)
get_or-beyond (x ∷ xs) (suc i) h = get_or-beyond xs i (omega arith)

add_low_from-times :
    (w i : ℕ) (ns : List ℕ) {c : Counter}
    → IsValid c
    → (times w (add_low_from i ns c) ≡ times w c + from w i ns)
      × IsValid (add_low_from i ns c)
      × ((add_low_from i ns c).long_tail_boundary ≡ c.long_tail_boundary)
unfolding add_low_from
add_low_from-times w i [] h = (omega arith, h, refl)
add_low_from-times w i (n ∷ ns) {c} h =
    let (e, v, b) = add_low_from-times w (i + 1) ns (add-IsValid i n h) in
    (omega (arith, e, times-add w i n h), v, b ∙ add-boundary i n c)

from-below : (w i : ℕ) (ns : List ℕ) → w < i → from w i ns ≡ 0
from-below w i [] h = refl
from-below w i (n ∷ ns) h = ground (arith, from-below w (i + 1) ns)

from-get : (w i : ℕ) (ns : List ℕ) → i ≤ w → from w i ns ≡ get_or ns (w - i) 0
from-get w i [] h = refl
from-get w i (n ∷ ns) h = elim (dec_lt i w) [
  | yes p ↦
      let e : w - i ≡ suc (w - (i + 1)) = omega arith in
      rw e (ground (arith, from-get w (i + 1) ns (omega arith)))
  | no p ↦ let e : w - i ≡ 0 = omega arith in rw e (ground (arith, from-below w (i + 1) ns))
]

-- `Add(other)` of valid counters: the count of a value gains what the vector of `other` counts.
-- From the boundary on it is doubled after that, and what the map of `other` counts is left out.
pub merge-times :
    (w : ℕ) (other c : Counter)
    → IsValid c
    → let sum = times w c + get_or other.histogram_low w 0 in
      times w (merge other c) ≡ (if ltb w c.long_tail_boundary then sum else sum + sum)
unfolding merge
merge-times w other c h =
    let c' = add_low_from 0 other.histogram_low c in
    let (e, v, b) = add_low_from-times w 0 other.histogram_low h in
    let each : times w (merge other c) ≡ times w c' + high_times w c'.histogram_high =
      add_each-times w c'.histogram_high v in
    let low : from w 0 other.histogram_low ≡ get_or other.histogram_low w 0 =
      from-get w 0 other.histogram_low (omega arith)
      ∙ ap (λ i. get_or other.histogram_low i 0) (omega arith) in
    elim (Bool-cases (ltb w c.long_tail_boundary)) [
      | inl lt ↦
          let keys =
            high_times-below w c'.long_tail_boundary c'.histogram_high (ground (arith, b))
              v.high_keys in
          rw lt (omega (arith, e, each, low, keys))
      | inr ge ↦
          let beyond = get_or-beyond c'.histogram_low w (ground (arith, v.sized, b)) in
          rw ge (omega (arith, e, each, low, beyond))
    ]
