-- ===== src/Histogram/Percentile.antt =====
-- What the counter of histogram_percentile_counter.cc counts, and which value is a percentile.
use tqlib.Prelude.{
  ℕ, zero, suc, min, ◌+◌, ◌-◌, ◌≤◌, ◌<◌, ◌≡◌, refl, ◌∙◌, inl, inr, some, List, [], ◌∷◌, ◌++◌, arith,
  ltb, ◌==◌, if◌then◌else◌, get_or, get_elem?, set, length, replicate, All, All-imp, length-set,
  length-append, length-replicate, get_elem?-append, Bool-cases,
}
use tqlib.Histogram.{High, Counter, zeros, new, add_high, add, find_low, find_high, get_percentile}

abbrev sum_low : List ℕ → ℕ
sum_low [] = 0
sum_low (n ∷ rest) = n + sum_low rest

abbrev sum_high : High → ℕ
sum_high [] = 0
sum_high ((k, n) ∷ rest) = n + sum_high rest

abbrev IsAscending : High → Type 0
IsAscending [] = Unit
IsAscending ((k, n) ∷ rest) = All (λ e. k < e.0) rest × IsAscending rest

pub record IsValid (c : Counter) : Type 0 where
  pub sized : length c.histogram_low ≡ c.long_tail_boundary
  pub low_total : c.total_elements_low ≡ sum_low c.histogram_low
  pub total : c.total_elements ≡ sum_low c.histogram_low + sum_high c.histogram_high
  pub high_ascending : IsAscending c.histogram_high
  pub high_keys : All (λ e. c.long_tail_boundary ≤ e.0) c.histogram_high

zeros_facts : (n : ℕ) → (length (zeros n) ≡ n) × (sum_low (zeros n) ≡ 0)
unfolding zeros
zeros_facts zero = (refl, refl)
zeros_facts (suc n) = omega (arith, zeros_facts n)

-- A new counter is valid.
pub new-IsValid : (boundary : ℕ) → IsValid (new boundary)
unfolding new
new-IsValid b = record {
  sized = (zeros_facts b).0;
  low_total = omega (arith, (zeros_facts b).1);
  total = omega (arith, (zeros_facts b).1);
  high_ascending = tt;
  high_keys = tt;
}

sum_low-set :
    (xs : List ℕ) (i n : ℕ)
    → i < length xs
    → sum_low (set xs i (get_or xs i 0 + n)) ≡ sum_low xs + n
sum_low-set [] i n h = absurd (omega arith)
sum_low-set (x ∷ xs) zero n h = omega arith
sum_low-set (x ∷ xs) (suc i) n h = omega (arith, sum_low-set xs i n (omega arith))

sum_high-add : (v n : ℕ) (m : High) → sum_high (add_high v n m) ≡ sum_high m + n
unfolding add_high
sum_high-add v n [] = omega arith
sum_high-add v n ((k, j) ∷ m) = ground (arith, sum_high-add v n m)

add_high-All {κ} :
    (P : ℕ → Type κ) (v n : ℕ) (m : High)
    → P v
    → All (λ e. P e.0) m
    → All (λ e. P e.0) (add_high v n m)
unfolding add_high
add_high-All P v n [] p h = (p, tt)
add_high-All P v n ((k, j) ∷ m) p (q, h) = ground (arith, add_high-All P v n m p h)

add_high-IsAscending : (v n : ℕ) (m : High) → IsAscending m → IsAscending (add_high v n m)
unfolding add_high
add_high-IsAscending v n [] a = (tt, tt)
add_high-IsAscending v n ((k, j) ∷ m) (b, a) = elim (Bool-cases (ltb k v)) [
  | inl lt ↦ rw lt (add_high-All (λ x. k < x) v n m (ground arith) b, add_high-IsAscending v n m a)
  | inr ge ↦ elim (Bool-cases (k == v)) [
    | inl same ↦ rw (ge, same) (b, a)
    | inr other ↦
        let lt : v < k = ground arith in
        rw (ge, other) ((lt, All-imp _ _ m (λ e h. omega arith) b), (b, a))
  ]
]

-- `Add(value, count)` keeps a counter valid.
pub add-IsValid : (v n : ℕ) {c : Counter} → IsValid c → IsValid (add v n c)
unfolding add
add-IsValid v n {c} h = elim (Bool-cases (ltb v c.long_tail_boundary)) [
  | inl low ↦
      let inside : v < length c.histogram_low = ground (arith, h.sized) in
      let sums = sum_low-set c.histogram_low v n inside in
      rw low (record {
        sized = length-set c.histogram_low v _ ∙ h.sized;
        low_total = omega (arith, sums, h.low_total);
        total = omega (arith, sums, h.total);
        high_ascending = h.high_ascending;
        high_keys = h.high_keys;
      })
  | inr high ↦
      let sums = sum_high-add v n c.histogram_high in
      rw high (record {
        sized = h.sized;
        low_total = h.low_total;
        total = omega (arith, sums, h.total);
        high_ascending = add_high-IsAscending v n c.histogram_high h.high_ascending;
        high_keys =
            add_high-All (λ x. c.long_tail_boundary ≤ x) v n c.histogram_high (ground arith)
              h.high_keys;
      })
]

-- All values that were counted, in ascending order, each as often as it was counted.
abbrev spread_low : ℕ → List ℕ → List ℕ
spread_low v [] = []
spread_low v (n ∷ rest) = replicate n v ++ spread_low (v + 1) rest

abbrev spread_high : High → List ℕ
spread_high [] = []
spread_high ((v, n) ∷ rest) = replicate n v ++ spread_high rest

abbrev pub values : Counter → List ℕ
values c = spread_low 0 c.histogram_low ++ spread_high c.histogram_high

get_elem?-replicate : (n v i : ℕ) → i < n → get_elem? (replicate n v) i ≡ some v
get_elem?-replicate zero v i h = absurd (omega arith)
get_elem?-replicate (suc n) v zero h = refl
get_elem?-replicate (suc n) v (suc i) h = get_elem?-replicate n v i (omega arith)

-- The values that a run of equal ones begins.
skip_run :
    (n v i : ℕ) (rest : List ℕ)
    → get_elem? (replicate n v ++ rest) i ≡ (if ltb i n then some v else get_elem? rest (i - n))
skip_run n v i rest = ground (
  arith,
  get_elem?-append (replicate n v) rest i,
  length-replicate n v,
  get_elem?-replicate n v i,
)

find_low_lem : (i v : ℕ) (ns : List ℕ) → find_low i v ns ≡ get_elem? (spread_low v ns) i
unfolding find_low
find_low_lem i v [] = refl
find_low_lem i v (n ∷ ns) =
    rw (skip_run n v i (spread_low (v + 1) ns), find_low_lem (i - n) (v + 1) ns)

find_high_lem : (i : ℕ) (m : High) → find_high i m ≡ get_elem? (spread_high m) i
unfolding find_high
find_high_lem i [] = refl
find_high_lem i ((v, n) ∷ m) = rw (skip_run n v i (spread_high m), find_high_lem (i - n) m)

length-spread_low : (v : ℕ) (ns : List ℕ) → length (spread_low v ns) ≡ sum_low ns
length-spread_low v [] = refl
length-spread_low v (n ∷ ns) = omega (
  arith,
  length-append (replicate n v) (spread_low (v + 1) ns),
  length-replicate n v,
  length-spread_low (v + 1) ns,
)

-- In a valid counter that has counted something, GetPercentile returns the value at the skipped
-- place in the ascending list of all counted values, or the last of them if the place is beyond.
pub get_percentile_correct :
    (skip : ℕ) (c : Counter)
    → IsValid c
    → 0 < c.total_elements
    → get_percentile skip c ≡ get_elem? (values c) (min skip (c.total_elements - 1))
unfolding get_percentile
get_percentile_correct skip c h p =
    let i = min skip (c.total_elements - 1) in
    ground (
      arith,
      h.total,
      h.low_total,
      find_low_lem i 0 c.histogram_low,
      find_high_lem (i - c.total_elements_low) c.histogram_high,
      get_elem?-append (spread_low 0 c.histogram_low) (spread_high c.histogram_high) i,
      length-spread_low 0 c.histogram_low,
    )
