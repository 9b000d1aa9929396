-- ===== src/MovingAverage/Window.antt =====
-- The circular buffer of moving_average.cc and the samples that it stands for.
use native.Mathlib.Nat.{mod-lt, mod-eq_of_lt, mod-eq-sub-mod, mod-add-mod}
use native.Mathlib.Decide.{dec_lt}
use tqlib.Prelude.{
  ℕ, zero, suc, ◌+◌, ◌-◌, ◌%◌, ◌≤◌, ◌<◌, ◌≡◌, ◌≢◌, refl, sym, ap, ◌∙◌, inl, inr, Bool-cases, List,
  [], ◌∷◌, min, arith, ltb, length, get_or, set, take, length-set, length-replicate,
}
use tqlib.Prelude.Int.{ℤ, pos, ◌+ℤ◌, +ℤ_comm, +ℤ_assoc, +ℤ_cancel}
use tqlib.MovingAverage.{MovingAverage, new, add_sample, size, reset}

-- The calls that an average has had, the last one first, and the samples since the last Reset.
pub data Call : Type 0 where
  sampled : ℤ → Call
  cleared : Call

abbrev pub recorded : List Call → List ℤ
recorded [] = []
recorded (sampled x ∷ cs) = x ∷ recorded cs
recorded (cleared ∷ cs) = []

abbrev pub run : ℕ → List Call → MovingAverage
run w [] = new w
run w (sampled x ∷ cs) = add_sample x (run w cs)
run w (cleared ∷ cs) = reset (run w cs)

abbrev pub total : List ℤ → ℤ
total [] = pos 0
total (x ∷ xs) = x +ℤ total xs

total-take_next :
    (n : ℕ) (xs : List ℤ)
    → n < length xs
    → total (take (suc n) xs) ≡ total (take n xs) +ℤ get_or xs n (pos 0)
total-take_next n [] h = absurd (omega arith)
total-take_next zero (x ∷ xs) h = +ℤ_comm x (pos 0)
total-take_next (suc n) (x ∷ xs) h =
    ap (λ z. x +ℤ z) (total-take_next n xs (omega arith)) ∙ sym (+ℤ_assoc x _ _)

take_all : (n : ℕ) (xs : List ℤ) → length xs ≤ n → take n xs ≡ xs
take_all zero [] h = refl
take_all (suc n) [] h = refl
take_all zero (x ∷ xs) h = absurd (omega arith)
take_all (suc n) (x ∷ xs) h = ap (λ ys. x ∷ ys) (take_all n xs (omega arith))

get_or-set_self : (xs : List ℤ) (i : ℕ) (v d : ℤ) → i < length xs → get_or (set xs i v) i d ≡ v
get_or-set_self [] i v d h = absurd (omega arith)
get_or-set_self (x ∷ xs) zero v d h = refl
get_or-set_self (x ∷ xs) (suc i) v d h = get_or-set_self xs i v d (omega arith)

get_or-set_ne : (xs : List ℤ) (i j : ℕ) (v d : ℤ) → i ≢ j → get_or (set xs i v) j d ≡ get_or xs j d
get_or-set_ne [] i j v d h = refl
get_or-set_ne (x ∷ xs) zero zero v d h = absurd (h refl)
get_or-set_ne (x ∷ xs) zero (suc j) v d h = refl
get_or-set_ne (x ∷ xs) (suc i) zero v d h = refl
get_or-set_ne (x ∷ xs) (suc i) (suc j) v d h = get_or-set_ne xs i j v d (λ e. h (ap suc e))

-- Two indices less than the modulus apart are different.
mod-apart : (x j w : ℕ) → 0 < j → j < w → (x + j) % w ≢ x % w
mod-apart x j w p h e =
    let r : x % w < w = mod-lt x (omega arith) in
    let m : (x % w + j) % w ≡ (x + j) % w = mod-add-mod x w j in
    elim (dec_lt (x % w + j) w) [
      | yes q ↦ omega (arith, e, m, mod-eq_of_lt q)
      | no q ↦
          let back : (x % w + j) % w ≡ (x % w + j - w) % w = mod-eq-sub-mod (omega arith) in
          let low : (x % w + j - w) % w ≡ x % w + j - w = mod-eq_of_lt (omega arith) in
          omega (arith, e, m, back, low)
    ]

-- What ties the buffer to the samples, the last one first.
pub record Holds (w : ℕ) (xs : List ℤ) (m : MovingAverage) : Type 0 where
  pub full_length : length m.history ≡ w
  pub counted : m.count ≡ length xs
  pub placed :
      (j : ℕ)
      → j < length xs
      → j < w
      → get_or m.history ((length xs - j) % w) (pos 0) ≡ get_or xs j (pos 0)
  pub summed : m.sum ≡ total (take w xs)

-- The index that AddSample overwrites has the sample that leaves the window.
overwritten :
    (v : ℕ) (xs : List ℤ) (m : MovingAverage)
    → Holds (suc v) xs m
    → v < length xs
    → get_or m.history ((m.count + 1) % length m.history) (pos 0) ≡ get_or xs v (pos 0)
overwritten v xs m k h =
    let index : (m.count + 1) % length m.history ≡ (length xs - v) % suc v =
      rw (k.counted, k.full_length)
        (mod-eq-sub-mod {n = length xs + 1} {m = suc v} (omega arith)
          ∙ ap (λ z. z % suc v) (omega arith)) in
    ap (λ i. get_or m.history i (pos 0)) index ∙ k.placed v h (omega arith)

placed_after :
    (v : ℕ) (x : ℤ) (xs : List ℤ) (m : MovingAverage)
    → Holds (suc v) xs m
    → (j : ℕ) → j < suc (length xs)
    → j < suc v
    → get_or
        (set m.history ((m.count + 1) % length m.history) x)
        ((suc (length xs) - j) % suc v)
        (pos 0)
      ≡ get_or (x ∷ xs) j (pos 0)
placed_after v x xs m k zero p q =
    let index : (m.count + 1) % length m.history ≡ (suc (length xs) - 0) % suc v =
      rw (k.counted, k.full_length) (ap (λ z. z % suc v) (omega arith)) in
    let fits : (suc (length xs) - 0) % suc v < length m.history =
      omega (arith, k.full_length, mod-lt (suc (length xs) - 0) {m = suc v} (omega arith)) in
    rw index (get_or-set_self m.history _ x (pos 0) fits)
placed_after v x xs m k (suc j) p q =
    let index : (m.count + 1) % length m.history ≡ (length xs - j + suc j) % suc v =
      rw (k.counted, k.full_length) (ap (λ z. z % suc v) (omega arith)) in
    let less : suc (length xs) - suc j ≡ length xs - j = omega arith in
    ap (λ i. get_or (set m.history ((m.count + 1) % length m.history) x) (i % suc v) (pos 0)) less
    ∙ get_or-set_ne m.history _ _ x (pos 0)
        (λ e. mod-apart (length xs - j) (suc j) (suc v) (omega arith) q (sym index ∙ e))
    ∙ k.placed j (omega arith) (omega arith)

add_sample-Holds :
    (v : ℕ) (x : ℤ) (xs : List ℤ) (m : MovingAverage)
    → Holds (suc v) xs m
    → Holds (suc v) (x ∷ xs) (add_sample x m)
unfolding add_sample
add_sample-Holds v x xs m k = record {
  full_length = length-set m.history _ x ∙ k.full_length;
  counted = omega (arith, k.counted);
  placed = placed_after v x xs m k;
  summed = elim (Bool-cases (ltb (length m.history) (m.count + 1))) [
    | inl e ↦
        let more : v < length xs = ground (arith, k.counted, k.full_length) in
        rw (e, overwritten v xs m k more, k.summed, total-take_next v xs more)
          (ap (λ z. z +ℤ x) (+ℤ_cancel (total (take v xs)) (get_or xs v (pos 0))) ∙ +ℤ_comm _ x)
    | inr e ↦
        let few : length xs ≤ v = ground (arith, k.counted, k.full_length) in
        rw (e, k.summed, take_all v xs few, take_all (suc v) xs (omega arith)) (+ℤ_comm _ x)
  ];
}

pub run-Holds : (v : ℕ) (cs : List Call) → Holds (suc v) (recorded cs) (run (suc v) cs)
unfolding new reset
run-Holds v [] = record {
  full_length = length-replicate (suc v) (pos 0);
  counted = refl;
  placed = λ j p q. absurd (omega arith);
  summed = refl;
}
run-Holds v (sampled x ∷ cs) = add_sample-Holds v x (recorded cs) _ (run-Holds v cs)
run-Holds v (cleared ∷ cs) = record {
  full_length = (run-Holds v cs).full_length;
  counted = refl;
  placed = λ j p q. absurd (omega arith);
  summed = refl;
}

-- After any calls, the sum is that of the last samples added since the last Reset, as many as the
-- window has places or all of them if there are fewer, and Size is their number. The
-- window has a place at least.
pub run_window :
    (w : ℕ) (cs : List Call)
    → 0 < w
    → ((run w cs).sum ≡ total (take w (recorded cs)))
      × (size (run w cs) ≡ min (length (recorded cs)) w)
unfolding size
run_window zero cs h = absurd (omega arith)
run_window (suc v) cs h = let k = run-Holds v cs in (k.summed, rw (k.counted, k.full_length) refl)
