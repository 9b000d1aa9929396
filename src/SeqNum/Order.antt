-- ===== src/SeqNum/Order.antt =====
-- The order of wrapping numbers (mod_ops.h, sequence_number_util.h): what the differences compute,
-- that the overloads for M == 0 are those for M = 2 ^ width, and that AheadOf is total.
use native.Mathlib.Nat.{mod-lt, mod-eq_of_lt, mod-eq-sub-mod, add-mod-mod, pow-suc}
use tqlib.Prelude.{
  ℕ, suc, ◌+◌, ◌-◌, ◌*◌, ◌/◌, ◌%◌, ◌^◌, ◌≤◌, ◌<◌, ◌≡◌, ◌≢◌, refl, ◌∙◌, ◌⊎◌, inl, inr, leb→le,
  Bool-cases, Bool, false, not, arith, ltb, leb, ◌==◌, if◌then◌else◌,
}
use tqlib.SeqNum.{
  add, subtract, forward_diff_mod, forward_diff_wrap, reverse_diff_mod, reverse_diff_wrap,
  min_diff_mod, ahead_or_at_mod, minus_eq, ahead_or_at_wrap, forward_diff, reverse_diff,
  ahead_or_at, ahead_of, modulus,
}

-- A sum below twice the modulus.
pub mod_below : (x m : ℕ) → x < m → x % m ≡ x
mod_below x m h = mod-eq_of_lt h

pub mod_above : (x m : ℕ) → m ≤ x → x < m + m → x % m ≡ x - m
mod_above x m h k =
    mod-eq-sub-mod {n = x} {m = m} h ∙ mod-eq_of_lt {n = x - m} {m = m} (omega arith)

-- A difference that wraps.
pub wrap_difference :
    (n x y : ℕ) → x < n → y < n → (y + n - x) % n ≡ (if leb x y then y - x else n - (x - y))
wrap_difference n x y hx hy = elim (Bool-cases (leb x y)) [
  | inl le ↦
      let h : x ≤ y = leb→le x y le in
      rw le (mod_above (y + n - x) n (omega arith) (omega arith) ∙ omega arith)
  | inr gt ↦
      let h : y < x = ground arith in rw gt (mod_below (y + n - x) n (omega arith) ∙ omega arith)
]

-- `Add<M>` is addition modulo M and `Subtract<M>` undoes it, for a first argument below M and an M
-- that unsigned long holds.
pub add_correct :
    (m a b : ℕ) → a < m → m < 2 ^ 64 → (add m a b ≡ (a + b) % m) × (subtract m (add m a b) b ≡ a)
unfolding add subtract
add_correct m a b h k =
    let r : b % m < m = mod-lt b (omega arith) in
    ground (arith, add-mod-mod a b m, r, mod_below (a + b % m) m, mod_above (a + b % m) m)

-- For numbers below M: going forward by ForwardDiff or backward by ReverseDiff leads from the one
-- number to the other, each within M steps, and MinDiff is at most half of M.
pub diffs_correct :
    (m a b : ℕ)
    → a < m
    → b < m
    → ((a + forward_diff_mod m a b) % m ≡ b)
      × (forward_diff_mod m a b < m)
      × ((b + reverse_diff_mod m a b) % m ≡ a)
      × (reverse_diff_mod m a b < m)
      × (2 * min_diff_mod m a b ≤ m)
unfolding forward_diff_mod reverse_diff_mod min_diff_mod
diffs_correct m a b ha hb = ground (
  arith,
  mod_below (a + (b - a)) m,
  mod_above (a + (m - (a - b))) m,
  mod_below (b + (a - b)) m,
  mod_above (b + (m - (b - a))) m,
)

pub forward_diff_wrap_eq :
    (width a b : ℕ)
    → a < 2 ^ width
    → b < 2 ^ width
    → forward_diff_wrap width a b ≡ forward_diff_mod (2 ^ width) a b
unfolding forward_diff_wrap forward_diff_mod
forward_diff_wrap_eq width a b ha hb = wrap_difference (2 ^ width) a b ha hb

pub reverse_diff_wrap_eq :
    (width a b : ℕ)
    → a < 2 ^ width
    → b < 2 ^ width
    → reverse_diff_wrap width a b ≡ reverse_diff_mod (2 ^ width) a b
unfolding reverse_diff_wrap reverse_diff_mod
reverse_diff_wrap_eq width a b ha hb = wrap_difference (2 ^ width) b a hb ha

half_of_pow : (w : ℕ) → 2 ^ suc w ≡ 2 * 2 ^ w
half_of_pow w = omega (arith, pow-suc 2 w)

-- The body of `AheadOrAt<T, 0>` for a modulus `n = 2 * h`, whether its difference wraps or not.
ahead_core :
    (n h a b : ℕ) (tie : Bool)
    → n ≡ 2 * h
    → a < n
    → b < n
    → (tie ≡ (a == b + h)) ⊎ (tie ≡ ((a + n - b) % n == h))
    → (if tie then ltb b a else ltb (forward_diff_mod n b a) h) ≡ ahead_or_at_mod n a b
unfolding ahead_or_at_mod forward_diff_mod
ahead_core n h a b tie d ha hb (inl e) = rw e (ground arith)
ahead_core n h a b tie d ha hb (inr e) = rw (e, wrap_difference n b a hb ha) (ground arith)

minus_eq_cases :
    (width a b d : ℕ)
    → (minus_eq width a b d ≡ (a == b + d))
      ⊎ (minus_eq width a b d ≡ ((a + 2 ^ width - b) % 2 ^ width == d))
unfolding minus_eq
minus_eq_cases width a b d = elim (Bool-cases (ltb width 32)) [
  | inl e ↦ inl (rw e refl)
  | inr e ↦ inr (rw e refl)
]

-- For M == 0 and a type of one or more bits, AheadOrAt is AheadOrAt for M = 2 ^ width, whether the
-- type is promoted to int or not.
pub ahead_or_at_wrap_eq :
    (w a b : ℕ)
    → a < 2 ^ suc w
    → b < 2 ^ suc w
    → ahead_or_at_wrap (suc w) a b ≡ ahead_or_at_mod (2 ^ suc w) a b
unfolding ahead_or_at_wrap
ahead_or_at_wrap_eq w a b ha hb =
    let half : (2 ^ suc w - 1) / 2 + 1 ≡ 2 ^ w = omega (arith, half_of_pow w) in
    rw (forward_diff_wrap_eq (suc w) b a hb ha, half)
      (ahead_core (2 ^ suc w) (2 ^ w) a b _ (half_of_pow w) ha hb
        (minus_eq_cases (suc w) a b (2 ^ w)))

ahead_or_at_mod_total :
    (m a b : ℕ) → a < m → b < m → a ≢ b → ahead_or_at_mod m a b ≡ not (ahead_or_at_mod m b a)
unfolding ahead_or_at_mod
ahead_or_at_mod_total m a b ha hb ne = ground arith

-- The overloads by M are one function of the modulus.
pub overloads :
    (w m a b : ℕ)
    → a < modulus (suc w) m
    → b < modulus (suc w) m
    → (forward_diff (suc w) m a b ≡ forward_diff_mod (modulus (suc w) m) a b)
      × (reverse_diff (suc w) m a b ≡ reverse_diff_mod (modulus (suc w) m) a b)
      × (ahead_or_at (suc w) m a b ≡ ahead_or_at_mod (modulus (suc w) m) a b)
unfolding forward_diff reverse_diff ahead_or_at
overloads w m a b ha hb = elim (Bool-cases (m == 0)) [
  | inl e ↦
      let la = rw e at ha in
      let lb = rw e at hb in
      rw e (
        forward_diff_wrap_eq (suc w) a b la lb,
        reverse_diff_wrap_eq (suc w) a b la lb,
        ahead_or_at_wrap_eq w a b la lb,
      )
  | inr e ↦ rw e (refl, refl, refl)
]

-- Of two different numbers below the modulus exactly one is ahead of the other, also where they
-- are at the greatest distance.
pub ahead_of_total :
    (w m a b : ℕ)
    → a < modulus (suc w) m
    → b < modulus (suc w) m
    → a ≢ b
    → ahead_of (suc w) m a b ≡ not (ahead_of (suc w) m b a)
unfolding ahead_of
ahead_of_total w m a b ha hb ne =
    let different : (a == b) ≡ false = ground arith in
    let different' : (b == a) ≡ false = ground arith in
    rw (different, different')
      (rw ((overloads w m a b ha hb).2, (overloads w m b a hb ha).2)
        (ahead_or_at_mod_total (modulus (suc w) m) a b ha hb ne))
