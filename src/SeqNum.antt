-- ===== src/SeqNum.antt =====
-- rtc_base/numerics/mod_ops.h and rtc_base/numerics/sequence_number_util.h, for an unsigned type T of
-- `width` bits: numbers that wrap at M, or at 2 ^ width when M is 0.
pub mod Order
pub mod Unwrap
mod Examples
use tqlib.Prelude.{
  ℕ, ◌+◌, ◌-◌, ◌*◌, ◌/◌, ◌%◌, ◌^◌, min, Bool, true, false, not, ◌&&◌, Option, none, some, ltb, leb,
  ◌==◌, if◌then◌else◌,
}
use tqlib.Prelude.Int.{ℤ, pos, ◌+ℤ◌, ◌-ℤ◌}

-- `Add<M>` and `Subtract<M>` on unsigned long, of 64 bits
unfoldable pub add : ℕ → ℕ → ℕ → ℕ
add m a b =
    let t = m - b % m in
    let res = (a + 2 ^ 64 - t) % 2 ^ 64 in if ltb a t then (res + m) % 2 ^ 64 else res

unfoldable pub subtract : ℕ → ℕ → ℕ → ℕ
subtract m a b = let sub = b % m in if ltb a sub then m - (sub - a) else a - sub

-- `ForwardDiff<T, M>`, the overloads for M > 0 and for M == 0
unfoldable pub forward_diff_mod : ℕ → ℕ → ℕ → ℕ
forward_diff_mod m a b = if leb a b then b - a else m - (a - b)

unfoldable pub forward_diff_wrap : ℕ → ℕ → ℕ → ℕ
forward_diff_wrap width a b = (b + 2 ^ width - a) % 2 ^ width

-- `ReverseDiff<T, M>`, the overloads for M > 0 and for M == 0
unfoldable pub reverse_diff_mod : ℕ → ℕ → ℕ → ℕ
reverse_diff_mod m a b = if leb b a then a - b else m - (b - a)

unfoldable pub reverse_diff_wrap : ℕ → ℕ → ℕ → ℕ
reverse_diff_wrap width a b = (a + 2 ^ width - b) % 2 ^ width

-- `MinDiff<T, M>` for M > 0
unfoldable pub min_diff_mod : ℕ → ℕ → ℕ → ℕ
unfolding forward_diff_mod reverse_diff_mod
min_diff_mod m a b = min (forward_diff_mod m a b) (reverse_diff_mod m a b)

-- `AheadOrAt<T, M>` for M > 0
unfoldable pub ahead_or_at_mod : ℕ → ℕ → ℕ → Bool
unfolding min_diff_mod forward_diff_mod
ahead_or_at_mod m a b =
    let max_dist = m / 2 in
    if m % 2 == 0 && min_diff_mod m a b == max_dist
    then ltb b a
    else leb (forward_diff_mod m b a) max_dist

-- The test `a - b == maxDist` of `AheadOrAt<T, 0>`. A type of fewer than 32 bits is promoted to int,
-- where the difference does not wrap and may be negative; a wider one wraps.
unfoldable pub minus_eq : ℕ → ℕ → ℕ → ℕ → Bool
minus_eq width a b d = if ltb width 32 then a == b + d else (a + 2 ^ width - b) % 2 ^ width == d

-- `AheadOrAt<T, M>` for M == 0; `numeric_limits<T>::max() / 2 + 1` is written out.
unfoldable pub ahead_or_at_wrap : ℕ → ℕ → ℕ → Bool
ahead_or_at_wrap width a b =
    let max_dist = (2 ^ width - 1) / 2 + 1 in
    if minus_eq width a b max_dist then ltb b a else ltb (forward_diff_wrap width b a) max_dist

-- The overloads by M.
unfoldable pub forward_diff : ℕ → ℕ → ℕ → ℕ → ℕ
forward_diff width m a b = if m == 0 then forward_diff_wrap width a b else forward_diff_mod m a b

unfoldable pub reverse_diff : ℕ → ℕ → ℕ → ℕ → ℕ
reverse_diff width m a b = if m == 0 then reverse_diff_wrap width a b else reverse_diff_mod m a b

unfoldable pub ahead_or_at : ℕ → ℕ → ℕ → ℕ → Bool
ahead_or_at width m a b = if m == 0 then ahead_or_at_wrap width a b else ahead_or_at_mod m a b

-- `AheadOf<T, M>`
unfoldable pub ahead_of : ℕ → ℕ → ℕ → ℕ → Bool
ahead_of width m a b = not (a == b) && ahead_or_at width m a b

-- The state of `SeqNumUnwrapper<T, M>`.
pub record Unwrapper : Type 0 where
  pub last_unwrapped : ℤ
  pub last_value : Option ℕ

abbrev pub fresh : Unwrapper
fresh = record { last_unwrapped = pos 0; last_value = none }

-- The number of values of the type: `kBackwardAdjustment`.
abbrev pub modulus : ℕ → ℕ → ℕ
modulus width m = if m == 0 then 2 ^ width else m

-- What an unwrapper does in common: it keeps the value and returns its unwrapped form.
abbrev keep : ℕ → ℤ → ℤ × Unwrapper
keep value u = (u, record { last_unwrapped = u; last_value = some value })

-- `Unwrap`
unfoldable pub unwrap : ℕ → ℕ → ℕ → Unwrapper → ℤ × Unwrapper
unwrap width m value u = elim u.last_value [
  | none ↦ keep value (pos value)
  | some last ↦
      let forward = u.last_unwrapped +ℤ pos (forward_diff width m last value) in
      if ahead_or_at width m value last
      then keep value forward
      else keep value (forward -ℤ pos (modulus width m))
]

-- `UnwrapForward`
unfoldable pub unwrap_forward : ℕ → ℕ → ℕ → Unwrapper → ℤ × Unwrapper
unwrap_forward width m value u = elim u.last_value [
  | none ↦ keep value (pos value)
  | some last ↦ keep value (u.last_unwrapped +ℤ pos (forward_diff width m last value))
]

-- `UnwrapBackwards`
unfoldable pub unwrap_backwards : ℕ → ℕ → ℕ → Unwrapper → ℤ × Unwrapper
unwrap_backwards width m value u = elim u.last_value [
  | none ↦ keep value (pos value)
  | some last ↦ keep value (u.last_unwrapped -ℤ pos (reverse_diff width m last value))
]
