-- ===== src/Thread/WaitLength.antt =====
-- How long `Get` of rtc::Thread waits (thread.cc).
use tqlib.Prelude.{inl, inr, Bool-cases, Option, none, some, arith, if◌then◌else◌}
use tqlib.Prelude.Int.{ℤ, pos, ◌-ℤ◌, ◌≤ℤ◌, ltb_ℤ}
use tqlib.Thread.{wait_length}

-- A wait is at most as long as another one; `none` is without an end.
abbrev pub AtMost : Option ℤ → Option ℤ → Type 0
AtMost w none = Unit
AtMost none (some m) = ⊥
AtMost (some n) (some m) = n ≤ℤ m

-- What is left of the wait that was asked for, 0 once it is over.
abbrev pub remaining : Option ℤ → ℤ → Option ℤ
remaining none elapsed = none
remaining (some wait) elapsed =
    some (if ltb_ℤ (wait -ℤ elapsed) (pos 0) then pos 0 else wait -ℤ elapsed)

-- The wait of a round is the longest one that passes neither the next delayed message nor the time
-- that was asked for.
pub wait_length_greatest :
    (wait : Option ℤ) (elapsed : ℤ) (next : Option ℤ)
    → let w = wait_length wait elapsed next in
      AtMost w next
      × AtMost w (remaining wait elapsed)
      × ((x : Option ℤ) → AtMost x next → AtMost x (remaining wait elapsed) → AtMost x w)
unfolding wait_length
wait_length_greatest none elapsed none = (tt, tt, λ x h k. tt)
wait_length_greatest none elapsed (some n) = (omega arith, tt, λ x h k. h)
wait_length_greatest (some wait) elapsed none = (tt, omega arith, λ x h k. k)
wait_length_greatest (some wait) elapsed (some n) =
    elim (Bool-cases (ltb_ℤ (wait -ℤ elapsed) (pos 0))) [
      | inl e ↦ elim (Bool-cases (ltb_ℤ n (pos 0))) [
        | inl f ↦ rw (e, f) (omega arith, ground arith, λ x h k. h)
        | inr f ↦ rw (e, f) (ground arith, omega arith, λ x h k. k)
      ]
      | inr e ↦ elim (Bool-cases (ltb_ℤ n (wait -ℤ elapsed))) [
        | inl f ↦ rw (e, f) (omega arith, ground arith, λ x h k. h)
        | inr f ↦ rw (e, f) (ground arith, omega arith, λ x h k. k)
      ]
    ]
