-- ===== src/SeqNum/Examples.antt =====
-- The wrapping numbers of mod_ops.h and sequence_number_util.h at concrete values.
use tqlib.Prelude.{◌%◌, ◌≡◌, refl, not, some, [], ◌∷◌, map, arith}
use tqlib.Prelude.Int.{pos, ◌+ℤ◌, ◌-ℤ◌}
use tqlib.SeqNum.{
  forward_diff_wrap, ahead_of, ahead_or_at_wrap, Unwrapper, fresh, unwrap, ahead_or_at, minus_eq,
  forward_diff,
}
use tqlib.SeqNum.Order.{ahead_of_total}
use tqlib.SeqNum.Unwrap.{unwrap_all, unwrap_stream}

-- The example in the comment of `ForwardDiff`.
forward_253_2 : forward_diff_wrap 8 253 2 ≡ 5
unfolding forward_diff_wrap
forward_253_2 = refl

-- 16-bit sequence numbers round the end, forward and back.
round_the_end :
    unwrap_all 16 0 (65534 ∷ 65535 ∷ 1 ∷ 65535 ∷ []) fresh
    ≡ pos 65534 ∷ pos 65535 ∷ pos 65537 ∷ pos 65535 ∷ []
unfolding unwrap_all ◌+ℤ◌ ◌-ℤ◌ unwrap ahead_or_at ahead_or_at_wrap minus_eq forward_diff_wrap
    forward_diff
round_the_end = refl

ahead_of_total_example : ahead_of 8 0 2 253 ≡ not (ahead_of 8 0 253 2)
ahead_of_total_example = ahead_of_total 7 0 2 253 (omega arith) (omega arith) (omega arith)

abbrev at_250 : Unwrapper
at_250 = record { last_unwrapped = pos 250; last_value = some 250 }

abbrev at_4 : Unwrapper
at_4 = record { last_unwrapped = pos 260; last_value = some 4 }

unwrap_stream_example :
    unwrap_all 8 0 (map (λ y. y % 256) (300 ∷ 200 ∷ 310 ∷ [])) at_250
    ≡ map (λ y. pos 250 +ℤ (pos y -ℤ pos 250)) (300 ∷ 200 ∷ 310 ∷ [])
unwrap_stream_example = unwrap_stream 7 0 250 (300 ∷ 200 ∷ 310 ∷ []) at_250 refl (omega arith)
