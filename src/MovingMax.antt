-- ===== src/MovingMax.antt =====
-- rtc_base/numerics/moving_max_counter.h: the largest sample of a moving window. The deque is the
-- list of its pairs from its front. The samples' type is a parameter with its `<=`. Times are exact
-- integers of milliseconds: the source's int64_t subtraction does not overflow here.
pub mod Window
pub mod Maximum
mod Examples
use tqlib.Prelude.{Bool, true, false, Option, none, some, List, [], ◌∷◌, ◌++◌, if◌then◌else◌}
use tqlib.Prelude.Int.{ℤ, ◌-ℤ◌, ltb_ℤ}

pub record MovingMaxCounter (T : Type 0) : Type 0 where
  pub window_length_ms : ℤ
  pub samples : List (ℤ × T)

module _ {T : Type 0} where
  -- The loop of `RollWindow` and its `erase`.
  unfoldable pub erase_before : ℤ → List (ℤ × T) → List (ℤ × T)
  erase_before begin [] = []
  erase_before begin (e ∷ s) =
      let rest = erase_before begin s in if ltb_ℤ e.0 begin then rest else e ∷ s

  unfoldable pub roll_window : ℤ → MovingMaxCounter T → MovingMaxCounter T
  unfolding erase_before
  roll_window now c = record c { samples = erase_before (now -ℤ c.window_length_ms) c.samples }

  -- The test of `Add` on the back of the deque.
  unfoldable pub back_before : ℤ → List (ℤ × T) → Bool
  back_before now [] = true
  back_before now (e ∷ []) = ltb_ℤ e.0 now
  back_before now (e ∷ f ∷ s) = back_before now (f ∷ s)

  unfoldable pub push : ℤ → T → List (ℤ × T) → List (ℤ × T)
  push now sample s = if back_before now s then s ++ ((now, sample) ∷ []) else s

  -- `Max`, with the counter that it leaves
  unfoldable pub max : ℤ → MovingMaxCounter T → Option T × MovingMaxCounter T
  max now c = let c' = roll_window now c in (elim c'.samples [ [] ↦ none | e ∷ s ↦ some e.1 ], c')

  unfoldable pub reset : MovingMaxCounter T → MovingMaxCounter T
  reset c = record c { samples = [] }

module _ {T : Type 0} (le : T → T → Bool) where
  -- The loop of `Add`, which drops samples from the back.
  unfoldable pub pop_small : T → List (ℤ × T) → List (ℤ × T)
  pop_small sample [] = []
  pop_small sample (e ∷ s) = elim (pop_small sample s) [
    | [] ↦ if le e.1 sample then [] else e ∷ []
    | f ∷ r ↦ e ∷ f ∷ r
  ]

  -- `Add`
  unfoldable pub add : T → ℤ → MovingMaxCounter T → MovingMaxCounter T
  unfolding push
  add sample now c =
      let c' = roll_window now c in
      record c' { samples = push now sample (pop_small sample c'.samples) }
