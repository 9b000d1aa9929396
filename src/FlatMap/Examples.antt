-- ===== src/FlatMap/Examples.antt =====
-- The theorems of flat_map.h at a map of numbers.
use tqlib.Prelude.{ℕ, ◌≡◌, ◌⊎◌, refl, none, some, List, [], ◌∷◌, ltb, arith, get_elem?}
use tqlib.FlatTree.Algorithms.{lower_bound}
use tqlib.FlatTree.Sorted.{IsStrictWeak}
use tqlib.FlatMap.{at_key, subscript}
use tqlib.FlatMap.Assign.{mapped}
use tqlib.FlatMap.Correct.{at_key_correct}

numbers-IsStrictWeak : IsStrictWeak ltb
numbers-IsStrictWeak = record {
  asym = λ a b h. ground arith;
  neg_trans = λ a b c h k. ground arith;
}

abbrev squares : List (ℕ × ℕ)
squares = (2, 4) ∷ (3, 9) ∷ (5, 25) ∷ []

subscript_new : subscript ltb 0 4 squares ≡ (2, (2, 4) ∷ (3, 9) ∷ (4, 0) ∷ (5, 25) ∷ [])
unfolding subscript lower_bound
subscript_new = refl

at_key_correct_example :
    ((at_key ltb 4 squares ≡ none) × (mapped ltb 4 squares ≡ none))
    ⊎ ((i : ℕ) × (e : ℕ × ℕ) × (at_key ltb 4 squares ≡ some i)
        × (get_elem? squares i ≡ some e)
        × (mapped ltb 4 squares ≡ some e.1))
at_key_correct_example =
    at_key_correct numbers-IsStrictWeak 4 squares ((refl, (refl, tt)), ((refl, tt), (tt, tt)))
