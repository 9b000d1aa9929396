-- ===== src/FlatTree/Algorithms.antt =====
-- The algorithms of the standard library that flat_tree.h calls, as the standard describes them: the
-- searches for ranges that the comparison partitions, the merge for two sorted ranges.
use tqlib.Prelude.{ℕ, suc, Bool, List, [], ◌∷◌, if◌then◌else◌}

module _ {K V : Type 0} (lt : K → K → Bool) (key : V → K) where
  -- `std::lower_bound` and `std::upper_bound`
  unfoldable pub lower_bound : K → List V → ℕ
  lower_bound k [] = 0
  lower_bound k (e ∷ s) = let rest = lower_bound k s in if lt (key e) k then suc rest else 0

  unfoldable pub upper_bound : K → List V → ℕ
  upper_bound k [] = 0
  upper_bound k (e ∷ s) = let rest = upper_bound k s in if lt k (key e) then 0 else suc rest

  -- `std::stable_sort`: a value goes before those that follow it in the input, unless they are less.
  unfoldable pub insert_stable : V → List V → List V
  insert_stable v [] = v ∷ []
  insert_stable v (e ∷ s) =
      let rest = insert_stable v s in if lt (key e) (key v) then e ∷ rest else v ∷ e ∷ s

  unfoldable pub stable_sort : List V → List V
  stable_sort [] = []
  stable_sort (e ∷ s) = insert_stable e (stable_sort s)

  -- `std::unique` with the negated comparison: a value is dropped if the last one that was kept is not
  -- less.
  unfoldable pub unique_from : V → List V → List V
  unique_from last [] = []
  unique_from last (e ∷ s) =
      let kept = unique_from e s in
      let dropped = unique_from last s in if lt (key last) (key e) then e ∷ kept else dropped

  unfoldable pub unique : List V → List V
  unfolding unique_from
  unique [] = []
  unique (e ∷ s) = e ∷ unique_from e s

  -- `std::inplace_merge`: of equivalent values the one of the first range goes first.
  unfoldable pub merge : List V → List V → List V
  merge [] t = t
  merge (e ∷ s) [] = e ∷ s
  merge (e ∷ s) (f ∷ t) =
      let second = merge (e ∷ s) t in
      let first = merge s (f ∷ t) in if lt (key f) (key e) then f ∷ second else e ∷ first

-- `std::remove_if`, with the erasure of what is left behind
unfoldable pub remove_if : {V : Type 0} → (V → Bool) → List V → List V
remove_if pred [] = []
remove_if pred (e ∷ s) = let rest = remove_if pred s in if pred e then rest else e ∷ rest
