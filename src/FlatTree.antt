-- ===== src/FlatTree.antt =====
-- rtc_base/containers/flat_tree.h: a container over a sorted vector. The body is the list of its values,
-- and an iterator is an index, `length` for end(). The comparator and the function that gets a
-- value's key are parameters. The algorithms of the standard library that it calls are in
-- FlatTree/Algorithms.
pub mod Algorithms
pub mod Sorted
pub mod Search
pub mod Insert
pub mod Batch
pub mod Range
pub mod Refine
pub mod Run
mod Examples
use tqlib.Prelude.{
  ℕ, zero, suc, ◌+◌, ◌-◌, min, Bool, true, false, not, Option, none, some, List, [], ◌∷◌, ◌++◌,
  ◌==◌, if◌then◌else◌, length, get_elem?, set, take, drop,
}
use tqlib.FlatTree.Algorithms.{lower_bound, upper_bound, stable_sort, unique, merge, remove_if}

module _ {K V : Type 0} (lt : K → K → Bool) (key : V → K) where
  -- `position == end() || comp(key, *position)`
  unfoldable pub is_absent : K → ℕ → List V → Bool
  is_absent k i body = elim (get_elem? body i) [ none ↦ true | some e ↦ lt k (key e) ]

  -- `unsafe_emplace`
  unfoldable pub unsafe_emplace : ℕ → V → List V → List V
  unsafe_emplace i v body = take i body ++ v ∷ drop i body

  -- `emplace_key_args`: the iterator, whether the value is new, and the body
  unfoldable pub emplace_key_args : K → V → List V → ℕ × Bool × List V
  unfolding is_absent unsafe_emplace
  emplace_key_args k v body =
      let lower = lower_bound lt key k body in
      if is_absent k lower body
      then (lower, true, unsafe_emplace lower v body)
      else (lower, false, body)

  -- `hint == begin() || comp(*std::prev(hint), key)`
  unfoldable pub is_after : K → ℕ → List V → Bool
  is_after k zero body = true
  is_after k (suc i) body = elim (get_elem? body i) [ none ↦ false | some e ↦ lt (key e) k ]

  -- `emplace_hint_key_args`
  unfoldable pub emplace_hint_key_args : ℕ → K → V → List V → ℕ × Bool × List V
  unfolding is_absent is_after unsafe_emplace emplace_key_args
  emplace_hint_key_args hint k v body =
      let plain = emplace_key_args k v body in
      if is_after k hint body
      then (if is_absent k hint body
          then (hint, true, unsafe_emplace hint v body)
          else elim (get_elem? body hint) [
            | none ↦ plain
            | some e ↦ if lt (key e) k then plain else (hint, false, body)
          ])
      else plain

  -- `insert` of one value, and with a hint
  unfoldable pub insert : V → List V → ℕ × Bool × List V
  unfolding emplace_key_args
  insert v body = emplace_key_args (key v) v body

  unfoldable pub insert_hint : ℕ → V → List V → ℕ × List V
  unfolding emplace_hint_key_args
  insert_hint hint v body =
      let (i, new, body1) = emplace_hint_key_args hint (key v) v body in (i, body1)

  -- `insert_or_assign`
  unfoldable pub insert_or_assign : V → List V → ℕ × Bool × List V
  unfolding is_absent
  insert_or_assign v body =
      let position = lower_bound lt key (key v) body in
      if is_absent (key v) position body
      then (position, true, unsafe_emplace position v body)
      else (position, false, set body position v)

  -- `append_unique` for the range [begin(), begin() + size)
  unfoldable pub append_unique : ℕ → V → List V → ℕ × Bool × List V
  unfolding is_absent
  append_unique size v body =
      let range = take size body in
      let position = lower_bound lt key (key v) range in
      if is_absent (key v) position range
      then (position, true, body ++ v ∷ [])
      else (position, false, body)

  -- `sort_and_unique` of the values from an index on
  unfoldable pub sort_and_unique : ℕ → List V → List V
  sort_and_unique first body =
      take first body ++ unique lt key (stable_sort lt key (drop first body))

  -- The loop of `insert` of a range: the first insertion point, and the body.
  unfoldable pub append_each : ℕ → List V → ℕ × List V → ℕ × List V
  unfolding append_unique
  append_each size [] (pos, body) = (pos, body)
  append_each size (v ∷ vs) (pos, body) =
      let (i, new, body1) = append_unique size v body in
      append_each size vs ((if new then min pos i else pos), body1)

  -- `insert` of a range that iterators can pass several times
  unfoldable pub insert_range : List V → List V → List V
  insert_range [] body = body
  insert_range (v ∷ []) body = (insert_hint (length body) v body).1
  insert_range (v ∷ w ∷ vs) body =
      let size = length body in
      let (pos, appended) = append_each size (v ∷ w ∷ vs) (size, body) in
      let sorted = sort_and_unique size appended in
      take pos sorted ++ merge lt key (take (size - pos) (drop pos sorted)) (drop size sorted)

  -- `lower_bound` and `equal_range`
  unfoldable pub equal_range : K → List V → ℕ × ℕ
  unfolding is_absent
  equal_range k body =
      let lower = lower_bound lt key k body in
      if is_absent k lower body then (lower, lower) else (lower, lower + 1)

  -- `find`, `count` and `contains`
  unfoldable pub find : K → List V → ℕ
  unfolding equal_range
  find k body = let (a, b) = equal_range k body in if a == b then length body else a

  unfoldable pub count : K → List V → ℕ
  unfolding equal_range
  count k body = let (a, b) = equal_range k body in b - a

  unfoldable pub contains : K → List V → Bool
  contains k body = elim (get_elem? body (lower_bound lt key k body)) [
    | none ↦ false
    | some e ↦ not (lt k (key e))
  ]

  -- `erase` of a key: the number of values erased, and the body
  unfoldable pub erase_key : K → List V → ℕ × List V
  unfolding equal_range
  erase_key k body = let (a, b) = equal_range k body in (b - a, take a body ++ drop b body)

-- `erase` of a range of iterators and of one; `none` stands for a failed check.
unfoldable pub erase_range : {V : Type 0} → ℕ → ℕ → List V → List V
erase_range first last body = take first body ++ drop last body

unfoldable pub erase_at : {V : Type 0} → ℕ → List V → Option (List V)
erase_at position body =
    if position == length body then none else some (erase_range position (position + 1) body)

-- `EraseIf`
unfoldable pub erase_if : {V : Type 0} → (V → Bool) → List V → ℕ × List V
erase_if pred body = let kept = remove_if pred body in (length body - length kept, kept)
