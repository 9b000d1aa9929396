-- ===== src/FlatMap.antt =====
-- rtc_base/containers/flat_map.h: the operations that flat_map adds to flat_tree. The values are pairs
-- of a key and what it is mapped to; a reference to the latter is the index of the pair. A
-- default value, `mapped_type()`, is a parameter.
pub mod Assign
pub mod Correct
mod Examples
use tqlib.Prelude.{
  ℕ, Bool, true, false, Option, none, some, List, ◌==◌, if◌then◌else◌, length, get_elem?, set,
}
use tqlib.FlatTree.{is_absent, unsafe_emplace, emplace_key_args, emplace_hint_key_args, find}
use tqlib.FlatTree.Algorithms.{lower_bound}

-- `GetFirst`
abbrev pub get_first : {K M : Type 0} → K × M → K
get_first e = e.0

-- `->second = obj`
unfoldable pub assign_second : {K M : Type 0} → ℕ → M → List (K × M) → List (K × M)
assign_second i m body = elim (get_elem? body i) [ none ↦ body | some e ↦ set body i (e.0, m) ]

module _ {K M : Type 0} (lt : K → K → Bool) where
  -- `at`; `none` stands for the failed check.
  unfoldable pub at_key : K → List (K × M) → Option ℕ
  at_key k body =
      let found = find lt get_first k body in if found == length body then none else some found

  -- `operator[]`
  unfoldable pub subscript : M → K → List (K × M) → ℕ × List (K × M)
  unfolding is_absent unsafe_emplace
  subscript default k body =
      let found = lower_bound lt get_first k body in
      if is_absent lt get_first k found body
      then (found, unsafe_emplace lt get_first found (k, default) body)
      else (found, body)

  -- `insert_or_assign`, and with a hint
  unfoldable pub insert_or_assign : K → M → List (K × M) → ℕ × Bool × List (K × M)
  insert_or_assign k m body =
      let (i, new, body1) = emplace_key_args lt get_first k (k, m) body in
      (i, new, if new then body1 else assign_second i m body1)

  unfoldable pub insert_or_assign_hint : ℕ → K → M → List (K × M) → ℕ × List (K × M)
  insert_or_assign_hint hint k m body =
      let (i, new, body1) = emplace_hint_key_args lt get_first hint k (k, m) body in
      (i, if new then body1 else assign_second i m body1)

  -- `try_emplace`, and with a hint
  unfoldable pub try_emplace : K → M → List (K × M) → ℕ × Bool × List (K × M)
  try_emplace k m body = emplace_key_args lt get_first k (k, m) body

  unfoldable pub try_emplace_hint : ℕ → K → M → List (K × M) → ℕ × List (K × M)
  try_emplace_hint hint k m body =
      let (i, new, body1) = emplace_hint_key_args lt get_first hint k (k, m) body in (i, body1)
