-- ===== src/Percentile.antt =====
-- PercentileFilter of rtc_base/numerics/percentile_filter.h, for exact integers. The multiset is the
-- list of its values in ascending order, and an iterator is a position in it. The position that the
-- code computes in floating point from the percentile and the size is a parameter.
pub mod Position
pub mod Multiset
pub mod Insert
pub mod Erase
pub mod Correct
pub mod Moving
mod Examples
use tqlib.Prelude.{
  ℕ, suc, ◌+◌, ◌-◌, Bool, true, false, not, Option, none, some, List, [], ◌∷◌, ◌++◌, ltb, leb, ◌==◌,
  if◌then◌else◌, length, get_elem?, get_or, take, drop,
}
use tqlib.Prelude.Int.{ℤ, pos, ltb_ℤ, leb_ℤ, eqb_ℤ}

pub record PercentileFilter : Type 0 where
  pub set : List ℤ
  pub percentile_it : ℕ
  pub percentile_index : ℕ

-- `PercentileFilter` and `Reset`
unfoldable pub empty_filter : PercentileFilter
empty_filter = record { set = []; percentile_it = 0; percentile_index = 0 }

-- `multiset::lower_bound`, and the upper bound, at which an insertion puts its value
unfoldable pub lower_place : ℤ → List ℤ → ℕ
lower_place v [] = 0
lower_place v (e ∷ s) = let rest = lower_place v s in if ltb_ℤ e v then suc rest else 0

unfoldable pub upper_place : ℤ → List ℤ → ℕ
upper_place v [] = 0
upper_place v (e ∷ s) = let rest = upper_place v s in if ltb_ℤ v e then 0 else suc rest

-- `multiset::insert` and `erase`
unfoldable pub multiset_insert : ℤ → List ℤ → List ℤ
unfolding upper_place
multiset_insert v s = let p = upper_place v s in take p s ++ v ∷ drop p s

unfoldable pub multiset_erase : ℕ → List ℤ → List ℤ
multiset_erase p s = take p s ++ drop (suc p) s

-- `*percentile_it_`, which is never end() where the code reads it
unfoldable pub value_at : ℕ → List ℤ → ℤ
value_at i s = get_or s i (pos 0)

module _ (target : ℕ → ℕ) where
  -- `UpdatePercentileIterator`
  unfoldable pub update_percentile_iterator : PercentileFilter → PercentileFilter
  update_percentile_iterator f =
      if length f.set == 0
      then f
      else let index = target (length f.set) in
        record {
          set = f.set;
          percentile_it = f.percentile_it + index - f.percentile_index;
          percentile_index = index;
        }

  -- `Insert`; the iterator stays at its value, so it moves when the new value comes before it.
  unfoldable pub insert_value : ℤ → PercentileFilter → PercentileFilter
  unfolding multiset_insert value_at update_percentile_iterator
  insert_value v f =
      let set1 = multiset_insert v f.set in
      let it =
        if leb (upper_place v f.set) f.percentile_it
        then suc f.percentile_it
        else f.percentile_it in
      if length set1 == 1
      then update_percentile_iterator
          (record { set = set1; percentile_it = 0; percentile_index = 0 })
      else if ltb_ℤ v (value_at it set1)
      then update_percentile_iterator
          (record { set = set1; percentile_it = it; percentile_index = suc f.percentile_index })
      else update_percentile_iterator
          (record { set = set1; percentile_it = it; percentile_index = f.percentile_index })

  -- `Erase`, once the value is found
  unfoldable pub erase_at_place : ℤ → ℕ → PercentileFilter → PercentileFilter
  unfolding multiset_erase value_at update_percentile_iterator
  erase_at_place v place f =
      let set1 = multiset_erase place f.set in
      let it = if ltb place f.percentile_it then f.percentile_it - 1 else f.percentile_it in
      if place == f.percentile_it
      then update_percentile_iterator
          (record { set = set1; percentile_it = place; percentile_index = f.percentile_index })
      else if leb_ℤ v (value_at it set1)
      then update_percentile_iterator
          (record { set = set1; percentile_it = it; percentile_index = f.percentile_index - 1 })
      else update_percentile_iterator
          (record { set = set1; percentile_it = it; percentile_index = f.percentile_index })

  -- `Erase`
  unfoldable pub erase_value : ℤ → PercentileFilter → Bool × PercentileFilter
  unfolding erase_at_place lower_place
  erase_value v f =
      let place = lower_place v f.set in
      elim (get_elem? f.set place) [
        | none ↦ (false, f)
        | some e ↦ if not (eqb_ℤ e v) then (false, f) else (true, erase_at_place v place f)
      ]

-- `GetPercentileValue`
unfoldable pub get_percentile_value : PercentileFilter → ℤ
unfolding value_at
get_percentile_value f = if length f.set == 0 then pos 0 else value_at f.percentile_it f.set
