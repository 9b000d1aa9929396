-- ===== src/FlatTree/Examples.antt =====
-- Runs of the sorted vector (flat_tree.h), with numbers by their tens as keys.
use tqlib.Prelude.{ℕ, ◌/◌, ◌≡◌, refl, List, [], ◌∷◌, ltb, ◌==◌, arith}
use tqlib.FlatTree.{
  insert_range, emplace_key_args, emplace_hint_key_args, append_each, sort_and_unique, is_absent,
}
use tqlib.FlatTree.Algorithms.{lower_bound, stable_sort, insert_stable, unique, merge}
use tqlib.FlatTree.Sorted.{IsStrictWeak, IsSorted, lookup}
use tqlib.FlatTree.Insert.{emplace_hint_key_args-eq}
use tqlib.FlatTree.Run.{Op, put_near, assign, put_all, erase, erase_where, run, replay, run_refines}

ltb-IsStrictWeak : IsStrictWeak ltb
ltb-IsStrictWeak = record { asym = λ a b h. ground arith; neg_trans = λ a b c h k. ground arith }

abbrev tens : ℕ → ℕ
tens n = n / 10

abbrev sample : List ℕ
sample = 11 ∷ 25 ∷ 40 ∷ []

-- Of the new values 33, 38 and 31 of one key the first stays.
batch : insert_range ltb tens (33 ∷ 27 ∷ 38 ∷ 5 ∷ 31 ∷ []) sample ≡ 5 ∷ 11 ∷ 25 ∷ 33 ∷ 40 ∷ []
unfolding insert_range append_each sort_and_unique lower_bound is_absent stable_sort insert_stable
    unique merge
batch = refl

emplace_hint_key_args-eq_example :
    emplace_hint_key_args ltb tens 1 3 33 sample ≡ emplace_key_args ltb tens 3 33 sample
emplace_hint_key_args-eq_example =
    emplace_hint_key_args-eq ltb-IsStrictWeak tens 1 3 33 sample
      ((refl, (refl, tt)), ((refl, tt), (tt, tt))) (omega arith)

abbrev changes : List (Op ℕ ℕ)
changes =
    put_all (33 ∷ 27 ∷ 5 ∷ [])
    ∷ assign 41
    ∷ erase 1
    ∷ put_near 0 19
    ∷ erase_where (λ n. n == 25)
    ∷ []

run_refines_example :
    IsSorted ltb tens (run ltb-IsStrictWeak tens changes sample)
    × ((k : ℕ)
        → lookup ltb tens k (run ltb-IsStrictWeak tens changes sample)
          ≡ replay ltb-IsStrictWeak tens changes (λ j. lookup ltb tens j sample) k)
run_refines_example =
    run_refines ltb-IsStrictWeak tens changes sample ((refl, (refl, tt)), ((refl, tt), (tt, tt)))
