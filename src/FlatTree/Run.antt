-- ===== src/FlatTree/Run.antt =====
-- Any sequence of changes to a flat_tree, and the same on a function from keys to values.
use mathlib.Core.Path.{fun_ext}
use tqlib.Prelude.{
  ℕ, ◌≡◌, refl, ◌∙◌, ap, min, Bool, Option, some, List, [], ◌∷◌, arith, if◌then◌else◌, length,
}
use tqlib.FlatTree.{insert, insert_hint, insert_or_assign, insert_range, erase_key, erase_if}
use tqlib.FlatTree.Sorted.{IsStrictWeak, equiv, lookup, IsSorted, or_value}
use tqlib.FlatTree.Search.{
  unless, remove_if-IsSorted, lookup-remove_if, erase_key-IsSorted, lookup-erase_key,
}
use tqlib.FlatTree.Insert.{
  emplace_hint_key_args-eq, insert_or_assign-assign, assign-IsSorted, lookup-assign,
}
use tqlib.FlatTree.Refine.{
  insert-IsSorted, lookup-insert, insert_range-IsSorted, lookup-insert_range,
}

-- An iterator that is past end() stands for end().
pub data Op (K V : Type 0) : Type 0 where
  put : V → Op K V
  put_near : ℕ → V → Op K V
  assign : V → Op K V
  put_all : List V → Op K V
  erase : K → Op K V
  erase_where : (V → Bool) → Op K V

module _ {K V : Type 0} {lt : K → K → Bool} (o : IsStrictWeak lt) (key : V → K) where
  -- One change to the body, and to a function from keys to values.
  abbrev pub change : Op K V → List V → List V
  change (put v) s = (insert lt key v s).2
  change (put_near hint v) s = (insert_hint lt key (min hint (length s)) v s).1
  change (assign v) s = (insert_or_assign lt key v s).2
  change (put_all vs) s = insert_range lt key vs s
  change (erase k) s = (erase_key lt key k s).1
  change (erase_where pred) s = (erase_if pred s).1

  abbrev pub update : Op K V → (K → Option V) → K → Option V
  update (put v) f k = or_value o key (f k) (lookup lt key k (v ∷ []))
  update (put_near hint v) f k = or_value o key (f k) (lookup lt key k (v ∷ []))
  update (assign v) f k = if equiv lt k (key v) then some v else f k
  update (put_all vs) f k = or_value o key (f k) (lookup lt key k vs)
  update (erase j) f k = unless o key (λ e. equiv lt j (key e)) (f k)
  update (erase_where pred) f k = unless o key pred (f k)

  abbrev pub run : List (Op K V) → List V → List V
  run [] s = s
  run (c ∷ cs) s = run cs (change c s)

  abbrev pub replay : List (Op K V) → (K → Option V) → K → Option V
  replay [] f = f
  replay (c ∷ cs) f = replay cs (update c f)

  hint_same :
      (hint : ℕ) (v : V) (s : List V)
      → IsSorted lt key s
      → (insert_hint lt key (min hint (length s)) v s).1 ≡ (insert lt key v s).2
  unfolding insert_hint insert
  hint_same hint v s h =
      ap (λ r. r.2)
        (emplace_hint_key_args-eq o key (min hint (length s)) (key v) v s h (omega arith))

  change-IsSorted : (c : Op K V) (s : List V) → IsSorted lt key s → IsSorted lt key (change c s)
  unfolding erase_if
  change-IsSorted (put v) s h = insert-IsSorted o key v s h
  change-IsSorted (put_near hint v) s h = rw (hint_same hint v s h) (insert-IsSorted o key v s h)
  change-IsSorted (assign v) s h =
      rw (insert_or_assign-assign o key v s) (assign-IsSorted o key v s h)
  change-IsSorted (put_all vs) s h = insert_range-IsSorted o key vs s h
  change-IsSorted (erase k) s h = erase_key-IsSorted o key k s h
  change-IsSorted (erase_where pred) s h = remove_if-IsSorted o key pred s h

  change-update :
      (c : Op K V) (s : List V) (k : K)
      → IsSorted lt key s
      → lookup lt key k (change c s) ≡ update c (λ j. lookup lt key j s) k
  unfolding erase_if
  change-update (put v) s k h = lookup-insert o key k v s h
  change-update (put_near hint v) s k h =
      ap (lookup lt key k) (hint_same hint v s h) ∙ lookup-insert o key k v s h
  change-update (assign v) s k h =
      ap (lookup lt key k) (insert_or_assign-assign o key v s) ∙ lookup-assign o key k v s h
  change-update (put_all vs) s k h = lookup-insert_range o key k vs s h
  change-update (erase j) s k h = lookup-erase_key o key k j s h
  change-update (erase_where pred) s k h = lookup-remove_if o key pred k s h

  -- Any sequence of insertions (with and without hints, of one value or of a range), assignments and
  -- erasures, by key or by a predicate, leaves a sorted body sorted and without repeated keys, and
  -- the value of each key is the one that the same changes to a function from keys to values give.
  pub run_refines :
      (cs : List (Op K V)) (s : List V)
      → IsSorted lt key s
      → IsSorted lt key (run cs s)
        × ((k : K) → lookup lt key k (run cs s) ≡ replay cs (λ j. lookup lt key j s) k)
  run_refines [] s h = (h, λ k. refl)
  run_refines (c ∷ cs) s h =
      let (a, b) = run_refines cs (change c s) (change-IsSorted c s h) in
      (a, λ k. b k ∙ ap (λ f. replay cs f k) (fun_ext λ j. change-update c s j h))
