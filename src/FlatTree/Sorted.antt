-- ===== src/FlatTree/Sorted.antt =====
-- Sorted vectors without repeated keys, as functions from keys to values (flat_tree.h).
use tqlib.Prelude.{
  ◌≡◌, refl, sym, ap, inl, inr, Bool, true, false, not, ◌&&◌, Option, none, some, List, [], ◌∷◌,
  arith, if◌then◌else◌, Bool-cases, All, All-imp,
}
use tqlib.FlatTree.{is_absent, insert}
use tqlib.FlatTree.Algorithms.{lower_bound}

-- What the container asks of its comparator: a strict weak order.
pub record IsStrictWeak {K : Type 0} (lt : K → K → Bool) : Type 0 where
  pub asym : (a b : K) → lt a b ≡ true → lt b a ≡ false
  pub neg_trans : (a b c : K) → lt a b ≡ false → lt b c ≡ false → lt a c ≡ false

abbrev pub equiv : {K : Type 0} → (K → K → Bool) → K → K → Bool
equiv lt a b = not (lt a b) && not (lt b a)

module _ {K V : Type 0} (lt : K → K → Bool) (key : V → K) where
  -- The abstract view: the value of a key, whatever the order of the values.
  abbrev pub lookup : K → List V → Option V
  lookup k [] = none
  lookup k (e ∷ s) = if equiv lt k (key e) then some e else lookup k s

  abbrev pub IsSorted : List V → Type 0
  IsSorted [] = Unit
  IsSorted (e ∷ s) = All (λ f. lt (key e) (key f) ≡ true) s × IsSorted s

  -- The insertion of a value whose key is new, and of one in any case, by recursion.
  abbrev pub put : V → List V → List V
  put v [] = v ∷ []
  put v (e ∷ s) =
      if lt (key e) (key v) then e ∷ put v s else if lt (key v) (key e) then v ∷ e ∷ s else e ∷ s

  -- `insert` is that insertion.
  pub insert-put : (v : V) (s : List V) → (insert lt key v s).2 ≡ put v s
  unfolding insert lower_bound
  insert-put v [] = refl
  insert-put v (e ∷ s) = elim (Bool-cases (lt (key e) (key v))) [
    | inl h ↦ elim (Bool-cases (is_absent lt key (key v) (lower_bound lt key (key v) s) s)) [
      | inl a ↦ rw (h, a) (ap (λ r. e ∷ r) (rw a at (insert-put v s)))
      | inr a ↦ rw (h, a) (ap (λ r. e ∷ r) (rw a at (insert-put v s)))
    ]
    | inr h ↦ elim (Bool-cases (lt (key v) (key e))) [
      | inl a ↦ rw (h, a) refl
      | inr a ↦ rw (h, a) refl
    ]
  ]

module _ {K : Type 0} {lt : K → K → Bool} (o : IsStrictWeak lt) where
  pub irrefl : (a : K) → lt a a ≡ false
  irrefl a = elim (Bool-cases (lt a a)) [ inl h ↦ o.asym a a h | inr h ↦ h ]

  pub lt_trans : (a b c : K) → lt a b ≡ true → lt b c ≡ true → lt a c ≡ true
  lt_trans a b c h k = elim (Bool-cases (lt a c)) [
    | inl q ↦ q
    | inr q ↦ ground (arith, o.neg_trans a c b q (o.asym b c k))
  ]

  -- Equivalent keys are below and above the same keys.
  pub lt_of_equiv_left : (p v f : K) → lt v p ≡ false → lt v f ≡ true → lt p f ≡ true
  lt_of_equiv_left p v f h k = elim (Bool-cases (lt p f)) [
    | inl q ↦ q
    | inr q ↦ ground (arith, o.neg_trans v p f h q)
  ]

  pub lt_of_equiv_right : (p v f : K) → lt p v ≡ false → lt f v ≡ true → lt f p ≡ true
  lt_of_equiv_right p v f h k = elim (Bool-cases (lt f p)) [
    | inl q ↦ q
    | inr q ↦ ground (arith, o.neg_trans f p v q h)
  ]

  pub equiv_intro : (a b : K) → lt a b ≡ false → lt b a ≡ false → equiv lt a b ≡ true
  equiv_intro a b h k = rw (h, k) refl

  pub equiv_parts : (a b : K) → equiv lt a b ≡ true → (lt a b ≡ false) × (lt b a ≡ false)
  equiv_parts a b h = ground arith

  pub equiv_trans : (a b c : K) → equiv lt a b ≡ true → equiv lt b c ≡ true → equiv lt a c ≡ true
  equiv_trans a b c h k =
      let (ab, ba) = equiv_parts a b h in
      let (bc, cb) = equiv_parts b c k in
      equiv_intro a c (o.neg_trans a b c ab bc) (o.neg_trans c b a cb ba)

  pub equiv_sym : (a b : K) → equiv lt a b ≡ equiv lt b a
  equiv_sym a b = ground arith

module _ {K V : Type 0} {lt : K → K → Bool} (o : IsStrictWeak lt) (key : V → K) where
  -- A key below which nothing equivalent lies.
  pub above_equiv :
      (k : K) (v : V) (s : List V)
      → equiv lt k (key v) ≡ true
      → All (λ f. lt (key v) (key f) ≡ true) s
      → All (λ f. lt k (key f) ≡ true) s
  above_equiv k v s q h =
      All-imp _ _ s (λ f r. lt_of_equiv_left o k (key v) (key f) (equiv_parts o k (key v) q).1 r) h

  put-All : (P : V → Type 0) (v : V) (s : List V) → P v → All P s → All P (put lt key v s)
  put-All P v [] p h = (p, tt)
  put-All P v (e ∷ s) p (q, h) = elim (Bool-cases (lt (key e) (key v))) [
    | inl a ↦ rw a (q, put-All P v s p h)
    | inr a ↦ elim (Bool-cases (lt (key v) (key e))) [
      | inl b ↦ rw (a, b) (p, (q, h))
      | inr b ↦ rw (a, b) (q, h)
    ]
  ]

  pub put-IsSorted : (v : V) (s : List V) → IsSorted lt key s → IsSorted lt key (put lt key v s)
  put-IsSorted v [] h = (tt, tt)
  put-IsSorted v (e ∷ s) (all, h) = elim (Bool-cases (lt (key e) (key v))) [
    | inl a ↦ rw a (put-All _ v s a all, put-IsSorted v s h)
    | inr a ↦ elim (Bool-cases (lt (key v) (key e))) [
      | inl b ↦
          rw (a, b)
            ((b, All-imp _ _ s (λ f q. lt_trans o (key v) (key e) (key f) b q) all), (all, h))
      | inr b ↦ rw (a, b) (all, h)
    ]
  ]

  -- A key that is not above a lower bound has no value.
  pub lookup_below :
      (k : K) (s : List V) → All (λ f. lt k (key f) ≡ true) s → lookup lt key k s ≡ none
  lookup_below k [] h = refl
  lookup_below k (e ∷ s) (p, h) = rw (p, lookup_below k s h) refl

  -- What a value in place of none gives.
  abbrev pub or_value : Option V → Option V → Option V
  or_value none w = w
  or_value (some e) w = some e

  pub or_value-none : (w : Option V) → or_value w none ≡ w
  or_value-none none = refl
  or_value-none (some e) = refl

  pub lookup-put :
      (k : K) (v : V) (s : List V)
      → IsSorted lt key s
      → lookup lt key k (put lt key v s)
        ≡ or_value (lookup lt key k s) (if equiv lt k (key v) then some v else none)
  lookup-put k v [] h = refl
  lookup-put k v (e ∷ s) (all, h) = elim (Bool-cases (lt (key e) (key v))) [
    | inl a ↦ elim (Bool-cases (equiv lt k (key e))) [
      | inl q ↦ rw (a, q) refl
      | inr q ↦ rw (a, q) (lookup-put k v s h)
    ]
    | inr a ↦ elim (Bool-cases (lt (key v) (key e))) [
      | inl b ↦ elim (Bool-cases (equiv lt k (key v))) [
        | inl q ↦
            rw (a, b, q)
              (sym (
                ap (λ w. or_value w (some v))
                  (lookup_below k (e ∷ s) (
                    above_equiv k v (e ∷ s) q
                      (b, All-imp _ _ s (λ f r. lt_trans o (key v) (key e) (key f) b r) all)))))
        | inr q ↦ rw (a, b, q) (sym (or_value-none _))
      ]
      | inr b ↦ elim (Bool-cases (equiv lt k (key v))) [
        | inl q ↦
            rw (a, b, q)
              (rw (equiv_trans o k (key v) (key e) q (equiv_intro o (key v) (key e) b a)) refl)
        | inr q ↦ rw (a, b, q) (sym (or_value-none _))
      ]
    ]
  ]
