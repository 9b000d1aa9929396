-- ===== src/SeqNum/Unwrap.antt =====
-- SeqNumUnwrapper of sequence_number_util.h recovers a counter from its remainders.
use native.Mathlib.Nat.{mod-lt, mod-add-mod}
use mathlib.Core.Path.{ap₂, fun_ext}
use native.Mathlib.Decide.{dec_lt}
use tqlib.Prelude.{
  ℕ, suc, ◌+◌, ◌-◌, ◌*◌, ◌%◌, ◌<◌, ◌≡◌, refl, sym, subst, ◌∙◌, ap, ◌⊎◌, inl, inr, true, false, some,
  arith, if◌then◌else◌, List, [], ◌∷◌, map,
}
use tqlib.Prelude.Int.{ℤ, pos, ◌+ℤ◌, ◌-ℤ◌, int_laws}
use tqlib.SeqNum.{
  forward_diff_mod, reverse_diff_mod, ahead_or_at_mod, modulus, Unwrapper, unwrap, unwrap_forward,
  unwrap_backwards,
}
use tqlib.SeqNum.Order.{mod_below, mod_above, overloads}

-- `s` is `r` moved forward by `d`, round the modulus if need be.
abbrev Moved : ℕ → ℕ → ℕ → ℕ → Type 0
Moved n r d s = (r < n) × (s < n) × (d < n) × ((s ≡ r + d) ⊎ (s + n ≡ r + d))

mod-Moved : (n x d : ℕ) → d < n → Moved n (x % n) d ((x + d) % n)
mod-Moved n x d h =
    let r : x % n < n = mod-lt x (omega arith) in
    let s : (x + d) % n < n = mod-lt (x + d) (omega arith) in
    (r, s, h, wrapped r (sym (mod-add-mod x n d)) (dec_lt (x % n + d) n))
  where
    wrapped :
        x % n < n
        → (x + d) % n ≡ (x % n + d) % n
        → Dec (x % n + d < n)
        → ((x + d) % n ≡ x % n + d) ⊎ ((x + d) % n + n ≡ x % n + d)
    wrapped r e (yes p) = inl (e ∙ mod_below _ n p)
    wrapped r e (no p) = inr (omega (arith, e, mod_above (x % n + d) n (omega arith) (omega arith)))

forward-Moved : (n r d s : ℕ) → Moved n r d s → forward_diff_mod n r s ≡ d
unfolding forward_diff_mod
forward-Moved n r d s h = ground arith

backward-Moved : (n r d s : ℕ) → Moved n r d s → 0 < d → forward_diff_mod n s r ≡ n - d
unfolding forward_diff_mod
backward-Moved n r d s h p = ground arith

reverse-Moved : (n r d s : ℕ) → Moved n r d s → reverse_diff_mod n s r ≡ d
unfolding reverse_diff_mod
reverse-Moved n r d s h = ground arith

-- Less than half of the modulus ahead.
ahead-Moved :
    (n r d s : ℕ)
    → Moved n r d s
    → 2 * d < n
    → (ahead_or_at_mod n s r ≡ true) × (0 < d → ahead_or_at_mod n r s ≡ false)
unfolding ahead_or_at_mod
ahead-Moved n r d s h k = (ground arith, λ p. ground arith)

-- What `Unwrap` computes from a last value.
unwrap_step :
    (w m value last : ℕ) (u : Unwrapper)
    → value < modulus (suc w) m
    → last < modulus (suc w) m
    → u.last_value ≡ some last
    → let n = modulus (suc w) m in
      (unwrap (suc w) m value u).0 ≡ (
        if ahead_or_at_mod n value last
        then u.last_unwrapped +ℤ pos (forward_diff_mod n last value)
        else u.last_unwrapped +ℤ pos (forward_diff_mod n last value) -ℤ pos n)
unfolding unwrap
unwrap_step w m value last u hv hl e =
    rw (e, unwrap)
      (rw ((overloads w m last value hl hv).0, (overloads w m value last hv hl).2) (ground arith))

moves :
    (n x y : ℕ) (v : ℤ)
    → 2 * x < 2 * y + n
    → 2 * y < 2 * x + n
    → Dec (y < x)
    → (if ahead_or_at_mod n (y % n) (x % n)
        then v +ℤ pos (forward_diff_mod n (x % n) (y % n))
        else v +ℤ pos (forward_diff_mod n (x % n) (y % n)) -ℤ pos n)
      ≡ v +ℤ (pos y -ℤ pos x)
moves n x y v near near' (no h) =
    let moved : Moved n (x % n) (y - x) (y % n) =
      subst (λ t. Moved n (x % n) (y - x) (t % n)) (omega arith)
        (mod-Moved n x (y - x) (omega arith)) in
    rw ((ahead-Moved n _ _ _ moved (omega arith)).0, forward-Moved n _ _ _ moved) (omega int_laws)
moves n x y v near near' (yes h) =
    let moved : Moved n (y % n) (x - y) (x % n) =
      subst (λ t. Moved n (y % n) (x - y) (t % n)) (omega arith)
        (mod-Moved n y (x - y) (omega arith)) in
    rw
      (
        (ahead-Moved n _ _ _ moved (omega arith)).1 (omega arith),
        backward-Moved n _ _ _ moved (omega arith),
      )
      (omega int_laws)

-- `Unwrap` follows a counter: if the last value is that of the counter at x, and the counter is
-- then at y, less than half of the modulus away, the unwrapped value moves by y - x.
pub unwrap_follows :
    (w m x y : ℕ) (u : Unwrapper)
    → u.last_value ≡ some (x % modulus (suc w) m)
    → 2 * x < 2 * y + modulus (suc w) m
    → 2 * y < 2 * x + modulus (suc w) m
    → let n = modulus (suc w) m in
      (unwrap (suc w) m (y % n) u).0 ≡ u.last_unwrapped +ℤ (pos y -ℤ pos x)
unwrap_follows w m x y u last near near' =
    let n = modulus (suc w) m in
    unwrap_step w m (y % n) (x % n) u (mod-lt y (omega arith)) (mod-lt x (omega arith)) last
    ∙ moves n x y u.last_unwrapped near near' (dec_lt y x)

-- `UnwrapForward` and `UnwrapBackwards` follow a counter that goes one way, by less than the modulus
-- at a time: from x to x + d the first moves by d, and from x + d to x the second moves by -d.
pub unwrap_one_way :
    (w m x d : ℕ) (u v : Unwrapper)
    → d < modulus (suc w) m
    → u.last_value ≡ some (x % modulus (suc w) m)
    → v.last_value ≡ some ((x + d) % modulus (suc w) m)
    → let n = modulus (suc w) m in
      ((unwrap_forward (suc w) m ((x + d) % n) u).0 ≡ u.last_unwrapped +ℤ pos d)
      × ((unwrap_backwards (suc w) m (x % n) v).0 ≡ v.last_unwrapped -ℤ pos d)
unfolding unwrap_forward unwrap_backwards
unwrap_one_way w m x d u v h eu ev =
    let n = modulus (suc w) m in
    let moved = mod-Moved n x d h in
    (
      rw eu (
          ap (λ t. u.last_unwrapped +ℤ pos t)
            ((overloads w m (x % n) ((x + d) % n) moved.0 moved.1).0
              ∙ forward-Moved n _ _ _ moved)),
      rw ev (
          ap (λ t. v.last_unwrapped -ℤ pos t)
            ((overloads w m ((x + d) % n) (x % n) moved.1 moved.0).1
              ∙ reverse-Moved n _ _ _ moved)),
    )

-- A caller that unwraps one value after another.
unfoldable pub unwrap_all : ℕ → ℕ → List ℕ → Unwrapper → List ℤ
unwrap_all width m [] u = []
unwrap_all width m (value ∷ values) u =
    let (unwrapped, u') = unwrap width m value u in unwrapped ∷ unwrap_all width m values u'

-- From each value of the counter to the next it is less than half of `n`, up or down.
abbrev pub IsSmooth : ℕ → ℕ → List ℕ → Type 0
IsSmooth n x [] = Unit
IsSmooth n x (y ∷ ys) = (2 * x < 2 * y + n) × (2 * y < 2 * x + n) × IsSmooth n y ys

unwrap_keeps :
    (width m value : ℕ) (u : Unwrapper)
    → let (unwrapped, u') = unwrap width m value u in
      (u'.last_unwrapped ≡ unwrapped) × (u'.last_value ≡ some value)
unfolding unwrap
unwrap_keeps width m value u = ground arith

-- Where a counter moves by less than half of the modulus at a time, unwrapping its remainders one
-- after another gives back all its moves, up and down, however often the remainders wrap.
pub unwrap_stream :
    (w m x : ℕ) (ys : List ℕ) (u : Unwrapper)
    → u.last_value ≡ some (x % modulus (suc w) m)
    → IsSmooth (modulus (suc w) m) x ys
    → unwrap_all (suc w) m (map (λ y. y % modulus (suc w) m) ys) u
      ≡ map (λ y. u.last_unwrapped +ℤ (pos y -ℤ pos x)) ys
unfolding unwrap_all
unwrap_stream w m x [] u e h = refl
unwrap_stream w m x (y ∷ ys) u e (near, near', h) =
    let n = modulus (suc w) m in
    let u' = (unwrap (suc w) m (y % n) u).1 in
    let kept = unwrap_keeps (suc w) m (y % n) u in
    let moved = unwrap_follows w m x y u e near near' in
    ap₂ ◌∷◌ moved (
      unwrap_stream w m y ys u' kept.1 h
      ∙ ap (λ f. map f ys)
          (fun_ext (λ z. ap (λ t. t +ℤ (pos z -ℤ pos y)) (kept.0 ∙ moved) ∙ omega int_laws)))
