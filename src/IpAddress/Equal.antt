-- ===== src/IpAddress/Equal.antt =====
-- `operator==` of addresses is equality, for those that the constructors make (ip_address.cc).
use mathlib.Core.Path.{ap₂}
use tqlib.Prelude.{
  ℕ, ◌≡◌, refl, sym, ◌∙◌, true, not, ◌&&◌, List, [], ◌∷◌, ◌++◌, arith, take, drop, replicate,
  take-append-drop,
}
use tqlib.IpAddress.{Family, unspec, inet, inet6, IpAddress, bytes_eq, eq_in, ip_eq, ip_lt, ip_gt}
use tqlib.IpAddress.Order.{IsValid, gt_at, trans_at}
use tqlib.IpAddress.Mapped.{take_all, bytes_eq_sound}

abbrev pub ZerosBehind : Family → List ℕ → Type 0
ZerosBehind unspec raw = raw ≡ replicate 16 0
ZerosBehind inet raw = drop 4 raw ≡ replicate 12 0
ZerosBehind inet6 raw = Unit {0}

-- What every constructor sees to: an IPv4 address has zeros behind its four bytes, and an address of no
-- family has zeros only.
pub record IsMade (ip : IpAddress) : Type 0 where
  pub valid : IsValid ip
  pub zeros : ZerosBehind ip.family ip.raw

eq_at :
    (f g : Family) (xs ys : List ℕ)
    → IsMade (record { family = f; raw = xs })
    → IsMade (record { family = g; raw = ys })
    → ip_eq (record { family = f; raw = xs }) (record { family = g; raw = ys }) ≡ true
    → (f ≡ g) × (xs ≡ ys)
unfolding ip_eq eq_in
eq_at unspec unspec xs ys m n h = (refl, m.zeros ∙ sym n.zeros)
eq_at inet inet xs ys m n h = (
  refl,
  sym (take-append-drop 4 xs)
      ∙ ap₂ ◌++◌ (bytes_eq_sound (take 4 xs) (take 4 ys) h) (m.zeros ∙ sym n.zeros)
      ∙ take-append-drop 4 ys,
)
eq_at inet6 inet6 xs ys m n h = (
  refl,
  sym (take_all 16 xs (omega (arith, m.valid.sized)))
      ∙ bytes_eq_sound (take 16 xs) (take 16 ys) h
      ∙ take_all 16 ys (omega (arith, n.valid.sized)),
)
eq_at unspec inet xs ys m n h = cc
eq_at unspec inet6 xs ys m n h = cc
eq_at inet unspec xs ys m n h = cc
eq_at inet inet6 xs ys m n h = cc
eq_at inet6 unspec xs ys m n h = cc
eq_at inet6 inet xs ys m n h = cc

-- `operator==` is equality.
pub ip_eq_sound : (a b : IpAddress) → IsMade a → IsMade b → ip_eq a b ≡ true → a ≡ b
ip_eq_sound a b m n h =
    let (p, q) = eq_at a.family b.family a.raw b.raw m n h in
    λ j. record { family = p j; raw = q j }

pub bytes_eq_refl : (xs : List ℕ) → bytes_eq xs xs ≡ true
unfolding bytes_eq
bytes_eq_refl [] = refl
bytes_eq_refl (x ∷ xs) = ground (arith, bytes_eq_refl xs)

eq_refl_at :
    (f : Family) (xs : List ℕ)
    → ip_eq (record { family = f; raw = xs }) (record { family = f; raw = xs }) ≡ true
unfolding ip_eq eq_in
eq_refl_at unspec xs = refl
eq_refl_at inet xs = bytes_eq_refl (take 4 xs)
eq_refl_at inet6 xs = bytes_eq_refl (take 16 xs)

pub ip_eq_refl : (a : IpAddress) → ip_eq a a ≡ true
ip_eq_refl a = eq_refl_at a.family a.raw

pub ip_lt_converse :
    (a b : IpAddress) → IsValid a → IsValid b → ip_lt b a ≡ (not (ip_eq a b) && not (ip_lt a b))
unfolding ip_gt
ip_lt_converse a b va vb =
    sym (gt_at a.family b.family a.raw b.raw va.sized vb.sized va.bytes vb.bytes)

pub ip_lt_trans : (a b c : IpAddress) → ip_lt a b ≡ true → ip_lt b c ≡ true → ip_lt a c ≡ true
ip_lt_trans a b c h k = trans_at a.family b.family c.family a.raw b.raw c.raw h k
