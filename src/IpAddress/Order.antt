-- ===== src/IpAddress/Order.antt =====
-- The order of addresses (ip_address.cc).
use tqlib.Prelude.{
  ℕ, zero, suc, ◌+◌, ◌*◌, ◌^◌, ◌≤◌, ◌<◌, ◌≡◌, refl, true, false, not, ◌&&◌, List, [], ◌∷◌, arith,
  ltb, length-take, sym, ◌∙◌, get_or, take, length, All,
}
use tqlib.IpAddress.{
  Family, unspec, inet, inet6, IpAddress, bytes_eq, bytes_lt, host32, eq_in, lt_in, ip_eq, ip_lt,
  ip_gt,
}

-- Sixteen bytes.
pub record IsValid (ip : IpAddress) : Type 0 where
  pub sized : length ip.raw ≡ 16
  pub bytes : All (λ b. b < 256) ip.raw

bytes_gt :
    (xs ys : List ℕ)
    → length xs ≡ length ys
    → bytes_lt ys xs ≡ (not (bytes_eq xs ys) && not (bytes_lt xs ys))
unfolding bytes_eq bytes_lt
bytes_gt [] [] e = refl
bytes_gt [] (y ∷ ys) e = absurd (omega arith)
bytes_gt (x ∷ xs) [] e = absurd (omega arith)
bytes_gt (x ∷ xs) (y ∷ ys) e = ground (arith, bytes_gt xs ys (omega arith))

bytes_lt_trans :
    (xs ys zs : List ℕ) → bytes_lt xs ys ≡ true → bytes_lt ys zs ≡ true → bytes_lt xs zs ≡ true
unfolding bytes_lt
bytes_lt_trans [] ys zs h k = cc
bytes_lt_trans (x ∷ xs) [] zs h k = cc
bytes_lt_trans (x ∷ xs) (y ∷ ys) [] h k = cc
bytes_lt_trans (x ∷ xs) (y ∷ ys) (z ∷ zs) h k = ground (arith, bytes_lt_trans xs ys zs)

pub get_or-lt : (bs : List ℕ) (i : ℕ) → All (λ b. b < 256) bs → get_or bs i 0 < 256
get_or-lt [] i h = omega arith
get_or-lt (b ∷ bs) zero h = h.0
get_or-lt (b ∷ bs) (suc i) h = get_or-lt bs i h.1

-- The first four bytes.
pub take_four :
    (bs : List ℕ)
    → 4 ≤ length bs
    → take 4 bs ≡ get_or bs 0 0 ∷ get_or bs 1 0 ∷ get_or bs 2 0 ∷ get_or bs 3 0 ∷ []
take_four (a ∷ b ∷ c ∷ d ∷ bs) h = refl
take_four [] h = absurd (omega arith)
take_four (a ∷ []) h = absurd (omega arith)
take_four (a ∷ b ∷ []) h = absurd (omega arith)
take_four (a ∷ b ∷ c ∷ []) h = absurd (omega arith)

four_gt :
    (a b c d w x y z : ℕ)
    → a < 256
    → b < 256
    → c < 256
    → d < 256
    → w < 256
    → x < 256
    → y < 256
    → z < 256
    → let m = a * 2 ^ 24 + b * 2 ^ 16 + c * 2 ^ 8 + d in
      let n = w * 2 ^ 24 + x * 2 ^ 16 + y * 2 ^ 8 + z in
      (not (bytes_eq (a ∷ b ∷ c ∷ d ∷ []) (w ∷ x ∷ y ∷ z ∷ [])) && not (ltb m n)) ≡ ltb n m
unfolding bytes_eq
four_gt a b c d w x y z ha hb hc hd hw hx hy hz = ground arith

v4_gt :
    (xs ys : List ℕ)
    → length xs ≡ 16
    → length ys ≡ 16
    → All (λ b. b < 256) xs
    → All (λ b. b < 256) ys
    → (not (bytes_eq (take 4 xs) (take 4 ys)) && not (ltb (host32 xs 0) (host32 ys 0)))
      ≡ ltb (host32 ys 0) (host32 xs 0)
v4_gt xs ys lx ly bx by =
    rw (take_four xs (omega arith), take_four ys (omega arith))
      (four_gt _ _ _ _ _ _ _ _ (get_or-lt xs 0 bx) (get_or-lt xs 1 bx) (get_or-lt xs 2 bx)
        (get_or-lt xs 3 bx) (get_or-lt ys 0 by) (get_or-lt ys 1 by) (get_or-lt ys 2 by)
        (get_or-lt ys 3 by))

-- The parts of the three operators for two addresses of one family.
gt_in :
    (f : Family) (xs ys : List ℕ)
    → length xs ≡ 16
    → length ys ≡ 16
    → All (λ b. b < 256) xs
    → All (λ b. b < 256) ys
    → (not (eq_in f xs ys) && not (lt_in f xs ys)) ≡ lt_in f ys xs
unfolding eq_in lt_in
gt_in unspec xs ys lx ly bx by = refl
gt_in inet xs ys lx ly bx by = v4_gt xs ys lx ly bx by
gt_in inet6 xs ys lx ly bx by =
    sym (
      bytes_gt (take 16 xs) (take 16 ys)
        (length-take 16 xs ∙ omega arith ∙ sym (length-take 16 ys)))

lt_in_trans :
    (f : Family) (xs ys zs : List ℕ)
    → lt_in f xs ys ≡ true
    → lt_in f ys zs ≡ true
    → lt_in f xs zs ≡ true
unfolding lt_in
lt_in_trans unspec xs ys zs h k = cc
lt_in_trans inet xs ys zs h k = ground arith
lt_in_trans inet6 xs ys zs h k = bytes_lt_trans (take 16 xs) (take 16 ys) (take 16 zs) h k

-- The three operators on the fields.
pub gt_at :
    (f g : Family) (xs ys : List ℕ)
    → length xs ≡ 16
    → length ys ≡ 16
    → All (λ b. b < 256) xs
    → All (λ b. b < 256) ys
    → ip_gt (record { family = f; raw = xs }) (record { family = g; raw = ys })
      ≡ ip_lt (record { family = g; raw = ys }) (record { family = f; raw = xs })
unfolding ip_gt ip_eq ip_lt
gt_at unspec unspec xs ys lx ly bx by = gt_in unspec xs ys lx ly bx by
gt_at unspec inet xs ys lx ly bx by = refl
gt_at unspec inet6 xs ys lx ly bx by = refl
gt_at inet unspec xs ys lx ly bx by = refl
gt_at inet inet xs ys lx ly bx by = gt_in inet xs ys lx ly bx by
gt_at inet inet6 xs ys lx ly bx by = refl
gt_at inet6 unspec xs ys lx ly bx by = refl
gt_at inet6 inet xs ys lx ly bx by = refl
gt_at inet6 inet6 xs ys lx ly bx by = gt_in inet6 xs ys lx ly bx by

pub trans_at :
    (f g h : Family) (xs ys zs : List ℕ)
    → ip_lt (record { family = f; raw = xs }) (record { family = g; raw = ys }) ≡ true
    → ip_lt (record { family = g; raw = ys }) (record { family = h; raw = zs }) ≡ true
    → ip_lt (record { family = f; raw = xs }) (record { family = h; raw = zs }) ≡ true
unfolding ip_lt
trans_at unspec unspec unspec xs ys zs p q = cc
trans_at inet inet inet xs ys zs p q = lt_in_trans inet xs ys zs p q
trans_at inet6 inet6 inet6 xs ys zs p q = lt_in_trans inet6 xs ys zs p q
trans_at _ _ _ xs ys zs p q = ground arith

bytes_lt_irrefl : (xs : List ℕ) → bytes_lt xs xs ≡ false
unfolding bytes_lt
bytes_lt_irrefl [] = refl
bytes_lt_irrefl (x ∷ xs) = ground (arith, bytes_lt_irrefl xs)

irrefl_at :
    (f : Family) (xs : List ℕ)
    → ip_lt (record { family = f; raw = xs }) (record { family = f; raw = xs }) ≡ false
unfolding ip_lt
irrefl_at unspec xs = refl
irrefl_at inet xs = ground arith
irrefl_at inet6 xs = bytes_lt_irrefl (take 16 xs)

-- `operator>`, which the code defines by `==` and `<`, is the converse of `operator<` for addresses
-- of sixteen bytes; and `operator<` is transitive and holds of no address and itself.
pub ip_order :
    (a b c : IpAddress)
    → IsValid a
    → IsValid b
    → (ip_gt a b ≡ ip_lt b a)
      × (ip_lt a a ≡ false)
      × (ip_lt a b ≡ true → ip_lt b c ≡ true → ip_lt a c ≡ true)
ip_order a b c va vb = (
  gt_at a.family b.family a.raw b.raw va.sized vb.sized va.bytes vb.bytes,
  irrefl_at a.family a.raw,
  trans_at a.family b.family c.family a.raw b.raw c.raw,
)
