-- ===== src/SocketAddress/Order.antt =====
-- The order of socket addresses (`operator==` and `operator<` of rtc_base/socket_address.cc).
use tqlib.Prelude.{
  ℕ, ◌≡◌, refl, sym, ◌∙◌, inl, inr, Bool, true, false, not, ◌&&◌, ◌||◌, List, [], ◌∷◌, arith, ltb,
  ◌==◌, if◌then◌else◌, Bool-cases,
}
use tqlib.IpAddress.{IpAddress, bytes_eq, ip_eq, ip_lt}
use tqlib.IpAddress.Kind.{ip_is_any, ip_is_unspec}
use tqlib.IpAddress.Mapped.{bytes_eq_sound}
use tqlib.IpAddress.Equal.{
  IsMade, bytes_eq_refl, ip_eq_sound, ip_eq_refl, ip_lt_converse, ip_lt_trans,
}
use tqlib.SocketAddress.{SocketAddress, string_lt, equal_ips, equal_ports, socket_eq, socket_lt}

string_lt_converse :
    (xs ys : List ℕ) → string_lt ys xs ≡ (not (bytes_eq xs ys) && not (string_lt xs ys))
unfolding bytes_eq string_lt
string_lt_converse [] [] = refl
string_lt_converse [] (y ∷ ys) = refl
string_lt_converse (x ∷ xs) [] = refl
string_lt_converse (x ∷ xs) (y ∷ ys) = ground (arith, string_lt_converse xs ys)

string_lt_trans :
    (xs ys zs : List ℕ) → string_lt xs ys ≡ true → string_lt ys zs ≡ true → string_lt xs zs ≡ true
unfolding string_lt
string_lt_trans [] [] zs h k = cc
string_lt_trans [] (y ∷ ys) [] h k = cc
string_lt_trans [] (y ∷ ys) (z ∷ zs) h k = refl
string_lt_trans (x ∷ xs) [] zs h k = cc
string_lt_trans (x ∷ xs) (y ∷ ys) [] h k = cc
string_lt_trans (x ∷ xs) (y ∷ ys) (z ∷ zs) h k = ground (arith, string_lt_trans xs ys zs)

string_lt_irrefl : (xs : List ℕ) → string_lt xs xs ≡ false
unfolding string_lt
string_lt_irrefl [] = refl
string_lt_irrefl (x ∷ xs) = ground (arith, string_lt_irrefl xs)

-- Whether hostnames are looked at, and the two operators for addresses with one IP address.
abbrev pub by_name : IpAddress → Bool
by_name i = ip_is_any i || ip_is_unspec i

abbrev lt_same : Bool → List ℕ → List ℕ → ℕ → ℕ → Bool
lt_same names h k p q = if names && not (bytes_eq h k) then string_lt h k else ltb p q

abbrev eq_same : Bool → List ℕ → List ℕ → ℕ → ℕ → Bool
eq_same names h k p q = (not names || bytes_eq h k) && (p == q)

lt_same_converse :
    (names : Bool) (h k : List ℕ) (p q : ℕ)
    → bytes_eq k h ≡ bytes_eq h k
    → lt_same names k h q p ≡ (not (eq_same names h k p q) && not (lt_same names h k p q))
lt_same_converse true h k p q s = ground (arith, string_lt_converse h k, s)
lt_same_converse false h k p q s = ground arith

bytes_eq_comm : (xs ys : List ℕ) → bytes_eq ys xs ≡ bytes_eq xs ys
unfolding bytes_eq
bytes_eq_comm [] [] = refl
bytes_eq_comm [] (y ∷ ys) = refl
bytes_eq_comm (x ∷ xs) [] = refl
bytes_eq_comm (x ∷ xs) (y ∷ ys) = ground (arith, bytes_eq_comm xs ys)

lt_same_trans :
    (names : Bool) (h k l : List ℕ) (p q r : ℕ)
    → lt_same names h k p q ≡ true
    → lt_same names k l q r ≡ true
    → lt_same names h l p r ≡ true
lt_same_trans false h k l p q r u v = ground arith
lt_same_trans true h k l p q r u v = elim (Bool-cases (bytes_eq h k)) [
  | inl first_same ↦
      let e = bytes_eq_sound h k first_same in
      elim (Bool-cases (bytes_eq k l)) [
        | inl same ↦ ground (arith, rw (sym e) at same, rw first_same at u, rw same at v)
        | inr other ↦ rw e (ground (arith, rw other at v, other))
      ]
  | inr first_other ↦ elim (Bool-cases (bytes_eq k l)) [
    | inl same ↦
        let e = bytes_eq_sound k l same in
        rw (sym e) (ground (arith, rw first_other at u, first_other))
    | inr other ↦
        let below = string_lt_trans h k l (rw first_other at u) (rw other at v) in
        elim (Bool-cases (bytes_eq h l)) [
          | inl same ↦ absurd (
              let e = bytes_eq_sound h l same in
              ground
                (arith, string_lt_converse h k, rw (sym e) at (rw other at v), rw first_other at u))
          | inr different ↦ rw (different, below) refl
        ]
  ]
]

module _ (a b : SocketAddress) where
  lt_other : ip_eq a.ip b.ip ≡ false → socket_lt a b ≡ ip_lt a.ip b.ip
  unfolding socket_lt
  lt_other e = rw e refl

  lt_equal :
      ip_eq a.ip b.ip ≡ true
      → socket_lt a b ≡ lt_same (by_name a.ip) a.hostname b.hostname a.port b.port
  unfolding socket_lt
  lt_equal e = rw e refl

  eq_other : ip_eq a.ip b.ip ≡ false → socket_eq a b ≡ false
  unfolding socket_eq equal_ips
  eq_other e = rw e refl

  eq_equal :
      ip_eq a.ip b.ip ≡ true
      → socket_eq a b ≡ eq_same (by_name a.ip) a.hostname b.hostname a.port b.port
  unfolding socket_eq equal_ips equal_ports
  eq_equal e = ground (arith, e)

ip_eq_comm : (i j : IpAddress) → IsMade i → IsMade j → ip_eq j i ≡ ip_eq i j
ip_eq_comm i j m n = elim (Bool-cases (ip_eq i j)) [
  | inl same ↦ let e = ip_eq_sound i j m n same in rw e refl
  | inr other ↦ elim (Bool-cases (ip_eq j i)) [
    | inl same ↦ let e = ip_eq_sound j i n m same in rw e refl
    | inr different ↦ different ∙ sym other
  ]
]

converse :
    (a b : SocketAddress)
    → IsMade a.ip
    → IsMade b.ip
    → socket_lt b a ≡ (not (socket_eq a b) && not (socket_lt a b))
converse a b m n = elim (Bool-cases (ip_eq a.ip b.ip)) [
  | inl same ↦
      let e = ip_eq_sound a.ip b.ip m n same in
      rw
        (
          lt_equal b a (ip_eq_comm a.ip b.ip m n ∙ same),
          eq_equal a b same,
          lt_equal a b same,
          sym e,
        )
        (lt_same_converse (by_name a.ip) a.hostname b.hostname a.port b.port
          (bytes_eq_comm a.hostname b.hostname))
  | inr other ↦
      rw (lt_other b a (ip_eq_comm a.ip b.ip m n ∙ other), eq_other a b other, lt_other a b other)
        (ip_lt_converse a.ip b.ip m.valid n.valid ∙ rw other refl)
]

irrefl : (a : SocketAddress) → socket_lt a a ≡ false
irrefl a = lt_equal a a (ip_eq_refl a.ip) ∙ ground (arith, bytes_eq_refl a.hostname)

not_both :
    (names same : Bool) (p q : ℕ) (below : Bool)
    → (if names && not same then below else ltb p q) ≡ true
    → ((not names || same) && (p == q)) ≡ false
not_both names same p q below h = ground arith

apart : (a b : SocketAddress) → socket_lt a b ≡ true → socket_eq a b ≡ false
apart a b h = elim (Bool-cases (ip_eq a.ip b.ip)) [
  | inl same ↦
      eq_equal a b same
      ∙ not_both (by_name a.ip) (bytes_eq a.hostname b.hostname) a.port b.port
          (string_lt a.hostname b.hostname) (sym (lt_equal a b same) ∙ h)
  | inr other ↦ eq_other a b other
]

below_twice : (i j : IpAddress) → IsMade i → IsMade j → ip_lt i j ≡ true → ip_lt j i ≡ true → ⊥
below_twice i j m n h k = ground (arith, ip_lt_converse i j m.valid n.valid, h, k)

trans :
    (a b c : SocketAddress)
    → IsMade a.ip
    → IsMade b.ip
    → IsMade c.ip
    → socket_lt a b ≡ true
    → socket_lt b c ≡ true
    → socket_lt a c ≡ true
trans a b c ma mb mc h k = elim (Bool-cases (ip_eq a.ip b.ip)) [
  | inl same ↦
      let e = ip_eq_sound a.ip b.ip ma mb same in
      elim (Bool-cases (ip_eq b.ip c.ip)) [
        | inl also ↦
            lt_equal a c (rw e also)
            ∙ lt_same_trans (by_name a.ip) a.hostname b.hostname c.hostname a.port b.port c.port
                (sym (lt_equal a b same) ∙ h) (rw e (sym (lt_equal b c also) ∙ k))
        | inr other ↦ lt_other a c (rw e other) ∙ rw e (sym (lt_other b c other) ∙ k)
      ]
  | inr other ↦
      let first = sym (lt_other a b other) ∙ h in
      elim (Bool-cases (ip_eq b.ip c.ip)) [
        | inl also ↦
            let e = ip_eq_sound b.ip c.ip mb mc also in
            lt_other a c (rw (sym e) other) ∙ rw (sym e) first
        | inr different ↦
            let second = sym (lt_other b c different) ∙ k in
            elim (Bool-cases (ip_eq a.ip c.ip)) [
              | inl same ↦ absurd (
                  let e = ip_eq_sound a.ip c.ip ma mc same in
                  below_twice a.ip b.ip ma mb first (rw e second))
              | inr apart ↦ lt_other a c apart ∙ ip_lt_trans a.ip b.ip c.ip first second
            ]
      ]
]

-- For socket addresses whose IP addresses a constructor made, `operator<` is a strict order that
-- `operator==` completes: exactly one of a < b, a == b and b < a holds, a < a never, and < is transitive.
pub socket_order :
    (a b c : SocketAddress)
    → IsMade a.ip
    → IsMade b.ip
    → IsMade c.ip
    → (socket_lt b a ≡ (not (socket_eq a b) && not (socket_lt a b)))
      × (socket_lt a b ≡ true → socket_eq a b ≡ false)
      × (socket_lt a a ≡ false)
      × (socket_lt a b ≡ true → socket_lt b c ≡ true → socket_lt a c ≡ true)
socket_order a b c ma mb mc = (converse a b ma mb, apart a b, irrefl a, trans a b c ma mb mc)
