-- ===== src/IpAddress/Mapped.antt =====
-- IPv4 addresses as IPv6 addresses, and back (AsIPv6Address and Normalized of ip_address.cc).
use mathlib.Core.Path.{ap₂}
use tqlib.Prelude.{
  Bool-cases, inl, inr, ℕ, zero, suc, ◌≤◌, ◌≡◌, refl, sym, ap, ◌∙◌, true, List, [], ◌∷◌, ◌++◌,
  arith, if◌then◌else◌, take, drop, length, replicate, take-append-drop, length-drop,
}
use tqlib.IpAddress.{
  inet, inet6, bytes_eq, ip_is_v4_mapped, normalized, as_ipv6_address, from_ipv4, from_ipv6,
  v4_mapped_prefix,
}
use tqlib.IpAddress.Order.{take_four}

pub bytes_eq_sound : (xs ys : List ℕ) → bytes_eq xs ys ≡ true → xs ≡ ys
unfolding bytes_eq
bytes_eq_sound [] [] h = refl
bytes_eq_sound [] (y ∷ ys) h = cc
bytes_eq_sound (x ∷ xs) [] h = cc
bytes_eq_sound (x ∷ xs) (y ∷ ys) h = ground (arith, bytes_eq_sound xs ys)

pub take_all : (n : ℕ) (xs : List ℕ) → length xs ≤ n → take n xs ≡ xs
take_all zero [] h = refl
take_all zero (x ∷ xs) h = absurd (omega arith)
take_all (suc n) [] h = refl
take_all (suc n) (x ∷ xs) h = ap (λ r. x ∷ r) (take_all n xs (omega arith))

mapped_of_four :
    (a b c d : ℕ)
    → let ip = from_ipv4 (a ∷ b ∷ c ∷ d ∷ []) in
      (ip_is_v4_mapped (as_ipv6_address ip) ≡ true) × (normalized (as_ipv6_address ip) ≡ ip)
unfolding ip_is_v4_mapped as_ipv6_address normalized bytes_eq
mapped_of_four a b c d = (refl, refl)

-- AsIPv6Address of an IPv4 address is mapped, and Normalized gives the IPv4 address back.
pub normalized-as_ipv6_address :
    (ip4 : List ℕ)
    → length ip4 ≡ 4
    → let ip = from_ipv4 ip4 in
      (ip_is_v4_mapped (as_ipv6_address ip) ≡ true) × (normalized (as_ipv6_address ip) ≡ ip)
normalized-as_ipv6_address ip4 h =
    let e = sym (take_all 4 ip4 (omega arith)) ∙ take_four ip4 (omega arith) in
    rw e (mapped_of_four _ _ _ _)

rest_of_mapped :
    (ip6 : List ℕ)
    → length ip6 ≡ 16
    → ip_is_v4_mapped (from_ipv6 ip6) ≡ true
    → ip6 ≡ take 12 v4_mapped_prefix ++ take 4 (drop 12 ip6)
unfolding ip_is_v4_mapped
rest_of_mapped ip6 len h =
    sym (take-append-drop 12 ip6)
    ∙ ap₂ ◌++◌ (bytes_eq_sound (take 12 ip6) (take 12 v4_mapped_prefix) h)
        (sym (take_all 4 (drop 12 ip6) (omega (arith, length-drop 12 ip6))))

take-take_append : (n : ℕ) (xs ys : List ℕ) → n ≤ length xs → take n (take n xs ++ ys) ≡ take n xs
take-take_append zero xs ys h = refl
take-take_append (suc n) [] ys h = absurd (omega arith)
take-take_append (suc n) (x ∷ xs) ys h = ap (λ r. x ∷ r) (take-take_append n xs ys (omega arith))

-- Normalized of a mapped IPv6 address is an IPv4 address, which AsIPv6Address maps back to it; an
-- IPv6 address that is not mapped is left alone by both.
pub as_ipv6_address-normalized :
    (ip6 : List ℕ)
    → length ip6 ≡ 16
    → let ip = from_ipv6 ip6 in
      (as_ipv6_address (normalized ip) ≡ ip)
      × ((normalized ip).family ≡ (if ip_is_v4_mapped ip then inet else inet6))
unfolding as_ipv6_address normalized
as_ipv6_address-normalized ip6 len = elim (Bool-cases (ip_is_v4_mapped (from_ipv6 ip6))) [
  | inl yes_mapped ↦ rw yes_mapped (
    ap from_ipv6 (
        ap (λ r. take 12 v4_mapped_prefix ++ r)
          (take-take_append 4 (drop 12 ip6) (replicate 12 0) (omega (arith, length-drop 12 ip6)))
        ∙ sym (rest_of_mapped ip6 len yes_mapped)),
    refl,
  )
  | inr not_mapped ↦ rw not_mapped (refl, refl)
]
