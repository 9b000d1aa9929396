-- ===== src/IpAddress.antt =====
-- rtc_base/ip_address.cc and ip_address.h: addresses, their order, the conversion between the
-- families, prefixes and masks. The union of the class is its sixteen bytes, in network order: an
-- IPv4 address has the first four, and its constructors set the others to zero. An address has one of
-- the families AF_UNSPEC, AF_INET and AF_INET6.
pub mod Order
pub mod Mapped
pub mod Equal
pub mod Mask
pub mod Kind
pub mod Truncate
pub mod Text
mod Examples
use Prim.Native.Nat.{bit_and, bit_xor}
use tqlib.Prelude.{
  ℕ, zero, suc, ◌+◌, ◌-◌, ◌*◌, ◌/◌, ◌%◌, ◌^◌, Bool, true, false, not, ◌&&◌, ◌||◌, List, [], ◌∷◌,
  ◌++◌, ltb, leb, ◌==◌, if◌then◌else◌, get_or, take, drop, replicate,
}

pub data Family : Type 0 where
  unspec : Family
  inet : Family
  inet6 : Family

pub record IpAddress : Type 0 where
  pub family : Family
  pub raw : List ℕ

-- The comparisons of `memcmp` over the bytes of two lists of one length.
unfoldable pub bytes_eq : List ℕ → List ℕ → Bool
bytes_eq [] [] = true
bytes_eq (x ∷ xs) (y ∷ ys) = x == y && bytes_eq xs ys
bytes_eq _ _ = false

unfoldable pub bytes_lt : List ℕ → List ℕ → Bool
bytes_lt (x ∷ xs) (y ∷ ys) = ltb x y || (x == y && bytes_lt xs ys)
bytes_lt _ _ = false

-- `NetworkToHost32` of the four bytes from an index on, and its inverse, `HostToNetwork32`.
abbrev pub host32 : List ℕ → ℕ → ℕ
host32 bs i =
    get_or bs i 0 * 2 ^ 24
    + get_or bs (i + 1) 0 * 2 ^ 16
    + get_or bs (i + 2) 0 * 2 ^ 8
    + get_or bs (i + 3) 0

abbrev pub network32 : ℕ → List ℕ
network32 n = n / 2 ^ 24 % 256 ∷ n / 2 ^ 16 % 256 ∷ n / 2 ^ 8 % 256 ∷ n % 256 ∷ []

-- The constructors.
abbrev pub nil_address : IpAddress
nil_address = record { family = unspec; raw = replicate 16 0 }

abbrev pub from_ipv4 : List ℕ → IpAddress
from_ipv4 ip4 = record { family = inet; raw = ip4 ++ replicate 12 0 }

abbrev pub from_ipv6 : List ℕ → IpAddress
from_ipv6 ip6 = record { family = inet6; raw = ip6 }

abbrev pub from_host_order : ℕ → IpAddress
from_host_order n = from_ipv4 (network32 n)

-- `kV4MappedPrefix`, `k6To4Prefix`, `kTeredoPrefix`, `kV4CompatibilityPrefix`, `k6BonePrefix` and
-- `kPrivateNetworkPrefix`, with the zeros that the initialisers leave out
abbrev pub v4_mapped_prefix : List ℕ
v4_mapped_prefix = replicate 10 0 ++ (0xff ∷ 0xff ∷ replicate 4 0)

abbrev pub six_to4_prefix : List ℕ
six_to4_prefix = 0x20 ∷ 0x02 ∷ replicate 14 0

abbrev pub teredo_prefix : List ℕ
teredo_prefix = 0x20 ∷ 0x01 ∷ replicate 14 0

abbrev pub v4_compatibility_prefix : List ℕ
v4_compatibility_prefix = replicate 16 0

abbrev pub six_bone_prefix : List ℕ
six_bone_prefix = 0x3f ∷ 0xfe ∷ replicate 14 0

abbrev pub private_network_prefix : List ℕ
private_network_prefix = 0xfd ∷ replicate 15 0

-- `in6addr_any` and `in6addr_loopback` of the system, as RFC 4291 has them
abbrev pub in6addr_any : List ℕ
in6addr_any = replicate 16 0

abbrev pub in6addr_loopback : List ℕ
in6addr_loopback = replicate 15 0 ++ (1 ∷ [])

-- `v4AddressAsHostOrderInteger`
unfoldable pub v4_address_as_host_order_integer : IpAddress → ℕ
v4_address_as_host_order_integer ip = elim ip.family [ inet ↦ host32 ip.raw 0 | _ ↦ 0 ]

same_family : Family → Family → Bool
same_family unspec unspec = true
same_family inet inet = true
same_family inet6 inet6 = true
same_family _ _ = false

-- The part of `operator==` and `operator<` for two addresses of one family.
eq_in : Family → List ℕ → List ℕ → Bool
eq_in unspec a b = true
eq_in inet a b = bytes_eq (take 4 a) (take 4 b)
eq_in inet6 a b = bytes_eq (take 16 a) (take 16 b)

lt_in : Family → List ℕ → List ℕ → Bool
lt_in unspec a b = false
lt_in inet a b = ltb (host32 a 0) (host32 b 0)
lt_in inet6 a b = bytes_lt (take 16 a) (take 16 b)

-- The part of `operator<` for two families.
family_lt : Family → Family → Bool
family_lt unspec b = true
family_lt inet inet6 = true
family_lt _ _ = false

-- `operator==`, `operator<` and `operator>`
unfoldable pub ip_eq : IpAddress → IpAddress → Bool
unfolding same_family eq_in
ip_eq a b = if same_family a.family b.family then eq_in a.family a.raw b.raw else false

unfoldable pub ip_lt : IpAddress → IpAddress → Bool
unfolding same_family lt_in family_lt
ip_lt a b =
    if same_family a.family b.family
    then lt_in a.family a.raw b.raw
    else family_lt a.family b.family

unfoldable pub ip_gt : IpAddress → IpAddress → Bool
ip_gt a b = not (ip_eq a b) && not (ip_lt a b)

-- `IPIsHelper`
unfoldable pub ip_is_helper : IpAddress → List ℕ → ℕ → Bool
ip_is_helper ip tomatch length = bytes_eq (take (length / 8) ip.raw) (take (length / 8) tomatch)

unfoldable pub ip_is_v4_mapped : IpAddress → Bool
unfolding ip_is_helper
ip_is_v4_mapped ip = ip_is_helper ip v4_mapped_prefix 96

-- `Normalized` and `AsIPv6Address`
unfoldable pub normalized : IpAddress → IpAddress
normalized ip = elim ip.family [
  | inet6 ↦ if ip_is_v4_mapped ip then from_ipv4 (take 4 (drop 12 ip.raw)) else ip
  | _ ↦ ip
]

unfoldable pub as_ipv6_address : IpAddress → IpAddress
as_ipv6_address ip = elim ip.family [
  | inet ↦ from_ipv6 (take 12 v4_mapped_prefix ++ take 4 ip.raw)
  | _ ↦ ip
]
