-- ===== src/IpAddress/Kind.antt =====
-- The predicates on addresses and their precedence (ip_address.cc).
use Prim.Native.Nat.{bit_and}
use mathlib.Core.Path.{ap₂}
use tqlib.Prelude.{
  ℕ, ◌+◌, ◌-◌, ◌*◌, ◌/◌, ◌^◌, ◌≡◌, Bool, true, false, not, ◌&&◌, ◌||◌, arith, leb, ◌==◌,
  if◌then◌else◌, get_or,
}
use tqlib.IpAddress.{
  unspec, inet, inet6, IpAddress, host32, ip_eq, ip_is_helper, ip_is_v4_mapped, from_ipv6,
  from_host_order, v4_mapped_prefix, six_to4_prefix, teredo_prefix, v4_compatibility_prefix,
  six_bone_prefix, private_network_prefix, in6addr_any, in6addr_loopback,
  v4_address_as_host_order_integer,
}

-- `IPIsPrivateNetworkV4`, `IPIsPrivateNetworkV6` and `IPIsPrivateNetwork`
is_private_network_v4 : IpAddress → Bool
is_private_network_v4 ip =
    let n = v4_address_as_host_order_integer ip in
    n / 2 ^ 24 == 10 || n / 2 ^ 20 == 172 * 16 + 1 || n / 2 ^ 16 == 192 * 256 + 168

unfoldable pub ip_is_private_network : IpAddress → Bool
unfolding is_private_network_v4
ip_is_private_network ip = elim ip.family [
  | inet ↦ is_private_network_v4 ip
  | inet6 ↦ ip_is_helper ip private_network_prefix 8
  | unspec ↦ false
]

-- `IPIsSharedNetwork`
unfoldable pub ip_is_shared_network : IpAddress → Bool
ip_is_shared_network ip = elim ip.family [
  | inet ↦ v4_address_as_host_order_integer ip / 2 ^ 22 == 100 * 4 + 1
  | _ ↦ false
]

-- `IPIsLinkLocal`
unfoldable pub ip_is_link_local : IpAddress → Bool
ip_is_link_local ip = elim ip.family [
  | inet ↦ v4_address_as_host_order_integer ip / 2 ^ 16 == 169 * 256 + 254
  | inet6 ↦ get_or ip.raw 0 0 == 0xfe && bit_and (get_or ip.raw 1 0) 0xc0 == 0x80
  | unspec ↦ false
]

-- `IPIsLoopback`
unfoldable pub ip_is_loopback : IpAddress → Bool
ip_is_loopback ip = elim ip.family [
  | inet ↦ v4_address_as_host_order_integer ip / 2 ^ 24 == 127
  | inet6 ↦ ip_eq ip (from_ipv6 in6addr_loopback)
  | unspec ↦ false
]

-- `IPIsPrivate`
unfoldable pub ip_is_private : IpAddress → Bool
unfolding ip_is_link_local ip_is_loopback ip_is_private_network ip_is_shared_network
ip_is_private ip =
    ip_is_link_local ip || ip_is_loopback ip || ip_is_private_network ip || ip_is_shared_network ip

-- `IPIsAny`
unfoldable pub ip_is_any : IpAddress → Bool
ip_is_any ip = elim ip.family [
  | inet ↦ ip_eq ip (from_host_order 0)
  | inet6 ↦ ip_eq ip (from_ipv6 in6addr_any) || ip_eq ip (from_ipv6 v4_mapped_prefix)
  | unspec ↦ false
]

-- `IPIsUnspec`
unfoldable pub ip_is_unspec : IpAddress → Bool
ip_is_unspec ip = elim ip.family [ unspec ↦ true | _ ↦ false ]

-- `IPIs6Bone`, `IPIs6To4`, `IPIsTeredo`, `IPIsV4Compatibility`, `IPIsSiteLocal`, `IPIsULA` and
-- `IPIsMacBased`
ip_is_6bone : IpAddress → Bool
ip_is_6bone ip = ip_is_helper ip six_bone_prefix 16

ip_is_6to4 : IpAddress → Bool
ip_is_6to4 ip = ip_is_helper ip six_to4_prefix 16

ip_is_teredo : IpAddress → Bool
ip_is_teredo ip = ip_is_helper ip teredo_prefix 32

ip_is_v4_compatibility : IpAddress → Bool
ip_is_v4_compatibility ip = ip_is_helper ip v4_compatibility_prefix 96

ip_is_site_local : IpAddress → Bool
ip_is_site_local ip = get_or ip.raw 0 0 == 0xfe && bit_and (get_or ip.raw 1 0) 0xc0 == 0xc0

ip_is_ula : IpAddress → Bool
ip_is_ula ip = bit_and (get_or ip.raw 0 0) 0xfe == 0xfc

unfoldable pub ip_is_mac_based : IpAddress → Bool
ip_is_mac_based ip =
    not (bit_and (get_or ip.raw 8 0) 0x02 == 0)
    && get_or ip.raw 11 0 == 0xff
    && get_or ip.raw 12 0 == 0xfe

-- `IPAddressPrecedence`
unfoldable pub ip_address_precedence : IpAddress → ℕ
unfolding ip_is_6bone ip_is_6to4 ip_is_teredo ip_is_v4_compatibility ip_is_site_local ip_is_ula
ip_address_precedence ip = elim ip.family [
  | inet ↦ 30
  | inet6 ↦
      if ip_is_loopback ip
      then 60
      else if ip_is_ula ip
      then 50
      else if ip_is_v4_mapped ip
      then 30
      else if ip_is_6to4 ip
      then 20
      else if ip_is_teredo ip
      then 10
      else if ip_is_v4_compatibility ip || ip_is_site_local ip || ip_is_6bone ip
      then 1
      else 40
  | unspec ↦ 0
]

-- The networks of RFC 1918, RFC 6598, RFC 3927 and RFC 1122 by their first and last addresses.
abbrev pub between : ℕ → ℕ → ℕ → Bool
between lo n hi = leb lo n && leb n hi

abbrev pub dotted : ℕ → ℕ → ℕ → ℕ → ℕ
dotted a b c d = a * 2 ^ 24 + b * 2 ^ 16 + c * 2 ^ 8 + d

abbrev pub in_private_ranges : ℕ → Bool
in_private_ranges n =
    between (dotted 169 254 0 0) n (dotted 169 254 255 255)
    || between (dotted 127 0 0 0) n (dotted 127 255 255 255)
    || (between (dotted 10 0 0 0) n (dotted 10 255 255 255)
        || between (dotted 172 16 0 0) n (dotted 172 31 255 255)
        || between (dotted 192 168 0 0) n (dotted 192 168 255 255))
    || between (dotted 100 64 0 0) n (dotted 100 127 255 255)

-- A test of the leading bits is a test of a range.
leading_8 : (n c : ℕ) → (n / 2 ^ 24 == c) ≡ between (c * 2 ^ 24) n (c * 2 ^ 24 + (2 ^ 24 - 1))
leading_8 n c = ground arith

leading_10 : (n c : ℕ) → (n / 2 ^ 22 == c) ≡ between (c * 2 ^ 22) n (c * 2 ^ 22 + (2 ^ 22 - 1))
leading_10 n c = ground arith

leading_12 : (n c : ℕ) → (n / 2 ^ 20 == c) ≡ between (c * 2 ^ 20) n (c * 2 ^ 20 + (2 ^ 20 - 1))
leading_12 n c = ground arith

leading_16 : (n c : ℕ) → (n / 2 ^ 16 == c) ≡ between (c * 2 ^ 16) n (c * 2 ^ 16 + (2 ^ 16 - 1))
leading_16 n c = ground arith

-- An IPv4 address is private exactly if, as a number in host order, it lies in one of the ranges
-- 169.254.0.0/16, 127.0.0.0/8, 10.0.0.0/8, 172.16.0.0/12, 192.168.0.0/16 and 100.64.0.0/10.
pub ip_is_private_v4 :
    (ip : IpAddress) → ip.family ≡ inet → ip_is_private ip ≡ in_private_ranges (host32 ip.raw 0)
unfolding ip_is_private is_private_network_v4 v4_address_as_host_order_integer
ip_is_private_v4 ip e =
    let n = host32 ip.raw 0 in
    rw e (
      ap₂ ◌||◌
        (ap₂ ◌||◌ (ap₂ ◌||◌ (leading_16 n (169 * 256 + 254)) (leading_8 n 127)) (
          ap₂ ◌||◌ (ap₂ ◌||◌ (leading_8 n 10) (leading_12 n (172 * 16 + 1)))
            (leading_16 n (192 * 256 + 168))))
        (leading_10 n (100 * 4 + 1)))
