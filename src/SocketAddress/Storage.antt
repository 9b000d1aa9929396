-- ===== src/SocketAddress/Storage.antt =====
-- The conversion of socket addresses to the system's structures and back (rtc_base/socket_address.cc).
use tqlib.Prelude.{
  ℕ, ◌/◌, ◌%◌, ◌^◌, ◌<◌, ◌≡◌, refl, sym, ap, ◌∙◌, subst, length-take, Bool, true, false, Option,
  none, some, List, [], ◌∷◌, ◌++◌, arith, take, drop, replicate, take-append-drop, if◌then◌else◌,
}
use tqlib.IpAddress.{
  Family, unspec, inet, inet6, IpAddress, from_ipv6, normalized, as_ipv6_address, host32, network32,
  v4_mapped_prefix, ip_eq,
}
use tqlib.IpAddress.Kind.{ip_is_any}
use tqlib.IpAddress.Order.{IsValid, take_four, get_or-lt}
use tqlib.IpAddress.Mapped.{take_all, bytes_eq_sound, normalized-as_ipv6_address}
use tqlib.IpAddress.Equal.{IsMade}
use tqlib.SocketAddress.{
  SocketAddress, network16, host16, to_sock_addr, from_sock_addr, to_sock_addr_storage,
  to_dual_stack_sock_addr_storage, socket_address_from_sock_addr_storage,
}

port_back : (n : ℕ) → n < 2 ^ 16 → host16 (network16 n) % 2 ^ 16 ≡ n
port_back n h = omega arith

-- The address without its name, and without the scope where the family has none.
abbrev pub scope_of : Family → ℕ → ℕ
scope_of inet6 n = n
scope_of _ n = 0

abbrev pub bare : SocketAddress → SocketAddress
bare a = record a { hostname = []; literal = false; scope_id = scope_of a.ip.family a.scope_id }

-- What a structure of a family can hold of an address.
abbrev pub carried : Family → SocketAddress → Option SocketAddress
carried unspec a = none
carried inet a = some (bare a)
carried inet6 a = some (bare a)

pub made_v4 : (raw : List ℕ) → drop 4 raw ≡ replicate 12 0 → take 4 raw ++ replicate 12 0 ≡ raw
made_v4 raw h = ap (λ r. take 4 raw ++ r) (sym h) ∙ take-append-drop 4 raw

through :
    (f : Family) (raw : List ℕ) (h : List ℕ) (p s : ℕ) (l : Bool)
    → IsMade (record { family = f; raw = raw })
    → p < 2 ^ 16
    → let a : SocketAddress = record {
      hostname = h;
      ip = record { family = f; raw = raw };
      port = p;
      scope_id = s;
      literal = l;
    } in
      socket_address_from_sock_addr_storage (to_sock_addr_storage a).1 ≡ carried f a
unfolding to_sock_addr_storage socket_address_from_sock_addr_storage
through unspec raw h p s l m q = refl
through inet raw h p s l m q =
    let r = made_v4 raw m.zeros in
    let e = port_back p q in
    λ j. some (record {
      hostname = [];
      ip = record { family = inet; raw = r j };
      port = e j;
      scope_id = 0;
      literal = false;
    })
through inet6 raw h p s l m q =
    let r = take_all 16 raw (omega (arith, m.valid.sized)) in
    let e = port_back p q in
    λ j. some (record {
      hostname = [];
      ip = record { family = inet6; raw = r j };
      port = e j;
      scope_id = s;
      literal = false;
    })

-- An address that ToSockAddrStorage writes is read back by SocketAddressFromSockAddrStorage without
-- its name: the same family and bytes, also for a mapped IPv6 address, the same port, and the scope of
-- an IPv6 address. The structure of an address of no family is refused.
pub from-to_sock_addr_storage :
    (a : SocketAddress)
    → IsMade a.ip
    → a.port < 2 ^ 16
    → socket_address_from_sock_addr_storage (to_sock_addr_storage a).1 ≡ carried a.ip.family a
from-to_sock_addr_storage a m q =
    through a.ip.family a.ip.raw a.hostname a.port a.scope_id a.literal m q

bytes_of_mapped :
    (a b c d : ℕ)
    → a < 256
    → b < 256
    → c < 256
    → d < 256
    → IsMade (from_ipv6 (take 12 v4_mapped_prefix ++ a ∷ b ∷ c ∷ d ∷ []))
bytes_of_mapped a b c d ha hb hc hd = record {
  valid = record {
    sized = refl;
    bytes =
        let z : 0 < 256 = omega arith in
        let o : 0xff < 256 = omega arith in
        (z, (z, (z, (z, (z, (z, (z, (z, (z, (z, (o, (o, (ha, (hb, (hc, (hd, tt))))))))))))))));
  };
  zeros = tt;
}

mapped-IsMade :
    (raw : List ℕ)
    → IsMade (record { family = inet; raw = raw })
    → IsMade (from_ipv6 (take 12 v4_mapped_prefix ++ take 4 raw))
mapped-IsMade raw m =
    let b = m.valid.bytes in
    rw (take_four raw (omega (arith, m.valid.sized))) (
      bytes_of_mapped _ _ _ _ (get_or-lt raw 0 b) (get_or-lt raw 1 b) (get_or-lt raw 2 b)
        (get_or-lt raw 3 b))

mapped_back :
    (raw : List ℕ)
    → IsMade (record { family = inet; raw = raw })
    → normalized (as_ipv6_address (record { family = inet; raw = raw }))
      ≡ record { family = inet; raw = raw }
mapped_back raw m =
    subst
      (λ r.
        normalized (as_ipv6_address (record { family = inet; raw = r }))
        ≡ record { family = inet; raw = r })
      (made_v4 raw m.zeros)
      (normalized-as_ipv6_address (take 4 raw) (length-take 4 raw ∙ omega (arith, m.valid.sized))).1

dual :
    (raw : List ℕ) (h : List ℕ) (p s : ℕ) (l : Bool)
    → IsMade (record { family = inet; raw = raw })
    → p < 2 ^ 16
    → let i : IpAddress = record { family = inet; raw = raw } in
      let a : SocketAddress = record {
        hostname = h;
        ip = i;
        port = p;
        scope_id = s;
        literal = l;
      } in
      (socket_address_from_sock_addr_storage (to_dual_stack_sock_addr_storage a).1
        ≡ some (bare (record a { ip = as_ipv6_address i })))
      × (normalized (as_ipv6_address i) ≡ i)
unfolding to_dual_stack_sock_addr_storage as_ipv6_address to_sock_addr_storage
dual raw h p s l m q = (
  through inet6 (take 12 v4_mapped_prefix ++ take 4 raw) h p s l (mapped-IsMade raw m) q,
  mapped_back raw m,
)

network32-host32 :
    (a b c d : ℕ)
    → a < 256
    → b < 256
    → c < 256
    → d < 256
    → network32 (host32 (a ∷ b ∷ c ∷ d ∷ []) 0) ≡ a ∷ b ∷ c ∷ d ∷ []
network32-host32 a b c d ha hb hc hd =
    let n = host32 (a ∷ b ∷ c ∷ d ∷ []) 0 in
    let p : n / 2 ^ 24 % 256 ≡ a = omega arith in
    let q : n / 2 ^ 16 % 256 ≡ b = omega arith in
    let r : n / 2 ^ 8 % 256 ≡ c = omega arith in
    let s : n % 256 ≡ d = omega arith in λ j. p j ∷ q j ∷ r j ∷ s j ∷ []

host_bytes :
    (raw : List ℕ)
    → IsValid (record { family = inet; raw = raw })
    → network32 (host32 (take 4 raw) 0) ≡ take 4 raw
host_bytes raw v =
    let b = v.bytes in
    rw (take_four raw (omega (arith, v.sized))) (
      network32-host32 _ _ _ _ (get_or-lt raw 0 b) (get_or-lt raw 1 b) (get_or-lt raw 2 b)
        (get_or-lt raw 3 b))

any_bytes :
    (raw : List ℕ)
    → ip_is_any (record { family = inet; raw = raw }) ≡ true
    → take 4 raw ≡ replicate 4 0
unfolding ip_is_any ip_eq
any_bytes raw h = bytes_eq_sound (take 4 raw) (replicate 4 0) h

pick_any : (b : Bool) (xs ys : List ℕ) → (b ≡ true → ys ≡ xs) → (if b then xs else ys) ≡ ys
pick_any true xs ys h = sym (h refl)
pick_any false xs ys h = refl

dual_at :
    (f : Family) (raw : List ℕ) (h : List ℕ) (p s : ℕ) (l : Bool)
    → IsMade (record { family = f; raw = raw })
    → p < 2 ^ 16
    → f ≡ inet
    → let i : IpAddress = record { family = f; raw = raw } in
      let a : SocketAddress = record {
        hostname = h;
        ip = i;
        port = p;
        scope_id = s;
        literal = l;
      } in
      (socket_address_from_sock_addr_storage (to_dual_stack_sock_addr_storage a).1
        ≡ some (bare (record a { ip = as_ipv6_address i })))
      × ((as_ipv6_address i).family ≡ inet6)
      × (normalized (as_ipv6_address i) ≡ i)
unfolding as_ipv6_address
dual_at inet raw h p s l m q e = let r = dual raw h p s l m q in (r.0, refl, r.1)
dual_at unspec raw h p s l m q e = cc
dual_at inet6 raw h p s l m q e = cc

-- ToDualStackSockAddrStorage of an IPv4 address writes an IPv6 structure, which is read back as the
-- address that AsIPv6Address maps it to, with the port and the scope; Normalized of that is the IPv4
-- address again.
pub from-to_dual_stack :
    (a : SocketAddress)
    → IsMade a.ip
    → a.port < 2 ^ 16
    → a.ip.family ≡ inet
    → (socket_address_from_sock_addr_storage (to_dual_stack_sock_addr_storage a).1
        ≡ some (bare (record a { ip = as_ipv6_address a.ip })))
      × ((as_ipv6_address a.ip).family ≡ inet6)
      × (normalized (as_ipv6_address a.ip) ≡ a.ip)
from-to_dual_stack a m q e =
    dual_at a.ip.family a.ip.raw a.hostname a.port a.scope_id a.literal m q e

-- What FromSockAddr leaves, from a structure of a family that ToSockAddr wrote.
abbrev pub received : Family → SocketAddress → SocketAddress → Bool × SocketAddress
received inet a b = (true, bare a)
received _ a b = (false, b)

through_v4 :
    (f : Family) (raw : List ℕ) (h : List ℕ) (p s : ℕ) (l : Bool) (b : SocketAddress)
    → IsMade (record { family = f; raw = raw })
    → p < 2 ^ 16
    → let a : SocketAddress = record {
      hostname = h;
      ip = record { family = f; raw = raw };
      port = p;
      scope_id = s;
      literal = l;
    } in
      from_sock_addr (to_sock_addr a) b ≡ received f a b
unfolding to_sock_addr from_sock_addr
through_v4 unspec raw h p s l b m q = refl
through_v4 inet6 raw h p s l b m q = refl
through_v4 inet raw h p s l b m q =
    let bytes =
      pick_any (ip_is_any (record { family = inet; raw = raw })) (replicate 4 0) (take 4 raw)
        (any_bytes raw) in
    let r =
      ap (λ xs. network32 (host32 xs 0) ++ replicate 12 0) bytes
      ∙ ap (λ xs. xs ++ replicate 12 0) (host_bytes raw m.valid)
      ∙ made_v4 raw m.zeros in
    let e = port_back p q in
    λ j. (
      true,
      record {
        hostname = [];
        ip = record { family = inet; raw = r j };
        port = e j;
        scope_id = 0;
        literal = false;
      },
    )

-- FromSockAddr reads an IPv4 address back as ToSockAddr wrote it, the address 0.0.0.0 included; of
-- the other families ToSockAddr writes a structure that FromSockAddr refuses, and it changes nothing.
pub from-to_sock_addr :
    (a b : SocketAddress)
    → IsMade a.ip
    → a.port < 2 ^ 16
    → from_sock_addr (to_sock_addr a) b ≡ received a.ip.family a b
from-to_sock_addr a b m q =
    through_v4 a.ip.family a.ip.raw a.hostname a.port a.scope_id a.literal b m q
