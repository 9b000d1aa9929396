-- ===== src/SocketAddress.antt =====
-- rtc_base/socket_address.cc and socket_address.h: an address with its port, its order, and the
-- conversion to and from the system's structures. A string is the list of its characters. The text of
-- an address is in the child Text. A field in network order is the list of its bytes.
pub mod Order
pub mod Storage
pub mod Text
mod Examples
use tqlib.Prelude.{
  ℕ, zero, suc, ◌+◌, ◌*◌, ◌/◌, ◌%◌, ◌^◌, Bool, true, false, not, ◌&&◌, ◌||◌, Option, none, some,
  List, [], ◌∷◌, ◌++◌, ltb, ◌==◌, if◌then◌else◌, get_or, take, replicate,
}
use tqlib.IpAddress.{
  Family, unspec, inet, inet6, IpAddress, nil_address, from_ipv4, from_ipv6, from_host_order,
  host32, in6addr_any, bytes_eq, ip_eq, ip_lt, as_ipv6_address, v4_address_as_host_order_integer,
}
use tqlib.IpAddress.Kind.{ip_is_any, ip_is_unspec, ip_is_loopback, ip_is_private}

-- The fields of the class; the port is below 65536, and the scope is the low 32 bits of its `int`.
pub record SocketAddress : Type 0 where
  pub hostname : List ℕ
  pub ip : IpAddress
  pub port : ℕ
  pub scope_id : ℕ
  pub literal : Bool

-- `Clear`, which the constructor with no argument calls
abbrev pub clear : SocketAddress
clear = record { hostname = []; ip = nil_address; port = 0; scope_id = 0; literal = false }

-- `SetIP` of an address and of a number, `SetResolvedIP`, `SetPort` without the check of debug builds,
-- and `SetScopeID`
unfoldable pub set_ip : IpAddress → SocketAddress → SocketAddress
set_ip i a = record a { hostname = []; literal = false; ip = i; scope_id = 0 }

unfoldable pub set_ip_number : ℕ → SocketAddress → SocketAddress
set_ip_number n a = record a {
  hostname = [];
  literal = false;
  ip = from_host_order n;
  scope_id = 0;
}

unfoldable pub set_resolved_ip : IpAddress → SocketAddress → SocketAddress
set_resolved_ip i a = record a { ip = i; scope_id = 0 }

unfoldable pub set_port : ℕ → SocketAddress → SocketAddress
set_port p a = record a { port = p % 2 ^ 16 }

unfoldable pub set_scope_id : ℕ → SocketAddress → SocketAddress
set_scope_id id a = record a { scope_id = id }

-- The constructors with an address and with a number; the setters write every field.
unfoldable pub of_ip : IpAddress → ℕ → SocketAddress
unfolding set_ip set_port
of_ip i p = set_port p (set_ip i clear)

unfoldable pub of_number : ℕ → ℕ → SocketAddress
unfolding set_ip_number set_port
of_number n p = set_port p (set_ip_number n clear)

-- The comparisons of `std::string`.
unfoldable pub string_lt : List ℕ → List ℕ → Bool
string_lt [] [] = false
string_lt [] (y ∷ ys) = true
string_lt (x ∷ xs) [] = false
string_lt (x ∷ xs) (y ∷ ys) = ltb x y || (x == y && string_lt xs ys)

abbrev pub is_empty : List ℕ → Bool
is_empty [] = true
is_empty (c ∷ cs) = false

-- `IsNil`, `IsComplete`, `IsAnyIP`, `IsPrivateIP` and `IsUnresolvedIP`
unfoldable pub is_nil : SocketAddress → Bool
unfolding ip_is_unspec
is_nil a = is_empty a.hostname && ip_is_unspec a.ip && 0 == a.port

unfoldable pub is_complete : SocketAddress → Bool
unfolding ip_is_any
is_complete a = not (ip_is_any a.ip) && not (0 == a.port)

unfoldable pub is_any_ip : SocketAddress → Bool
unfolding ip_is_any
is_any_ip a = ip_is_any a.ip

unfoldable pub is_private_ip : SocketAddress → Bool
unfolding ip_is_private
is_private_ip a = ip_is_private a.ip

unfoldable pub is_unresolved_ip : SocketAddress → Bool
unfolding ip_is_unspec
is_unresolved_ip a = ip_is_unspec a.ip && not a.literal && not (is_empty a.hostname)

-- The characters of "localhost"
abbrev pub localhost : List ℕ
localhost = 108 ∷ 111 ∷ 99 ∷ 97 ∷ 108 ∷ 104 ∷ 111 ∷ 115 ∷ 116 ∷ []

-- `IsLoopbackIP`; the hostname has no zero character, at which `strcmp` would stop.
unfoldable pub is_loopback_ip : SocketAddress → Bool
unfolding ip_is_loopback ip_is_any bytes_eq
is_loopback_ip a = ip_is_loopback a.ip || (ip_is_any a.ip && bytes_eq a.hostname localhost)

-- `EqualIPs`, `EqualPorts`, `operator==` and `operator<`
unfoldable pub equal_ips : SocketAddress → SocketAddress → Bool
equal_ips a b =
    ip_eq a.ip b.ip
    && ((not (ip_is_any a.ip) && not (ip_is_unspec a.ip)) || bytes_eq a.hostname b.hostname)

unfoldable pub equal_ports : SocketAddress → SocketAddress → Bool
equal_ports a b = a.port == b.port

unfoldable pub socket_eq : SocketAddress → SocketAddress → Bool
unfolding equal_ips equal_ports
socket_eq a b = equal_ips a b && equal_ports a b

unfoldable pub socket_lt : SocketAddress → SocketAddress → Bool
socket_lt a b =
    if not (ip_eq a.ip b.ip)
    then ip_lt a.ip b.ip
    else if (ip_is_any a.ip || ip_is_unspec a.ip) && not (bytes_eq a.hostname b.hostname)
    then string_lt a.hostname b.hostname
    else ltb a.port b.port

-- `HostToNetwork16` and `NetworkToHost16`, on the bytes in memory
abbrev pub network16 : ℕ → List ℕ
network16 n = n / 256 % 256 ∷ n % 256 ∷ []

abbrev pub host16 : List ℕ → ℕ
host16 bs = get_or bs 0 0 * 256 + get_or bs 1 0

-- `sockaddr_in`, and `sockaddr_storage`, whose bytes beyond the structure of its family are zero.
pub record SockaddrIn : Type 0 where
  pub sin_family : Family
  pub sin_port : List ℕ
  pub sin_addr : List ℕ

pub record SockaddrStorage : Type 0 where
  pub ss_family : Family
  pub port_bytes : List ℕ
  pub address_bytes : List ℕ
  pub sin6_scope_id : ℕ

-- `ToSockAddr`
unfoldable pub to_sock_addr : SocketAddress → SockaddrIn
unfolding ip_is_any
to_sock_addr a = elim a.ip.family [
  | inet ↦ record {
    sin_family = inet;
    sin_port = network16 a.port;
    sin_addr = if ip_is_any a.ip then replicate 4 0 else take 4 a.ip.raw;
  }
  | _ ↦ record { sin_family = unspec; sin_port = replicate 2 0; sin_addr = replicate 4 0 }
]

-- `FromSockAddr`: the result, and the address it leaves
unfoldable pub from_sock_addr : SockaddrIn → SocketAddress → Bool × SocketAddress
unfolding set_ip_number set_port
from_sock_addr s a = elim s.sin_family [
  | inet ↦ (
    true,
    record (set_port (host16 s.sin_port) (set_ip_number (host32 s.sin_addr 0) a)) {
      literal = false;
    },
  )
  | _ ↦ (false, a)
]

-- `ToSockAddrStorageHelper`: the size it returns, and the storage
unfoldable pub to_sock_addr_storage_helper : IpAddress → ℕ → ℕ → ℕ × SockaddrStorage
to_sock_addr_storage_helper i p scope = elim i.family [
  | inet6 ↦ (
    28,
    record {
      ss_family = inet6;
      port_bytes = network16 p;
      address_bytes = take 16 i.raw;
      sin6_scope_id = scope;
    },
  )
  | inet ↦ (
    16,
    record {
      ss_family = inet;
      port_bytes = network16 p;
      address_bytes = take 4 i.raw;
      sin6_scope_id = 0;
    },
  )
  | unspec ↦ (
    0,
    record {
      ss_family = unspec;
      port_bytes = replicate 2 0;
      address_bytes = [];
      sin6_scope_id = 0;
    },
  )
]

-- `ToDualStackSockAddrStorage` and `ToSockAddrStorage`
unfoldable pub to_dual_stack_sock_addr_storage : SocketAddress → ℕ × SockaddrStorage
unfolding as_ipv6_address to_sock_addr_storage_helper
to_dual_stack_sock_addr_storage a =
    to_sock_addr_storage_helper (as_ipv6_address a.ip) a.port a.scope_id

unfoldable pub to_sock_addr_storage : SocketAddress → ℕ × SockaddrStorage
unfolding to_sock_addr_storage_helper
to_sock_addr_storage a = to_sock_addr_storage_helper a.ip a.port a.scope_id

-- `SocketAddressFromSockAddrStorage`: what it writes to an `out` that is not null, where it returns true
unfoldable pub socket_address_from_sock_addr_storage : SockaddrStorage → Option SocketAddress
unfolding of_ip set_scope_id
socket_address_from_sock_addr_storage s = elim s.ss_family [
  | inet ↦ some (of_ip (from_ipv4 s.address_bytes) (host16 s.port_bytes))
  | inet6 ↦
      some (set_scope_id s.sin6_scope_id (of_ip (from_ipv6 s.address_bytes) (host16 s.port_bytes)))
  | unspec ↦ none
]

-- `EmptySocketAddressWithFamily`
unfoldable pub empty_socket_address_with_family : Family → SocketAddress
unfolding of_ip
empty_socket_address_with_family inet = of_ip (from_host_order 0) 0
empty_socket_address_with_family inet6 = of_ip (from_ipv6 in6addr_any) 0
empty_socket_address_with_family unspec = clear
