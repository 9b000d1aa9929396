-- ===== src/SocketAddress/Examples.antt =====
-- Runs of SocketAddress at concrete addresses (rtc_base/socket_address.cc), and of the text of IP
-- addresses (ip_address.cc). The system's functions print and read digits.
use tqlib.Prelude.{
  ℕ, ◌+◌, ◌-◌, ◌<◌, ◌≡◌, refl, true, false, not, ◌&&◌, Option, none, some, List, [], ◌∷◌, ◌++◌,
  ◌==◌, if◌then◌else◌, arith, replicate,
}
use tqlib.IpAddress.{
  Family, inet, inet6, IpAddress, nil_address, from_ipv4, from_ipv6, normalized, as_ipv6_address,
  ip_eq, ip_lt, bytes_eq,
}
use tqlib.IpAddress.Kind.{ip_is_any, ip_is_unspec}
use tqlib.IpAddress.Equal.{IsMade}
use tqlib.IpAddress.Text.{SystemCalls, colon, dot, ip_to_sensitive_string}
use tqlib.IpAddress.Text.Sensitive.{sensitive_hides}
use tqlib.SocketAddress.{
  SocketAddress, clear, socket_eq, socket_lt, to_sock_addr, from_sock_addr, to_sock_addr_storage,
  to_dual_stack_sock_addr_storage, socket_address_from_sock_addr_storage,
}
use tqlib.SocketAddress.Order.{socket_order}
use tqlib.SocketAddress.Storage.{
  bare, carried, from-to_sock_addr_storage, from-to_dual_stack, from-to_sock_addr,
}
use tqlib.SocketAddress.Text.{open_bracket, to_string, from_string}
use tqlib.SocketAddress.Text.Parse.{from_string_no_colon}
use tqlib.SocketAddress.Text.RoundTrip.{
  PortReads, from_string-to_string, from_string-to_string_name,
}

abbrev print_digits : Family → List ℕ → Option (List ℕ)
print_digits inet (a ∷ b ∷ c ∷ d ∷ []) =
    some ((48 + a) ∷ dot ∷ (48 + b) ∷ dot ∷ (48 + c) ∷ dot ∷ (48 + d) ∷ [])
print_digits inet6 bytes = some (colon ∷ colon ∷ 49 ∷ [])
print_digits _ _ = none

abbrev read_digits : Family → List ℕ → Option (List ℕ)
read_digits inet (a ∷ p ∷ b ∷ q ∷ c ∷ r ∷ d ∷ []) =
    if p == dot && q == dot && r == dot
    then some ((a - 48) ∷ (b - 48) ∷ (c - 48) ∷ (d - 48) ∷ [])
    else none
read_digits inet6 (p ∷ q ∷ d ∷ []) =
    if p == colon && q == colon then some (replicate 15 0 ++ (d - 48) ∷ []) else none
read_digits _ _ = none

abbrev first_digit : List ℕ → ℕ
first_digit [] = 0
first_digit (c ∷ cs) = c - 48

abbrev digits : SystemCalls
digits = record {
  inet_pton = read_digits;
  inet_ntop = print_digits;
  print_decimal = λ n. (48 + n) ∷ [];
  print_hex = λ n. (48 + n) ∷ [];
  strtoul = first_digit;
}

abbrev v4 : IpAddress
v4 = from_ipv4 (1 ∷ 2 ∷ 3 ∷ 4 ∷ [])

abbrev v4-IsMade : IsMade v4
v4-IsMade = record {
  valid = record {
    sized = refl;
    bytes =
        let z : 0 < 256 = omega arith in
        (
          omega arith,
          (
            omega arith,
            (
              omega arith,
              (omega arith, (z, (z, (z, (z, (z, (z, (z, (z, (z, (z, (z, (z, tt))))))))))))),
            ),
          ),
        );
  };
  zeros = refl;
}

abbrev v6 : IpAddress
v6 = from_ipv6 (replicate 15 0 ++ 1 ∷ [])

abbrev v6-IsMade : IsMade v6
v6-IsMade = record {
  valid = record {
    sized = refl;
    bytes =
        let z : 0 < 256 = omega arith in
        (
          z,
          (z, (z, (z, (z, (z, (z, (z, (z, (z, (z, (z, (z, (z, (z, (omega arith, tt))))))))))))))),
        );
  };
  zeros = tt;
}

-- 1.2.3.4:7 with a name, and [::1]:8 with a scope.
abbrev web : SocketAddress
web = record { hostname = 97 ∷ []; ip = v4; port = 7; scope_id = 0; literal = true }

abbrev local : SocketAddress
local = record { hostname = []; ip = v6; port = 8; scope_id = 3; literal = false }

abbrev later : SocketAddress
later = record { hostname = []; ip = v6; port = 9; scope_id = 0; literal = false }

socket_order_example :
    (socket_lt local web ≡ (not (socket_eq web local) && not (socket_lt web local)))
    × (socket_lt web local ≡ true → socket_eq web local ≡ false)
    × (socket_lt web web ≡ false)
    × (socket_lt web local ≡ true → socket_lt local later ≡ true → socket_lt web later ≡ true)
socket_order_example = socket_order web local later v4-IsMade v6-IsMade v6-IsMade

ordered : (socket_lt web local ≡ true) × (socket_lt local later ≡ true)
unfolding socket_lt ip_eq ip_lt ip_is_any ip_is_unspec bytes_eq
ordered = (refl, refl)

from-to_sock_addr_storage_example :
    socket_address_from_sock_addr_storage (to_sock_addr_storage local).1 ≡ carried inet6 local
from-to_sock_addr_storage_example = from-to_sock_addr_storage local v6-IsMade (omega arith)

from-to_dual_stack_example :
    (socket_address_from_sock_addr_storage (to_dual_stack_sock_addr_storage web).1
      ≡ some (bare (record web { ip = as_ipv6_address v4 })))
    × ((as_ipv6_address v4).family ≡ inet6)
    × (normalized (as_ipv6_address v4) ≡ v4)
from-to_dual_stack_example = from-to_dual_stack web v4-IsMade (omega arith) refl

from-to_sock_addr_example : from_sock_addr (to_sock_addr web) clear ≡ (true, bare web)
from-to_sock_addr_example = from-to_sock_addr web clear v4-IsMade (omega arith)

-- "[12", which FromString accepts though it changes nothing.
from_string_no_colon_example :
    from_string digits (open_bracket ∷ 49 ∷ 50 ∷ []) web ≡ some (true, web)
from_string_no_colon_example =
    from_string_no_colon digits open_bracket (49 ∷ 50 ∷ []) web (refl, (refl, (refl, tt)))

abbrev port_reads : PortReads digits 8
port_reads = record { reads = refl; digits = (refl, tt); short = omega arith }

from_string-to_string_example :
    from_string digits (to_string digits local) web
    ≡ some (true, record local { hostname = colon ∷ colon ∷ 49 ∷ []; scope_id = 0; literal = true })
from_string-to_string_example =
    from_string-to_string digits local web colon (colon ∷ 49 ∷ []) v6-IsMade (λ e. cc) refl
      (omega arith) port_reads
      (record {
        prints = refl;
        reads = refl;
        one_family = λ e. refl;
        no_colon = λ e. cc;
        no_bracket = refl;
        short = omega arith;
      })

-- "a:8"
from_string-to_string_name_example :
    from_string digits
      (to_string digits
        (record { hostname = 97 ∷ []; ip = v4; port = 8; scope_id = 1; literal = false }))
      web
    ≡ some (
      true,
      record { hostname = 97 ∷ []; ip = nil_address; port = 8; scope_id = 0; literal = false },
    )
from_string-to_string_name_example =
    from_string-to_string_name digits 97 [] v4 8 1 web refl refl (refl, tt) refl (omega arith)
      (omega arith) port_reads

sensitive_hides_example :
    ip_to_sensitive_string digits v4
    ≡ ip_to_sensitive_string digits (from_ipv4 (1 ∷ 2 ∷ 3 ∷ 9 ∷ []))
sensitive_hides_example =
    sensitive_hides digits inet v4.raw (1 ∷ 2 ∷ 3 ∷ 9 ∷ replicate 12 0) (record {
      front = 49 ∷ dot ∷ 50 ∷ dot ∷ 51 ∷ [];
      last = 52 ∷ [];
      last' = 57 ∷ [];
      prints = refl;
      prints' = refl;
      no_dot = (refl, tt);
      no_dot' = (refl, tt);
    })
