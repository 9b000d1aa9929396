-- ===== src/SocketAddress/Text.antt =====
-- The text of socket addresses (rtc_base/socket_address.cc), and SimpleStringBuilder of
-- rtc_base/strings/string_builder.cc that writes it. A string is the list of its characters, none of
-- which is zero; npos is `none`.
pub mod Parse
pub mod RoundTrip
use tqlib.Prelude.{
  ℕ, ◌+◌, ◌-◌, Bool, true, false, not, ◌&&◌, Option, none, some, List, [], ◌∷◌, ◌++◌, ltb, ◌==◌,
  if◌then◌else◌, take, drop, length,
}
use tqlib.IpAddress.{inet6, IpAddress, nil_address}
use tqlib.IpAddress.Text.{
  SystemCalls, colon, rfind_char, ip_to_string, ip_to_sensitive_string, ip_from_string,
}
use tqlib.Tokenize.{substr, find_char}
use tqlib.SocketAddress.{SocketAddress, set_port, is_empty, is_unresolved_ip}

-- The characters '[' and ']'.
abbrev pub open_bracket : ℕ
open_bracket = 91

abbrev pub close_bracket : ℕ
close_bracket = 93

-- `operator<<` of SimpleStringBuilder, for a buffer of a size; `AppendFormat` cuts off in the same way.
unfoldable pub append_to : ℕ → List ℕ → List ℕ → List ℕ
append_to size buffer str = buffer ++ take (size - length buffer - 1) str

-- `string_view::find` of a character from a position on
unfoldable pub find_from : ℕ → ℕ → List ℕ → Option ℕ
find_from c from str = elim (find_char c (drop from str)) [ none ↦ none | some i ↦ some (from + i) ]

module _ (calls : SystemCalls) where
  -- `SetIP` of a string
  unfoldable pub set_ip_string : List ℕ → SocketAddress → SocketAddress
  set_ip_string h a = elim (ip_from_string calls h) [
    | some i ↦ record a { hostname = h; literal = true; ip = i; scope_id = 0 }
    | none ↦ record a { hostname = h; literal = false; ip = nil_address; scope_id = 0 }
  ]

  -- `HostAsURIString` and `HostAsSensitiveURIString`
  in_brackets : IpAddress → List ℕ → List ℕ
  in_brackets i text = elim i.family [
    | inet6 ↦ open_bracket ∷ text ++ close_bracket ∷ []
    | _ ↦ text
  ]

  unfoldable pub host_as_uri_string : SocketAddress → List ℕ
  unfolding in_brackets
  host_as_uri_string a =
      if not a.literal && not (is_empty a.hostname)
      then a.hostname
      else in_brackets a.ip (ip_to_string calls a.ip)

  unfoldable pub host_as_sensitive_uri_string : SocketAddress → List ℕ
  unfolding in_brackets
  host_as_sensitive_uri_string a =
      if not a.literal && not (is_empty a.hostname)
      then a.hostname
      else in_brackets a.ip (ip_to_sensitive_string calls a.ip)

  -- A host and a port, as the builder writes them into a buffer of 1024 characters.
  write_host_and_port : List ℕ → ℕ → List ℕ
  write_host_and_port host port =
      append_to 1024 (append_to 1024 (append_to 1024 [] host) (colon ∷ []))
        (calls.print_decimal port)

  -- `ToString`, `ToSensitiveString` and `ToResolvedSensitiveString`
  unfoldable pub to_string : SocketAddress → List ℕ
  unfolding write_host_and_port
  to_string a = write_host_and_port (host_as_uri_string a) a.port

  unfoldable pub to_sensitive_string : SocketAddress → List ℕ
  unfolding write_host_and_port
  to_sensitive_string a = write_host_and_port (host_as_sensitive_uri_string a) a.port

  unfoldable pub to_resolved_sensitive_string : SocketAddress → List ℕ
  unfolding write_host_and_port
  to_resolved_sensitive_string a =
      if is_unresolved_ip a
      then []
      else write_host_and_port (ip_to_sensitive_string calls a.ip) a.port

  -- What `FromString` sets from a host and the text of a port.
  unfoldable pub set_host_and_port : List ℕ → List ℕ → SocketAddress → SocketAddress
  set_host_and_port host port a = set_ip_string host (set_port (calls.strtoul port) a)

  unfoldable pub from_bracketed : List ℕ → SocketAddress → Bool × SocketAddress
  unfolding set_host_and_port
  from_bracketed str a = elim (rfind_char close_bracket str) [
    | none ↦ (true, a)
    | some closebracket ↦ elim (find_from colon closebracket str) [
      | none ↦ (false, a)
      | some at ↦
          if ltb closebracket at
          then (true, set_host_and_port (substr str 1 (closebracket - 1)) (drop (at + 1) str) a)
          else (false, a)
    ]
  ]

  unfoldable pub from_plain : List ℕ → SocketAddress → Bool × SocketAddress
  unfolding set_host_and_port
  from_plain str a = elim (find_char colon str) [
    | none ↦ (false, a)
    | some pos ↦ (true, set_host_and_port (substr str 0 pos) (drop (pos + 1) str) a)
  ]

  -- `FromString`: what it returns and the address it leaves, or `none` where `at` of an empty string
  -- throws
  unfoldable pub from_string : List ℕ → SocketAddress → Option (Bool × SocketAddress)
  unfolding from_bracketed from_plain
  from_string [] a = none
  from_string (c ∷ cs) a =
      if c == open_bracket then some (from_bracketed (c ∷ cs) a) else some (from_plain (c ∷ cs) a)
