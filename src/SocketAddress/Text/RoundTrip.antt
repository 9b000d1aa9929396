-- ===== src/SocketAddress/Text/RoundTrip.antt =====
-- ToString of a socket address, read back by FromString (rtc_base/socket_address.cc).
use tqlib.Prelude.{
  ℕ, ◌+◌, ◌-◌, ◌%◌, ◌^◌, ◌≤◌, ◌<◌, ◌≡◌, ◌≢◌, refl, ap, ◌∙◌, Bool, true, false, not, ◌&&◌, none,
  some, List, [], ◌∷◌, ◌++◌, append_assoc, arith, ◌==◌, take, length, length-append,
}
use tqlib.IpAddress.{Family, unspec, inet, inet6, IpAddress, nil_address}
use tqlib.IpAddress.Text.{SystemCalls, colon, ip_to_string, ip_from_string}
use tqlib.IpAddress.Mapped.{take_all}
use tqlib.IpAddress.Equal.{IsMade}
use tqlib.Tokenize.Correct.{NoDelimiter}
use tqlib.SocketAddress.Storage.{made_v4}
use tqlib.SocketAddress.{SocketAddress, set_port, is_empty}
use tqlib.SocketAddress.Text.{
  open_bracket, close_bracket, append_to, set_ip_string, host_as_uri_string, to_string,
  write_host_and_port, set_host_and_port, from_string,
}
use tqlib.SocketAddress.Text.Parse.{plain_text, bracketed_text}

append_to-fits :
    (size : ℕ) (xs ys : List ℕ) → length xs + length ys < size → append_to size xs ys ≡ xs ++ ys
unfolding append_to
append_to-fits size xs ys h = ap (λ r. xs ++ r) (take_all (size - length xs - 1) ys (omega arith))

-- `snprintf` of the port with "%d" gives digits that `strtoul` reads, five at most and no brackets.
pub record PortReads (calls : SystemCalls) (port : ℕ) : Type 0 where
  pub reads : calls.strtoul (calls.print_decimal port) ≡ port
  pub digits : NoDelimiter close_bracket (calls.print_decimal port)
  pub short : length (calls.print_decimal port) ≤ 5

-- `inet_ntop` gives a text for an address, which `inet_pton` reads. That of an IPv4 address has no colon
-- and does not start with a bracket; that of an IPv6 address is none of IPv4.
pub record AddressReads (calls : SystemCalls) (f : Family) (bytes : List ℕ) (c : ℕ) (cs : List ℕ)
    : Type 0 where
  pub prints : calls.inet_ntop f bytes ≡ some (c ∷ cs)
  pub reads : calls.inet_pton f (c ∷ cs) ≡ some bytes
  pub one_family : f ≡ inet6 → calls.inet_pton inet (c ∷ cs) ≡ none
  pub no_colon : f ≡ inet → NoDelimiter colon (c ∷ cs)
  pub no_bracket : (c == open_bracket) ≡ false
  pub short : length (c ∷ cs) < 46

module _ (calls : SystemCalls) where
  written :
      (host : List ℕ) (port : ℕ)
      → PortReads calls port
      → length host < 1000
      → write_host_and_port calls host port ≡ host ++ colon ∷ calls.print_decimal port
  unfolding write_host_and_port
  written host port r h =
      let digits = calls.print_decimal port in
      ap (λ s. append_to 1024 (append_to 1024 s (colon ∷ [])) digits)
        (append_to-fits 1024 [] host (omega arith))
      ∙ ap (λ s. append_to 1024 s digits) (append_to-fits 1024 host (colon ∷ []) (omega arith))
      ∙ append_to-fits 1024 (host ++ colon ∷ []) digits
          (omega (arith, length-append host (colon ∷ []), r.short))
      ∙ append_assoc host (colon ∷ []) digits

  port_set :
      (port : ℕ) (a : SocketAddress)
      → PortReads calls port
      → port < 2 ^ 16
      → set_port (calls.strtoul (calls.print_decimal port)) a ≡ record a { port = port }
  unfolding set_port
  port_set port a r h =
      let e : calls.strtoul (calls.print_decimal port) % 2 ^ 16 ≡ port =
        ap (λ n. n % 2 ^ 16) r.reads ∙ omega arith in
      λ j. record a { port = e j }

  -- A host of its own name.
  named :
      (c : ℕ) (cs : List ℕ) (port : ℕ) (a : SocketAddress)
      → PortReads calls port
      → port < 2 ^ 16
      → NoDelimiter colon (c ∷ cs)
      → (c == open_bracket) ≡ false
      → length (c ∷ cs) < 1000
      → from_string calls (write_host_and_port calls (c ∷ cs) port) a
        ≡ some (true, set_ip_string calls (c ∷ cs) (record a { port = port }))
  unfolding from_string set_host_and_port
  named c cs port a r q n o l =
      let digits = calls.print_decimal port in
      rw (written (c ∷ cs) port r l, o, plain_text calls (c ∷ cs) digits a n)
        (ap (λ b. some (true, set_ip_string calls (c ∷ cs) b)) (port_set port a r q))

  bracketed :
      (text : List ℕ) (port : ℕ) (a : SocketAddress)
      → PortReads calls port
      → port < 2 ^ 16
      → length text < 46
      → from_string calls
          (write_host_and_port calls (open_bracket ∷ text ++ close_bracket ∷ []) port)
          a
        ≡ some (true, set_ip_string calls text (record a { port = port }))
  unfolding from_string set_host_and_port
  bracketed text port a r q l =
      let digits = calls.print_decimal port in
      let host = open_bracket ∷ text ++ close_bracket ∷ [] in
      let w =
        written host port r (omega (arith, length-append text (close_bracket ∷ [])))
        ∙ ap (λ s. open_bracket ∷ s) (append_assoc text (close_bracket ∷ []) (colon ∷ digits)) in
      rw (w, bracketed_text calls text digits a r.digits)
        (ap (λ b. some (true, set_ip_string calls text b)) (port_set port a r q))

-- The bytes of an address in the order of the network.
abbrev pub address_bytes : Family → List ℕ → List ℕ
address_bytes inet6 raw = take 16 raw
address_bytes _ raw = take 4 raw

module _ (calls : SystemCalls) where
  set_v4 :
      (raw : List ℕ) (c : ℕ) (cs : List ℕ) (a : SocketAddress)
      → IsMade (record { family = inet; raw = raw })
      → AddressReads calls inet (take 4 raw) c cs
      → set_ip_string calls (c ∷ cs) a ≡ record a {
        hostname = c ∷ cs;
        literal = true;
        ip = record { family = inet; raw = raw };
        scope_id = 0;
      }
  unfolding set_ip_string ip_from_string
  set_v4 raw c cs a m r =
      let e = made_v4 raw m.zeros in
      rw (r.reads, set_ip_string, ip_from_string)
        (λ j. record a {
          hostname = c ∷ cs;
          literal = true;
          ip = record { family = inet; raw = e j };
          scope_id = 0;
        })

  set_v6 :
      (raw : List ℕ) (c : ℕ) (cs : List ℕ) (a : SocketAddress)
      → IsMade (record { family = inet6; raw = raw })
      → AddressReads calls inet6 (take 16 raw) c cs
      → set_ip_string calls (c ∷ cs) a ≡ record a {
        hostname = c ∷ cs;
        literal = true;
        ip = record { family = inet6; raw = raw };
        scope_id = 0;
      }
  unfolding set_ip_string ip_from_string
  set_v6 raw c cs a m r =
      let e = take_all 16 raw (omega (arith, m.valid.sized)) in
      rw (r.one_family refl, r.reads, set_ip_string, ip_from_string)
        (λ j. record a {
          hostname = c ∷ cs;
          literal = true;
          ip = record { family = inet6; raw = e j };
          scope_id = 0;
        })

  through_text :
      (f : Family) (raw : List ℕ) (h : List ℕ) (p s : ℕ) (l : Bool) (b : SocketAddress) (c : ℕ)
      (cs : List ℕ)
      → IsMade (record { family = f; raw = raw })
      → f ≢ unspec
      → (not l && not (is_empty h)) ≡ false
      → p < 2 ^ 16
      → PortReads calls p
      → AddressReads calls f (address_bytes f raw) c cs
      → let i : IpAddress = record { family = f; raw = raw } in
        let a : SocketAddress = record {
          hostname = h;
          ip = i;
          port = p;
          scope_id = s;
          literal = l;
        } in
        from_string calls (to_string calls a) b
        ≡ some (true, record { hostname = c ∷ cs; ip = i; port = p; scope_id = 0; literal = true })
  unfolding to_string host_as_uri_string ip_to_string
  through_text unspec raw h p s l b c cs m k shown q r t = absurd (k refl)
  through_text inet raw h p s l b c cs m k shown q r t =
      rw (shown, t.prints, host_as_uri_string, ip_to_string, to_string)
        (named calls c cs p b r q (t.no_colon refl) t.no_bracket (omega (arith, t.short))
          ∙ ap (λ a. some (true, a)) (set_v4 raw c cs (record b { port = p }) m t))
  through_text inet6 raw h p s l b c cs m k shown q r t =
      rw (shown, t.prints, host_as_uri_string, ip_to_string, to_string)
        (bracketed calls (c ∷ cs) p b r q t.short
          ∙ ap (λ a. some (true, a)) (set_v6 raw c cs (record b { port = p }) m t))

  -- FromString reads what ToString prints of an IP address, if it has no hostname or a literal one: the
  -- address and the port come back, and the text of the address is the hostname, a literal. The system's
  -- functions are taken to read what they print for this address and this port.
  pub from_string-to_string :
      (a b : SocketAddress) (c : ℕ) (cs : List ℕ)
      → IsMade a.ip
      → a.ip.family ≢ unspec
      → (not a.literal && not (is_empty a.hostname)) ≡ false
      → a.port < 2 ^ 16
      → PortReads calls a.port
      → AddressReads calls a.ip.family (address_bytes a.ip.family a.ip.raw) c cs
      → from_string calls (to_string calls a) b
        ≡ some (true, record a { hostname = c ∷ cs; scope_id = 0; literal = true })
  from_string-to_string a b c cs m k shown q r t =
      through_text a.ip.family a.ip.raw a.hostname a.port a.scope_id a.literal b c cs m k shown q r
        t

  set_name :
      (h : List ℕ) (a : SocketAddress)
      → calls.inet_pton inet h ≡ none
      → calls.inet_pton inet6 h ≡ none
      → set_ip_string calls h a
        ≡ record a { hostname = h; literal = false; ip = nil_address; scope_id = 0 }
  unfolding set_ip_string ip_from_string
  set_name h a u v = rw (u, v, set_ip_string, ip_from_string) refl

  -- FromString reads a name and its port back from what ToString prints of an address with that hostname,
  -- which `inet_pton` does not take for an address, which has no colon, does not start with a bracket and
  -- is shorter than 1000 characters; the IP address comes back as none.
  pub from_string-to_string_name :
      (c : ℕ) (cs : List ℕ) (i : IpAddress) (p s : ℕ) (b : SocketAddress)
      → calls.inet_pton inet (c ∷ cs) ≡ none
      → calls.inet_pton inet6 (c ∷ cs) ≡ none
      → NoDelimiter colon (c ∷ cs)
      → (c == open_bracket) ≡ false
      → length (c ∷ cs) < 1000
      → p < 2 ^ 16
      → PortReads calls p
      → let a : SocketAddress = record {
        hostname = c ∷ cs;
        ip = i;
        port = p;
        scope_id = s;
        literal = false;
      } in
        from_string calls (to_string calls a) b
        ≡ some (true, record a { ip = nil_address; scope_id = 0 })
  unfolding to_string host_as_uri_string
  from_string-to_string_name c cs i p s b u v n o l q r =
      named calls c cs p b r q n o l
      ∙ ap (λ a. some (true, a)) (set_name (c ∷ cs) (record b { port = p }) u v)
