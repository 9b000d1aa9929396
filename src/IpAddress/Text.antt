-- ===== src/IpAddress/Text.antt =====
-- The text of addresses (`ToString`, `ToSensitiveString` and IPFromString of ip_address.cc). The
-- system's functions are the fields of a record; a string is the list of its characters, none of
-- which is zero.
pub mod Sensitive
use tqlib.Prelude.{
  ℕ, ◌+◌, ◌*◌, ◌≡◌, refl, sym, ap, ◌∙◌, Option, none, some, List, [], ◌∷◌, ◌++◌, arith, ◌==◌,
  if◌then◌else◌, get_or, take, length,
}
use tqlib.IpAddress.{Family, unspec, inet, inet6, IpAddress, from_ipv4, from_ipv6}

-- `inet_pton` and `inet_ntop` of a family, `snprintf` of a number with "%d" and with "%x", and
-- `strtoul` to the base ten
pub record SystemCalls : Type 0 where
  pub inet_pton : Family → List ℕ → Option (List ℕ)
  pub inet_ntop : Family → List ℕ → Option (List ℕ)
  pub print_decimal : ℕ → List ℕ
  pub print_hex : ℕ → List ℕ
  pub strtoul : List ℕ → ℕ

-- The characters '.', ':' and 'x'.
abbrev pub dot : ℕ
dot = 46

abbrev pub colon : ℕ
colon = 58

abbrev pub letter_x : ℕ
letter_x = 120

-- `std::string::rfind` of a character
unfoldable pub rfind_char : ℕ → List ℕ → Option ℕ
rfind_char c [] = none
rfind_char c (x ∷ xs) = elim (rfind_char c xs) [
  | some i ↦ some (i + 1)
  | none ↦ if x == c then some 0 else none
]

-- The IPv4 case of `ToSensitiveString`, for the text of the address.
unfoldable pub hide_last : List ℕ → List ℕ
hide_last address = elim (rfind_char dot address) [
  | none ↦ []
  | some find_pos ↦ take find_pos address ++ dot ∷ letter_x ∷ []
]

abbrev pub text_of : Option (List ℕ) → List ℕ
text_of none = []
text_of (some t) = t

module _ (calls : SystemCalls) where
  -- `IPAddress::ToString`
  unfoldable pub ip_to_string : IpAddress → List ℕ
  ip_to_string ip = elim ip.family [
    | unspec ↦ []
    | inet ↦ text_of (calls.inet_ntop inet (take 4 ip.raw))
    | inet6 ↦ text_of (calls.inet_ntop inet6 (take 16 ip.raw))
  ]

  -- Two bytes of an address, as "%x" prints them.
  unfoldable pub group : List ℕ → ℕ → List ℕ
  group raw i = calls.print_hex (get_or raw i 0 * 256 + get_or raw (i + 1) 0)

  -- `IPAddress::ToSensitiveString`
  unfoldable pub ip_to_sensitive_string : IpAddress → List ℕ
  ip_to_sensitive_string ip = elim ip.family [
    | unspec ↦ []
    | inet ↦ hide_last (ip_to_string ip)
    | inet6 ↦
        group ip.raw 0
        ++ colon ∷ group ip.raw 2
        ++ colon ∷ group ip.raw 4
        ++ colon ∷ letter_x ∷ colon ∷ letter_x ∷ colon ∷ letter_x ∷ colon ∷ letter_x ∷ colon
          ∷ letter_x ∷ []
  ]

  -- IPFromString: the address that it writes where it returns true
  unfoldable pub ip_from_string : List ℕ → Option IpAddress
  ip_from_string str = elim (calls.inet_pton inet str) [
    | some addr ↦ some (from_ipv4 addr)
    | none ↦ elim (calls.inet_pton inet6 str) [ some addr6 ↦ some (from_ipv6 addr6) | none ↦ none ]
  ]
