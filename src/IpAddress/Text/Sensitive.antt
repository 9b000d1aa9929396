-- ===== src/IpAddress/Text/Sensitive.antt =====
-- What ToSensitiveString of an address does not tell (ip_address.cc).
use mathlib.Core.Path.{ap₂}
use tqlib.Prelude.{
  ℕ, ◌+◌, ◌*◌, ◌<◌, ◌≡◌, refl, sym, ap, ◌∙◌, some, List, [], ◌∷◌, ◌++◌, arith, get_or, take, length,
  get_or-take,
}
use tqlib.IpAddress.{Family, unspec, inet, inet6}
use tqlib.IpAddress.Text.{
  SystemCalls, dot, letter_x, hide_last, text_of, ip_to_string, ip_to_sensitive_string, group,
}
use tqlib.Tokenize.Correct.{NoDelimiter}
use tqlib.SocketAddress.Text.Parse.{rfind_char-append}

-- Two addresses agree in what may be shown: the first six bytes of IPv6, and of IPv4 the text up to the
-- last dot.
pub record SameFront (calls : SystemCalls) (raw raw' : List ℕ) : Type 0 where
  pub front : List ℕ
  pub last : List ℕ
  pub last' : List ℕ
  pub prints : calls.inet_ntop inet (take 4 raw) ≡ some (front ++ dot ∷ last)
  pub prints' : calls.inet_ntop inet (take 4 raw') ≡ some (front ++ dot ∷ last')
  pub no_dot : NoDelimiter dot last
  pub no_dot' : NoDelimiter dot last'

abbrev pub Agree : SystemCalls → Family → List ℕ → List ℕ → Type 0
Agree calls unspec raw raw' = Unit {0}
Agree calls inet raw raw' = SameFront calls raw raw'
Agree calls inet6 raw raw' = take 6 raw ≡ take 6 raw'

same_byte :
    (raw raw' : List ℕ) (i : ℕ)
    → take 6 raw ≡ take 6 raw'
    → i < 6
    → get_or raw i 0 ≡ get_or raw' i 0
same_byte raw raw' i h l =
    sym (get_or-take 6 raw i 0 l) ∙ ap (λ r. get_or r i 0) h ∙ get_or-take 6 raw' i 0 l

take_front_of : (xs ys : List ℕ) → take (length xs) (xs ++ ys) ≡ xs
take_front_of [] ys = refl
take_front_of (x ∷ xs) ys = ap (λ r. x ∷ r) (take_front_of xs ys)

hide_last-append :
    (front last : List ℕ)
    → NoDelimiter dot last
    → hide_last (front ++ dot ∷ last) ≡ front ++ dot ∷ letter_x ∷ []
unfolding hide_last
hide_last-append front last n =
    rw (rfind_char-append dot front last n, hide_last, take_front_of front (dot ∷ last)) refl

module _ (calls : SystemCalls) where
  shown_v4 :
      (raw text : List ℕ)
      → calls.inet_ntop inet (take 4 raw) ≡ some text
      → ip_to_string calls (record { family = inet; raw = raw }) ≡ text
  unfolding ip_to_string
  shown_v4 raw text e = ap text_of e

  sensitive_v4 :
      (raw front last : List ℕ)
      → calls.inet_ntop inet (take 4 raw) ≡ some (front ++ dot ∷ last)
      → NoDelimiter dot last
      → ip_to_sensitive_string calls (record { family = inet; raw = raw })
        ≡ front ++ dot ∷ letter_x ∷ []
  unfolding ip_to_sensitive_string
  sensitive_v4 raw front last e n =
      ap hide_last (shown_v4 raw (front ++ dot ∷ last) e) ∙ hide_last-append front last n

  same_group :
      (raw raw' : List ℕ) (i : ℕ)
      → take 6 raw ≡ take 6 raw'
      → i < 5
      → group calls raw i ≡ group calls raw' i
  unfolding group
  same_group raw raw' i a l =
      ap₂ (λ m n. calls.print_hex (m * 256 + n)) (same_byte raw raw' i a (omega arith))
        (same_byte raw raw' (i + 1) a (omega arith))

  -- ToSensitiveString gives the same text for any two addresses of one family that agree in what may be
  -- shown: it tells nothing of the last ten bytes of an IPv6 address and of what `inet_ntop` prints
  -- behind the last dot of an IPv4 address.
  pub sensitive_hides :
      (f : Family) (raw raw' : List ℕ)
      → Agree calls f raw raw'
      → ip_to_sensitive_string calls (record { family = f; raw = raw })
        ≡ ip_to_sensitive_string calls (record { family = f; raw = raw' })
  unfolding ip_to_sensitive_string
  sensitive_hides unspec raw raw' a = refl
  sensitive_hides inet raw raw' a =
      sensitive_v4 raw a.front a.last a.prints a.no_dot
      ∙ sym (sensitive_v4 raw' a.front a.last' a.prints' a.no_dot')
  sensitive_hides inet6 raw raw' a =
      rw
        (
          same_group raw raw' 0 a (omega arith),
          same_group raw raw' 2 a (omega arith),
          same_group raw raw' 4 a (omega arith),
          ip_to_sensitive_string,
        )
        refl
