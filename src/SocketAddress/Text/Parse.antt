-- ===== src/SocketAddress/Text/Parse.antt =====
-- What FromString makes of a text (rtc_base/socket_address.cc).
use tqlib.Prelude.{
  ℕ, suc, ◌+◌, ◌-◌, ◌≡◌, refl, ap, ◌∙◌, Bool, true, false, not, ◌&&◌, ◌||◌, ◌⊎◌, zero, Bool-cases,
  inl, inr, none, some, List, [], ◌∷◌, ◌++◌, arith, ltb, ◌==◌, take, drop, length,
}
use tqlib.IpAddress.Text.{SystemCalls, colon, rfind_char}
use tqlib.Tokenize.{substr, find_char}
use tqlib.Tokenize.Correct.{NoDelimiter, take_front, drop_front, drop_next}
use tqlib.SocketAddress.{SocketAddress}
use tqlib.SocketAddress.Text.{
  open_bracket, close_bracket, find_from, set_host_and_port, from_bracketed, from_plain,
  from_string,
}

find_char-append :
    (c : ℕ) (xs ys : List ℕ) → NoDelimiter c xs → find_char c (xs ++ c ∷ ys) ≡ some (length xs)
unfolding find_char
find_char-append c [] ys h = ground arith
find_char-append c (x ∷ xs) ys h =
    rw (h.0, find_char-append c xs ys h.1) (ap some (next_place (length xs)))
  where
    next_place : (n : ℕ) → n + 1 ≡ suc n
    next_place n = omega arith

find_char-none : (c : ℕ) (xs : List ℕ) → NoDelimiter c xs → find_char c xs ≡ none
unfolding find_char
find_char-none c [] h = refl
find_char-none c (x ∷ xs) h = rw (h.0, find_char-none c xs h.1) refl

rfind_char-none : (c : ℕ) (xs : List ℕ) → NoDelimiter c xs → rfind_char c xs ≡ none
unfolding rfind_char
rfind_char-none c [] h = refl
rfind_char-none c (x ∷ xs) h = rw (rfind_char-none c xs h.1, h.0) refl

pub rfind_char-append :
    (c : ℕ) (xs ys : List ℕ) → NoDelimiter c ys → rfind_char c (xs ++ c ∷ ys) ≡ some (length xs)
unfolding rfind_char
rfind_char-append c [] ys h =
    rw (rfind_char-none c ys h) (let e : (c == c) ≡ true = ground arith in rw e refl)
rfind_char-append c (x ∷ xs) ys h =
    rw (rfind_char-append c xs ys h) (ap some (next_place (length xs)))
  where
    next_place : (n : ℕ) → n + 1 ≡ suc n
    next_place n = omega arith

drop_here : (xs ys : List ℕ) → drop (length xs) (xs ++ ys) ≡ ys
drop_here [] ys = refl
drop_here (x ∷ xs) ys = drop_here xs ys

between_brackets :
    (text ys : List ℕ)
    → substr ((open_bracket ∷ text) ++ ys) 1 (length (open_bracket ∷ text) - 1) ≡ text
unfolding substr
between_brackets text ys =
    let e : length (open_bracket ∷ text) - 1 ≡ length text = omega arith in
    ap (λ n. take n (text ++ ys)) e ∙ take_front text ys

module _ (calls : SystemCalls) where
  pub plain_text :
      (host digits : List ℕ) (a : SocketAddress)
      → NoDelimiter colon host
      → from_plain calls (host ++ colon ∷ digits) a ≡ (true, set_host_and_port calls host digits a)
  unfolding from_plain
  plain_text host digits a h =
      rw
        (
          find_char-append colon host digits h,
          from_plain,
          take_front host (colon ∷ digits),
          drop_next host colon digits,
        )
        refl

  found_colon :
      (text digits : List ℕ)
      → find_from colon
          (length (open_bracket ∷ text))
          ((open_bracket ∷ text) ++ close_bracket ∷ colon ∷ digits)
        ≡ some (length (open_bracket ∷ text) + 1)
  unfolding find_from find_char
  found_colon text digits =
      rw (drop_here (open_bracket ∷ text) (close_bracket ∷ colon ∷ digits)) refl

  pub bracketed_text :
      (text digits : List ℕ) (a : SocketAddress)
      → NoDelimiter close_bracket digits
      → from_bracketed calls ((open_bracket ∷ text) ++ close_bracket ∷ colon ∷ digits) a
        ≡ (true, set_host_and_port calls text digits a)
  unfolding from_bracketed
  bracketed_text text digits a h =
      let at = rfind_char-append close_bracket (open_bracket ∷ text) (colon ∷ digits) (refl, h) in
      let behind : ltb (length (open_bracket ∷ text)) (length (open_bracket ∷ text) + 1) ≡ true =
        ground arith in
      rw
        (
          at,
          from_bracketed,
          found_colon text digits,
          behind,
          between_brackets text (close_bracket ∷ colon ∷ digits),
          drop_front (open_bracket ∷ text) close_bracket (colon ∷ digits) 1,
        )
        refl

abbrev pub has_char : ℕ → List ℕ → Bool
has_char c [] = false
has_char c (x ∷ xs) = x == c || has_char c xs

rfind-cases :
    (c : ℕ) (xs : List ℕ)
    → ((rfind_char c xs ≡ none) × (has_char c xs ≡ false))
      ⊎ ((i : ℕ) × (rfind_char c xs ≡ some i) × (has_char c xs ≡ true))
unfolding rfind_char
rfind-cases c [] = inl (refl, refl)
rfind-cases c (x ∷ xs) = elim (rfind-cases c xs) [
  | inr (i, e, h) ↦ inr (i + 1, rw e refl, ground (arith, h))
  | inl (e, h) ↦ elim (Bool-cases (x == c)) [
    | inl same ↦ inr (0, rw (e, same) refl, rw same refl)
    | inr other ↦ inl (rw (e, other) refl, rw other h)
  ]
]

NoDelimiter-drop : (c i : ℕ) (xs : List ℕ) → NoDelimiter c xs → NoDelimiter c (drop i xs)
NoDelimiter-drop c zero xs h = h
NoDelimiter-drop c (suc i) [] h = tt
NoDelimiter-drop c (suc i) (x ∷ xs) h = NoDelimiter-drop c i xs h.1

no_colon_from : (i : ℕ) (xs : List ℕ) → NoDelimiter colon xs → find_from colon i xs ≡ none
unfolding find_from
no_colon_from i xs h =
    rw (find_char-none colon (drop i xs) (NoDelimiter-drop colon i xs h), find_from) refl

module _ (calls : SystemCalls) where
  no_colon_bracketed :
      (str : List ℕ) (a : SocketAddress)
      → NoDelimiter colon str
      → from_bracketed calls str a ≡ (not (has_char close_bracket str), a)
  unfolding from_bracketed
  no_colon_bracketed str a h = elim (rfind-cases close_bracket str) [
    | inl (e, none_there) ↦ rw (e, from_bracketed, none_there) refl
    | inr (i, e, there) ↦ rw (e, from_bracketed, no_colon_from i str h, there) refl
  ]

  no_colon_plain :
      (str : List ℕ) (a : SocketAddress)
      → NoDelimiter colon str
      → from_plain calls str a ≡ (false, a)
  unfolding from_plain
  no_colon_plain str a h = rw (find_char-none colon str h, from_plain) refl

  -- FromString of a text that is not empty and has no colon changes nothing. It returns false, but where
  -- the text starts with an opening bracket and has no closing one it returns true.
  pub from_string_no_colon :
      (c : ℕ) (cs : List ℕ) (a : SocketAddress)
      → NoDelimiter colon (c ∷ cs)
      → from_string calls (c ∷ cs) a
        ≡ some ((c == open_bracket) && not (has_char close_bracket (c ∷ cs)), a)
  unfolding from_string
  from_string_no_colon c cs a h = elim (Bool-cases (c == open_bracket)) [
    | inl e ↦ rw (e, no_colon_bracketed (c ∷ cs) a h) refl
    | inr e ↦ rw (e, no_colon_plain (c ∷ cs) a h) refl
  ]
