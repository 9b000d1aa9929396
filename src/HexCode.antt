-- ===== src/HexCode.antt =====
-- The hexadecimal coding of rtc_base/string_encode.cc. Characters and bytes are numbers below 256. The
-- loops write to their buffers from the front on, so what they write is a list.
pub mod RoundTrip
mod Examples
use tqlib.Prelude.{
  ℕ, ◌+◌, ◌-◌, ◌*◌, ◌/◌, ◌%◌, Bool, true, false, ◌&&◌, Option, none, some, List, [], ◌∷◌, ◌++◌, ltb,
  leb, ◌==◌, if◌then◌else◌, length, get_or, drop,
}

-- `HEX`
abbrev pub hex_digits : List ℕ
hex_digits = 48 ∷ 49 ∷ 50 ∷ 51 ∷ 52 ∷ 53 ∷ 54 ∷ 55 ∷ 56 ∷ 57 ∷ 97 ∷ 98 ∷ 99 ∷ 100 ∷ 101 ∷ 102 ∷ []

-- `hex_encode` of one digit; 33 is '!'.
unfoldable pub hex_encode_digit : ℕ → ℕ
hex_encode_digit val = if ltb val 16 then get_or hex_digits val 0 else 33

-- `hex_decode` of one character; 48, 65 and 97 are '0', 'A' and 'a'.
unfoldable pub hex_decode_digit : ℕ → Option ℕ
hex_decode_digit ch =
    if leb 48 ch && leb ch 57
    then some (ch - 48)
    else if leb 65 ch && leb ch 70
    then some (ch - 65 + 10)
    else if leb 97 ch && leb ch 102
    then some (ch - 97 + 10)
    else none

-- `hex_encode_output_length`; a delimiter of 0 stands for none.
unfoldable pub hex_encode_output_length : ℕ → ℕ → ℕ
hex_encode_output_length srclen delimiter =
    if ltb 0 delimiter && ltb 0 srclen then srclen * 3 - 1 else srclen * 2

-- The loop of `hex_encode_with_delimiter`.
unfoldable pub hex_encode_with_delimiter : List ℕ → ℕ → List ℕ
hex_encode_with_delimiter [] delimiter = []
hex_encode_with_delimiter (ch ∷ source) delimiter =
    hex_encode_digit (ch / 16 % 16)
    ∷ hex_encode_digit (ch % 16)
    ∷ ((if ltb 0 delimiter && ltb 0 (length source) then delimiter ∷ [] else [])
        ++ hex_encode_with_delimiter source delimiter)

-- The byte of two characters, if both are digits.
unfoldable pub decode_pair : ℕ → ℕ → Option ℕ
decode_pair a b = elim (hex_decode_digit a) [
  | none ↦ none
  | some h1 ↦ elim (hex_decode_digit b) [ none ↦ none | some h2 ↦ some (h1 * 16 + h2) ]
]

-- One round of the loop of `hex_decode_with_delimiter`, with what the rounds after it do.
unfoldable pub write_byte : Option ℕ → Bool × List ℕ → Bool × List ℕ
write_byte none rest = (false, [])
write_byte (some b) (ok, bs) = (ok, b ∷ bs)

-- The loop: whether it came to the end of the source, and what it wrote until it stopped.
unfoldable pub decode_loop : ℕ → List ℕ → Bool × List ℕ
unfolding decode_pair write_byte
decode_loop delimiter [] = (true, [])
decode_loop delimiter (a ∷ []) = (false, [])
decode_loop delimiter (a ∷ b ∷ []) = write_byte (decode_pair a b) (true, [])
decode_loop delimiter (a ∷ b ∷ c ∷ []) = write_byte (decode_pair a b) (false, [])
decode_loop delimiter (a ∷ b ∷ c ∷ d ∷ source) =
    write_byte (decode_pair a b) (elim (delimiter == 0) [
      | true ↦ decode_loop delimiter (c ∷ d ∷ source)
      | false ↦
          let rest = decode_loop delimiter (d ∷ source) in
          if c == delimiter then rest else (false, [])
    ])

-- `hex_decode_with_delimiter`: what it returns, and the buffer.
unfoldable pub hex_decode_with_delimiter : List ℕ → List ℕ → ℕ → ℕ × List ℕ
unfolding decode_loop
hex_decode_with_delimiter cbuffer source delimiter =
    let srclen = length source in
    let needed = if ltb 0 delimiter then (srclen + 1) / 3 else srclen / 2 in
    if length cbuffer == 0
    then (0, cbuffer)
    else if ltb (length cbuffer) needed
    then (0, cbuffer)
    else let (ok, bs) = decode_loop delimiter source in
      (if ok then length bs else 0, bs ++ drop (length bs) cbuffer)
