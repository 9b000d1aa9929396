-- ===== src/HexCode/Examples.antt =====
-- Runs of the hexadecimal coding of string_encode.cc.
use tqlib.Prelude.{ℕ, ◌≡◌, refl, List, [], ◌∷◌, replicate, arith}
use tqlib.HexCode.{hex_encode_with_delimiter, hex_decode_with_delimiter, hex_encode_digit}
use tqlib.HexCode.RoundTrip.{hex_decode-hex_encode}

abbrev bytes : List ℕ
bytes = 0 ∷ 171 ∷ 255 ∷ []

-- "00:ab:ff"
encoded : hex_encode_with_delimiter bytes 58 ≡ 48 ∷ 48 ∷ 58 ∷ 97 ∷ 98 ∷ 58 ∷ 102 ∷ 102 ∷ []
unfolding hex_encode_with_delimiter hex_encode_digit
encoded = refl

hex_decode-hex_encode_example :
    hex_decode_with_delimiter (replicate 4 7) (hex_encode_with_delimiter bytes 58) 58
    ≡ (3, 0 ∷ 171 ∷ 255 ∷ 7 ∷ [])
hex_decode-hex_encode_example =
    hex_decode-hex_encode (replicate 4 7) bytes 58 (omega arith, (omega arith, (omega arith, tt)))
      (omega arith)
