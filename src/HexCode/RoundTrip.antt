-- ===== src/HexCode/RoundTrip.antt =====
-- Laws of the hexadecimal coding of string_encode.cc.
use tqlib.Prelude.{
  ℕ, zero, suc, ◌+◌, ◌*◌, ◌/◌, ◌%◌, ◌≤◌, ◌<◌, ◌≡◌, refl, sym, ap, subst, inl, inr, Bool-cases, Bool,
  true, false, Option, none, some, List, [], ◌∷◌, ◌++◌, arith, ltb, ◌==◌, ==_iff, passes, passes_at,
  if◌then◌else◌, length, length-append, length-drop, drop, All,
}
use tqlib.HexCode.{
  hex_encode_digit, hex_decode_digit, hex_encode_output_length, hex_encode_with_delimiter,
  decode_pair, write_byte, decode_loop, hex_decode_with_delimiter,
}

-- What encoding gives for one byte is what decoding reads.
abbrev same : Option ℕ → ℕ → Bool
same none n = false
same (some m) n = m == n

same_sound : (o : Option ℕ) (n : ℕ) → same o n ≡ true → o ≡ some n
same_sound none n h = absurd (ground arith)
same_sound (some m) n h = ap (λ k. some k) ((==_iff m n).0 h)

byte_table :
    passes
      (λ b. same (decode_pair (hex_encode_digit (b / 16 % 16)) (hex_encode_digit (b % 16))) b)
      256
    ≡ true
unfolding passes decode_pair hex_encode_digit hex_decode_digit
byte_table = refl

decode_pair-hex_encode :
    (b : ℕ)
    → b < 256
    → decode_pair (hex_encode_digit (b / 16 % 16)) (hex_encode_digit (b % 16)) ≡ some b
decode_pair-hex_encode b h = same_sound _ b (passes_at _ 256 b byte_table h)

is_some : (d : ℕ) → ltb 0 d ≡ true → (d == 0) ≡ false
is_some d h = ground arith

not_ltb : (d : ℕ) → ltb 0 d ≡ false → d ≡ 0
not_ltb d h = ground arith

not_empty : (n : ℕ) → 0 < n → (n == 0) ≡ false
not_empty n h = ground arith

is_zero : (d : ℕ) → ltb 0 d ≡ false → (d == 0) ≡ true
is_zero d h = ground arith

same_char : (d : ℕ) → (d == d) ≡ true
same_char d = ground arith

has_more : (n : ℕ) → ltb 0 (suc n) ≡ true
has_more n = ground arith

decode_loop-hex_encode :
    (delimiter : ℕ) (source : List ℕ)
    → All (λ b. b < 256) source
    → decode_loop delimiter (hex_encode_with_delimiter source delimiter) ≡ (true, source)
unfolding decode_loop hex_encode_with_delimiter write_byte
decode_loop-hex_encode delimiter [] h = refl
decode_loop-hex_encode delimiter (b ∷ []) (p, h) = elim (Bool-cases (ltb 0 delimiter)) [
  | inl e ↦ rw (e, decode_pair-hex_encode b p) refl
  | inr e ↦ rw (e, decode_pair-hex_encode b p) refl
]
decode_loop-hex_encode delimiter (b ∷ c ∷ source) (p, h) =
    let rest = decode_loop-hex_encode delimiter (c ∷ source) h in
    let more : ltb 0 (suc (length source)) ≡ true = has_more (length source) in
    elim (Bool-cases (ltb 0 delimiter)) [
      | inl e ↦
          let some_delimiter : (delimiter == 0) ≡ false = is_some delimiter e in
          let equal : (delimiter == delimiter) ≡ true = same_char delimiter in
          rw (e, more) (rw (some_delimiter, equal, decode_pair-hex_encode b p, rw e at rest) refl)
      | inr e ↦
          let no_delimiter : (delimiter == 0) ≡ true = is_zero delimiter e in
          rw e (rw (no_delimiter, decode_pair-hex_encode b p, rw e at rest) refl)
    ]

-- Encoding fills the buffer that its caller made, of the length of hex_encode_output_length.
pub length-hex_encode :
    (delimiter : ℕ) (source : List ℕ)
    → length (hex_encode_with_delimiter source delimiter)
      ≡ hex_encode_output_length (length source) delimiter
unfolding hex_encode_with_delimiter hex_encode_output_length
length-hex_encode delimiter [] = ground arith
length-hex_encode delimiter (b ∷ []) = ground arith
length-hex_encode delimiter (b ∷ c ∷ source) =
    ground (arith, length-hex_encode delimiter (c ∷ source))

length-write_byte :
    (o : Option ℕ) (r : Bool × List ℕ) → length (write_byte o r).1 ≤ suc (length r.1)
unfolding write_byte
length-write_byte none r = omega arith
length-write_byte (some n) (ok, bs) = omega arith

-- The number of bytes that decoding writes, whether or not it succeeds.
length-decode_loop :
    (delimiter : ℕ) (source : List ℕ)
    → (length (decode_loop delimiter source).1 * 2 ≤ length source)
      × (0 < delimiter → length (decode_loop delimiter source).1 * 3 ≤ length source + 1)
unfolding decode_loop
length-decode_loop delimiter [] = (omega arith, λ e. omega arith)
length-decode_loop delimiter (a ∷ []) = (omega arith, λ e. omega arith)
length-decode_loop delimiter (a ∷ b ∷ []) =
    let most = length-write_byte (decode_pair a b) (true, []) in
    (omega (arith, most), λ e. omega (arith, most))
length-decode_loop delimiter (a ∷ b ∷ c ∷ []) =
    let most = length-write_byte (decode_pair a b) (false, []) in
    (omega (arith, most), λ e. omega (arith, most))
length-decode_loop delimiter (a ∷ b ∷ c ∷ d ∷ source) = elim (Bool-cases (ltb 0 delimiter)) [
  | inr e ↦
      let most = length-write_byte (decode_pair a b) (decode_loop delimiter (c ∷ d ∷ source)) in
      let rest = (length-decode_loop delimiter (c ∷ d ∷ source)).0 in
      rw (is_zero delimiter e)
        (omega (arith, most, rest), λ p. absurd (omega (arith, not_ltb delimiter e)))
  | inl e ↦ elim (Bool-cases (c == delimiter)) [
    | inl q ↦
        let most = length-write_byte (decode_pair a b) (decode_loop delimiter (d ∷ source)) in
        let rest = length-decode_loop delimiter (d ∷ source) in
        rw (is_some delimiter e, q)
          (omega (arith, most, rest.0), λ p. omega (arith, most, rest.1 p))
    | inr q ↦
        let most = length-write_byte (decode_pair a b) (false, []) in
        rw (is_some delimiter e, q) (omega (arith, most), λ p. omega (arith, most))
  ]
]

-- The code's test on the buffer's length, for what encoding gives.
buffer_fits :
    (delimiter n m : ℕ)
    → 0 < n
    → n ≤ m
    → let srclen = hex_encode_output_length n delimiter in
      ltb m (if ltb 0 delimiter then (srclen + 1) / 3 else srclen / 2) ≡ false
unfolding hex_encode_output_length
buffer_fits delimiter n m p q = ground arith

if_same : (b : Bool) (r : ℕ × List ℕ) → (if b then r else r) ≡ r
if_same true r = refl
if_same false r = refl

abbrev needed : ℕ → ℕ → ℕ
needed delimiter srclen = if ltb 0 delimiter then (srclen + 1) / 3 else srclen / 2

accepted :
    (buffer code bs : List ℕ) (delimiter : ℕ)
    → decode_loop delimiter code ≡ (true, bs)
    → 0 < length buffer
    → ltb (length buffer) (needed delimiter (length code)) ≡ false
    → hex_decode_with_delimiter buffer code delimiter ≡ (length bs, bs ++ drop (length bs) buffer)
unfolding hex_decode_with_delimiter
accepted buffer code bs delimiter e p q = rw (not_empty (length buffer) p, q, e) refl

enough :
    (delimiter n m k : ℕ)
    → ltb m (needed delimiter n) ≡ false
    → k * 2 ≤ n
    → (0 < delimiter → k * 3 ≤ n + 1)
    → k ≤ m
enough zero n m k h p q = ground arith
enough (suc d) n m k h p q = let r = q (omega arith) in ground arith

decoded_fits :
    (buffer bs : List ℕ) (ok : Bool)
    → length bs ≤ length buffer
    → (length (bs ++ drop (length bs) buffer) ≡ length buffer)
      × ((if ok then length bs else 0) ≤ length buffer)
decoded_fits buffer bs true h =
    (omega (arith, length-append bs (drop (length bs) buffer), length-drop (length bs) buffer), h)
decoded_fits buffer bs false h = (
  omega (arith, length-append bs (drop (length bs) buffer), length-drop (length bs) buffer),
  omega arith,
)

-- Decoding what encoding gave, with the same delimiter or with none in both, returns the number of
-- the bytes and writes them to the front of the buffer. The source is of bytes, and the buffer has
-- a place for each.
pub hex_decode-hex_encode :
    (buffer source : List ℕ) (delimiter : ℕ)
    → All (λ b. b < 256) source
    → length source ≤ length buffer
    → hex_decode_with_delimiter buffer (hex_encode_with_delimiter source delimiter) delimiter
      ≡ (length source, source ++ drop (length source) buffer)
unfolding hex_decode_with_delimiter hex_encode_with_delimiter decode_loop
hex_decode-hex_encode buffer [] delimiter h p = elim (Bool-cases (length buffer == 0)) [
  | inl e ↦ rw e refl
  | inr e ↦ elim (Bool-cases (ltb 0 delimiter)) [
    | inl d ↦ rw (e, d) (if_same (ltb (length buffer) 0) (0, buffer))
    | inr d ↦ rw (e, d) (if_same (ltb (length buffer) 0) (0, buffer))
  ]
]
hex_decode-hex_encode buffer (b ∷ source) delimiter h p =
    accepted buffer (hex_encode_with_delimiter (b ∷ source) delimiter) (b ∷ source) delimiter
      (decode_loop-hex_encode delimiter (b ∷ source) h) (omega arith)
      (subst (λ n. ltb (length buffer) (needed delimiter n) ≡ false)
        (sym (length-hex_encode delimiter (b ∷ source)))
        (buffer_fits delimiter (length (b ∷ source)) (length buffer) (omega arith) p))

-- Decoding any characters into any buffer leaves a buffer of the same length: it writes nothing
-- behind its end. What it returns is at most that length.
pub length-hex_decode :
    (buffer source : List ℕ) (delimiter : ℕ)
    → let r = hex_decode_with_delimiter buffer source delimiter in
      (length r.1 ≡ length buffer) × (r.0 ≤ length buffer)
unfolding hex_decode_with_delimiter
length-hex_decode buffer source delimiter =
    let (two, three) = length-decode_loop delimiter source in
    let bs = (decode_loop delimiter source).1 in
    elim (Bool-cases (length buffer == 0)) [
      | inl e ↦ rw e (refl, omega arith)
      | inr e ↦ elim (Bool-cases (ltb (length buffer) (needed delimiter (length source)))) [
        | inl q ↦ rw (e, q) (refl, omega arith)
        | inr q ↦
            rw (e, q)
              (decoded_fits buffer bs (decode_loop delimiter source).0
                (enough delimiter (length source) (length buffer) (length bs) q two three))
      ]
    ]
