-- ===== src/IpAddress/Mask.antt =====
-- Prefixes and masks (TruncateIP and CountIPMaskBits of ip_address.cc).
use Prim.Native.Nat.{bit_and}
use tqlib.Prelude.{
  ℕ, zero, suc, ◌+◌, ◌-◌, ◌*◌, ◌/◌, ◌%◌, ◌^◌, ◌≤◌, ◌<◌, ◌≡◌, ◌≢◌, refl, ==_iff, ◌||◌, min, Bool,
  true, not, ◌&&◌, List, [], ◌∷◌, ◌++◌, arith, ltb, ◌==◌, if◌then◌else◌, passes, passes_at, take,
  drop, replicate,
}
use tqlib.Prelude.Int.{ℤ, pos, negsuc}
use tqlib.IpAddress.{
  unspec, inet, inet6, IpAddress, host32, network32, nil_address, from_ipv4, from_ipv6, in6addr_any,
}

-- `n & (0xFFFFFFFF << k)` for n below 2 ^ 32: the lowest k bits are cleared.
abbrev pub clear_low : ℕ → ℕ → ℕ
clear_low k n = n / 2 ^ k * 2 ^ k

-- The i-th word of an IPv6 address in the loop of `TruncateIP`.
unfoldable pub truncate_word : ℕ → ℕ → List ℕ → ℕ → List ℕ
truncate_word position inner_length v6 i =
    if i == position
    then network32 (clear_low inner_length (host32 v6 (4 * i)))
    else if ltb position i
    then replicate 4 0
    else take 4 (drop (4 * i) v6)

unfoldable pub truncate_v4 : IpAddress → ℕ → IpAddress
truncate_v4 ip length =
    if ltb 31 length
    then ip
    else if length == 0
    then from_ipv4 (replicate 4 0)
    else from_ipv4 (network32 (clear_low (32 - length) (host32 ip.raw 0)))

unfoldable pub truncate_v6 : IpAddress → ℕ → IpAddress
unfolding truncate_word
truncate_v6 ip length =
    let position = length / 32 in
    let inner_length = 32 - (length - position * 32) in
    let word = truncate_word position inner_length ip.raw in
    if ltb 127 length
    then ip
    else if length == 0
    then from_ipv6 in6addr_any
    else from_ipv6 (word 0 ++ (word 1 ++ (word 2 ++ word 3)))

-- `TruncateIP`
unfoldable pub truncate_ip : IpAddress → ℤ → IpAddress
unfolding truncate_v4 truncate_v6
truncate_ip ip (negsuc n) = nil_address
truncate_ip ip (pos length) = elim ip.family [
  | inet ↦ truncate_v4 ip length
  | inet6 ↦ truncate_v6 ip length
  | unspec ↦ nil_address
]

-- The number of bits up to the lowest one that is set in a word: `32 - zeroes`.
unfoldable pub lowest_bit_place : ℕ → ℕ
lowest_bit_place word =
    let low = bit_and word ((2 ^ 32 - word) % 2 ^ 32) in
    let less = λ (mask n : ℕ). if bit_and low mask == 0 then 0 else n in
    let zeroes =
      32
      - less 0xFFFFFFFF 1
      - less 0x0000FFFF 16
      - less 0x00FF00FF 8
      - less 0x0F0F0F0F 4
      - less 0x33333333 2
      - less 0x55555555 1 in
    32 - zeroes

-- The loop of `CountIPMaskBits` over the words, from the i-th on: the first that is not all ones,
-- and its index.
unfoldable pub first_partial : List ℕ → ℕ → ℕ → ℕ × ℕ
first_partial v6 zero i = (0, i)
first_partial v6 (suc left) i =
    let rest = first_partial v6 left (i + 1) in
    if host32 v6 (4 * i) == 0xFFFFFFFF then rest else (host32 v6 (4 * i), i)

finish_count : ℕ → ℕ → ℕ
finish_count word bits = if word == 0 then bits else bits + lowest_bit_place word

-- `CountIPMaskBits`
unfoldable pub count_ip_mask_bits : IpAddress → ℕ
unfolding first_partial finish_count lowest_bit_place
count_ip_mask_bits mask = elim mask.family [
  | inet ↦ finish_count (host32 mask.raw 0) 0
  | inet6 ↦ let (word, i) = first_partial mask.raw 4 0 in finish_count word (i * 32)
  | unspec ↦ 0
]

-- The bytes of a mask whose first `n` bits are set.
abbrev pub mask_bytes : ℕ → ℕ → List ℕ
mask_bytes zero n = []
mask_bytes (suc k) n = (256 - 2 ^ (8 - min n 8)) ∷ mask_bytes k (n - 8)

v4_table : passes (λ n. count_ip_mask_bits (from_ipv4 (mask_bytes 4 n)) == n) 33 ≡ true
unfolding passes count_ip_mask_bits
v4_table = refl

v6_table : passes (λ n. count_ip_mask_bits (from_ipv6 (mask_bytes 16 n)) == n) 129 ≡ true
unfolding passes count_ip_mask_bits
v6_table = refl

-- CountIPMaskBits gives back the length of every mask, of 32 bits at most for IPv4 and of 128 bits at
-- most for IPv6.
pub count_ip_mask_bits-mask :
    (n m : ℕ)
    → n ≤ 32
    → m ≤ 128
    → (count_ip_mask_bits (from_ipv4 (mask_bytes 4 n)) ≡ n)
      × (count_ip_mask_bits (from_ipv6 (mask_bytes 16 m)) ≡ m)
count_ip_mask_bits-mask n m h k = (
  (==_iff _ n).0 (passes_at _ 33 n v4_table (omega arith)),
  (==_iff _ m).0 (passes_at _ 129 m v6_table (omega arith)),
)

-- A mask of one byte: whether the count is the place of its lowest set bit.
abbrev counts_lowest : ℕ → Bool
counts_lowest b =
    let n = count_ip_mask_bits (from_ipv4 (b ∷ replicate 3 0)) in
    b == 0 || (b % 2 ^ (8 - n) == 0 && not (b % 2 ^ (9 - n) == 0))

byte_table : passes counts_lowest 256 ≡ true
unfolding passes count_ip_mask_bits
byte_table = refl

-- CountIPMaskBits of an IPv4 address whose first byte alone is not zero counts up to the lowest bit
-- that is set: all bits below that place are zero and the bit at it is one. So bits after a zero
-- are counted.
pub count_ip_mask_bits-lowest :
    (b : ℕ)
    → 0 < b
    → b < 256
    → let n = count_ip_mask_bits (from_ipv4 (b ∷ replicate 3 0)) in
      (b % 2 ^ (8 - n) ≡ 0) × (b % 2 ^ (9 - n) ≢ 0)
count_ip_mask_bits-lowest b p h = ground (arith, passes_at counts_lowest 256 b byte_table h)
