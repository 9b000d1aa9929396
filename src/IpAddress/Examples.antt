-- ===== src/IpAddress/Examples.antt =====
-- Addresses of ip_address.cc at concrete values.
use tqlib.Prelude.{ℕ, ◌-◌, ◌%◌, ◌^◌, ◌≡◌, ◌≢◌, refl, List, [], ◌∷◌, ◌++◌, replicate, arith}
use tqlib.IpAddress.{IpAddress, from_ipv4, from_ipv6}
use tqlib.IpAddress.Mask.{count_ip_mask_bits, count_ip_mask_bits-lowest}

abbrev bytes4 : List ℕ
bytes4 = 192 ∷ 168 ∷ 7 ∷ 9 ∷ []

abbrev local_v4 : IpAddress
local_v4 = from_ipv4 bytes4

abbrev bytes6 : List ℕ
bytes6 = 0x20 ∷ 0x01 ∷ 0x0d ∷ 0xb8 ∷ 0x85 ∷ 0xa3 ∷ (replicate 8 7 ++ (0x73 ∷ 0x34 ∷ []))

abbrev some_v6 : IpAddress
some_v6 = from_ipv6 bytes6

-- 240.240.0.0 has four leading ones, and the count is twelve.
counts_past_a_zero : count_ip_mask_bits (from_ipv4 (240 ∷ 240 ∷ 0 ∷ 0 ∷ [])) ≡ 12
unfolding count_ip_mask_bits
counts_past_a_zero = refl

count_ip_mask_bits-lowest_example :
    let n = count_ip_mask_bits (from_ipv4 (0xa8 ∷ replicate 3 0)) in
    (0xa8 % 2 ^ (8 - n) ≡ 0) × (0xa8 % 2 ^ (9 - n) ≢ 0)
count_ip_mask_bits-lowest_example = count_ip_mask_bits-lowest 0xa8 (omega arith) (omega arith)
