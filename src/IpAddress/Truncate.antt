-- ===== src/IpAddress/Truncate.antt =====
-- TruncateIP of ip_address.cc keeps a prefix: of each word of an address it keeps the bits that
-- belong to the first `n` bits of the address, and clears the others.
use native.Mathlib.Nat.{div-mul-le_self}
use tqlib.Prelude.{
  ℕ, ◌+◌, ◌-◌, ◌*◌, ◌/◌, ◌^◌, ◌≤◌, ◌<◌, ◌≡◌, refl, sym, ap, ◌∙◌, min, List, [], ◌++◌, arith, ltb,
  ◌==◌, Bool-cases, inl, inr, get_or, take, drop, length, replicate, length-take, length-drop,
  get_or-take, get_or-drop, get_or-append_left, get_or-append_right, All,
}
use tqlib.Prelude.Int.{pos}
use tqlib.IpAddress.{host32, network32, from_ipv4, from_ipv6}
use tqlib.IpAddress.Order.{get_or-lt}
use tqlib.IpAddress.Mask.{clear_low, truncate_word, truncate_ip}

host32-network32 : (n : ℕ) (rest : List ℕ) → n < 2 ^ 32 → host32 (network32 n ++ rest) 0 ≡ n
host32-network32 n rest h = omega arith

host32-lt : (bs : List ℕ) (i : ℕ) → All (λ b. b < 256) bs → host32 bs i < 2 ^ 32
host32-lt bs i h = omega (
  arith,
  get_or-lt bs i h,
  get_or-lt bs (i + 1) h,
  get_or-lt bs (i + 2) h,
  get_or-lt bs (i + 3) h,
)

clear_low-le : (k n : ℕ) → clear_low k n ≤ n
clear_low-le k n = div-mul-le_self n (2 ^ k)

get_or-take-drop :
    (bs : List ℕ) (i j : ℕ) → j < 4 → get_or (take 4 (drop i bs)) j 0 ≡ get_or bs (i + j) 0
get_or-take-drop bs i j h = get_or-take 4 (drop i bs) j 0 h ∙ get_or-drop bs i j 0

kept_word : (bs : List ℕ) (i : ℕ) → host32 (take 4 (drop i bs)) 0 ≡ clear_low 0 (host32 bs i)
kept_word bs i =
    omega (
      arith,
      at 0 (omega arith),
      at 1 (omega arith),
      at 2 (omega arith),
      at 3 (omega arith),
      zero_th,
    )
  where
    at : (j : ℕ) → j < 4 → get_or (take 4 (drop i bs)) j 0 ≡ get_or bs (i + j) 0
    at j h = get_or-take-drop bs i j h

    zero_th : get_or bs (i + 0) 0 ≡ get_or bs i 0
    zero_th = ap (λ k. get_or bs k 0) (omega arith)

-- How many bits of the i-th word are beyond the first `n` bits of the address.
abbrev pub beyond : ℕ → ℕ → ℕ
beyond n i = min 32 (32 * (i + 1) - n)

word_lem :
    (n i : ℕ) (v6 : List ℕ)
    → i < 4
    → length v6 ≡ 16
    → All (λ b. b < 256) v6
    → let w = truncate_word (n / 32) (32 - (n - n / 32 * 32)) v6 i in
      (length w ≡ 4) × (host32 w 0 ≡ clear_low (beyond n i) (host32 v6 (4 * i)))
unfolding truncate_word
word_lem n i v6 hi len bytes =
    let h = host32 v6 (4 * i) in
    let small : h < 2 ^ 32 = host32-lt v6 (4 * i) bytes in
    elim (Bool-cases (i == n / 32)) [
      | inl at ↦
          let inner : 32 - (n - n / 32 * 32) ≡ beyond n i = ground arith in
          rw (at, inner)
            (
              refl,
              host32-network32 (clear_low (beyond n i) h) []
                  (omega (arith, clear_low-le (beyond n i) h)),
            )
      | inr off ↦ elim (Bool-cases (ltb (n / 32) i)) [
        | inl after ↦
            let all : beyond n i ≡ 32 = ground arith in rw (off, after, all) (refl, omega arith)
        | inr before ↦
            let none_beyond : beyond n i ≡ 0 = ground arith in
            rw (off, before, none_beyond)
              (
                omega (arith, length-take 4 (drop (4 * i) v6), length-drop (4 * i) v6),
                kept_word v6 (4 * i),
              )
      ]
    ]

host32-left : (s r : List ℕ) → length s ≡ 4 → host32 (s ++ r) 0 ≡ host32 s 0
host32-left s r h = omega (
  arith,
  get_or-append_left s r 0 0,
  get_or-append_left s r 1 0,
  get_or-append_left s r 2 0,
  get_or-append_left s r 3 0,
)

host32-right : (s r : List ℕ) (i : ℕ) → length s ≡ 4 → host32 (s ++ r) (4 + i) ≡ host32 r i
host32-right s r i h = omega (
  arith,
  at 0 (4 + i) i,
  at 1 (4 + i + 1) (i + 1),
  at 2 (4 + i + 2) (i + 2),
  at 3 (4 + i + 3) (i + 3),
)
  where
    at : (j k l : ℕ) → k ≡ 4 + i + j → l ≡ i + j → get_or (s ++ r) k 0 ≡ get_or r l 0
    at j k l ek el =
        ap (λ k. get_or (s ++ r) k 0) (omega arith)
        ∙ get_or-append_right s r (i + j) 0
        ∙ ap (λ k. get_or r k 0) (sym el)

abbrev WordsAre : List ℕ → List ℕ → List ℕ → List ℕ → List ℕ → Type 0
WordsAre r s t u v =
    (host32 r 0 ≡ host32 s 0)
    × (host32 r 4 ≡ host32 t 0)
    × (host32 r 8 ≡ host32 u 0)
    × (host32 r 12 ≡ host32 v 0)

four_words :
    (s t u v : List ℕ)
    → length s ≡ 4
    → length t ≡ 4
    → length u ≡ 4
    → length v ≡ 4
    → WordsAre (s ++ (t ++ (u ++ v))) s t u v
four_words s t u v hs ht hu hv =
    let e₁ = host32-right s (t ++ (u ++ v)) in
    (
      host32-left s _ hs,
      e₁ 0 hs ∙ host32-left t _ ht,
      e₁ 4 hs ∙ host32-right t _ 0 ht ∙ host32-left u _ hu,
      e₁ 8 hs ∙ host32-right t _ 4 ht ∙ host32-right u _ 0 hu,
    )

-- Where no bit of a word is beyond, and where all are.
clear_none : (n i h : ℕ) → 32 * (i + 1) ≤ n → h ≡ clear_low (beyond n i) h
clear_none n i h le = let none_beyond : beyond n i ≡ 0 = omega arith in rw none_beyond (omega arith)

clear_all : (n i h : ℕ) → n ≡ 0 → h < 2 ^ 32 → 0 ≡ clear_low (beyond n i) h
clear_all n i h z small = let all : beyond n i ≡ 32 = omega arith in rw all (omega arith)

-- TruncateIP of an IPv6 address at a length that is not negative keeps exactly the first `n` bits: in
-- each of the four words it clears the bits that lie beyond them, and no others.
pub truncate_ip_v6 :
    (n : ℕ) (v6 : List ℕ)
    → length v6 ≡ 16
    → All (λ b. b < 256) v6
    → let r = (truncate_ip (from_ipv6 v6) (pos n)).raw in
      (host32 r 0 ≡ clear_low (beyond n 0) (host32 v6 0))
      × (host32 r 4 ≡ clear_low (beyond n 1) (host32 v6 4))
      × (host32 r 8 ≡ clear_low (beyond n 2) (host32 v6 8))
      × (host32 r 12 ≡ clear_low (beyond n 3) (host32 v6 12))
unfolding truncate_ip
truncate_ip_v6 n v6 len bytes =
    let word = λ (i : ℕ). truncate_word (n / 32) (32 - (n - n / 32 * 32)) v6 i in
    let at = λ (i : ℕ) (h : i < 4). word_lem n i v6 h len bytes in
    elim (Bool-cases (ltb 127 n)) [
      | inl long ↦
          let none_beyond =
            λ (i : ℕ) (h : i < 4). clear_none n i (host32 v6 (4 * i)) (ground arith) in
          rw long (
            none_beyond 0 (omega arith),
            none_beyond 1 (omega arith),
            none_beyond 2 (omega arith),
            none_beyond 3 (omega arith),
          )
      | inr short ↦ elim (Bool-cases (n == 0)) [
        | inl nothing ↦
            let all_beyond = λ (i : ℕ).
              clear_all n i (host32 v6 (4 * i)) (ground arith) (host32-lt v6 (4 * i) bytes) in
            rw (short, nothing) (all_beyond 0, all_beyond 1, all_beyond 2, all_beyond 3)
        | inr some_bits ↦
            let s = at 0 (omega arith) in
            let t = at 1 (omega arith) in
            let u = at 2 (omega arith) in
            let v = at 3 (omega arith) in
            let r = four_words (word 0) (word 1) (word 2) (word 3) s.0 t.0 u.0 v.0 in
            rw (short, some_bits) (r.0 ∙ s.1, r.1 ∙ t.1, r.2 ∙ u.1, r.3 ∙ v.1)
      ]
    ]

-- TruncateIP of an IPv4 address at a length that is not negative keeps exactly its first `n` bits and
-- clears the others.
pub truncate_ip_v4 :
    (n : ℕ) (ip4 : List ℕ)
    → length ip4 ≡ 4
    → All (λ b. b < 256) ip4
    → host32 (truncate_ip (from_ipv4 ip4) (pos n)).raw 0 ≡ clear_low (beyond n 0) (host32 ip4 0)
unfolding truncate_ip
truncate_ip_v4 n ip4 len bytes =
    let h = host32 ip4 0 in
    let small = host32-lt ip4 0 bytes in
    let left : host32 (ip4 ++ replicate 12 0) 0 ≡ h = host32-left ip4 (replicate 12 0) len in
    elim (Bool-cases (ltb 31 n)) [
      | inl long ↦ rw long (left ∙ clear_none n 0 h (ground arith))
      | inr short ↦ elim (Bool-cases (n == 0)) [
        | inl nothing ↦ rw (short, nothing) (clear_all n 0 h (ground arith) small)
        | inr some_bits ↦
            let k = 32 - n in
            let same : beyond n 0 ≡ k = omega arith in
            rw (short, some_bits, same, left)
              (host32-network32 (clear_low k h) (replicate 12 0) (omega (arith, clear_low-le k h)))
      ]
    ]
