-- ===== src/WrapAround/Reference.antt =====
-- What TimestampWrapAroundHandler (time_utils.cc) makes of timestamps near the last one it kept.
use native.Mathlib.Decide.{dec_lt}
use tqlib.Prelude.{
  subst, ℕ, ◌+◌, ◌-◌, ◌%◌, ◌^◌, ◌≤◌, ◌<◌, ◌≡◌, refl, ◌⊎◌, inl, inr, arith, ltb, leb, ◌&&◌, true,
  false, ap, ◌∙◌,
}
use tqlib.Prelude.Int.{ℤ, pos, ◌+ℤ◌, ◌-ℤ◌, ◌*ℤ◌}
use tqlib.WrapAround.{TimestampWrapAroundHandler, unwrap, accept}

-- The 64-bit timestamp that a handler has kept.
abbrev pub reference : ℕ → ℕ → ℤ
reference last wraps = pos last +ℤ pos wraps *ℤ pos (2 ^ 32)

lower : (a b : ℕ) → a < b → ltb a b ≡ true
lower a b h = ground arith

no_lower : (a b : ℕ) → b ≤ a → ltb a b ≡ false
no_lower a b h = ground arith

near : (a b : ℕ) → a ≤ b + 0xf0000000 → ltb 0xf0000000 (a - b) ≡ false
near a b h = ground arith

far : (a b : ℕ) → b + 0xf0000000 < a → ltb 0xf0000000 (a - b) ≡ true
far a b h = ground arith

both : (a b : ℕ) → 0xf0000000 ≤ b → a < 0x0fffffff → (leb 0xf0000000 b && ltb a 0x0fffffff) ≡ true
both a b h k = ground arith

neither :
    (a b : ℕ) → b ≤ a + 0x0fffffff → b < 2 ^ 32 → (leb 0xf0000000 b && ltb a 0x0fffffff) ≡ false
neither a b h p = ground arith

-- The tests of the code decide what is kept: the timestamp after the same number of wraps, after one
-- more, or nothing.
kept_same :
    (ts last wraps : ℕ)
    → (ltb ts last ≡ true) × ((leb 0xf0000000 last && ltb ts 0x0fffffff) ≡ false)
      ⊎ ((ltb ts last ≡ false) × (ltb 0xf0000000 (ts - last) ≡ false))
    → unwrap ts (record { last_ts = last; num_wrap = pos wraps }) ≡ accept ts (pos wraps)
unfolding unwrap
kept_same ts last wraps (inl (e, f)) = rw (e, f) refl
kept_same ts last wraps (inr (e, f)) = rw (e, f) refl

kept_next :
    (ts last wraps : ℕ)
    → ltb ts last ≡ true
    → (leb 0xf0000000 last && ltb ts 0x0fffffff) ≡ true
    → unwrap ts (record { last_ts = last; num_wrap = pos wraps }) ≡ accept ts (pos wraps +ℤ pos 1)
unfolding unwrap
kept_next ts last wraps e f = rw (e, f) refl

kept_none :
    (ts last wraps : ℕ)
    → ltb ts last ≡ false
    → ltb 0xf0000000 (ts - last) ≡ true
    → unwrap ts (record { last_ts = last; num_wrap = pos wraps }) ≡ (
      pos ts +ℤ (pos wraps -ℤ pos 1) *ℤ pos (2 ^ 32),
      record { last_ts = last; num_wrap = pos wraps },
    )
unfolding unwrap
kept_none ts last wraps e f = rw (e, f) refl

same_value :
    (ts last wraps d : ℕ) → ts ≡ last + d → reference ts wraps ≡ reference last wraps +ℤ pos d
unfolding ◌+ℤ◌ ◌*ℤ◌
same_value ts last wraps d e = ground arith

next_value :
    (ts last wraps d : ℕ)
    → ts + 2 ^ 32 ≡ last + d
    → pos ts +ℤ (pos wraps +ℤ pos 1) *ℤ pos (2 ^ 32) ≡ reference last wraps +ℤ pos d
unfolding ◌+ℤ◌ ◌*ℤ◌
next_value ts last wraps d e = ground arith

earlier_value :
    (ts last wraps d : ℕ) → ts + d ≡ last → reference ts wraps ≡ reference last wraps -ℤ pos d
unfolding ◌+ℤ◌ ◌-ℤ◌ ◌*ℤ◌
earlier_value ts last wraps d e = ground arith

previous_value :
    (ts last wraps d : ℕ)
    → ts + d ≡ last + 2 ^ 32
    → pos ts +ℤ (pos wraps -ℤ pos 1) *ℤ pos (2 ^ 32) ≡ reference last wraps -ℤ pos d
unfolding ◌+ℤ◌ ◌-ℤ◌ ◌*ℤ◌
previous_value ts last wraps d e = ground arith

plus_one : (n : ℕ) → pos n +ℤ pos 1 ≡ pos (n + 1)
unfolding ◌+ℤ◌
plus_one n = ground arith

-- A timestamp that is up to 0x0fffffff after the last one kept, modulo 2 ^ 32, is unwrapped to just
-- that later time, over a wrap or not, and is kept.
pub unwrap_later :
    (last wraps d : ℕ)
    → last < 2 ^ 32
    → d ≤ 0x0fffffff
    → let ts = (last + d) % 2 ^ 32 in
      (w : ℕ) × (unwrap ts (record { last_ts = last; num_wrap = pos wraps })
        ≡ (reference ts w, record { last_ts = ts; num_wrap = pos w }))
      × (reference ts w ≡ reference last wraps +ℤ pos d)
unfolding accept
unwrap_later last wraps d p q = elim (dec_lt (last + d) (2 ^ 32)) [
  | yes h ↦
      let ts : (last + d) % 2 ^ 32 ≡ last + d = omega arith in
      (
        wraps,
        kept_same _ last wraps
            (inr (no_lower _ last (omega (arith, ts)), near _ last (omega (arith, ts)))),
        same_value _ last wraps d ts,
      )
  | no h ↦
      let ts : (last + d) % 2 ^ 32 + 2 ^ 32 ≡ last + d = omega arith in
      (
        wraps + 1,
        subst
            (λ z.
              unwrap ((last + d) % 2 ^ 32) (record { last_ts = last; num_wrap = pos wraps })
              ≡ accept ((last + d) % 2 ^ 32) z)
            (plus_one wraps)
            (kept_next _ last wraps (lower _ last (omega (arith, ts)))
              (both _ last (omega (arith, ts)) (omega (arith, ts)))),
        subst (λ z. pos ((last + d) % 2 ^ 32) +ℤ z *ℤ pos (2 ^ 32) ≡ reference last wraps +ℤ pos d)
            (plus_one wraps) (next_value _ last wraps d ts),
      )
]

-- A timestamp that is up to 0x0fffffff before the last one kept, modulo 2 ^ 32, is unwrapped to just
-- that earlier time. It is kept if it lies in the same 2 ^ 32, and else the handler stays as it was.
pub unwrap_earlier :
    (last wraps d : ℕ)
    → last < 2 ^ 32
    → 0 < d
    → d ≤ 0x0fffffff
    → let ts = (last + 2 ^ 32 - d) % 2 ^ 32 in
      let h : TimestampWrapAroundHandler = record { last_ts = last; num_wrap = pos wraps } in
      ((d ≤ last) × (unwrap ts h ≡ (reference last wraps -ℤ pos d, record h { last_ts = ts })))
      ⊎ ((last < d) × (unwrap ts h ≡ (reference last wraps -ℤ pos d, h)))
unfolding accept
unwrap_earlier last wraps d p z q = elim (dec_lt last d) [
  | no h ↦
      let ts : (last + 2 ^ 32 - d) % 2 ^ 32 + d ≡ last = omega arith in
      inl (
        omega arith,
        kept_same _ last wraps
              (inl (lower _ last (omega (arith, ts)), neither _ last (omega (arith, ts)) p))
            ∙ ap (λ v. (v, record { last_ts = (last + 2 ^ 32 - d) % 2 ^ 32; num_wrap = pos wraps }))
                (earlier_value _ last wraps d ts),
      )
  | yes h ↦
      let ts : (last + 2 ^ 32 - d) % 2 ^ 32 + d ≡ last + 2 ^ 32 = omega arith in
      inr (
        h,
        kept_none _ last wraps (no_lower _ last (omega (arith, ts)))
              (far _ last (omega (arith, ts)))
            ∙ ap (λ v. (v, record { last_ts = last; num_wrap = pos wraps }))
                (previous_value _ last wraps d ts),
      )
]
