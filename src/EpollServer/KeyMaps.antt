-- ===== src/EpollServer/KeyMaps.antt =====
-- The two maps of dispatchers and keys of PhysicalSocketServer (rtc_base/physical_socket_server.cc).
use tqlib.Prelude.{
  ℕ, suc, ◌+◌, ◌^◌, ◌<◌, ◌≡◌, refl, sym, ap, ◌∙◌, subst, ◌⊎◌, inl, inr, true, false, Option, none,
  some, ◌==◌, ==_iff, Bool-cases, Option-cases, arith,
}
use tqlib.EpollServer.{put, emplace, next_key}

eq_self : (d : ℕ) → (d == d) ≡ true
eq_self d = ground arith

pub put_same {ℓ} : {A : Type ℓ} (f : ℕ → A) (k : ℕ) (v : A) → put f k v k ≡ v
put_same f k v = rw (eq_self k) refl

pub put_other {ℓ} :
    {A : Type ℓ} (f : ℕ → A) (k g : ℕ) (v : A) → (g == k) ≡ false → put f k v g ≡ f g
put_other f k g v n = rw n refl

pub emplace_fresh : (f : ℕ → Option ℕ) (k v : ℕ) → f k ≡ none → emplace f k v ≡ put f k (some v)
emplace_fresh f k v h = rw (h, emplace) refl

pub emplace_other : (f : ℕ → Option ℕ) (k v g : ℕ) → (g == k) ≡ false → emplace f k v g ≡ f g
emplace_other f k v g n = elim (Option-cases (f k)) [
  | inl h ↦ rw (h, emplace) (put_other f k g (some v) n)
  | inr (w, h) ↦ rw (h, emplace) refl
]

-- A key that does not wrap around.
pub next_key_lem : (k : ℕ) → k + 1 < 2 ^ 64 → next_key k ≡ suc k
next_key_lem k h = omega arith

pub put-cases :
    (f : ℕ → Option ℕ) (k g : ℕ) (v : Option ℕ) (x : ℕ)
    → put f k v g ≡ some x
    → ((g == k) ≡ true) × (v ≡ some x) ⊎ ((g == k) ≡ false) × (f g ≡ some x)
put-cases f k g v x h = elim (Bool-cases (g == k)) [
  | inl t ↦ inl (t, rw t at h)
  | inr n ↦ inr (n, rw n at h)
]

-- Keys are below the next one, and the two maps are inverse to each other.
pub record IsKeyMap (next : ℕ) (by_key by_dispatcher : ℕ → Option ℕ) : Type 0 where
  pub bound : (d k : ℕ) → by_dispatcher d ≡ some k → k < next
  pub there : (d k : ℕ) → by_dispatcher d ≡ some k → by_key k ≡ some d
  pub back : (k d : ℕ) → by_key k ≡ some d → by_dispatcher d ≡ some k

pub empty-IsKeyMap : IsKeyMap 0 (λ k. none) (λ d. none)
empty-IsKeyMap = record { bound = λ d k h. cc; there = λ d k h. cc; back = λ k d h. cc }

same_value : (x y : ℕ) (o : Option ℕ) → o ≡ some x → o ≡ some y → x ≡ y
same_value x y o p q = cc

module _ {next : ℕ} {by_key by_dispatcher : ℕ → Option ℕ} (m : IsKeyMap next by_key by_dispatcher)
    (d : ℕ) where
  fresh_key : by_key next ≡ none
  fresh_key = elim (Option-cases (by_key next)) [
    | inl n ↦ n
    | inr (g, e) ↦ absurd (let b = m.bound g next (m.back next g e) in omega arith)
  ]

  put-IsKeyMap :
      by_dispatcher d ≡ none
      → IsKeyMap (suc next) (put by_key next (some d)) (put by_dispatcher d (some next))
  put-IsKeyMap absent = record {
    bound = λ g k h. elim (put-cases by_dispatcher d g (some next) k h) [
      | inl (t, e) ↦ let q = same_value next k (some next) refl e in omega (arith, q)
      | inr (n, e) ↦ omega (arith, m.bound g k e)
    ];
    there = λ g k h. elim (put-cases by_dispatcher d g (some next) k h) [
      | inl (t, e) ↦
          let q = same_value next k (some next) refl e in
          subst (λ k. put by_key next (some d) k ≡ some g) q
            (put_same by_key next (some d) ∙ ap some (sym ((==_iff g d).0 t)))
      | inr (n, e) ↦
          let b = m.bound g k e in
          put_other by_key next k (some d) (ground (arith, b)) ∙ m.there g k e
    ];
    back = λ k g h. elim (put-cases by_key next k (some d) g h) [
      | inl (t, e) ↦
          let q = same_value d g (some d) refl e in
          subst (λ g. put by_dispatcher d (some next) g ≡ some k) q
            (put_same by_dispatcher d (some next) ∙ ap some (sym ((==_iff k next).0 t)))
      | inr (n, e) ↦ elim (Bool-cases (g == d)) [
        | inl t ↦ absurd (
            let gone = subst (λ g. by_dispatcher g ≡ some k) ((==_iff g d).0 t) (m.back k g e) in
            let clash : none ≡ some k = sym absent ∙ gone in cc)
        | inr other ↦ put_other by_dispatcher d g (some next) other ∙ m.back k g e
      ]
    ];
  }

  pub added-IsKeyMap :
      next + 1 < 2 ^ 64
      → by_dispatcher d ≡ none
      → IsKeyMap (next_key next) (emplace by_key next d) (put by_dispatcher d (some next))
  added-IsKeyMap small absent =
      rw (next_key_lem next small, emplace_fresh by_key next d fresh_key) (put-IsKeyMap absent)

  pub erased-IsKeyMap :
      (key : ℕ)
      → by_dispatcher d ≡ some key
      → IsKeyMap next (put by_key key none) (put by_dispatcher d none)
  erased-IsKeyMap key e = record {
    bound = λ g k h. elim (put-cases by_dispatcher d g none k h) [
      | inl (t, q) ↦ cc
      | inr (n, q) ↦ m.bound g k q
    ];
    there = λ g k h. elim (put-cases by_dispatcher d g none k h) [
      | inl (t, q) ↦ cc
      | inr (n, q) ↦ elim (Bool-cases (k == key)) [
        | inl t ↦ absurd (
            let at_key = subst (λ k. by_key k ≡ some g) ((==_iff k key).0 t) (m.there g k q) in
            let same = same_value g d (by_key key) at_key (m.there d key e) in
            ground (arith, same, n))
        | inr other ↦ put_other by_key key k none other ∙ m.there g k q
      ]
    ];
    back = λ k g h. elim (put-cases by_key key k none g h) [
      | inl (t, q) ↦ cc
      | inr (n, q) ↦ elim (Bool-cases (g == d)) [
        | inl t ↦ absurd (
            let at_d = subst (λ g. by_dispatcher g ≡ some k) ((==_iff g d).0 t) (m.back k g q) in
            let same = same_value k key (by_dispatcher d) at_d e in ground (arith, same, n))
        | inr other ↦ put_other by_dispatcher d g none other ∙ m.back k g q
      ]
    ];
  }
