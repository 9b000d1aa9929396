-- ===== src/Thread/Due.antt =====
-- The delayed messages of rtc::Thread in the order in which they are delivered, and the loop of `Get`
-- that moves those whose time has come (thread.cc and thread.h).
use mathlib.Core.List.{Perm}
use mathlib.Core.List.Perm
use tqlib.Prelude.{
  ◌≡◌, refl, ap, ◌∙◌, sym, inl, inr, Bool-cases, true, false, Option, none, some, List, [], ◌∷◌,
  ◌++◌, map, append_assoc, append-nil, arith, All, All-imp,
}
use tqlib.Prelude.Int.{ℤ, ◌-ℤ◌, ◌≤ℤ◌, ◌<ℤ◌, ltb_ℤ}
use tqlib.Thread.{DelayedMessage, delayed_lt, push, move_due}

module _ {ℓ} {Task : Type ℓ} where
  delayed_lt_asym : (a b : DelayedMessage Task) → delayed_lt a b ≡ true → delayed_lt b a ≡ false
  unfolding delayed_lt
  delayed_lt_asym a b h = ground arith

  delayed_lt_neg_trans :
      (a b c : DelayedMessage Task)
      → delayed_lt a b ≡ false
      → delayed_lt b c ≡ false
      → delayed_lt a c ≡ false
  unfolding delayed_lt
  delayed_lt_neg_trans a b c h k = ground arith

  -- No message stands before one that is to be delivered earlier.
  abbrev pub IsOrdered : List (DelayedMessage Task) → Type 0
  IsOrdered [] = Unit
  IsOrdered (d ∷ ds) = All (λ e. delayed_lt d e ≡ false) ds × IsOrdered ds

  push-All :
      (P : DelayedMessage Task → Type 0) (d : DelayedMessage Task) (ds : List (DelayedMessage Task))
      → P d
      → All P ds
      → All P (push d ds)
  unfolding push
  push-All P d [] p h = (p, tt)
  push-All P d (k ∷ ds) p (q, h) = elim (Bool-cases (delayed_lt k d)) [
    | inl lt ↦ rw lt (p, (q, h))
    | inr ge ↦ rw ge (q, push-All P d ds p h)
  ]

  pub push-IsOrdered :
      (d : DelayedMessage Task) (ds : List (DelayedMessage Task))
      → IsOrdered ds
      → IsOrdered (push d ds)
  unfolding push
  push-IsOrdered d [] s = (tt, tt)
  push-IsOrdered d (k ∷ ds) (a, s) = elim (Bool-cases (delayed_lt k d)) [
    | inl lt ↦
        let before = delayed_lt_asym k d lt in
        rw lt ((before, All-imp _ _ ds (λ e h. delayed_lt_neg_trans d k e before h) a), (a, s))
    | inr ge ↦ rw ge (push-All _ d ds ge a, push-IsOrdered d ds s)
  ]

  pub push-perm :
      (d : DelayedMessage Task) (ds : List (DelayedMessage Task)) → Perm (push d ds) (d ∷ ds)
  unfolding push
  push-perm d [] = Perm.refl _
  push-perm d (k ∷ ds) = elim (Bool-cases (delayed_lt k d)) [
    | inl lt ↦ rw lt (Perm.refl _)
    | inr ge ↦ rw ge (Perm.trans (Perm.cons k (push-perm d ds)) (Perm.swap _ _ _))
  ]

  abbrev pub functors : List (DelayedMessage Task) → List Task
  functors ds = map (λ (d : DelayedMessage Task). d.functor) ds

  -- The time from `now` until the first of the delayed messages.
  abbrev pub next_time : ℤ → List (DelayedMessage Task) → Option ℤ
  next_time now [] = none
  next_time now (d ∷ ds) = some (d.run_time_ms -ℤ now)

  -- The delayed messages are split in two: those whose time has come, and the later ones.
  pub record IsSplit (now : ℤ) (ds due later : List (DelayedMessage Task)) : Type ℓ where
    pub split : ds ≡ due ++ later
    pub has_come : All (λ (d : DelayedMessage Task). d.run_time_ms ≤ℤ now) due
    pub is_later : All (λ (d : DelayedMessage Task). now <ℤ d.run_time_ms) later

  all_later :
      (now : ℤ) (d : DelayedMessage Task) (ds : List (DelayedMessage Task))
      → now <ℤ d.run_time_ms
      → All (λ e. delayed_lt d e ≡ false) ds
      → All (λ (e : DelayedMessage Task). now <ℤ e.run_time_ms) ds
  unfolding delayed_lt
  all_later now d ds h a = All-imp _ _ ds (λ e k. ground arith) a

  pub move_due_correct :
      (now : ℤ) (ds : List (DelayedMessage Task)) (messages : List Task)
      → IsOrdered ds
      → let (next, later, messages') = move_due now ds messages in
        (due : List (DelayedMessage Task)) × IsSplit now ds due later
        × (messages' ≡ messages ++ functors due)
        × (next ≡ next_time now later)
  unfolding move_due
  move_due_correct now [] messages s =
      ([], record { split = refl; has_come = tt; is_later = tt }, sym (append-nil messages), refl)
  move_due_correct now (d ∷ ds) messages (a, s) = elim (Bool-cases (ltb_ℤ now d.run_time_ms)) [
    | inl lt ↦ rw lt (
      [],
      record {
        split = refl;
        has_come = tt;
        is_later = (ground arith, all_later now d ds (ground arith) a);
      },
      sym (append-nil messages),
      refl,
    )
    | inr ge ↦
        let (due, c, m, n) = move_due_correct now ds (messages ++ d.functor ∷ []) s in
        rw ge (
          d ∷ due,
          record {
            split = ap (λ r. d ∷ r) c.split;
            has_come = (ground arith, c.has_come);
            is_later = c.is_later;
          },
          m ∙ append_assoc messages _ _,
          n,
        )
  ]

  pub IsOrdered-suffix : (xs ys : List (DelayedMessage Task)) → IsOrdered (xs ++ ys) → IsOrdered ys
  IsOrdered-suffix [] ys s = s
  IsOrdered-suffix (x ∷ xs) ys (a, s) = IsOrdered-suffix xs ys s
