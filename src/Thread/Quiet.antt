-- ===== src/Thread/Quiet.antt =====
-- Quiet rounds of `Get` of rtc::Thread, and what it does about the delayed messages in them (thread.cc).
use tqlib.Prelude.{
  ◌≡◌, refl, ap, ◌∙◌, sym, inl, inr, Bool-cases, true, false, none, some, List, [], ◌∷◌, ◌++◌,
  arith, All, Any, Any-All, subst,
}
use tqlib.Prelude.Int.{ℤ, ◌+ℤ◌, ◌-ℤ◌, ◌≤ℤ◌, ◌<ℤ◌}
use tqlib.Thread.{
  DelayedMessage, Thread, Event, post, post_delayed, quit, restart, Round, apply, apply_all,
  post_task, post_delayed_task, set_stop, push, delayed_lt, pull,
}
use tqlib.Thread.Due.{IsOrdered, functors, next_time}
use tqlib.Thread.Delivery.{first, apply_stop, IsPulled, pull_correct}

module _ {ℓ} {Task : Type ℓ} where
  abbrev pub HasCome : ℤ → DelayedMessage Task → Type 0
  HasCome now d = d.run_time_ms ≤ℤ now

  abbrev pub NoQuit : List (Event Task) → Type 0
  NoQuit [] = Unit
  NoQuit (post t ∷ es) = NoQuit es
  NoQuit (post_delayed t delay now ∷ es) = NoQuit es
  NoQuit (quit ∷ es) = ⊥
  NoQuit (restart ∷ es) = NoQuit es

  -- A round in which the wait succeeds and nobody quits, and a wait with a limit that comes by `time` is
  -- over at some time, early or late. Nothing is said of another wait, which may be without an end.
  pub record IsQuiet (time : ℤ) (r : Round Task) : Type 0 where
    pub ends :
        (now n : ℤ) → now +ℤ n ≤ℤ time → (later : ℤ) × (r.time_after now (some n) ≡ some later)
    pub succeeds : r.wait_ok ≡ true
    pub before_ok : NoQuit r.before
    pub during_ok : NoQuit r.during

  push-Any :
      (P : DelayedMessage Task → Type 0) (d : DelayedMessage Task) (ds : List (DelayedMessage Task))
      → Any P ds
      → Any P (push d ds)
  unfolding push
  push-Any P d [] h = absurd h
  push-Any P d (k ∷ ds) (inl p) = elim (Bool-cases (delayed_lt k d)) [
    | inl lt ↦ rw lt (inr (inl p))
    | inr ge ↦ rw ge (inl p)
  ]
  push-Any P d (k ∷ ds) (inr h) = elim (Bool-cases (delayed_lt k d)) [
    | inl lt ↦ rw lt (inr (inr h))
    | inr ge ↦ rw ge (inr (push-Any P d ds h))
  ]

  apply-Any :
      (P : DelayedMessage Task → Type 0) (e : Event Task) (q : Thread Task)
      → Any P q.delayed_messages
      → Any P (apply e q).delayed_messages
  unfolding apply post_task post_delayed_task set_stop
  apply-Any P (post t) q h = elim (Bool-cases q.stop) [ inl e ↦ rw e h | inr e ↦ rw e h ]
  apply-Any P (post_delayed t delay now) q h = elim (Bool-cases q.stop) [
    | inl e ↦ rw e h
    | inr e ↦ rw e (push-Any P _ q.delayed_messages h)
  ]
  apply-Any P quit q h = h
  apply-Any P restart q h = h

  pub apply_all-Any :
      (P : DelayedMessage Task → Type 0) (es : List (Event Task)) (q : Thread Task)
      → Any P q.delayed_messages
      → Any P (apply_all es q).delayed_messages
  unfolding apply_all
  apply_all-Any P [] q h = h
  apply_all-Any P (e ∷ es) q h = apply_all-Any P es _ (apply-Any P e q h)

  pub apply_all_runs :
      (es : List (Event Task)) (q : Thread Task)
      → NoQuit es
      → q.stop ≡ false
      → (apply_all es q).stop ≡ false
  unfolding apply_all
  apply_all_runs [] q n s = s
  apply_all_runs (post t ∷ es) q n s = apply_all_runs es _ n (apply_stop (post t) q ∙ s)
  apply_all_runs (post_delayed t delay now ∷ es) q n s =
      apply_all_runs es _ n (apply_stop (post_delayed t delay now) q ∙ s)
  apply_all_runs (quit ∷ es) q n s = absurd n
  apply_all_runs (restart ∷ es) q n s = apply_all_runs es _ n (apply_stop restart q)

  split-Any :
      (now : ℤ) (due later : List (DelayedMessage Task))
      → All (λ (d : DelayedMessage Task). now <ℤ d.run_time_ms) later
      → Any (HasCome now) (due ++ later)
      → (d : DelayedMessage Task) × (ds : List (DelayedMessage Task)) × (due ≡ d ∷ ds)
  split-Any now [] later a h = absurd (Any-All _ _ ⊥ later (λ d k l. omega arith) a h)
  split-Any now (d ∷ ds) later a h = (d, ds, refl)

  first_some :
      (m : List Task) (t : Task) (ts : List Task) → (u : Task) × (first (m ++ t ∷ ts) ≡ some u)
  first_some [] t ts = (t, refl)
  first_some (u ∷ m) t ts = (u, refl)

  -- A message whose time has come makes `pull` return a task.
  pub pull_due :
      (now : ℤ) (q : Thread Task)
      → IsOrdered q.delayed_messages
      → Any (HasCome now) q.delayed_messages
      → (t : Task) × ((pull now q).1 ≡ some t)
  pull_due now q s h =
      let p = pull_correct now q s in
      let (d, ds, e) =
        split-Any now p.due p.later p.split.is_later
          (subst (λ l. Any (HasCome now) l) p.split.split h) in
      let (t, f) = first_some q.messages d.functor (functors ds) in (t, rw p.pulled (rw e f))

  first_none :
      (m : List Task) (ds : List (DelayedMessage Task)) → first (m ++ functors ds) ≡ none → ds ≡ []
  first_none m [] e = refl
  first_none m (d ∷ ds) e =
      let (t, f) = first_some m d.functor (functors ds) in ground (arith, e, f)

  all_later :
      (now : ℤ) (q : Thread Task) (p : IsPulled now q)
      → (pull now q).1 ≡ none
      → q.delayed_messages ≡ p.later
  all_later now q p e =
      let none_due = first_none q.messages p.due (rw p.pulled at e) in
      p.split.split ∙ ap (λ ds. ds ++ p.later) none_due

  pub pull_idle :
      (now : ℤ) (q : Thread Task)
      → IsOrdered q.delayed_messages
      → (pull now q).1 ≡ none
      → (pull now q).2.delayed_messages ≡ q.delayed_messages
  pull_idle now q s e =
      let p = pull_correct now q s in
      ap (λ r. r.2.delayed_messages) p.pulled ∙ sym (all_later now q p e)

  earliest :
      (time : ℤ) (ds : List (DelayedMessage Task))
      → IsOrdered ds
      → Any (HasCome time) ds
      → (d : DelayedMessage Task) × (later : List (DelayedMessage Task)) × (ds ≡ d ∷ later)
        × HasCome time d
  unfolding delayed_lt
  earliest time [] s h = absurd h
  earliest time (d ∷ ds) s (inl h) = (d, ds, refl, h)
  earliest time (d ∷ ds) (a, s) (inr h) =
      (d, ds, refl, Any-All _ _ (HasCome time d) ds (λ e k l. ground arith) a h)

  -- The time for which an idle `pull` asks is that until the earliest message.
  pub first_waiting :
      (time now : ℤ) (q : Thread Task)
      → IsOrdered q.delayed_messages
      → Any (HasCome time) q.delayed_messages
      → (pull now q).1 ≡ none
      → (d : DelayedMessage Task) × ((pull now q).0 ≡ some (d.run_time_ms -ℤ now))
        × HasCome time d
        × Any (HasCome d.run_time_ms) q.delayed_messages
  first_waiting time now q s h e =
      let p = pull_correct now q s in
      let (d, later, first_of, early) = earliest time q.delayed_messages s h in
      (
        d,
        ap (λ r. r.0) p.pulled ∙ ap (next_time now) (sym (all_later now q p e) ∙ first_of),
        early,
        rw first_of (inl (omega arith)),
      )
