-- ===== src/TaskQueue/Invariant.antt =====
-- The invariant of the state that TaskQueueStdlib guards by `pending_lock_`, and that PostTask,
-- PostDelayedTask, Delete and GetNextTask keep it.
use tqlib.Prelude.{
  ℕ, ◌+◌, ◌^◌, ◌≤◌, ◌<◌, ◌≡◌, List, [], ◌∷◌, ◌++◌, arith, All, All-imp, All-zip, All-append,
}
use tqlib.Prelude.Int.{ℤ}
use tqlib.TaskQueue.{
  TaskQueue, DelayedEntryTimeout, next_order, post_task, post_at, post_delayed_task,
}
use tqlib.TaskQueue.Delayed.{IsSorted, IsFresh, assign-All, assign-IsSorted}

-- The orders ascend from front to back.
abbrev pub IsAscending {ℓ} : {Task : Type ℓ} → List (ℕ × Task) → Type 0
IsAscending [] = Unit
IsAscending ((o, t) ∷ r) = All (λ p. o < p.0) r × IsAscending r

pub record IsValid {ℓ} {Task : Type ℓ} (q : TaskQueue Task) : Type 0 where
  pub pending_ascending : IsAscending q.pending_queue
  pub delayed_sorted : IsSorted q.delayed_queue
  pub pending_issued : All (λ p. p.0 ≤ q.thread_posting_order) q.pending_queue
  pub delayed_issued : All (λ e. e.0.order ≤ q.thread_posting_order) q.delayed_queue
  pub apart : All (λ p. IsFresh p.0 q.delayed_queue) q.pending_queue

-- The order that the next post takes is new: the counter has not come round.
abbrev pub HasRoom {ℓ} : {Task : Type ℓ} → TaskQueue Task → Type 0
HasRoom q = q.thread_posting_order + 1 < 2 ^ 64

module _ {ℓ} {Task : Type ℓ} where
  pub next_order_lem : (q : TaskQueue Task) → HasRoom q → next_order q ≡ q.thread_posting_order + 1
  unfolding next_order
  next_order_lem q h = omega arith

  IsAscending-snoc :
      (xs : List (ℕ × Task)) (o : ℕ) (t : Task)
      → All (λ p. p.0 < o) xs
      → IsAscending xs
      → IsAscending (xs ++ (o, t) ∷ [])
  IsAscending-snoc [] o t b a = (tt, tt)
  IsAscending-snoc ((n, u) ∷ xs) o t (lt, b) (l, a) =
      (All-append (λ p. n < p.0) xs ((o, t) ∷ []) l (lt, tt), IsAscending-snoc xs o t b a)

  -- `PostTask` keeps the invariant, as long as the order counter has not come round.
  pub post_task-IsValid :
      (t : Task) {q : TaskQueue Task} → HasRoom q → IsValid q → IsValid (post_task t q)
  unfolding post_task
  post_task-IsValid t {q} room v = record {
    pending_ascending =
        IsAscending-snoc _ _ t (All-imp _ _ _ (λ p h. omega (arith, fresh)) v.pending_issued)
          v.pending_ascending;
    delayed_sorted = v.delayed_sorted;
    pending_issued =
        All-append _ q.pending_queue _
          (All-imp _ _ _ (λ p h. omega (arith, fresh)) v.pending_issued) (omega arith, tt);
    delayed_issued = All-imp _ _ _ (λ e h. omega (arith, fresh)) v.delayed_issued;
    apart =
        All-append _ q.pending_queue _ v.apart
          (All-imp _ _ _ (λ e h. omega (arith, fresh)) v.delayed_issued, tt);
  }
    where
      fresh : next_order q ≡ q.thread_posting_order + 1
      fresh = next_order_lem q room

  pub next_order-IsFresh :
      {q : TaskQueue Task} → HasRoom q → IsValid q → IsFresh (next_order q) q.delayed_queue
  next_order-IsFresh {q} room v =
      All-imp _ _ _ (λ e h. omega (arith, next_order_lem q room)) v.delayed_issued

  -- A post of a delayed task keeps the invariant, whatever its time.
  pub post_at-IsValid :
      (t : Task) (fire_at : ℤ) {q : TaskQueue Task}
      → HasRoom q
      → IsValid q
      → IsValid (post_at t fire_at q)
  unfolding post_at
  post_at-IsValid t fire_at {q} room v = record {
    pending_ascending = v.pending_ascending;
    delayed_sorted = assign-IsSorted _ t _ (next_order-IsFresh room v) v.delayed_sorted;
    pending_issued = All-imp _ _ _ (λ p h. omega (arith, fresh)) v.pending_issued;
    delayed_issued =
        assign-All _ _ t _ (omega arith)
          (All-imp _ _ _ (λ p h. omega (arith, fresh)) v.delayed_issued);
    apart =
        All-imp _ _ _ (λ p h. assign-All _ _ t _ (omega (arith, fresh, h.0)) h.1)
          (All-zip _ _ _ v.pending_issued v.apart);
  }
    where
      fresh : next_order q ≡ q.thread_posting_order + 1
      fresh = next_order_lem q room

  -- `PostDelayedTask` keeps the invariant, as long as the order counter has not come round.
  pub post_delayed_task-IsValid :
      (t : Task) (delay now : ℤ) {q : TaskQueue Task}
      → HasRoom q
      → IsValid q
      → IsValid (post_delayed_task t delay now q)
  unfolding post_delayed_task
  post_delayed_task-IsValid t delay now room v = post_at-IsValid t _ room v

  -- Taking the front of the pending queue keeps the invariant.
  pub drop_pending-IsValid :
      {q : TaskQueue Task} (p : ℕ × Task) (r : List (ℕ × Task))
      → q.pending_queue ≡ p ∷ r
      → IsValid q
      → IsValid (record q { pending_queue = r })
  drop_pending-IsValid {q} p r e v = record {
    pending_ascending = (rw e at v.pending_ascending).1;
    delayed_sorted = v.delayed_sorted;
    pending_issued = (rw e at v.pending_issued).1;
    delayed_issued = v.delayed_issued;
    apart = (rw e at v.apart).1;
  }

  -- Taking the first entry of the delayed queue keeps the invariant.
  pub drop_delayed-IsValid :
      {q : TaskQueue Task} (e : DelayedEntryTimeout × Task) (m : List (DelayedEntryTimeout × Task))
      → q.delayed_queue ≡ e ∷ m
      → IsValid q
      → IsValid (record q { delayed_queue = m })
  drop_delayed-IsValid {q} e m eq v = record {
    pending_ascending = v.pending_ascending;
    delayed_sorted = (rw eq at v.delayed_sorted).1;
    pending_issued = v.pending_issued;
    delayed_issued = (rw eq at v.delayed_issued).1;
    apart = All-imp _ _ _ (λ p h. (rw eq at h).1) v.apart;
  }
