-- ===== src/TaskQueue/Conserve.antt =====
-- No task of TaskQueueStdlib is lost, made twice or made up: PostTask and PostDelayedTask add one
-- entry, and GetNextTask takes away the one that it runs.
use mathlib.Core.List.{Perm, perm_middle}
use mathlib.Core.List.Perm
use tqlib.Prelude.{
  ℕ, ◌≡◌, refl, ap, ◌⊎◌, inl, inr, Bool-cases, true, none, some, List, ◌∷◌, ◌++◌, map, append_assoc,
}
use tqlib.Prelude.Int.{ℤ}
use tqlib.TaskQueue.{
  TaskQueue, DelayedEntryTimeout, next_order, post_task, post_at, post_delayed_task, get_next_task,
}
use tqlib.TaskQueue.Delayed.{assign-perm}
use tqlib.TaskQueue.Invariant.{
  IsValid, HasRoom, next_order-IsFresh, drop_pending-IsValid, drop_delayed-IsValid,
}
use tqlib.TaskQueue.Choice.{get_next_task_choice}

-- The tasks of a queue with their orders, the pending ones first.
abbrev pub entries {ℓ} : {Task : Type ℓ} → TaskQueue Task → List (ℕ × Task)
entries q = q.pending_queue ++ map (λ e. (e.0.order, e.1)) q.delayed_queue

module _ {ℓ} {Task : Type ℓ} where
  -- `PostTask` adds exactly its task, under the next order.
  pub post_task-perm :
      (t : Task) (q : TaskQueue Task)
      → Perm (entries (post_task t q)) ((next_order q, t) ∷ entries q)
  unfolding post_task
  post_task-perm t q = rw append_assoc (perm_middle q.pending_queue _)

  -- `PostDelayedTask` adds exactly its task, under the next order: it replaces no entry.
  pub post_delayed_task-perm :
      (t : Task) (delay now : ℤ) {q : TaskQueue Task}
      → HasRoom q
      → IsValid q
      → Perm (entries (post_delayed_task t delay now q)) ((next_order q, t) ∷ entries q)
  unfolding post_delayed_task post_at
  post_delayed_task-perm t delay now {q} room v =
      Perm.trans
        (Perm.append_left q.pending_queue
          (Perm.map _ (assign-perm _ t q.delayed_queue (next_order-IsFresh room v))))
        (perm_middle q.pending_queue _)

  -- When the thread is to quit, GetNextTask touches nothing.
  pub get_next_task-quit :
      (tick : ℤ) (q : TaskQueue Task)
      → q.thread_should_quit ≡ true
      → let (r, q') = get_next_task tick q in (r.final_task ≡ true) × (r.run_task ≡ none) × (q' ≡ q)
  unfolding get_next_task
  get_next_task-quit tick q e = rw e (refl, refl, refl)

  -- GetNextTask keeps the invariant.
  pub get_next_task-IsValid :
      (tick : ℤ) (q : TaskQueue Task) → IsValid q → IsValid (get_next_task tick q).1
  get_next_task-IsValid tick q v = elim (Bool-cases q.thread_should_quit) [
    | inl e ↦ rw (get_next_task-quit tick q e).2 v
    | inr e ↦ elim (get_next_task_choice tick q v e) [
      | inl idle ↦ rw idle.unchanged v
      | inr (inl (p, c)) ↦ rw c.state (drop_pending-IsValid p _ c.front v)
      | inr (inr (d, c)) ↦ rw c.state (drop_delayed-IsValid d _ c.first v)
    ]
  ]

  pub entries_front :
      (q q' : TaskQueue Task) (p : ℕ × Task)
      → q.pending_queue ≡ p ∷ q'.pending_queue
      → q' ≡ record q { pending_queue = q'.pending_queue }
      → Perm (entries q) (p ∷ entries q')
  entries_front q q' p e same =
      let ds : q'.delayed_queue ≡ q.delayed_queue =
        ap (λ (r : TaskQueue Task). r.delayed_queue) same in
      rw (e, ds) (Perm.refl _)

  pub entries_first :
      (q q' : TaskQueue Task) (d : DelayedEntryTimeout × Task)
      → q.delayed_queue ≡ d ∷ q'.delayed_queue
      → q' ≡ record q { delayed_queue = q'.delayed_queue }
      → Perm (entries q) ((d.0.order, d.1) ∷ entries q')
  entries_first q q' d e same =
      let ps : q'.pending_queue ≡ q.pending_queue =
        ap (λ (r : TaskQueue Task). r.pending_queue) same in
      rw (e, ps) (perm_middle q.pending_queue _)

  -- Where GetNextTask returns a task, that task and what is left are what was queued.
  -- Where it returns none, the queue is as it was.
  pub get_next_task-perm :
      (tick : ℤ) (q : TaskQueue Task)
      → IsValid q
      → let (r, q') = get_next_task tick q in
        ((r.run_task ≡ none) × (q' ≡ q))
        ⊎ ((p : ℕ × Task) × (r.run_task ≡ some p.1) × Perm (entries q) (p ∷ entries q'))
  get_next_task-perm tick q v = elim (Bool-cases q.thread_should_quit) [
    | inl e ↦ inl ((get_next_task-quit tick q e).1, (get_next_task-quit tick q e).2)
    | inr e ↦ elim (get_next_task_choice tick q v e) [
      | inl idle ↦ inl (idle.no_task, idle.unchanged)
      | inr (inl (p, c)) ↦ inr (p, c.runs, entries_front q _ p c.front c.state)
      | inr (inr (d, c)) ↦ inr ((d.0.order, d.1), c.runs, entries_first q _ d c.first c.state)
    ]
  ]
