-- ===== src/TaskQueue/Process.antt =====
-- ProcessTasks of task_queue_stdlib.cc, up to where the worker waits or leaves its loop. What a task
-- does to the queue, by posting, is a parameter; `clock i` is the time that the i-th call of
-- GetNextTask reads.
use mathlib.Core.List.{Perm}
use mathlib.Core.List.Perm
use tqlib.Prelude.{
  ℕ, zero, suc, ◌+◌, ◌<◌, ◌≡◌, refl, sym, subst, ap, ◌∙◌, inl, inr, false, Option, none, some, List,
  [], ◌∷◌, ◌++◌, map, arith, All, length, if◌then◌else◌,
}
use tqlib.Prelude.Int.{ℤ}
use tqlib.TaskQueue.{TaskQueue, NextTask, get_next_task}
use tqlib.TaskQueue.Invariant.{IsValid}
use tqlib.TaskQueue.Choice.{IsIdle, IsEarly, SleepFits, get_next_task_choice}
use tqlib.TaskQueue.Conserve.{entries, get_next_task-IsValid, entries_front, entries_first}

-- How the loop comes to rest.
pub data Rest : Type 0 where
  quit : Rest
  waiting : Option ℕ → Rest
  out_of_fuel : Rest

module _ {ℓ} {Task : Type ℓ} where
  -- One pass of the loop body, with what the passes after it give.
  abbrev process_next :
      NextTask Task
      → TaskQueue Task
      → List Task × Rest × TaskQueue Task
      → List Task × Rest × TaskQueue Task
  process_next next q rest = if next.final_task then ([], quit, q) else elim next.run_task [
    | some t ↦ (t ∷ rest.0, rest.1, rest.2)
    | none ↦ ([], waiting next.sleep_time, q)
  ]

  abbrev run_task_of :
      (Task → TaskQueue Task → TaskQueue Task) → Option Task → TaskQueue Task → TaskQueue Task
  run_task_of run none q = q
  run_task_of run (some t) q = run t q

  -- `ProcessTasks`: the tasks that it runs, in order, how it comes to rest, and the queue then.
  unfoldable pub process_tasks :
      (Task → TaskQueue Task → TaskQueue Task)
      → ℕ
      → (ℕ → ℤ)
      → TaskQueue Task
      → List Task × Rest × TaskQueue Task
  process_tasks run zero clock q = ([], out_of_fuel, q)
  process_tasks run (suc fuel) clock q =
      let (next, q') = get_next_task (clock 0) q in
      let rest = process_tasks run fuel (λ i. clock (suc i)) (run_task_of run next.run_task q') in
      process_next next q' rest

  abbrev pub size : TaskQueue Task → ℕ
  size q = length q.pending_queue + length q.delayed_queue

  abbrev pub tasks : TaskQueue Task → List Task
  tasks q = map (λ p. p.1) (entries q)

  -- The loop waits, and at the time that its last call of GetNextTask reads, the one after a call for
  -- each task that it ran, nothing is pending or due and the sleep fits. What it ran with what is left
  -- is what there was.
  pub record Settles (clock : ℕ → ℤ) (q : TaskQueue Task) (r : List Task × Rest × TaskQueue Task)
      : Type ℓ where
    pub sleep : Option ℕ
    pub waits : r.1 ≡ waiting sleep
    pub nothing_pending : r.2.pending_queue ≡ []
    pub all_early : All (IsEarly (clock (length r.0))) r.2.delayed_queue
    pub sleep_fits : SleepFits (clock (length r.0)) r.2.delayed_queue sleep
    pub same_tasks : Perm (tasks q) (r.0 ++ tasks r.2)

module _ {ℓ} {Task : Type ℓ} where
  settle_idle :
      (clock : ℕ → ℤ) (q : TaskQueue Task) (r : NextTask Task × TaskQueue Task)
      (rest : List Task × Rest × TaskQueue Task)
      → IsIdle (clock 0) q r
      → Settles clock q (process_next r.0 r.1 rest)
  settle_idle clock q r rest idle =
      rw (idle.not_final, idle.no_task, idle.unchanged)
        (record {
          sleep = r.0.sleep_time;
          waits = refl;
          nothing_pending = idle.nothing_pending;
          all_early = idle.all_early;
          sleep_fits = idle.sleep_fits;
          same_tasks = Perm.refl _;
        })

  settle_run :
      (clock : ℕ → ℤ) (q : TaskQueue Task) (r : NextTask Task × TaskQueue Task)
      (rest : List Task × Rest × TaskQueue Task) (o : ℕ) (t : Task)
      → r.0.final_task ≡ false
      → r.0.run_task ≡ some t
      → Perm (entries q) ((o, t) ∷ entries r.1)
      → Settles (λ i. clock (suc i)) r.1 rest
      → Settles clock q (process_next r.0 r.1 rest)
  settle_run clock q r rest o t nf runs same s =
      rw (nf, runs)
        (record {
          sleep = s.sleep;
          waits = s.waits;
          nothing_pending = s.nothing_pending;
          all_early = s.all_early;
          sleep_fits = s.sleep_fits;
          same_tasks = Perm.trans (Perm.map (λ p. p.1) same) (Perm.cons t s.same_tasks);
        })

  quit_kept :
      (q q' r : TaskQueue Task)
      → q' ≡ r
      → r.thread_should_quit ≡ q.thread_should_quit
      → q.thread_should_quit ≡ false
      → q'.thread_should_quit ≡ false
  quit_kept q q' r e k h = ap (λ (x : TaskQueue Task). x.thread_should_quit) e ∙ k ∙ h

module _ {ℓ} {Task : Type ℓ} (run : Task → TaskQueue Task → TaskQueue Task)
    (inert : (t : Task) (q : TaskQueue Task) → run t q ≡ q) where
  -- In a valid queue that is not being deleted, if the tasks leave the queue alone, the loop stops
  -- within as many rounds as there are tasks and one more. At the time that it reads after the last
  -- task, which is the reading that follows one for each task that it ran, nothing is pending or due
  -- and the sleep fits. It has run each task that is no longer queued exactly once.
  pub process_tasks-Settles :
      (fuel : ℕ) (clock : ℕ → ℤ) (q : TaskQueue Task)
      → IsValid q
      → q.thread_should_quit ≡ false
      → size q < fuel
      → Settles clock q (process_tasks run fuel clock q)
  unfolding process_tasks
  process_tasks-Settles zero clock q v e h = absurd (omega arith)
  process_tasks-Settles (suc fuel) clock q v e h = elim (get_next_task_choice (clock 0) q v e) [
    | inl idle ↦ settle_idle clock q _ _ idle
    | inr (inl (p, c)) ↦
        settle_run clock q _ _ p.0 p.1 c.not_final c.runs (entries_front q _ p c.front c.state) (
          rw (c.runs, run_task_of, inert)
            (process_tasks-Settles fuel (λ i. clock (suc i)) (get_next_task (clock 0) q).1
              (get_next_task-IsValid (clock 0) q v) (quit_kept q _ _ c.state refl e)
              (omega (
                arith,
                ap length c.front,
                ap (λ (r : TaskQueue Task). length r.delayed_queue) c.state,
              ))))
    | inr (inr (d, c)) ↦
        settle_run clock q _ _ d.0.order d.1 c.not_final c.runs
          (entries_first q _ d c.first c.state)
          (rw (c.runs, run_task_of, inert)
            (process_tasks-Settles fuel (λ i. clock (suc i)) (get_next_task (clock 0) q).1
              (get_next_task-IsValid (clock 0) q v) (quit_kept q _ _ c.state refl e)
              (omega (
                arith,
                ap length c.first,
                ap (λ (r : TaskQueue Task). length r.pending_queue) c.state,
              ))))
  ]

  process_fifo :
      (fuel : ℕ) (clock : ℕ → ℤ) (n : ℕ) (ps : List (ℕ × Task))
      → length ps < fuel
      → let q = λ (rest : List (ℕ × Task)).
        let r : TaskQueue Task = record {
          thread_should_quit = false;
          thread_posting_order = n;
          pending_queue = rest;
          delayed_queue = [];
        } in
        r in
        process_tasks run fuel clock (q ps) ≡ (map (λ p. p.1) ps, waiting none, q [])
  unfolding process_tasks get_next_task
  process_fifo zero clock n ps h = absurd (omega arith)
  process_fifo (suc fuel) clock n [] h = refl
  process_fifo (suc fuel) clock n ((o, t) ∷ ps) h =
      rw (inert, process_fifo fuel (λ i. clock (suc i)) n ps (omega arith)) refl

  -- If the tasks leave the queue alone and there is no delayed one, the loop runs the pending tasks
  -- one after another in the order in which they were posted, and then waits until it is signalled.
  pub process_tasks_fifo :
      (fuel : ℕ) (clock : ℕ → ℤ) (q : TaskQueue Task)
      → q.thread_should_quit ≡ false
      → q.delayed_queue ≡ []
      → length q.pending_queue < fuel
      → process_tasks run fuel clock q
        ≡ (map (λ p. p.1) q.pending_queue, waiting none, record q { pending_queue = [] })
  process_tasks_fifo fuel clock q e d h =
      let same : q ≡ record q { thread_should_quit = false; delayed_queue = [] } =
        λ i. record q { thread_should_quit = e i; delayed_queue = d i } in
      subst
        (λ r.
          process_tasks run fuel clock r
          ≡ (map (λ p. p.1) r.pending_queue, waiting none, record r { pending_queue = [] }))
        (sym same) (process_fifo fuel clock q.thread_posting_order q.pending_queue h)
