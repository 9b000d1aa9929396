-- ===== src/TaskQueue/Worker/Safety.antt =====
-- No signal of TaskQueueStdlib is lost and no task is lost or run twice, however the posting threads
-- and the worker interleave.
use mathlib.Core.List.{Perm, perm_middle}
use mathlib.Core.List.Perm
use tqlib.Prelude.{ℕ, ◌≡◌, inl, inr, false, Option, some, List, [], ◌∷◌, ◌++◌, arith, Bool-cases}
use tqlib.Prelude.Int.{ℤ}
use tqlib.TaskQueue.{TaskQueue, NextTask, post_task, post_delayed_task, request_quit}
use tqlib.TaskQueue.Invariant.{IsValid, post_task-IsValid, post_delayed_task-IsValid}
use tqlib.TaskQueue.Choice.{SleepFits, get_next_task_choice}
use tqlib.TaskQueue.Conserve.{
  entries, get_next_task-IsValid, get_next_task-quit, post_task-perm, post_delayed_task-perm,
  entries_front, entries_first,
}
use tqlib.TaskQueue.Process.{tasks}
use tqlib.TaskQueue.Worker.{
  Place, checking, running, sleeping, exited, System, check, proceed, Step, Reach, here, next,
  start,
}
use tqlib.TaskQueue.Worker.Step.{post, post_delayed, delete, notify, get_next, finish, wake, expire}

module _ {ℓ} {Task : Type ℓ} where
  -- The worker has seen all that is queued: nothing is pending, no one asked it to quit, and its
  -- sleep ends in time for the first delayed entry.
  pub record HasSeen (q : TaskQueue Task) (tick : ℤ) (sleep : Option ℕ) : Type ℓ where
    pub no_quit : q.thread_should_quit ≡ false
    pub no_pending : q.pending_queue ≡ []
    pub sleep_fits : SleepFits tick q.delayed_queue sleep

  abbrev SeenAt : TaskQueue Task → Place Task → Type ℓ
  SeenAt q (sleeping tick sleep) = HasSeen q tick sleep
  SeenAt q checking = Unit
  SeenAt q (running t) = Unit
  SeenAt q exited = Unit

  record IsSafe (s : System Task) : Type ℓ where
    valid : IsValid s.queue
    seen : s.flag_notify ≡ false → s.notifying ≡ 0 → SeenAt s.queue s.place
    conserved : Perm s.posted (s.started ++ tasks s.queue)

  -- A task goes from the queue to the history of those that were started.
  start_one :
      (posted started : List Task) (q q' : TaskQueue Task) (o : ℕ) (t : Task)
      → Perm posted (started ++ tasks q)
      → Perm (entries q) ((o, t) ∷ entries q')
      → Perm posted ((t ∷ started) ++ tasks q')
  start_one posted started q q' o t h k = Perm.trans h (
      Perm.trans (Perm.append_left started (Perm.map (λ p. p.1) k))
        (perm_middle started (tasks q')))

  -- A posted task joins the queue.
  post_one :
      (posted started : List Task) (q q' : TaskQueue Task) (o : ℕ) (t : Task)
      → Perm posted (started ++ tasks q)
      → Perm (entries q') ((o, t) ∷ entries q)
      → Perm (t ∷ posted) (started ++ tasks q')
  post_one posted started q q' o t h k = Perm.trans (Perm.cons t h) (
      Perm.symm (
        Perm.trans (Perm.append_left started (Perm.map (λ p. p.1) k))
          (perm_middle started (tasks q))))

  proceed-IsSafe_run :
      (tick : ℤ) (s : System Task) (r : NextTask Task × TaskQueue Task) (o : ℕ) (t : Task)
      → IsSafe s
      → IsValid r.1
      → r.0.final_task ≡ false
      → r.0.run_task ≡ some t
      → Perm (entries s.queue) ((o, t) ∷ entries r.1)
      → IsSafe (proceed tick s r.0 r.1)
  proceed-IsSafe_run tick s r o t h v nf runs k =
      rw (nf, runs)
        (record {
          valid = v;
          seen = λ _ _. tt;
          conserved = start_one s.posted s.started s.queue r.1 o t h.conserved k;
        })

  check-IsSafe : (tick : ℤ) (s : System Task) → IsSafe s → IsSafe (check tick s)
  unfolding check
  check-IsSafe tick s h = elim (Bool-cases s.queue.thread_should_quit) [
    | inl e ↦
        let (final, _, same) = get_next_task-quit tick s.queue e in
        rw (final, same) (record { valid = h.valid; seen = λ _ _. tt; conserved = h.conserved })
    | inr e ↦
        let v = get_next_task-IsValid tick s.queue h.valid in
        elim (get_next_task_choice tick s.queue h.valid e) [
          | inl idle ↦
              rw (idle.not_final, idle.no_task, idle.unchanged)
                (record {
                  valid = h.valid;
                  seen = λ _ _. record {
                    no_quit = e;
                    no_pending = idle.nothing_pending;
                    sleep_fits = idle.sleep_fits;
                  };
                  conserved = h.conserved;
                })
          | inr (inl (p, c)) ↦
              proceed-IsSafe_run tick s _ p.0 p.1 h v c.not_final c.runs
                (entries_front s.queue _ p c.front c.state)
          | inr (inr (d, c)) ↦
              proceed-IsSafe_run tick s _ d.0.order d.1 h v c.not_final c.runs
                (entries_first s.queue _ d c.first c.state)
        ]
  ]

  Step-IsSafe : {s u : System Task} → Step s u → IsSafe s → IsSafe u
  unfolding request_quit
  Step-IsSafe (post s t room) h = record {
    valid = post_task-IsValid t room h.valid;
    seen = λ _ n. absurd (omega arith);
    conserved =
        post_one _ s.started s.queue (post_task t s.queue) _ t h.conserved
          (post_task-perm t s.queue);
  }
  Step-IsSafe (post_delayed s t delay now room) h = record {
    valid = post_delayed_task-IsValid t delay now room h.valid;
    seen = λ _ n. absurd (omega arith);
    conserved =
        post_one _ s.started s.queue (post_delayed_task t delay now s.queue) _ t h.conserved
          (post_delayed_task-perm t delay now room h.valid);
  }
  Step-IsSafe (delete s) h = record {
    valid = record {
      pending_ascending = h.valid.pending_ascending;
      delayed_sorted = h.valid.delayed_sorted;
      pending_issued = h.valid.pending_issued;
      delayed_issued = h.valid.delayed_issued;
      apart = h.valid.apart;
    };
    seen = λ _ n. absurd (omega arith);
    conserved = h.conserved;
  }
  Step-IsSafe (notify s n e) h = record {
    valid = h.valid;
    seen = λ f _. cc;
    conserved = h.conserved;
  }
  Step-IsSafe (get_next s tick e) h = check-IsSafe tick s h
  Step-IsSafe (finish s t e) h = record {
    valid = h.valid;
    seen = λ _ _. tt;
    conserved = h.conserved;
  }
  Step-IsSafe (wake s tick sleep e f) h = record {
    valid = h.valid;
    seen = λ _ _. tt;
    conserved = h.conserved;
  }
  Step-IsSafe (expire s tick ms e) h = record {
    valid = h.valid;
    seen = λ _ _. tt;
    conserved = h.conserved;
  }

  Reach-IsSafe : {s u : System Task} → IsSafe s → Reach s u → IsSafe u
  Reach-IsSafe h here = h
  Reach-IsSafe h (next r st) = Step-IsSafe st (Reach-IsSafe h r)

  start-IsSafe : IsSafe start
  start-IsSafe = record {
    valid = record {
      pending_ascending = tt;
      delayed_sorted = tt;
      pending_issued = tt;
      delayed_issued = tt;
      apart = tt;
    };
    seen = λ _ _. tt;
    conserved = Perm.refl _;
  }

  -- No wake-up is lost. In every state that a new queue reaches, as long as its order counter
  -- does not come round: if the worker sleeps, its flag is not set and no thread is about to set
  -- it, then nothing is pending, no one asked the worker to quit, and its sleep ends when the first
  -- delayed entry is due or less than a millisecond later (and has no end if there is none).
  pub no_lost_wakeup :
      {s : System Task} {tick : ℤ} {sleep : Option ℕ}
      → Reach start s
      → s.place ≡ sleeping tick sleep
      → s.flag_notify ≡ false
      → s.notifying ≡ 0
      → HasSeen s.queue tick sleep
  no_lost_wakeup {s} r e f n = rw e at ((Reach-IsSafe start-IsSafe r).seen f n)

  -- In every state that a new queue reaches, as long as its order counter does not come round, the
  -- tasks that were posted are those that were started and those that are queued, each as often.
  pub started_once : {s : System Task} → Reach start s → Perm s.posted (s.started ++ tasks s.queue)
  started_once r = (Reach-IsSafe start-IsSafe r).conserved
