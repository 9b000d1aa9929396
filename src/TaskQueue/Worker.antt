-- ===== src/TaskQueue/Worker.antt =====
-- The worker thread of TaskQueueStdlib and the threads that post to it, as steps of one system: the
-- locked parts of PostTask, PostDelayedTask and Delete, NotifyWake apart from them, and the
-- worker's calls of GetNextTask and of `flag_notify_.Wait`. `flag_notify_` resets itself when a
-- wait ends by it (rtc_base/event.cc, manual_reset = false).
pub mod Safety
use tqlib.Prelude.{
  ℕ, zero, suc, ◌+◌, ◌≤◌, ◌<◌, ◌≡◌, ◌≢◌, refl, sym, subst, ap, ◌∙◌, ◌⊎◌, inl, inr, Bool, false,
  true, Option, none, some, List, [], ◌∷◌, ◌++◌, map, arith, All, if◌then◌else◌, Bool-cases,
}
use tqlib.Prelude.Int.{ℤ}
use tqlib.TaskQueue.{TaskQueue, NextTask, post_task, post_delayed_task, request_quit, get_next_task}
use tqlib.TaskQueue.Invariant.{HasRoom}

-- Where the worker stands in the loop of ProcessTasks. A wait keeps the time at which GetNextTask
-- computed its length.
pub data Place {ℓ} (Task : Type ℓ) : Type ℓ where
  checking : Place Task
  running : Task → Place Task
  sleeping : ℤ → Option ℕ → Place Task
  exited : Place Task

-- `notifying` counts the threads that have left the lock and not called `flag_notify_.Set()` yet.
-- `posted` and `started` are the history.
pub record System {ℓ} (Task : Type ℓ) : Type ℓ where
  pub queue : TaskQueue Task
  pub place : Place Task
  pub flag_notify : Bool
  pub notifying : ℕ
  pub posted : List Task
  pub started : List Task

module _ {ℓ} {Task : Type ℓ} where
  -- What the worker does with the answer of GetNextTask.
  abbrev proceed : ℤ → System Task → NextTask Task → TaskQueue Task → System Task
  proceed tick s next q =
      if next.final_task then record s { queue = q; place = exited } else elim next.run_task [
        | some t ↦ record s { queue = q; place = running t; started = t ∷ s.started }
        | none ↦ record s { queue = q; place = sleeping tick next.sleep_time }
      ]

  -- One round of the loop of ProcessTasks, up to the task's call or the wait.
  unfoldable pub check : ℤ → System Task → System Task
  check tick s = let (next, q) = get_next_task tick s.queue in proceed tick s next q

  pub data Step : System Task → System Task → Type ℓ where
    post :
        (s : System Task) (t : Task)
        → HasRoom s.queue
        → Step s (record s {
          queue = post_task t s.queue;
          notifying = suc s.notifying;
          posted = t ∷ s.posted;
        })
    post_delayed :
        (s : System Task) (t : Task) (delay now : ℤ)
        → HasRoom s.queue
        → Step s (record s {
          queue = post_delayed_task t delay now s.queue;
          notifying = suc s.notifying;
          posted = t ∷ s.posted;
        })
    delete :
        (s : System Task)
        → Step s (record s { queue = request_quit s.queue; notifying = suc s.notifying })
    notify :
        (s : System Task) (n : ℕ)
        → s.notifying ≡ suc n
        → Step s (record s { flag_notify = true; notifying = n })
    get_next : (s : System Task) (tick : ℤ) → s.place ≡ checking → Step s (check tick s)
    finish :
        (s : System Task) (t : Task) → s.place ≡ running t → Step s (record s { place = checking })
    wake :
        (s : System Task) (tick : ℤ) (sleep : Option ℕ)
        → s.place ≡ sleeping tick sleep
        → s.flag_notify ≡ true
        → Step s (record s { place = checking; flag_notify = false })
    expire :
        (s : System Task) (tick : ℤ) (ms : ℕ)
        → s.place ≡ sleeping tick (some ms)
        → Step s (record s { place = checking })

  pub data Reach (s : System Task) : System Task → Type ℓ where
    here : Reach s s
    next : {t u : System Task} → Reach s t → Step t u → Reach s u

  -- A new queue: the worker is about to make its first call of GetNextTask.
  abbrev pub start : System Task
  start = record {
    queue = record {
      thread_should_quit = false;
      thread_posting_order = 0;
      pending_queue = [];
      delayed_queue = [];
    };
    place = checking;
    flag_notify = false;
    notifying = 0;
    posted = [];
    started = [];
  }
