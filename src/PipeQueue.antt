-- ===== src/PipeQueue.antt =====
-- TaskQueueLibevent of rtc_base/task_queue_libevent.cc: its pending tasks, the pipe that wakes its
-- thread up, and the threads as steps of one system. libevent is taken to call OnWakeup when the pipe
-- has a byte. Each locked part is one step; the writes to the pipe and the reads from it are steps of
-- their own. A task is a value of any type; a task that posts is a step of `post` while it runs.
pub mod Safety
mod Examples
use tqlib.Prelude.{ℕ, suc, ◌≡◌, Bool, true, false, not, List, [], ◌∷◌, ◌++◌}

-- `kQuit` and `kRunTasks`
pub data Message : Type 0 where
  quit_message : Message
  run_tasks_message : Message

-- The fields of TaskQueueLibevent; the pipe's bytes, the oldest first, stand for its two ends.
pub record PipeQueue {ℓ} (Task : Type ℓ) : Type ℓ where
  pub is_active : Bool
  pub wakeup_pipe : List Message
  pub pending : List Task

-- Where the thread stands: in `event_base_loop`, in `OnWakeup` behind its read of a kRunTasks, or in
-- the loop of `OnWakeup` over the tasks that are left.
pub data Place {ℓ} (Task : Type ℓ) : Type ℓ where
  polling : Place Task
  woken : Place Task
  running : List Task → Place Task

-- `writing` counts the threads that have left the lock of `PostTask` and not written yet; `deleting`
-- says whether `Delete` was called. `posted` and `started` are the history, the oldest first.
pub record System {ℓ} (Task : Type ℓ) : Type ℓ where
  pub queue : PipeQueue Task
  pub place : Place Task
  pub writing : ℕ
  pub deleting : Bool
  pub posted : List Task
  pub started : List Task

-- The writers, with one more if a thread has to write.
abbrev pub count_writer : Bool → ℕ → ℕ
count_writer true n = suc n
count_writer false n = n

module _ {ℓ} {Task : Type ℓ} where
  abbrev pub is_empty : List Task → Bool
  is_empty [] = true
  is_empty (t ∷ ts) = false

  -- The locked part of `PostTask`: whether it has to write to the pipe, and the queue.
  unfoldable pub post_task : Task → PipeQueue Task → Bool × PipeQueue Task
  post_task t q =
      let had_pending_tasks = not (is_empty q.pending) in
      (not had_pending_tasks, record q { pending = q.pending ++ t ∷ [] })

  -- `write`
  unfoldable pub write_message : Message → PipeQueue Task → PipeQueue Task
  write_message m q = record q { wakeup_pipe = q.wakeup_pipe ++ m ∷ [] }

  -- `OnWakeup`, up to its lock: where the thread goes on, and the queue.
  unfoldable pub on_wakeup : Message → List Message → PipeQueue Task → Place Task × PipeQueue Task
  on_wakeup quit_message rest q = (polling, record q { is_active = false; wakeup_pipe = rest })
  on_wakeup run_tasks_message rest q = (woken, record q { wakeup_pipe = rest })

  -- The locked part of `OnWakeup`: `tasks.swap(me->pending_)`
  unfoldable pub swap_pending : PipeQueue Task → List Task × PipeQueue Task
  swap_pending q = (q.pending, record q { pending = [] })

  abbrev pub posted_by : System Task → Task → System Task
  posted_by s t =
      let (must_write, q) = post_task t s.queue in
      record s {
        queue = q;
        writing = count_writer must_write s.writing;
        posted = s.posted ++ t ∷ [];
      }

  pub data Step : System Task → System Task → Type ℓ where
    post : (s : System Task) (t : Task) → Step s (posted_by s t)
    write :
        (s : System Task) (n : ℕ)
        → s.writing ≡ suc n
        → Step s (record s { queue = write_message run_tasks_message s.queue; writing = n })
    delete :
        (s : System Task)
        → s.deleting ≡ false
        → Step s (record s { queue = write_message quit_message s.queue; deleting = true })
    wake :
        (s : System Task) (m : Message) (rest : List Message)
        → s.place ≡ polling
        → s.queue.is_active ≡ true
        → s.queue.wakeup_pipe ≡ m ∷ rest
        → Step s (let (p, q) = on_wakeup m rest s.queue in record s { queue = q; place = p })
    take_tasks :
        (s : System Task)
        → s.place ≡ woken
        → Step s (let (ts, q) = swap_pending s.queue in record s { queue = q; place = running ts })
    run_one :
        (s : System Task) (t : Task) (ts : List Task)
        → s.place ≡ running (t ∷ ts)
        → Step s (record s { place = running ts; started = s.started ++ t ∷ [] })
    finish : (s : System Task) → s.place ≡ running [] → Step s (record s { place = polling })

  pub data Reach (s : System Task) : System Task → Type ℓ where
    here : Reach s s
    next : {t u : System Task} → Reach s t → Step t u → Reach s u

  -- What the constructor leaves behind.
  abbrev pub new_system : System Task
  new_system = record {
    queue = record { is_active = true; wakeup_pipe = []; pending = [] };
    place = polling;
    writing = 0;
    deleting = false;
    posted = [];
    started = [];
  }
