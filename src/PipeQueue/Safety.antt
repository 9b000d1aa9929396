-- ===== src/PipeQueue/Safety.antt =====
-- What holds of TaskQueueLibevent however its threads interleave (rtc_base/task_queue_libevent.cc).
use tqlib.Prelude.{
  ℕ, suc, ◌+◌, ◌≤◌, ◌≡◌, ◌≢◌, refl, sym, ap, ◌∙◌, Bool, true, false, not, List, [], ◌∷◌, ◌++◌,
  append-nil, append_assoc, arith, length,
}
use tqlib.PipeQueue.{
  Message, quit_message, run_tasks_message, Place, polling, woken, running, System, Step, Reach,
  here, next, new_system, post_task, write_message, on_wakeup, swap_pending, posted_by,
  count_writer, is_empty,
}
use tqlib.PipeQueue.Step.{post, write, delete, wake, take_tasks, run_one, finish}

-- The wake-ups that are in the pipe, and the quits.
abbrev pub count_runs : List Message → ℕ
count_runs [] = 0
count_runs (quit_message ∷ ms) = count_runs ms
count_runs (run_tasks_message ∷ ms) = suc (count_runs ms)

abbrev pub count_quits : List Message → ℕ
count_quits [] = 0
count_quits (quit_message ∷ ms) = suc (count_quits ms)
count_quits (run_tasks_message ∷ ms) = count_quits ms

count_runs-append : (ms ns : List Message) → count_runs (ms ++ ns) ≡ count_runs ms + count_runs ns
count_runs-append [] ns = omega arith
count_runs-append (quit_message ∷ ms) ns = count_runs-append ms ns
count_runs-append (run_tasks_message ∷ ms) ns = omega (arith, count_runs-append ms ns)

count_quits-append :
    (ms ns : List Message) → count_quits (ms ++ ns) ≡ count_quits ms + count_quits ns
count_quits-append [] ns = omega arith
count_quits-append (quit_message ∷ ms) ns = omega (arith, count_quits-append ms ns)
count_quits-append (run_tasks_message ∷ ms) ns = count_quits-append ms ns

length-counts : (ms : List Message) → length ms ≡ count_runs ms + count_quits ms
length-counts [] = omega arith
length-counts (quit_message ∷ ms) = omega (arith, length-counts ms)
length-counts (run_tasks_message ∷ ms) = omega (arith, length-counts ms)

abbrev pub called : Bool → ℕ
called true = 1
called false = 0

called_once : (b : Bool) (n : ℕ) → suc n ≤ called b → b ≡ true
called_once true n h = refl
called_once false n h = absurd (omega (arith, h))

called-le : (b : Bool) → called b ≤ 1
called-le true = omega arith
called-le false = omega arith

module _ {ℓ} {Task : Type ℓ} where
  -- The tasks that the thread has swapped out and not started, and whether it is about to swap.
  abbrev pub left_in : Place Task → List Task
  left_in polling = []
  left_in woken = []
  left_in (running ts) = ts

  abbrev pub about_to_swap : Place Task → ℕ
  about_to_swap polling = 0
  about_to_swap woken = 1
  about_to_swap (running ts) = 0

  -- One for tasks that are waiting, however many they are.
  abbrev pub some_waiting : List Task → ℕ
  some_waiting [] = 0
  some_waiting (t ∷ ts) = 1

  pub record IsSafe (s : System Task) : Type ℓ where
    pub in_order : s.started ++ (left_in s.place ++ s.queue.pending) ≡ s.posted
    pub one_wakeup :
        count_runs s.queue.wakeup_pipe + s.writing + about_to_swap s.place
        ≡ some_waiting s.queue.pending
    pub quits : count_quits s.queue.wakeup_pipe ≤ called s.deleting
    pub active : s.queue.is_active ≡ false → s.deleting ≡ true

  some_waiting_last : (ts : List Task) (t : Task) → some_waiting (ts ++ t ∷ []) ≡ 1
  some_waiting_last [] t = refl
  some_waiting_last (u ∷ ts) t = refl

  new_system-IsSafe : IsSafe new_system
  new_system-IsSafe = record {
    in_order = refl;
    one_wakeup = omega arith;
    quits = omega arith;
    active = λ e. cc;
  }

  posted_later :
      (a b c d : List Task) (t : Task) → a ++ (b ++ c) ≡ d → a ++ (b ++ (c ++ t ∷ [])) ≡ d ++ t ∷ []
  posted_later a b c d t h =
      ap (λ x. a ++ x) (sym (append_assoc b c _))
      ∙ sym (append_assoc a _ _)
      ∙ ap (λ x. x ++ t ∷ []) h

  one_more :
      (ts : List Task) (t : Task) (n w p : ℕ)
      → n + w + p ≡ some_waiting ts
      → n + count_writer (not (not (is_empty ts))) w + p ≡ some_waiting (ts ++ t ∷ [])
  one_more [] t n w p h = omega (arith, h)
  one_more (u ∷ ts) t n w p h = h

  post-IsSafe : (s : System Task) (t : Task) → IsSafe s → IsSafe (posted_by s t)
  unfolding post_task
  post-IsSafe s t i = record {
    in_order = posted_later s.started (left_in s.place) s.queue.pending s.posted t i.in_order;
    one_wakeup = one_more s.queue.pending t _ s.writing (about_to_swap s.place) i.one_wakeup;
    quits = i.quits;
    active = i.active;
  }

  moved_on :
      (a : List Task) (t : Task) (b c d : List Task)
      → a ++ ((t ∷ b) ++ c) ≡ d
      → (a ++ t ∷ []) ++ (b ++ c) ≡ d
  moved_on a t b c d h = append_assoc a (t ∷ []) (b ++ c) ∙ h

  -- Every step of any of the threads keeps the invariant.
  pub Step-IsSafe : {s u : System Task} → Step s u → IsSafe s → IsSafe u
  unfolding write_message on_wakeup swap_pending
  Step-IsSafe (post s t) i = post-IsSafe s t i
  Step-IsSafe (write s n e) i = record {
    in_order = i.in_order;
    one_wakeup =
        omega
          (arith, i.one_wakeup, e, count_runs-append s.queue.wakeup_pipe (run_tasks_message ∷ []));
    quits = omega (arith, i.quits, count_quits-append s.queue.wakeup_pipe (run_tasks_message ∷ []));
    active = i.active;
  }
  Step-IsSafe (delete s e) i = record {
    in_order = i.in_order;
    one_wakeup =
        omega (arith, i.one_wakeup, count_runs-append s.queue.wakeup_pipe (quit_message ∷ []));
    quits =
        omega (arith, rw e at i.quits, count_quits-append s.queue.wakeup_pipe (quit_message ∷ []));
    active = λ h. refl;
  }
  Step-IsSafe (wake s quit_message rest p a e) i = record {
    in_order = rw p at i.in_order;
    one_wakeup = rw (p, e) at i.one_wakeup;
    quits = let q = rw e at i.quits in omega (arith, q);
    active = λ h. called_once s.deleting (count_quits rest) (rw e at i.quits);
  }
  Step-IsSafe (wake s run_tasks_message rest p a e) i = record {
    in_order = rw p at i.in_order;
    one_wakeup = let q = rw (p, e) at i.one_wakeup in omega (arith, q);
    quits = rw e at i.quits;
    active = i.active;
  }
  Step-IsSafe (take_tasks s p) i = record {
    in_order = ap (λ r. s.started ++ r) (append-nil s.queue.pending) ∙ rw p at i.in_order;
    one_wakeup =
        swapped s.queue.pending (count_runs s.queue.wakeup_pipe) s.writing (rw p at i.one_wakeup);
    quits = i.quits;
    active = i.active;
  }
    where
      swapped : (ts : List Task) (n w : ℕ) → n + w + 1 ≡ some_waiting ts → n + w + 0 ≡ 0
      swapped [] n w h = absurd (omega (arith, h))
      swapped (t ∷ ts) n w h = omega (arith, h)
  Step-IsSafe (run_one s t ts p) i = record {
    in_order = moved_on s.started t ts s.queue.pending s.posted (rw p at i.in_order);
    one_wakeup = rw p at i.one_wakeup;
    quits = i.quits;
    active = i.active;
  }
  Step-IsSafe (finish s p) i = record {
    in_order = rw p at i.in_order;
    one_wakeup = rw p at i.one_wakeup;
    quits = i.quits;
    active = i.active;
  }

  Reach-IsSafe : {s : System Task} → Reach new_system s → IsSafe s
  Reach-IsSafe here = new_system-IsSafe
  Reach-IsSafe (next r st) = Step-IsSafe st (Reach-IsSafe r)

  some_waiting-le : (ts : List Task) → some_waiting ts ≤ 1
  some_waiting-le [] = omega arith
  some_waiting-le (t ∷ ts) = omega arith

  -- In every state that a new queue reaches, the tasks that were started, those that the thread has
  -- taken and those that are pending are together, in this order, the tasks that were posted.
  pub started_in_order :
      {s : System Task}
      → Reach new_system s
      → s.started ++ (left_in s.place ++ s.queue.pending) ≡ s.posted
  started_in_order r = (Reach-IsSafe r).in_order

  -- In every state that a new queue reaches there are at most two bytes in the pipe and on their way to
  -- it, at most one of each kind; and where the thread is about to take the pending tasks there are some.
  pub pipe_bounds :
      {s : System Task}
      → Reach new_system s
      → (count_runs s.queue.wakeup_pipe + s.writing ≤ 1)
        × (count_quits s.queue.wakeup_pipe ≤ 1)
        × (length s.queue.wakeup_pipe + s.writing ≤ 2)
        × (s.place ≡ woken → s.queue.pending ≢ [])
  pipe_bounds {s} r =
      let i = Reach-IsSafe r in
      let w = some_waiting-le s.queue.pending in
      let q = called-le s.deleting in
      (
        omega (arith, i.one_wakeup, w),
        omega (arith, i.quits, q),
        omega (arith, i.one_wakeup, w, i.quits, q, length-counts s.queue.wakeup_pipe),
        λ p e. absurd (omega (arith, rw (p, e) at i.one_wakeup)),
      )

  no_waiting : (ts : List Task) → some_waiting ts ≡ 0 → ts ≡ []
  no_waiting [] h = refl
  no_waiting (t ∷ ts) h = absurd (omega (arith, h))

  -- No wake-up is lost: in every state that a new queue reaches, if the thread waits in its loop with
  -- an empty pipe, and no thread is about to write to the pipe, then every posted task was started.
  pub no_lost_byte :
      {s : System Task}
      → Reach new_system s
      → s.place ≡ polling
      → s.queue.wakeup_pipe ≡ []
      → s.writing ≡ 0
      → s.started ≡ s.posted
  no_lost_byte {s} r p e w =
      let i = Reach-IsSafe r in
      let none_pending = no_waiting s.queue.pending (omega (arith, rw (p, e, w) at i.one_wakeup)) in
      sym (append-nil s.started) ∙ rw (p, none_pending) at i.in_order
