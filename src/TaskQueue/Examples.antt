-- ===== src/TaskQueue/Examples.antt =====
-- Runs of the model of task_queue_stdlib.cc, and its theorems at concrete queues.
use mathlib.Core.List.{Perm}
use tqlib.Prelude.{ℕ, ◌≡◌, refl, false, true, none, some, [], ◌∷◌, ◌++◌, arith}
use tqlib.Prelude.Int.{pos, ◌-ℤ◌}
use tqlib.DivideRound.{divide_round_up}
use tqlib.TaskQueue.{TaskQueue, post_task, get_next_task, sleep_until}
use tqlib.TaskQueue.Invariant.{IsValid}
use tqlib.TaskQueue.Choice.{Chooses, get_next_task_choice}
use tqlib.TaskQueue.Process.{
  process_tasks, waiting, Settles, tasks, process_tasks-Settles, process_tasks_fifo,
}
use tqlib.TaskQueue.Worker.{System, checking, check, Reach, here, next, start}
use tqlib.TaskQueue.Worker.Step.{post, notify, get_next, finish, wake}
use tqlib.TaskQueue.Worker.Safety.{HasSeen, no_lost_wakeup, started_once}

-- Three tasks: 10 and 30 are pending, and 20, posted between them, is due at 500.
abbrev sample : TaskQueue ℕ
sample = record {
  thread_should_quit = false;
  thread_posting_order = 3;
  pending_queue = (1, 10) ∷ (3, 30) ∷ [];
  delayed_queue = (record { next_fire_at_us = pos 500; order = 2 }, 20) ∷ [];
}

sample-IsValid : IsValid sample
sample-IsValid = record {
  pending_ascending = omega arith;
  delayed_sorted = omega arith;
  pending_issued = omega arith;
  delayed_issued = omega arith;
  apart = omega arith;
}

abbrev inert : ℕ → TaskQueue ℕ → TaskQueue ℕ
inert t q = q

-- The delayed task is due: it runs between the pending ones.
runs_in_order : (process_tasks inert 9 (λ _. pos 600) sample).0 ≡ 10 ∷ 20 ∷ 30 ∷ []
unfolding process_tasks get_next_task
runs_in_order = refl

-- The delayed task is not due: the worker sleeps for a millisecond after the pending ones.
sleeps : (process_tasks inert 9 (λ _. pos 400) sample).1 ≡ waiting (some 1)
unfolding process_tasks get_next_task sleep_until divide_round_up ◌-ℤ◌
sleeps = refl

get_next_task_choice_example : Chooses (pos 600) sample (get_next_task (pos 600) sample)
get_next_task_choice_example = get_next_task_choice (pos 600) sample sample-IsValid refl

process_tasks-Settles_example :
    Settles (λ _. pos 600) sample (process_tasks inert 4 (λ _. pos 600) sample)
process_tasks-Settles_example =
    process_tasks-Settles inert (λ _ _. refl) 4 (λ _. pos 600) sample sample-IsValid refl
      (omega arith)

abbrev pending_only : TaskQueue ℕ
pending_only = record sample { delayed_queue = [] }

process_tasks_fifo_example :
    process_tasks inert 3 (λ _. pos 600) pending_only
    ≡ (10 ∷ 30 ∷ [], waiting none, record pending_only { pending_queue = [] })
process_tasks_fifo_example =
    process_tasks_fifo inert (λ _ _. refl) 3 (λ _. pos 600) pending_only refl refl (omega arith)

-- A thread posts task 7; the worker runs it, is woken once more by its signal, and goes to sleep.
abbrev posted : System ℕ
posted = record start { queue = post_task 7 start.queue; notifying = 1; posted = 7 ∷ [] }

abbrev notified : System ℕ
notified = record posted { flag_notify = true; notifying = 0 }

abbrev finished : System ℕ
finished = record (check (pos 5) notified) { place = checking }

abbrev woken : System ℕ
woken = record (check (pos 6) finished) { place = checking; flag_notify = false }

trace : Reach start (check (pos 7) woken)
unfolding check get_next_task post_task
trace =
    let r₁ = next here (post start 7 (omega arith)) in
    let r₂ = next r₁ (notify posted 0 refl) in
    let r₃ = next r₂ (get_next notified (pos 5) refl) in
    let r₄ = next r₃ (finish (check (pos 5) notified) 7 refl) in
    let r₅ = next r₄ (get_next finished (pos 6) refl) in
    let r₆ = next r₅ (wake (check (pos 6) finished) (pos 6) none refl refl) in
    next r₆ (get_next woken (pos 7) refl)

no_lost_wakeup_example : HasSeen (check (pos 7) woken).queue (pos 7) none
unfolding check get_next_task post_task
no_lost_wakeup_example =
    no_lost_wakeup {s = check (pos 7) woken} {tick = pos 7} {sleep = none} trace refl refl refl

started_once_example :
    Perm
      (check (pos 7) woken).posted
      ((check (pos 7) woken).started ++ tasks (check (pos 7) woken).queue)
started_once_example = started_once trace
