-- ===== src/PipeQueue/Examples.antt =====
-- Runs of TaskQueueLibevent at concrete interleavings (rtc_base/task_queue_libevent.cc).
use tqlib.Prelude.{ℕ, zero, ◌+◌, ◌≤◌, ◌≡◌, ◌≢◌, refl, true, false, [], ◌∷◌, ◌++◌, length}
use tqlib.PipeQueue.{
  quit_message, run_tasks_message, System, polling, woken, running, Reach, here, next, new_system,
  post_task, write_message, on_wakeup, swap_pending,
}
use tqlib.PipeQueue.Step.{post, write, delete, wake, take_tasks, run_one, finish}
use tqlib.PipeQueue.Safety.{
  count_runs, count_quits, left_in, started_in_order, pipe_bounds, no_lost_byte,
}

-- Task 7 is posted and its wake-up read; task 8 is posted before the thread takes the tasks, task 9
-- after; then `Delete` is called.
abbrev busy : System ℕ
busy = record {
  queue = record { is_active = true; wakeup_pipe = quit_message ∷ []; pending = 9 ∷ [] };
  place = running (8 ∷ []);
  writing = 1;
  deleting = true;
  posted = 7 ∷ 8 ∷ 9 ∷ [];
  started = 7 ∷ [];
}

abbrev reach_busy : Reach new_system busy
unfolding post_task write_message on_wakeup swap_pending
reach_busy =
    let r = next (next here (post _ 7)) (write _ zero refl) in
    let r = next (next r (wake _ run_tasks_message [] refl refl refl)) (post _ 8) in
    let r = next (next r (take_tasks _ refl)) (post _ 9) in
    next (next r (run_one _ 7 (8 ∷ []) refl)) (delete _ refl)

abbrev at_rest : System ℕ
at_rest = record {
  queue = record { is_active = true; wakeup_pipe = []; pending = [] };
  place = polling;
  writing = 0;
  deleting = false;
  posted = 7 ∷ 8 ∷ [];
  started = 7 ∷ 8 ∷ [];
}

abbrev reach_at_rest : Reach new_system at_rest
unfolding post_task write_message on_wakeup swap_pending
reach_at_rest =
    let r = next (next here (post _ 7)) (post _ 8) in
    let r = next (next r (write _ zero refl)) (wake _ run_tasks_message [] refl refl refl) in
    let r = next (next r (take_tasks _ refl)) (run_one _ 7 (8 ∷ []) refl) in
    next (next r (run_one _ 8 [] refl)) (finish _ refl)

started_in_order_example : busy.started ++ (left_in busy.place ++ busy.queue.pending) ≡ busy.posted
started_in_order_example = started_in_order reach_busy

pipe_bounds_example :
    (count_runs busy.queue.wakeup_pipe + busy.writing ≤ 1)
    × (count_quits busy.queue.wakeup_pipe ≤ 1)
    × (length busy.queue.wakeup_pipe + busy.writing ≤ 2)
    × (busy.place ≡ woken → busy.queue.pending ≢ [])
pipe_bounds_example = pipe_bounds reach_busy

no_lost_byte_example : at_rest.started ≡ at_rest.posted
no_lost_byte_example = no_lost_byte reach_at_rest refl refl refl
