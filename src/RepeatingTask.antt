-- ===== src/RepeatingTask.antt =====
-- rtc_base/task_utils/repeating_task.cc and api/task_queue/pending_task_safety_flag.cc: a task that
-- posts itself again, the flag that its handle stops it by, and the two as steps of a system. Times are
-- in microseconds. The task queue is known by one thing: it starts a posted task no sooner than its delay
-- after it was posted.
pub mod Schedule
mod Examples
use tqlib.Prelude.{
  ℕ, suc, ◌≡◌, Bool, true, false, not, ◌||◌, Option, none, some, List, [], ◌∷◌, if◌then◌else◌,
}
use tqlib.Prelude.Int.{ℤ, pos, ◌+ℤ◌, ◌-ℤ◌, ◌≤ℤ◌, ltb_ℤ}

-- A TimeDelta that is not negative: a number or +infinity.
pub data TimeDelta : Type 0 where
  micros : ℕ → TimeDelta
  plus_infinity : TimeDelta

-- `alive_` of PendingTaskSafetyFlag. All holders share one flag, so it is a part of the system's state.
pub record SafetyFlag : Type 0 where
  pub alive : Bool

-- `CreateInternal`, `SetNotAlive` and `SetAlive`
unfoldable pub create_internal : Bool → SafetyFlag
create_internal a = record { alive = a }

unfoldable pub set_not_alive : SafetyFlag → SafetyFlag
set_not_alive f = record { alive = false }

unfoldable pub set_alive : SafetyFlag → SafetyFlag
set_alive f = record { alive = true }

-- SafeTask: the state after a task that keeps the flag
unfoldable pub safe_task {ℓ} : {S : Type ℓ} → SafetyFlag → (S → S) → S → S
safe_task flag task s = if flag.alive then task s else s

-- The member of RepeatingTask that changes.
pub record RepeatingTask : Type 0 where
  pub next_run_time : ℤ

-- The constructor
unfoldable pub new_task : ℤ → ℕ → RepeatingTask
new_task current_time first_delay = record { next_run_time = current_time +ℤ pos first_delay }

-- What a call of the closure does: it returns a delay, it may call `Stop`, and it takes some time.
pub record Outcome : Type 0 where
  pub delay : TimeDelta
  pub stops : Bool
  pub lasts : ℕ

abbrev pub max_zero : ℤ → ℤ
max_zero d = if ltb_ℤ d (pos 0) then pos 0 else d

-- `RepeatingTask::operator()` from the call of the closure on, where the flag is alive and the clock shows
-- a time: the task it posts and its delay
unfoldable pub post_again : TimeDelta → Bool → ℤ → RepeatingTask → Option (RepeatingTask × ℤ)
post_again plus_infinity alive current_time t = none
post_again (micros delay) alive current_time t =
    if not alive
    then none
    else let lost_time = current_time -ℤ t.next_run_time in
      some
        (record { next_run_time = t.next_run_time +ℤ pos delay }, max_zero (pos delay -ℤ lost_time))

-- A call of the closure: when it started, when it was to start, and what it returned.
pub record Call : Type 0 where
  pub started : ℤ
  pub scheduled : ℤ
  pub returned : TimeDelta

-- The flag, the handle's `repeating_task_`, the task in the queue with the time it is due at, the clock,
-- and the history of the calls, the last one first.
pub record System : Type 0 where
  pub flag : SafetyFlag
  pub has_flag : Bool
  pub queued : Option (RepeatingTask × ℤ)
  pub clock : ℤ
  pub calls : List Call

-- `Start` with the delay zero, and `DelayedStart`
unfoldable pub delayed_start : ℤ → ℕ → System
unfolding create_internal new_task
delayed_start current_time first_delay = record {
  flag = create_internal true;
  has_flag = true;
  queued = some (new_task current_time first_delay, current_time +ℤ pos first_delay);
  clock = current_time;
  calls = [];
}

-- `RepeatingTaskHandle::Stop` and `Running`
unfoldable pub stop : System → System
unfolding set_not_alive
stop s = if s.has_flag then record s { flag = set_not_alive s.flag; has_flag = false } else s

unfoldable pub is_running : System → Bool
is_running s = s.has_flag

-- What is in the queue after a task posted itself at a time, or did not.
abbrev pub queue_at : ℤ → Option (RepeatingTask × ℤ) → Option (RepeatingTask × ℤ)
queue_at current_time none = none
queue_at current_time (some (t, delay)) = some (t, current_time +ℤ delay)

-- `RepeatingTask::operator()` of the task that was taken out of the queue
unfoldable pub run_task : RepeatingTask → Outcome → System → System
unfolding post_again stop
run_task t o s =
    if not s.flag.alive
    then record s { queued = none }
    else let call : Call = record {
      started = s.clock;
      scheduled = t.next_run_time;
      returned = o.delay;
    } in
      let called = record s { calls = call ∷ s.calls; clock = s.clock +ℤ pos o.lasts } in
      let after = if o.stops then stop called else called in
      record after {
        queued = queue_at after.clock (post_again o.delay after.flag.alive after.clock t);
      }

pub data Step : System → System → Type 0 where
  tick : (s : System) (n : ℕ) → Step s (record s { clock = s.clock +ℤ pos n })
  start_task :
      (s : System) (t : RepeatingTask) (due : ℤ) (o : Outcome)
      → s.queued ≡ some (t, due)
      → due ≤ℤ s.clock
      → Step s (run_task t o s)
  stop_task : (s : System) → Step s (stop s)

pub data Steps (s : System) : System → Type 0 where
  here : Steps s s
  next : {t u : System} → Steps s t → Step t u → Steps s u
