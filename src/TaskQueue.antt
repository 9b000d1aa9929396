-- ===== src/TaskQueue.antt =====
-- rtc_base/task_queue_stdlib.cc: the queue that TaskQueueStdlib guards by `pending_lock_`, and the
-- choice that its worker thread makes. A task is a value of any type; a posted task is not null.
-- Times are exact integers of microseconds: the source's int64_t arithmetic does not overflow here.
-- `std::map` is a list that its keys sort.
mod Delayed
mod Invariant
mod Choice
mod Conserve
mod Process
mod Worker
mod Examples
use tqlib.Prelude.{
  ℕ, ◌+◌, ◌%◌, ◌^◌, Bool, true, false, Option, none, some, List, [], ◌∷◌, ◌++◌, ltb, if◌then◌else◌,
}
use tqlib.Prelude.Int.{ℤ, pos_part, ◌+ℤ◌, ◌-ℤ◌, ltb_ℤ, leb_ℤ}
use tqlib.DivideRound.{divide_round_up}

-- `DelayedEntryTimeout`, the key of the delayed queue.
pub record DelayedEntryTimeout : Type 0 where
  pub next_fire_at_us : ℤ
  pub order : ℕ

-- its `operator<`: the lexicographic order of `std::tie`
unfoldable pub timeout_lt : DelayedEntryTimeout → DelayedEntryTimeout → Bool
timeout_lt a b =
    if ltb_ℤ a.next_fire_at_us b.next_fire_at_us
    then true
    else if ltb_ℤ b.next_fire_at_us a.next_fire_at_us
    then false
    else ltb a.order b.order

-- The time to sleep for an entry that is not due yet, in milliseconds.
unfoldable pub sleep_until : ℤ → ℤ → ℕ
sleep_until fire_at tick = divide_round_up (pos_part (fire_at -ℤ tick)) 1000

module _ {ℓ} (Task : Type ℓ) where
  -- The fields of `TaskQueueStdlib` behind its lock.
  pub record TaskQueue : Type ℓ where
    pub thread_should_quit : Bool
    pub thread_posting_order : ℕ
    pub pending_queue : List (ℕ × Task)
    pub delayed_queue : List (DelayedEntryTimeout × Task)

  -- `NextTask`. A sleep of `none` is `rtc::Event::kForever`; one of `some ms` is in milliseconds.
  pub record NextTask : Type ℓ where
    pub final_task : Bool
    pub run_task : Option Task
    pub sleep_time : Option ℕ

module _ {ℓ} {Task : Type ℓ} where
  -- `delayed_queue_[entry] = task`
  unfoldable pub assign :
      DelayedEntryTimeout
      → Task
      → List (DelayedEntryTimeout × Task)
      → List (DelayedEntryTimeout × Task)
  assign e t [] = (e, t) ∷ []
  assign e t ((k, u) ∷ m) =
      if timeout_lt k e
      then (k, u) ∷ assign e t m
      else if timeout_lt e k
      then (e, t) ∷ (k, u) ∷ m
      else (e, t) ∷ m

  -- `++thread_posting_order_`, a uint64_t
  unfoldable pub next_order : TaskQueue Task → ℕ
  next_order q = (q.thread_posting_order + 1) % 2 ^ 64

  -- The locked part of `PostTask`.
  unfoldable pub post_task : Task → TaskQueue Task → TaskQueue Task
  unfolding next_order
  post_task t q = record q {
    thread_posting_order = next_order q;
    pending_queue = q.pending_queue ++ (next_order q, t) ∷ [];
  }

  -- The locked part of `PostDelayedTask`, with the entry's time from before the lock was taken.
  unfoldable pub post_at : Task → ℤ → TaskQueue Task → TaskQueue Task
  unfolding next_order
  post_at t fire_at q = record q {
    thread_posting_order = next_order q;
    delayed_queue =
        assign (record { next_fire_at_us = fire_at; order = next_order q }) t q.delayed_queue;
  }

  -- `PostDelayedTask` of a delay in microseconds, at the time `now` of `rtc::TimeMicros()`.
  unfoldable pub post_delayed_task : Task → ℤ → ℤ → TaskQueue Task → TaskQueue Task
  unfolding post_at
  post_delayed_task t delay now q = post_at t (now +ℤ delay) q

  -- The locked part of `Delete`.
  unfoldable pub request_quit : TaskQueue Task → TaskQueue Task
  request_quit q = record q { thread_should_quit = true }

  abbrev pub run_now : Task → NextTask Task
  run_now t = record { final_task = false; run_task = some t; sleep_time = none }

  -- The last part of `GetNextTask`: the pending queue, with the sleep found so far.
  take_pending : Option ℕ → TaskQueue Task → NextTask Task × TaskQueue Task
  take_pending sleep q = elim q.pending_queue [
    | [] ↦ (record { final_task = false; run_task = none; sleep_time = sleep }, q)
    | (o, t) ∷ rest ↦ (
      record { final_task = false; run_task = some t; sleep_time = sleep },
      record q { pending_queue = rest },
    )
  ]

  -- The part of `GetNextTask` for a delayed entry that is due: an older pending task comes first.
  take_due :
      DelayedEntryTimeout
      → Task
      → List (DelayedEntryTimeout × Task)
      → TaskQueue Task
      → NextTask Task × TaskQueue Task
  take_due k u later q = elim q.pending_queue [
    | [] ↦ (run_now u, record q { delayed_queue = later })
    | (o, t) ∷ rest ↦
        if ltb o k.order
        then (run_now t, record q { pending_queue = rest })
        else (run_now u, record q { delayed_queue = later })
  ]

  -- `GetNextTask` at the time `tick_us`
  unfoldable pub get_next_task : ℤ → TaskQueue Task → NextTask Task × TaskQueue Task
  unfolding take_pending take_due
  get_next_task tick_us q =
      if q.thread_should_quit
      then (record { final_task = true; run_task = none; sleep_time = none }, q)
      else elim q.delayed_queue [
        | [] ↦ take_pending none q
        | (k, u) ∷ later ↦
            if leb_ℤ k.next_fire_at_us tick_us
            then take_due k u later q
            else take_pending (some (sleep_until k.next_fire_at_us tick_us)) q
      ]
