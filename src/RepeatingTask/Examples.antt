-- ===== src/RepeatingTask/Examples.antt =====
-- A repeating task that starts late, and is stopped (rtc_base/task_utils/repeating_task.cc).
use tqlib.Prelude.{◌≡◌, refl, true, false, none, some, [], ◌∷◌, arith, All}
use tqlib.Prelude.Int.{pos, ◌+ℤ◌, ◌-ℤ◌}
use tqlib.RepeatingTask.{
  micros, Outcome, System, delayed_start, stop, is_running, run_task, post_again, Steps, here, next,
  new_task, create_internal, set_not_alive,
}
use tqlib.RepeatingTask.Step.{tick, start_task}
use tqlib.RepeatingTask.Schedule.{
  HasNoDrift, IsNotEarly, next_scheduled, no_drift, stopped_for_good,
}

-- The task is due at 10, starts at 13, takes 4 and asks for a delay of 20: it is due again at 30.
abbrev quick : Outcome
quick = record { delay = micros 20; stops = false; lasts = 4 }

abbrev after_one : System
after_one = record {
  flag = record { alive = true };
  has_flag = true;
  queued = some (record { next_run_time = pos 30 }, pos 30);
  clock = pos 17;
  calls = record { started = pos 13; scheduled = pos 10; returned = micros 20 } ∷ [];
}

abbrev one_call : Steps (delayed_start (pos 0) 10) after_one
unfolding delayed_start run_task post_again stop new_task create_internal set_not_alive ◌+ℤ◌ ◌-ℤ◌
one_call =
    next (next here (tick _ 13))
      (start_task _ (record { next_run_time = pos 10 }) (pos 10) quick refl (omega arith))

abbrev after_stop : System
after_stop = record {
  flag = record { alive = false };
  has_flag = false;
  queued = none;
  clock = pos 47;
  calls = record { started = pos 13; scheduled = pos 10; returned = micros 20 } ∷ [];
}

abbrev then_stopped : Steps (stop after_one) after_stop
unfolding delayed_start run_task post_again stop new_task create_internal set_not_alive ◌+ℤ◌ ◌-ℤ◌
then_stopped =
    next (next here (tick _ 30))
      (start_task _ (record { next_run_time = pos 30 }) (pos 30) quick refl (omega arith))

no_drift_example :
    HasNoDrift (pos 0 +ℤ pos 10) after_one.calls
    × All IsNotEarly after_one.calls
    × (is_running after_one ≡ true
        → after_one.queued ≡ none
        → next_scheduled (pos 0 +ℤ pos 10) after_one.calls ≡ none)
no_drift_example = no_drift (pos 0) 10 one_call

stopped_for_good_example : (after_stop.calls ≡ after_one.calls) × (is_running after_stop ≡ false)
stopped_for_good_example = stopped_for_good (pos 0) 10 one_call then_stopped
