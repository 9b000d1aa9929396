-- ===== src/Thread/Examples.antt =====
-- Tests of the message queue of rtc::Thread, and its theorems at concrete queues.
use tqlib.Prelude.{ℕ, ◌≡◌, refl, inl, true, false, Option, none, some, List, [], ◌∷◌, arith}
use tqlib.Prelude.Int.{ℤ, pos, ◌-ℤ◌, ◌+ℤ◌, ◌≤ℤ◌}
use tqlib.Thread.{
  Thread, Event, post, post_delayed, quit, Round, task, nothing, apply, apply_all, post_task,
  post_delayed_task, set_stop, push, delayed_lt, move_due, take_front, pull, get, get_delay,
  wait_length, timed_out, after_wait,
}
use tqlib.Thread.Delivery.{IsPulled, pull_correct}
use tqlib.Thread.Happened.{Conserving}
use tqlib.Thread.Conserve.{get-Conserving}
use tqlib.Thread.Waiting.{get_delivers}

abbrev empty : Thread ℕ
empty = record { stop = false; messages = []; delayed_messages = []; delayed_next_num = 0 }

-- Task 7 is due at 30, the tasks 8 and 9 at 20.
abbrev waiting : Thread ℕ
waiting = record {
  stop = false;
  messages = [];
  delayed_messages =
      record { delay_ms = pos 10; run_time_ms = pos 20; message_number = 1; functor = 8 }
      ∷ record { delay_ms = pos 20; run_time_ms = pos 20; message_number = 2; functor = 9 }
      ∷ record { delay_ms = pos 30; run_time_ms = pos 30; message_number = 0; functor = 7 }
      ∷ [];
  delayed_next_num = 3;
}

-- A wait of the socket server that succeeds and runs to its limit; one without a limit is never over.
abbrev limit_of : ℤ → Option ℤ → Option ℤ
limit_of now none = none
limit_of now (some n) = some (now +ℤ n)

abbrev sleeps : List (Event ℕ) → Round ℕ
sleeps es = record { before = []; during = es; wait_ok = true; time_after = limit_of }

runs_out : (now n later : ℤ) → limit_of now (some n) ≡ some later → now +ℤ n ≤ℤ later
runs_out now n later e = let same : now +ℤ n ≡ later = cc in rw same (omega arith)

posted_in_order :
    apply_all
      (post_delayed 7 (pos 30) (pos 0)
        ∷ post_delayed 8 (pos 10) (pos 10)
        ∷ post_delayed 9 (pos 20) (pos 0)
        ∷ [])
      empty
    ≡ waiting
unfolding apply_all apply post_delayed_task push delayed_lt ◌+ℤ◌
posted_in_order = refl

dropped_when_stopped : (apply_all (quit ∷ post 1 ∷ []) empty).messages ≡ []
unfolding apply_all apply post_task set_stop
dropped_when_stopped = refl

first_due : (get (sleeps [] ∷ []) none (pos 10) (pos 10) waiting).0 ≡ task 8
unfolding get pull take_front move_due apply_all wait_length timed_out after_wait ◌-ℤ◌ ◌+ℤ◌
first_due = refl

too_late : (get (sleeps [] ∷ []) (some (pos 5)) (pos 10) (pos 10) waiting).0 ≡ nothing
unfolding get pull take_front move_due apply_all wait_length timed_out after_wait ◌-ℤ◌ ◌+ℤ◌
too_late = refl

delay_until_first : get_delay (pos 12) waiting ≡ some (pos 8)
unfolding get_delay ◌-ℤ◌
delay_until_first = refl

pull_correct_example : IsPulled (pos 25) waiting
unfolding delayed_lt
pull_correct_example = pull_correct (pos 25) waiting ((refl, (refl, tt)), ((refl, tt), (tt, tt)))

get-Conserving_example :
    Conserving none
      (pos 10)
      (pos 10)
      (sleeps (post 5 ∷ []) ∷ [])
      waiting
      (get (sleeps (post 5 ∷ []) ∷ []) none (pos 10) (pos 10) waiting)
unfolding delayed_lt
get-Conserving_example =
    get-Conserving (sleeps (post 5 ∷ []) ∷ []) none (pos 10) (pos 10) waiting
      ((refl, (refl, tt)), ((refl, tt), (tt, tt)))

get_delivers_example : (t : ℕ) × ((get (sleeps [] ∷ []) none (pos 10) (pos 10) waiting).0 ≡ task t)
unfolding delayed_lt
get_delivers_example =
    get_delivers (pos 20) (sleeps [] ∷ []) (pos 10) (pos 10) waiting
      ((refl, (refl, tt)), ((refl, tt), (tt, tt))) refl (inl (omega arith))
      (
        record {
          ends = λ now n h. (now +ℤ n, refl);
          succeeds = refl;
          before_ok = tt;
          during_ok = tt;
        },
        tt,
      )
      (inl runs_out)
