-- ===== src/Thread/Happened.antt =====
-- Which events have happened when `Get` of rtc::Thread ends, and that no task of them or of the queue is
-- lost, made twice or made up (thread.cc).
use mathlib.Core.List.{Perm}
use tqlib.Prelude.{
  ◌≡◌, refl, ap, ◌∙◌, ◌⊎◌, Bool, true, false, Option, none, some, List, [], ◌∷◌, ◌++◌,
}
use tqlib.Prelude.Int.{ℤ, ◌-ℤ◌}
use tqlib.Thread.{
  Thread, Event, Round, Outcome, task, nothing, still_waiting, apply, apply_all, wait_length,
  timed_out,
}
use tqlib.Thread.Due.{IsOrdered}
use tqlib.Thread.Delivery.{tasks, given, stop_after, accepted, apply_stop}

module _ {ℓ} {Task : Type ℓ} where
  -- `stop_` after some events.
  abbrev pub stop_after_all : Bool → List (Event Task) → Bool
  stop_after_all stop [] = stop
  stop_after_all stop (e ∷ es) = stop_after_all (stop_after stop e) es

  -- Which events have happened when `Get` ends in that way, with `stop_` and the time as they are at
  -- the start of its rounds: it quits before a wait, sleeps in one for ever, gives up after one that
  -- failed or was over at the end of the time asked for, or comes after whole rounds, whose waits
  -- succeeded before that time, to a task or to the last of the rounds.
  pub data Happened (wait : Option ℤ) (start : ℤ)
      : Bool → ℤ → List (Round Task) → Outcome Task → List (Event Task) → Type ℓ where
    found :
        (stop : Bool) (now : ℤ) (rs : List (Round Task)) (t : Task)
        → Happened wait start stop now rs (task t) []
    at_end : (stop : Bool) (now : ℤ) → Happened wait start stop now [] still_waiting []
    quits :
        (stop : Bool) (now : ℤ) (r : Round Task) (rs : List (Round Task))
        → stop_after_all stop r.before ≡ true
        → Happened wait start stop now (r ∷ rs) nothing r.before
    sleeps :
        (stop : Bool) (now : ℤ) (r : Round Task) (rs : List (Round Task)) (next : Option ℤ)
        → stop_after_all stop r.before ≡ false
        → r.time_after now (wait_length wait (now -ℤ start) next) ≡ none
        → Happened wait start stop now (r ∷ rs) still_waiting (r.before ++ r.during)
    gives_up :
        (stop : Bool) (now : ℤ) (r : Round Task) (rs : List (Round Task)) (next : Option ℤ)
        (later : ℤ)
        → stop_after_all stop r.before ≡ false
        → r.time_after now (wait_length wait (now -ℤ start) next) ≡ some later
        → (r.wait_ok ≡ false) ⊎ (timed_out wait (later -ℤ start) ≡ true)
        → Happened wait start stop now (r ∷ rs) nothing (r.before ++ r.during)
    goes_on :
        (stop : Bool) (now : ℤ) (r : Round Task) (rs : List (Round Task)) (next : Option ℤ)
        (later : ℤ) (out : Outcome Task) (es : List (Event Task))
        → stop_after_all stop r.before ≡ false
        → r.time_after now (wait_length wait (now -ℤ start) next) ≡ some later
        → r.wait_ok ≡ true
        → timed_out wait (later -ℤ start) ≡ false
        → Happened wait start (stop_after_all stop (r.before ++ r.during)) later rs out es
        → Happened wait start stop now (r ∷ rs) out ((r.before ++ r.during) ++ es)

  -- What is returned and what is left are the tasks of the queue and those that the events post which
  -- have happened.
  pub record Conserves (wait : Option ℤ) (start now : ℤ) (rs : List (Round Task)) (q : Thread Task)
      (out : Outcome Task) (q' : Thread Task) : Type ℓ where
    pub events : List (Event Task)
    pub happened : Happened wait start q.stop now rs out events
    pub same_stop : q'.stop ≡ stop_after_all q.stop events
    pub ordered : IsOrdered q'.delayed_messages
    pub same_tasks : Perm (given out ++ tasks q') (accepted q.stop events ++ tasks q)

  abbrev pub Conserving :
      Option ℤ → ℤ → ℤ → List (Round Task) → Thread Task → Outcome Task × Thread Task → Type ℓ
  Conserving wait start now rs q (out, q') = Conserves wait start now rs q out q'

  pub apply_all_stop :
      (es : List (Event Task)) (q : Thread Task) → (apply_all es q).stop ≡ stop_after_all q.stop es
  unfolding apply_all
  apply_all_stop [] q = refl
  apply_all_stop (e ∷ es) q =
      apply_all_stop es (apply e q) ∙ ap (λ b. stop_after_all b es) (apply_stop e q)

  pub stop_after_all-append :
      (stop : Bool) (es fs : List (Event Task))
      → stop_after_all stop (es ++ fs) ≡ stop_after_all (stop_after_all stop es) fs
  stop_after_all-append stop [] fs = refl
  stop_after_all-append stop (e ∷ es) fs = stop_after_all-append (stop_after stop e) es fs

  pub apply_all-append :
      (es fs : List (Event Task)) (q : Thread Task)
      → apply_all (es ++ fs) q ≡ apply_all fs (apply_all es q)
  unfolding apply_all
  apply_all-append [] fs q = refl
  apply_all-append (e ∷ es) fs q = apply_all-append es fs (apply e q)
