-- ===== src/Thread/Waiting.antt =====
-- A delayed message whose time comes ends a wait of rtc::Thread without a limit (thread.cc).
use tqlib.Prelude.{
  ◌≡◌, refl, ap, ◌∙◌, inl, inr, false, none, some, List, [], ◌∷◌, All, Any, Any-imp,
}
use tqlib.Prelude.Int.{ℤ, ◌+ℤ◌, ◌-ℤ◌, ◌≤ℤ◌, int_laws}
use tqlib.Thread.{
  DelayedMessage, Thread, Round, task, apply_all, pull, get, after_wait, wait_length, timed_out,
}
use tqlib.Thread.Due.{IsOrdered}
use tqlib.Thread.Delivery.{apply_all-IsOrdered, pull-Keeps}
use tqlib.Thread.Conserve.{Option-cases, get_found, get_idle}
use tqlib.Thread.Quiet.{
  HasCome, IsQuiet, apply_all-Any, apply_all_runs, pull_due, pull_idle, first_waiting,
}

module _ {ℓ} {Task : Type ℓ} where
  -- A wait of the round with a limit is over at its limit, and no earlier.
  abbrev pub RunsOut : Round Task → Type 0
  RunsOut r = (now n later : ℤ) → r.time_after now (some n) ≡ some later → now +ℤ n ≤ℤ later

  get_due :
      (rs : List (Round Task)) (start now : ℤ) (q : Thread Task)
      → IsOrdered q.delayed_messages
      → Any (HasCome now) q.delayed_messages
      → (t : Task) × ((get rs none start now q).0 ≡ task t)
  get_due rs start now q s h =
      let (t, e) = pull_due now q s h in (t, ap (λ r. r.0) (get_found rs none start now q t e))

  -- A round without a quit keeps the delayed messages and goes into the next one.
  pub get_quiet :
      (time : ℤ) (r : Round Task) (rs : List (Round Task)) (start now later : ℤ) (q : Thread Task)
      → IsQuiet time r
      → q.stop ≡ false
      → IsOrdered q.delayed_messages
      → (pull now q).1 ≡ none
      → r.time_after now (wait_length none (now -ℤ start) (pull now q).0) ≡ some later
      → let q3 = apply_all r.during (apply_all r.before (pull now q).2) in
        (get (r ∷ rs) none start now q ≡ get rs none start later q3)
        × (q3.stop ≡ false)
        × IsOrdered q3.delayed_messages
        × ((P : DelayedMessage Task → Type 0)
            → Any P q.delayed_messages
            → Any P q3.delayed_messages)
  unfolding timed_out after_wait
  get_quiet time r rs start now later q quiet run s e over =
      let k = rw e at (pull-Keeps now q s) in
      let q1 = (pull now q).2 in
      let q2 = apply_all r.before q1 in
      let run2 = apply_all_runs r.before q1 quiet.before_ok (k.same_stop ∙ run) in
      let s2 = apply_all-IsOrdered r.before q1 k.ordered in
      (
        get_idle r rs none start now q e ∙ rw (run2, over, quiet.succeeds) refl,
        apply_all_runs r.during q2 quiet.during_ok run2,
        apply_all-IsOrdered r.during q2 s2,
        λ P h.
            apply_all-Any P r.during q2 (apply_all-Any P r.before q1 (rw (pull_idle now q s e) h)),
      )

  -- In a queue that is not stopped and whose delayed messages are in order, a message that is
  -- delayed until `time` or earlier ends a `Get` without a limit, in rounds in which the waits
  -- succeed and nobody quits: though only the waits with a limit that comes by `time` are known to
  -- be over at all, each perhaps too early, `Get` returns a task if one of these rounds has its
  -- wait run to its limit.
  pub get_delivers :
      (time : ℤ) (rs : List (Round Task)) (start now : ℤ) (q : Thread Task)
      → IsOrdered q.delayed_messages
      → q.stop ≡ false
      → Any (HasCome time) q.delayed_messages
      → All (IsQuiet time) rs
      → Any RunsOut rs
      → (t : Task) × ((get rs none start now q).0 ≡ task t)
  unfolding wait_length
  get_delivers time [] start now q s run h quiet full = absurd full
  get_delivers time (r ∷ rs) start now q s run h (quiet, all) full =
      elim (Option-cases (pull now q).1) [
        | inr (t, e) ↦ (t, ap (λ r. r.0) (get_found (r ∷ rs) none start now q t e))
        | inl e ↦
            let (d, next, early, there) = first_waiting time now q s h e in
            let n = d.run_time_ms -ℤ now in
            let (later, over) = quiet.ends now n (omega int_laws) in
            let (same, run3, s3, keeps) =
              get_quiet time r rs start now later q quiet run s e
                (ap (λ w. r.time_after now w) next ∙ over) in
            rw same (elim full [
              | inl runs_out ↦
                  let reached = runs_out now n later over in
                  get_due rs start later _ s3
                    (Any-imp _ _ _ (λ c k. omega int_laws) (keeps _ there))
              | inr rest ↦ get_delivers time rs start later _ s3 run3 (keeps _ h) all rest
            ])
      ]
