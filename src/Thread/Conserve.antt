-- ===== src/Thread/Conserve.antt =====
-- While `Get` of rtc::Thread waits and other threads post, no task is lost, made twice or made up
-- (thread.cc).
use mathlib.Core.List.Perm
use tqlib.Prelude.{
  ◌≡◌, refl, ap, ◌∙◌, ◌⊎◌, sym, subst, inl, inr, Bool, Bool-cases, true, false, Option, none, some,
  List, [], ◌∷◌, ◌++◌, append_assoc, if◌then◌else◌,
}
use tqlib.Prelude.Int.{ℤ, ◌-ℤ◌}
use tqlib.Thread.{
  Thread, Event, Round, Outcome, task, nothing, still_waiting, apply, apply_all, pull, get,
  after_wait, wait_length, timed_out,
}
use tqlib.Thread.Due.{IsOrdered}
use tqlib.Thread.Happened.{
  Happened, found, at_end, quits, sleeps, gives_up, goes_on, stop_after_all, Conserves, Conserving,
  apply_all_stop, stop_after_all-append, apply_all-append,
}
use tqlib.Thread.Delivery.{
  tasks, given, posted, accepted, perm_front, apply_stop, apply_all-IsOrdered, apply_all-perm,
  Keeps, pull-Keeps,
}

module _ {ℓ} {Task : Type ℓ} where
  accepted-append :
      (es fs : List (Event Task)) (q : Thread Task)
      → accepted q.stop (es ++ fs) ≡ accepted q.stop es ++ accepted (apply_all es q).stop fs
  unfolding apply_all
  accepted-append [] fs q = refl
  accepted-append (e ∷ es) fs q =
      ap (λ r. posted q.stop e ++ r) (rw (apply_stop e q) at (accepted-append es fs (apply e q)))
      ∙ sym (append_assoc (posted q.stop e) _ _)

  pub Option-cases : (o : Option Task) → (o ≡ none) ⊎ ((t : Task) × (o ≡ some t))
  Option-cases none = inl refl
  Option-cases (some t) = inr (t, refl)

  -- The ends of a round without a task: after some events, and after those and the next rounds.
  ended :
      (wait : Option ℤ) (start now : ℤ) (rs : List (Round Task)) (es : List (Event Task))
      (q : Thread Task) (out : Outcome Task)
      → given out ≡ []
      → IsOrdered (apply_all es q).delayed_messages
      → Happened wait start q.stop now rs out es
      → Conserves wait start now rs q out (apply_all es q)
  ended wait start now rs es q out g s h = record {
    events = es;
    happened = h;
    same_stop = apply_all_stop es q;
    ordered = s;
    same_tasks = rw g (apply_all-perm es q);
  }

  continued :
      (wait : Option ℤ) (start now : ℤ) (next : Option ℤ) (r : Round Task) (rs : List (Round Task))
      (q : Thread Task) (later : ℤ) {out : Outcome Task} {q' : Thread Task}
      → stop_after_all q.stop r.before ≡ false
      → r.time_after now (wait_length wait (now -ℤ start) next) ≡ some later
      → r.wait_ok ≡ true
      → timed_out wait (later -ℤ start) ≡ false
      → Conserves wait start later rs (apply_all (r.before ++ r.during) q) out q'
      → Conserves wait start now (r ∷ rs) q out q'
  continued wait start now next r rs q later {out} {q'} runs over ok in_time c =
      let es = r.before ++ r.during in
      let stops = apply_all_stop es q in
      record {
        events = es ++ c.events;
        happened =
            goes_on q.stop now r rs next later out c.events runs over ok in_time
              (subst (λ b. Happened wait start b later rs out c.events) stops c.happened);
        same_stop =
            c.same_stop
            ∙ ap (λ b. stop_after_all b c.events) stops
            ∙ sym (stop_after_all-append q.stop es c.events);
        ordered = c.ordered;
        same_tasks = Perm.trans c.same_tasks (
            rw (accepted-append es c.events q) (
              Perm.trans
                (Perm.append_left (accepted (apply_all es q).stop c.events) (apply_all-perm es q))
                (perm_front (accepted q.stop es) (accepted (apply_all es q).stop c.events)
                  (tasks q))));
      }

  kept_after_wait :
      (wait : Option ℤ) (start now : ℤ) (next : Option ℤ) (r : Round Task) (rs : List (Round Task))
      (q : Thread Task) (again : ℤ → Outcome Task × Thread Task)
      → let q3 = apply_all (r.before ++ r.during) q in
        stop_after_all q.stop r.before ≡ false
        → IsOrdered q3.delayed_messages
        → ((later : ℤ) → Conserving wait start later rs q3 (again later))
        → (ok : Bool) (over : Option ℤ) → r.wait_ok ≡ ok
        → r.time_after now (wait_length wait (now -ℤ start) next) ≡ over
        → Conserving wait start now (r ∷ rs) q (after_wait ok wait start q3 again over)
  unfolding after_wait
  kept_after_wait wait start now next r rs q again runs s c ok none f e =
      ended wait start now (r ∷ rs) (r.before ++ r.during) q still_waiting refl s
        (sleeps q.stop now r rs next runs e)
  kept_after_wait wait start now next r rs q again runs s c false (some later) f e =
      ended wait start now (r ∷ rs) (r.before ++ r.during) q nothing refl s
        (gives_up q.stop now r rs next later runs e (inl f))
  kept_after_wait wait start now next r rs q again runs s c true (some later) f e =
      elim (Bool-cases (timed_out wait (later -ℤ start))) [
        | inl u ↦ rw u (
            ended wait start now (r ∷ rs) (r.before ++ r.during) q nothing refl s
              (gives_up q.stop now r rs next later runs e (inr u)))
        | inr u ↦ rw u (continued wait start now next r rs q later runs e f u (c later))
      ]

  -- One that conserves the tasks of what `pull` has left.
  kept_pulled :
      (wait : Option ℤ) (start now : ℤ) (rs : List (Round Task)) (q q1 : Thread Task)
      {out : Outcome Task} {q' : Thread Task}
      → Keeps none q q1
      → Conserves wait start now rs q1 out q'
      → Conserves wait start now rs q out q'
  kept_pulled wait start now rs q q1 {out} {q'} k c = record {
    events = c.events;
    happened = subst (λ b. Happened wait start b now rs out c.events) k.same_stop c.happened;
    same_stop = c.same_stop ∙ ap (λ b. stop_after_all b c.events) k.same_stop;
    ordered = c.ordered;
    same_tasks = rw (k.same_stop, k.same_tasks) at c.same_tasks;
  }

  kept_found :
      (wait : Option ℤ) (start now : ℤ) (rs : List (Round Task)) (t : Task) (q q1 : Thread Task)
      → Keeps (some t) q q1
      → Conserves wait start now rs q (task t) q1
  kept_found wait start now rs t q q1 k = record {
    events = [];
    happened = found q.stop now rs t;
    same_stop = k.same_stop;
    ordered = k.ordered;
    same_tasks = rw k.same_tasks (Perm.refl _);
  }

  -- `Get` has a task at once where `pull` has one.
  pub get_found :
      (rs : List (Round Task)) (wait : Option ℤ) (start now : ℤ) (q : Thread Task) (t : Task)
      → (pull now q).1 ≡ some t
      → get rs wait start now q ≡ (task t, (pull now q).2)
  unfolding get pull
  get_found [] wait start now q t e = rw (get, e) refl
  get_found (r ∷ rs) wait start now q t e = rw (get, e) refl

  pub get_idle_nil :
      (wait : Option ℤ) (start now : ℤ) (q : Thread Task)
      → (pull now q).1 ≡ none
      → get [] wait start now q ≡ (still_waiting, (pull now q).2)
  unfolding get pull
  get_idle_nil wait start now q e = rw (get, e) refl

  -- Where `pull` has none, it returns nothing or waits.
  pub get_idle :
      (r : Round Task) (rs : List (Round Task)) (wait : Option ℤ) (start now : ℤ) (q : Thread Task)
      → (pull now q).1 ≡ none
      → let q2 = apply_all r.before (pull now q).2 in
        let q3 = apply_all r.during q2 in
        let over = r.time_after now (wait_length wait (now -ℤ start) (pull now q).0) in
        get (r ∷ rs) wait start now q ≡ (
          if q2.stop
          then (nothing, q2)
          else after_wait r.wait_ok wait start q3 (λ later. get rs wait start later q3) over)
  unfolding get pull
  get_idle r rs wait start now q e = rw (get, e) refl

  kept_round :
      (r : Round Task) (rs : List (Round Task)) (wait : Option ℤ) (start now : ℤ) (q : Thread Task)
      (next : Option ℤ)
      → IsOrdered q.delayed_messages
      → ((later : ℤ) (q3 : Thread Task)
          → IsOrdered q3.delayed_messages
          → Conserving wait start later rs q3 (get rs wait start later q3))
      → (stopped : Bool) → (apply_all r.before q).stop ≡ stopped
      → let q2 = apply_all r.before q in
        let q3 = apply_all r.during q2 in
        let over = r.time_after now (wait_length wait (now -ℤ start) next) in
        Conserving wait start now (r ∷ rs) q (
          if stopped
          then (nothing, q2)
          else after_wait r.wait_ok wait start q3 (λ later. get rs wait start later q3) over)
  kept_round r rs wait start now q next s c true e =
      ended wait start now (r ∷ rs) r.before q nothing refl (apply_all-IsOrdered r.before q s)
        (quits q.stop now r rs (sym (apply_all_stop r.before q) ∙ e))
  kept_round r rs wait start now q next s c false e =
      let s3 = apply_all-IsOrdered (r.before ++ r.during) q s in
      rw (← apply_all-append r.before r.during q) (
        kept_after_wait wait start now next r rs q
          (λ later. get rs wait start later (apply_all (r.before ++ r.during) q))
          (sym (apply_all_stop r.before q) ∙ e) s3 (λ later. c later _ s3) _ _ refl refl)

  -- Of a queue whose delayed messages are in order, the task that `Get` returns, if it does, and
  -- those that it leaves are those that were queued and those that were posted meanwhile: by all
  -- the events until it ended and by no later ones, and only while the queue was not stopped. It
  -- returns nothing only when `stop_` is set before a wait, or after a wait that failed or was over
  -- at the end of the time asked for.
  pub get-Conserving :
      (rs : List (Round Task)) (wait : Option ℤ) (start now : ℤ) (q : Thread Task)
      → IsOrdered q.delayed_messages
      → Conserving wait start now rs q (get rs wait start now q)
  unfolding apply_all pull
  get-Conserving [] wait start now q s = elim (Option-cases (pull now q).1) [
    | inl e ↦
        let k = rw e at (pull-Keeps now q s) in
        rw (get_idle_nil wait start now q e) (
          kept_pulled wait start now [] q _ k
            (ended wait start now [] [] _ still_waiting refl k.ordered (at_end _ now)))
    | inr (t, e) ↦
        rw (get_found [] wait start now q t e)
          (kept_found wait start now [] t q _ (rw e at (pull-Keeps now q s)))
  ]
  get-Conserving (r ∷ rs) wait start now q s = elim (Option-cases (pull now q).1) [
    | inr (t, e) ↦
        rw (get_found (r ∷ rs) wait start now q t e)
          (kept_found wait start now (r ∷ rs) t q _ (rw e at (pull-Keeps now q s)))
    | inl e ↦
        let k = rw e at (pull-Keeps now q s) in
        rw (get_idle r rs wait start now q e) (
          kept_pulled wait start now (r ∷ rs) q _ k (
            kept_round r rs wait start now (pull now q).2 (pull now q).0 k.ordered
              (λ later q3 s3. get-Conserving rs wait start later q3 s3) _ refl))
  ]
