-- ===== src/Thread/Delivery.antt =====
-- `Get` of rtc::Thread: which task it pulls off, and that no task of the queue is lost or made up
-- while it waits and other threads post (thread.cc).
use mathlib.Core.List.{Perm, perm_middle}
use mathlib.Core.List.Perm
use tqlib.Prelude.{
  ◌≡◌, refl, ap, ◌∙◌, sym, inl, inr, Bool, Bool-cases, true, false, Option, none, some, List, [],
  ◌∷◌, ◌++◌, append_assoc, if◌then◌else◌,
}
use tqlib.Prelude.Int.{ℤ}
use tqlib.Thread.{
  Thread, Event, post, post_delayed, quit, restart, Outcome, task, nothing, still_waiting,
  DelayedMessage, post_task, post_delayed_task, set_stop, apply, apply_all, move_due, take_front,
  pull,
}
use tqlib.Thread.Due.{
  IsOrdered, IsSplit, functors, next_time, push-IsOrdered, push-perm, move_due_correct,
  IsOrdered-suffix,
}

module _ {ℓ} {A : Type ℓ} where
  pub perm_front : (xs ys zs : List A) → Perm (ys ++ (xs ++ zs)) ((xs ++ ys) ++ zs)
  perm_front [] ys zs = Perm.refl _
  perm_front (x ∷ xs) ys zs =
      Perm.trans (perm_middle ys (xs ++ zs)) (Perm.cons x (perm_front xs ys zs))

module _ {ℓ} {Task : Type ℓ} where
  abbrev pub first : List Task → Option Task
  first [] = none
  first (t ∷ ts) = some t

  abbrev pub others : List Task → List Task
  others [] = []
  others (t ∷ ts) = ts

  -- The tasks of a queue, in no order that matters.
  abbrev pub tasks : Thread Task → List Task
  tasks q = q.messages ++ functors q.delayed_messages

  -- What an event does to `stop_`, and the task that it adds: none while the queue is stopped.
  abbrev pub stop_after : Bool → Event Task → Bool
  stop_after stop (post t) = stop
  stop_after stop (post_delayed t delay now) = stop
  stop_after stop quit = true
  stop_after stop restart = false

  abbrev pub posted : Bool → Event Task → List Task
  posted stop (post t) = if stop then [] else t ∷ []
  posted stop (post_delayed t delay now) = if stop then [] else t ∷ []
  posted stop quit = []
  posted stop restart = []

  abbrev pub accepted : Bool → List (Event Task) → List Task
  accepted stop [] = []
  accepted stop (e ∷ es) = posted stop e ++ accepted (stop_after stop e) es

  abbrev pub given : Outcome Task → List Task
  given (task t) = t ∷ []
  given nothing = []
  given still_waiting = []

  pub record IsPulled (now : ℤ) (q : Thread Task) : Type ℓ where
    pub due : List (DelayedMessage Task)
    pub later : List (DelayedMessage Task)
    pub split : IsSplit now q.delayed_messages due later
    pub pulled :
        let ready = q.messages ++ functors due in
        pull now q ≡ (
          next_time now later,
          first ready,
          record q { delayed_messages = later; messages = others ready },
        )

  take_front_eq :
      (q : Thread Task) (m : List Task)
      → take_front (record q { messages = m }) ≡ (first m, record q { messages = others m })
  unfolding take_front
  take_front_eq q [] = refl
  take_front_eq q (t ∷ ts) = refl

  -- The locked part of `Get` takes the first of the messages, or else the first of the delayed ones
  -- whose time has come; the other due ones follow the messages in their order.
  pub pull_correct : (now : ℤ) (q : Thread Task) → IsOrdered q.delayed_messages → IsPulled now q
  unfolding pull
  pull_correct now q s =
      let (due, c, m, n) = move_due_correct now q.delayed_messages q.messages s in
      record {
        due = due;
        later = _;
        split = c;
        pulled =
            rw
              (
                m,
                n,
                take_front_eq
                    (record q { delayed_messages = (move_due now q.delayed_messages q.messages).1 })
                    (q.messages ++ functors due),
              )
              refl;
      }

  apply-IsOrdered :
      (e : Event Task) (q : Thread Task)
      → IsOrdered q.delayed_messages
      → IsOrdered (apply e q).delayed_messages
  unfolding apply post_task post_delayed_task set_stop
  apply-IsOrdered (post t) q s = elim (Bool-cases q.stop) [ inl e ↦ rw e s | inr e ↦ rw e s ]
  apply-IsOrdered (post_delayed t delay now) q s = elim (Bool-cases q.stop) [
    | inl e ↦ rw e s
    | inr e ↦ rw e (push-IsOrdered _ q.delayed_messages s)
  ]
  apply-IsOrdered quit q s = s
  apply-IsOrdered restart q s = s

  pub apply_stop : (e : Event Task) (q : Thread Task) → (apply e q).stop ≡ stop_after q.stop e
  unfolding apply post_task post_delayed_task set_stop
  apply_stop (post t) q = elim (Bool-cases q.stop) [ inl e ↦ rw e refl | inr e ↦ rw e refl ]
  apply_stop (post_delayed t delay now) q = elim (Bool-cases q.stop) [
    | inl e ↦ rw e refl
    | inr e ↦ rw e refl
  ]
  apply_stop quit q = refl
  apply_stop restart q = refl

  apply-perm :
      (e : Event Task) (q : Thread Task) → Perm (tasks (apply e q)) (posted q.stop e ++ tasks q)
  unfolding apply post_task post_delayed_task set_stop
  apply-perm (post t) q = elim (Bool-cases q.stop) [
    | inl e ↦ rw e (Perm.refl _)
    | inr e ↦ rw (e, append_assoc) (perm_middle q.messages _)
  ]
  apply-perm (post_delayed t delay now) q = elim (Bool-cases q.stop) [
    | inl e ↦ rw e (Perm.refl _)
    | inr e ↦ rw e (
        Perm.trans (Perm.append_left q.messages (Perm.map _ (push-perm _ q.delayed_messages)))
          (perm_middle q.messages _))
  ]
  apply-perm quit q = Perm.refl _
  apply-perm restart q = Perm.refl _

  pub apply_all-IsOrdered :
      (es : List (Event Task)) (q : Thread Task)
      → IsOrdered q.delayed_messages
      → IsOrdered (apply_all es q).delayed_messages
  unfolding apply_all
  apply_all-IsOrdered [] q s = s
  apply_all-IsOrdered (e ∷ es) q s = apply_all-IsOrdered es _ (apply-IsOrdered e q s)

  -- The events add the tasks that they post while the queue is not stopped, and no other.
  pub apply_all-perm :
      (es : List (Event Task)) (q : Thread Task)
      → Perm (tasks (apply_all es q)) (accepted q.stop es ++ tasks q)
  unfolding apply_all
  apply_all-perm [] q = Perm.refl _
  apply_all-perm (e ∷ es) q = Perm.trans (rw (apply_stop e q) at (apply_all-perm es (apply e q))) (
      Perm.trans (Perm.append_left (accepted (stop_after q.stop e) es) (apply-perm e q))
        (perm_front (posted q.stop e) (accepted (stop_after q.stop e) es) (tasks q)))

  abbrev pub taken : Option Task → List Task
  taken none = []
  taken (some t) = t ∷ []

  taken-first : (m : List Task) → taken (first m) ++ others m ≡ m
  taken-first [] = refl
  taken-first (t ∷ m) = refl

  functors-append :
      (xs ys : List (DelayedMessage Task)) → functors (xs ++ ys) ≡ functors xs ++ functors ys
  functors-append [] ys = refl
  functors-append (x ∷ xs) ys = ap (λ r. x.functor ∷ r) (functors-append xs ys)

  -- What `pull` leaves: the flag, the order, and every task but the one that it takes.
  pub record Keeps (found : Option Task) (q q' : Thread Task) : Type ℓ where
    pub same_stop : q'.stop ≡ q.stop
    pub ordered : IsOrdered q'.delayed_messages
    pub same_tasks : taken found ++ tasks q' ≡ tasks q

  pub pull-Keeps :
      (now : ℤ) (q : Thread Task)
      → IsOrdered q.delayed_messages
      → let (next, found, q') = pull now q in Keeps found q q'
  pull-Keeps now q s =
      let p = pull_correct now q s in
      let ready = q.messages ++ functors p.due in
      rw p.pulled (record {
        same_stop = refl;
        ordered = IsOrdered-suffix p.due p.later (rw p.split.split at s);
        same_tasks =
            sym (append_assoc (taken (first ready)) (others ready) (functors p.later))
            ∙ ap (λ r. r ++ functors p.later) (taken-first ready)
            ∙ append_assoc q.messages (functors p.due) (functors p.later)
            ∙ ap (λ r. q.messages ++ r)
                (sym (functors-append p.due p.later) ∙ ap functors (sym p.split.split));
      })
