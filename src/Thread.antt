-- ===== src/Thread.antt =====
-- rtc_base/thread.cc and thread.h: the message queue of rtc::Thread. A task is a value of any type.
-- Times are exact integers of milliseconds. `std::priority_queue` is the list of its entries in the
-- order in which top() gives them; entries that its `<` does not part have the same number, which
-- happens only after 2 ^ 32 posts. A wait of kForever is `none`.
pub mod Due
pub mod Delivery
pub mod Happened
pub mod Conserve
pub mod WaitLength
pub mod Quiet
pub mod Waiting
mod Examples
use tqlib.Prelude.{
  ℕ, ◌+◌, ◌%◌, ◌^◌, Bool, true, false, not, ◌&&◌, ◌||◌, Option, none, some, List, [], ◌∷◌, ◌++◌,
  ltb, if◌then◌else◌,
}
use tqlib.Prelude.Int.{ℤ, pos, ◌+ℤ◌, ◌-ℤ◌, ltb_ℤ, leb_ℤ, eqb_ℤ}

module _ {ℓ} (Task : Type ℓ) where
  -- `DelayedMessage`
  pub record DelayedMessage : Type ℓ where
    pub delay_ms : ℤ
    pub run_time_ms : ℤ
    pub message_number : ℕ
    pub functor : Task

  -- The fields of `Thread` that its queue uses.
  pub record Thread : Type ℓ where
    pub stop : Bool
    pub messages : List Task
    pub delayed_messages : List DelayedMessage
    pub delayed_next_num : ℕ

  -- What another thread, or a task, does to the queue.
  pub data Event : Type ℓ where
    post : Task → Event
    post_delayed : Task → ℤ → ℤ → Event
    quit : Event
    restart : Event

  -- What `Get` meets once it has found no message: the events before it reads `stop_`, those during
  -- the wait, whether the wait succeeds, and the time when it is over, by the time at which it starts
  -- and its length: none for a wait that is never over.
  pub record Round : Type ℓ where
    pub before : List Event
    pub during : List Event
    pub wait_ok : Bool
    pub time_after : ℤ → Option ℤ → Option ℤ

  -- How `Get` ends; `still_waiting` if the rounds come to an end first, or a wait is never over.
  pub data Outcome : Type ℓ where
    task : Task → Outcome
    nothing : Outcome
    still_waiting : Outcome

-- `cmsNext`: the shorter of the wait that was asked for and the time until the next message.
unfoldable pub wait_length : Option ℤ → ℤ → Option ℤ → Option ℤ
wait_length none elapsed next = next
wait_length (some wait) elapsed next =
    let left = wait -ℤ elapsed in
    let asked = if ltb_ℤ left (pos 0) then pos 0 else left in
    elim next [ none ↦ some asked | some n ↦ if ltb_ℤ n asked then some n else some asked ]

-- `cmsWait != kForever && cmsElapsed >= cmsWait`
unfoldable pub timed_out : Option ℤ → ℤ → Bool
timed_out none elapsed = false
timed_out (some wait) elapsed = leb_ℤ wait elapsed

module _ {ℓ} {Task : Type ℓ} where
  -- `DelayedMessage::operator<`: the earlier message is the greater one.
  unfoldable pub delayed_lt : DelayedMessage Task → DelayedMessage Task → Bool
  delayed_lt a b =
      ltb_ℤ b.run_time_ms a.run_time_ms
      || (eqb_ℤ a.run_time_ms b.run_time_ms && ltb b.message_number a.message_number)

  -- `delayed_messages_.push`
  unfoldable pub push :
      DelayedMessage Task → List (DelayedMessage Task) → List (DelayedMessage Task)
  push d [] = d ∷ []
  push d (k ∷ ds) = let rest = push d ds in if delayed_lt k d then d ∷ k ∷ ds else k ∷ rest

  -- `PostTask`
  unfoldable pub post_task : Task → Thread Task → Thread Task
  post_task t q = if q.stop then q else record q { messages = q.messages ++ t ∷ [] }

  -- `PostDelayedHighPrecisionTask` and `PostDelayedTask`, of a delay that is rounded to milliseconds
  -- already, at the time `now`
  unfoldable pub post_delayed_task : Task → ℤ → ℤ → Thread Task → Thread Task
  post_delayed_task t delay now q = if q.stop then q else record q {
    delayed_messages =
        push
          (record {
            delay_ms = delay;
            run_time_ms = now +ℤ delay;
            message_number = q.delayed_next_num;
            functor = t;
          })
          q.delayed_messages;
    delayed_next_num = (q.delayed_next_num + 1) % 2 ^ 32;
  }

  -- `Quit` and `Restart`
  unfoldable pub set_stop : Bool → Thread Task → Thread Task
  set_stop b q = record q { stop = b }

  unfoldable pub apply : Event Task → Thread Task → Thread Task
  apply (post t) q = post_task t q
  apply (post_delayed t delay now) q = post_delayed_task t delay now q
  apply quit q = set_stop true q
  apply restart q = set_stop false q

  unfoldable pub apply_all : List (Event Task) → Thread Task → Thread Task
  unfolding apply
  apply_all [] q = q
  apply_all (e ∷ es) q = apply_all es (apply e q)

  -- The loop of `Get` over the delayed messages: the time until the next one, those that stay, and the
  -- messages.
  unfoldable pub move_due :
      ℤ → List (DelayedMessage Task) → List Task → Option ℤ × List (DelayedMessage Task) × List Task
  move_due now [] messages = (none, [], messages)
  move_due now (d ∷ ds) messages =
      let rest = move_due now ds (messages ++ d.functor ∷ []) in
      if ltb_ℤ now d.run_time_ms then (some (d.run_time_ms -ℤ now), d ∷ ds, messages) else rest

  -- The front of the message queue, where there is one, is popped.
  unfoldable pub take_front : Thread Task → Option Task × Thread Task
  take_front q = elim q.messages [ [] ↦ (none, q) | t ∷ ts ↦ (some t, record q { messages = ts }) ]

  -- The locked part of `Get`: the time until the next delayed message, the message that is pulled
  -- off, and the queue.
  unfoldable pub pull : ℤ → Thread Task → Option ℤ × Option Task × Thread Task
  pull now q =
      let (next, later, messages) = move_due now q.delayed_messages q.messages in
      let (found, q1) = take_front (record q { delayed_messages = later; messages = messages }) in
      (next, found, q1)

  -- The rest of a round of `Get` from its `Wait` on, with the time when that is over, the queue then,
  -- and the next round.
  unfoldable pub after_wait :
      Bool
      → Option ℤ
      → ℤ
      → Thread Task
      → (ℤ → Outcome Task × Thread Task)
      → Option ℤ
      → Outcome Task × Thread Task
  after_wait wait_ok wait start q again none = (still_waiting, q)
  after_wait wait_ok wait start q again (some now) =
      let next_round = again now in
      if not wait_ok
      then (nothing, q)
      else if timed_out wait (now -ℤ start)
      then (nothing, q)
      else next_round

  -- `Get`, started at the time `start`, in its round at the time `now`
  unfoldable pub get :
      List (Round Task) → Option ℤ → ℤ → ℤ → Thread Task → Outcome Task × Thread Task
  unfolding after_wait
  get [] wait start now q =
      let (next, found, q1) = pull now q in
      elim found [ some t ↦ (task t, q1) | none ↦ (still_waiting, q1) ]
  get (r ∷ rs) wait start now q =
      let (next, found, q1) = pull now q in
      elim found [
        | some t ↦ (task t, q1)
        | none ↦
            let q2 = apply_all r.before q1 in
            let q3 = apply_all r.during q2 in
            let over = r.time_after now (wait_length wait (now -ℤ start) next) in
            if q2.stop
            then (nothing, q2)
            else after_wait r.wait_ok wait start q3 (λ later. get rs wait start later q3) over
      ]

  -- `GetDelay`, at the time `now`
  unfoldable pub get_delay : ℤ → Thread Task → Option ℤ
  get_delay now q = elim q.messages [
    | t ∷ ts ↦ some (pos 0)
    | [] ↦ elim q.delayed_messages [
      | [] ↦ none
      | d ∷ ds ↦
          let delay = d.run_time_ms -ℤ now in some (if ltb_ℤ delay (pos 0) then pos 0 else delay)
    ]
  ]
