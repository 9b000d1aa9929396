-- ===== src/TaskQueue/Choice.antt =====
-- What GetNextTask of task_queue_stdlib.cc chooses, in terms of the entries that are queued.
use tqlib.Prelude.{
  ℕ, ◌*◌, ◌<◌, ◌≡◌, ◌⊎◌, inl, inr, refl, sym, subst, true, false, Option, none, some, List, [], ◌∷◌,
  arith, All, All-imp, Bool-cases, ltb,
}
use tqlib.Prelude.Int.{ℤ, pos, ◌+ℤ◌, ◌≤ℤ◌, ◌<ℤ◌, leb_ℤ, int_laws, one_part, pos_part, ◌-ℤ◌}
use tqlib.DivideRound.Laws.{divide_round_up_ceiling}
use tqlib.TaskQueue.{
  TaskQueue, NextTask, run_now, DelayedEntryTimeout, timeout_lt, sleep_until, take_pending,
  take_due, get_next_task,
}
use tqlib.TaskQueue.Invariant.{IsValid}

-- The entry is due.
abbrev pub IsDue {ℓ} : {Task : Type ℓ} → ℤ → DelayedEntryTimeout × Task → Type 0
IsDue tick e = e.0.next_fire_at_us ≤ℤ tick

abbrev pub IsEarly {ℓ} : {Task : Type ℓ} → ℤ → DelayedEntryTimeout × Task → Type 0
IsEarly tick e = tick <ℤ e.0.next_fire_at_us

-- A sleep from `tick` of this many milliseconds ends when the first entry is due, or less than a
-- millisecond later; with no entry it has no end.
abbrev pub SleepFits {ℓ} :
    {Task : Type ℓ} → ℤ → List (DelayedEntryTimeout × Task) → Option ℕ → Type 0
SleepFits tick [] sleep = sleep ≡ none
SleepFits tick ((k, u) ∷ later) sleep =
    (ms : ℕ) × (sleep ≡ some ms)
    × (k.next_fire_at_us ≤ℤ tick +ℤ pos (1000 * ms))
    × (tick +ℤ pos (1000 * ms) <ℤ k.next_fire_at_us +ℤ pos 1000)

module _ {ℓ} {Task : Type ℓ} (tick : ℤ) (q : TaskQueue Task) where
  -- No task is run: nothing is pending or due, and the sleep fits.
  pub record IsIdle (r : NextTask Task × TaskQueue Task) : Type ℓ where
    pub no_task : r.0.run_task ≡ none
    pub not_final : r.0.final_task ≡ false
    pub unchanged : r.1 ≡ q
    pub nothing_pending : q.pending_queue ≡ []
    pub all_early : All (IsEarly tick) q.delayed_queue
    pub sleep_fits : SleepFits tick q.delayed_queue r.0.sleep_time

  -- The pending task that was posted first is run; if the first delayed entry is due, that was
  -- posted later.
  pub record RunsPending (r : NextTask Task × TaskQueue Task) (o : ℕ) (t : Task) : Type ℓ where
    pub runs : r.0.run_task ≡ some t
    pub not_final : r.0.final_task ≡ false
    pub front : q.pending_queue ≡ (o, t) ∷ r.1.pending_queue
    pub state : r.1 ≡ record q { pending_queue = r.1.pending_queue }
    pub oldest : All (λ p. o < p.0) r.1.pending_queue
    pub before_due :
        (k : DelayedEntryTimeout) (u : Task) (later : List (DelayedEntryTimeout × Task))
        → q.delayed_queue ≡ (k, u) ∷ later
        → IsDue tick (k, u)
        → o < k.order

  -- The first delayed entry is run: it is due, and was posted before all that is pending.
  pub record RunsDelayed (r : NextTask Task × TaskQueue Task) (k : DelayedEntryTimeout) (u : Task)
      : Type ℓ where
    pub runs : r.0.run_task ≡ some u
    pub not_final : r.0.final_task ≡ false
    pub first : q.delayed_queue ≡ (k, u) ∷ r.1.delayed_queue
    pub state : r.1 ≡ record q { delayed_queue = r.1.delayed_queue }
    pub is_due : IsDue tick (k, u)
    pub earliest : All (λ e. timeout_lt k e.0 ≡ true) r.1.delayed_queue
    pub before_pending : All (λ p. k.order < p.0) q.pending_queue

  abbrev pub Chooses : NextTask Task × TaskQueue Task → Type ℓ
  Chooses r =
      IsIdle r
      ⊎ ((p : ℕ × Task) × RunsPending r p.0 p.1)
      ⊎ ((e : DelayedEntryTimeout × Task) × RunsDelayed r e.0 e.1)

sleep_until-Fits :
    (f tick : ℤ)
    → tick <ℤ f
    → (f ≤ℤ tick +ℤ pos (1000 * sleep_until f tick))
      × (tick +ℤ pos (1000 * sleep_until f tick) <ℤ f +ℤ pos 1000)
unfolding sleep_until
sleep_until-Fits f tick h =
    let gap = f -ℤ tick in
    omega (int_laws, divide_round_up_ceiling (pos_part gap) 1000 (omega arith), one_part gap)

not_early {ℓ} :
    {Task : Type ℓ} (tick : ℤ) (k : DelayedEntryTimeout) (u : Task)
    → IsEarly tick (k, u)
    → IsDue tick (k, u)
    → ⊥
not_early tick k u h d = omega arith

module _ {ℓ} {Task : Type ℓ} where
  IsEarly-of_sorted :
      (tick : ℤ) (k : DelayedEntryTimeout) (m : List (DelayedEntryTimeout × Task))
      → tick <ℤ k.next_fire_at_us
      → All (λ e. timeout_lt k e.0 ≡ true) m
      → All (IsEarly tick) m
  unfolding timeout_lt
  IsEarly-of_sorted tick k m h = All-imp _ _ m (λ e lt. ground arith)

  -- The queue with these fields.
  abbrev queue : ℕ → List (ℕ × Task) → List (DelayedEntryTimeout × Task) → TaskQueue Task
  queue n ps ds = record {
    thread_should_quit = false;
    thread_posting_order = n;
    pending_queue = ps;
    delayed_queue = ds;
  }

  runs_delayed :
      (tick : ℤ) (n : ℕ) (ps : List (ℕ × Task)) (k : DelayedEntryTimeout) (u : Task)
      (later : List (DelayedEntryTimeout × Task))
      → IsValid (queue n ps ((k, u) ∷ later))
      → k.next_fire_at_us ≤ℤ tick
      → All (λ p. k.order < p.0) ps
      → RunsDelayed tick (queue n ps ((k, u) ∷ later)) (run_now u, queue n ps later) k u
  runs_delayed tick n ps k u later v due b = record {
    runs = refl;
    not_final = refl;
    first = refl;
    state = refl;
    is_due = due;
    earliest = v.delayed_sorted.0;
    before_pending = b;
  }

  take_due_lem :
      (tick : ℤ) (n : ℕ) (ps : List (ℕ × Task)) (k : DelayedEntryTimeout) (u : Task)
      (later : List (DelayedEntryTimeout × Task))
      → IsValid (queue n ps ((k, u) ∷ later))
      → k.next_fire_at_us ≤ℤ tick
      → Chooses tick
          (queue n ps ((k, u) ∷ later))
          (take_due k u later (queue n ps ((k, u) ∷ later)))
  unfolding take_due
  take_due_lem tick n [] k u later v due =
      inr (inr ((k, u), runs_delayed tick n [] k u later v due tt))
  take_due_lem tick n ((o, t) ∷ ps) k u later v due = elim (Bool-cases (ltb o k.order)) [
    | inl lt ↦ rw lt (
        inr (
          inl (
            (o, t),
            record {
              runs = refl;
              not_final = refl;
              front = refl;
              state = refl;
              oldest = v.pending_ascending.0;
              before_due = λ k' u' later' e _. ground arith;
            },
          )))
    | inr ge ↦
        let lt : k.order < o = ground (arith, v.apart.0.0) in
        rw ge (
          inr (
            inr (
              (k, u),
              runs_delayed tick n ((o, t) ∷ ps) k u later v due
                  (lt, All-imp _ _ ps (λ p h. omega arith) v.pending_ascending.0),
            )))
  ]

  take_pending_lem :
      (tick : ℤ) (s : Option ℕ) (n : ℕ) (ps : List (ℕ × Task))
      (ds : List (DelayedEntryTimeout × Task))
      → IsValid (queue n ps ds)
      → All (IsEarly tick) ds
      → SleepFits tick ds s
      → Chooses tick (queue n ps ds) (take_pending s (queue n ps ds))
  unfolding take_pending
  take_pending_lem tick s n [] ds v early fits = inl (record {
    no_task = refl;
    not_final = refl;
    unchanged = refl;
    nothing_pending = refl;
    all_early = early;
    sleep_fits = fits;
  })
  take_pending_lem tick s n ((o, t) ∷ ps) ds v early fits = inr (
      inl (
        (o, t),
        record {
          runs = refl;
          not_final = refl;
          front = refl;
          state = refl;
          oldest = v.pending_ascending.0;
          before_due = λ k u later e due. absurd (not_early tick k u (rw e at early).0 due);
        },
      ))

  get_next :
      (tick : ℤ) (n : ℕ) (ps : List (ℕ × Task)) (ds : List (DelayedEntryTimeout × Task))
      → IsValid (queue n ps ds)
      → Chooses tick (queue n ps ds) (get_next_task tick (queue n ps ds))
  unfolding get_next_task
  get_next tick n ps [] v = take_pending_lem tick none n ps [] v tt refl
  get_next tick n ps ((k, u) ∷ later) v = elim (Bool-cases (leb_ℤ k.next_fire_at_us tick)) [
    | inl le ↦ rw le (take_due_lem tick n ps k u later v (ground arith))
    | inr gt ↦
        let early : tick <ℤ k.next_fire_at_us = ground arith in
        rw gt (
          take_pending_lem tick _ n ps _ v
            (early, IsEarly-of_sorted tick k later early v.delayed_sorted.0)
            (
              _,
              refl,
              (sleep_until-Fits k.next_fire_at_us tick early).0,
              (sleep_until-Fits k.next_fire_at_us tick early).1,
            ))
  ]

  -- In a valid queue that is not being deleted, GetNextTask does one of three things. It runs the
  -- pending task that was posted first, which was posted before the first delayed entry if that
  -- is due. Or it runs the delayed entry that has the least key, which is due and was posted before
  -- all pending tasks. Or, when nothing is pending or due, it changes nothing and sleeps until the
  -- first delayed entry is due, rounded up to a millisecond, or for ever if there is none.
  pub get_next_task_choice :
      (tick : ℤ) (q : TaskQueue Task)
      → IsValid q
      → q.thread_should_quit ≡ false
      → Chooses tick q (get_next_task tick q)
  get_next_task_choice tick q v running =
      subst
        (λ b. let r = record q { thread_should_quit = b } in Chooses tick r (get_next_task tick r))
        (sym running)
        (get_next tick q.thread_posting_order q.pending_queue q.delayed_queue (record {
          pending_ascending = v.pending_ascending;
          delayed_sorted = v.delayed_sorted;
          pending_issued = v.pending_issued;
          delayed_issued = v.delayed_issued;
          apart = v.apart;
        }))
