-- ===== src/RepeatingTask/Schedule.antt =====
-- When the closure of a repeating task is called (rtc_base/task_utils/repeating_task.cc).
use tqlib.Prelude.{
  ℕ, ◌≡◌, refl, sym, ◌∙◌, subst, Bool, true, false, inl, inr, Option, none, some, List, [], ◌∷◌,
  if◌then◌else◌, Bool-cases, arith, All,
}
use tqlib.Prelude.Int.{ℤ, pos, ◌+ℤ◌, ◌-ℤ◌, ◌≤ℤ◌, ltb_ℤ}
use tqlib.RepeatingTask.{
  TimeDelta, micros, plus_infinity, Call, RepeatingTask, Outcome, max_zero, post_again, System,
  delayed_start, stop, is_running, queue_at, run_task, Step, Steps, here, next,
}
use tqlib.RepeatingTask.Step.{tick, start_task, stop_task}

-- The posted delay leads to the scheduled time, or to now where that has passed.
pub posted_delay :
    (delay : ℕ) (current_time scheduled : ℤ)
    → current_time +ℤ max_zero (pos delay -ℤ (current_time -ℤ scheduled)) ≡ (
        if ltb_ℤ (scheduled +ℤ pos delay) current_time
        then current_time
        else scheduled +ℤ pos delay)
unfolding ◌+ℤ◌ ◌-ℤ◌
posted_delay delay current_time scheduled = ground arith

-- When the next call is to start, after the calls that were made, the last one first.
abbrev pub next_scheduled : ℤ → List Call → Option ℤ
next_scheduled first [] = some first
next_scheduled first (c ∷ cs) = elim c.returned [
  | micros d ↦ some (c.scheduled +ℤ pos d)
  | plus_infinity ↦ none
]

-- Every call was to start its predecessor's delay after its predecessor was to, whenever that started.
abbrev pub HasNoDrift : ℤ → List Call → Type 0
HasNoDrift first [] = Unit {0}
HasNoDrift first (c ∷ cs) = (next_scheduled first cs ≡ some c.scheduled) × HasNoDrift first cs

abbrev pub IsNotEarly : Call → Type 0
IsNotEarly c = c.scheduled ≤ℤ c.started

abbrev pub WaitsFor : ℤ → List Call → Option (RepeatingTask × ℤ) → Type 0
WaitsFor first cs none = Unit {0}
WaitsFor first cs (some (t, due)) =
    (next_scheduled first cs ≡ some t.next_run_time) × (t.next_run_time ≤ℤ due)

pub record IsOnSchedule (first : ℤ) (s : System) : Type 0 where
  pub chain : HasNoDrift first s.calls
  pub on_time : All IsNotEarly s.calls
  pub waits : WaitsFor first s.calls s.queued
  pub goes_on : s.flag.alive ≡ true → s.queued ≡ none → next_scheduled first s.calls ≡ none
  pub agrees : s.flag.alive ≡ s.has_flag

not_before :
    (scheduled current_time : ℤ)
    → scheduled ≤ℤ (if ltb_ℤ scheduled current_time then current_time else scheduled)
not_before scheduled current_time = ground arith

posted_waits :
    (first : ℤ) (cs : List Call) (d : TimeDelta) (a : Bool) (k begun : ℤ) (t : RepeatingTask)
    → WaitsFor first
        (record { started = begun; scheduled = t.next_run_time; returned = d } ∷ cs)
        (queue_at k (post_again d a k t))
unfolding post_again
posted_waits first cs plus_infinity a k begun t = tt
posted_waits first cs (micros d) false k begun t = tt
posted_waits first cs (micros d) true k begun t = (
  refl,
  subst (λ z. (t.next_run_time +ℤ pos d) ≤ℤ z) (sym (posted_delay d k t.next_run_time))
      (not_before (t.next_run_time +ℤ pos d) k),
)

posted_goes_on :
    (first : ℤ) (cs : List Call) (d : TimeDelta) (a : Bool) (k begun : ℤ) (t : RepeatingTask)
    → a ≡ true
    → queue_at k (post_again d a k t) ≡ none
    → next_scheduled first
        (record { started = begun; scheduled = t.next_run_time; returned = d } ∷ cs)
      ≡ none
unfolding post_again
posted_goes_on first cs plus_infinity a k begun t e q = refl
posted_goes_on first cs (micros d) false k begun t e q = cc
posted_goes_on first cs (micros d) true k begun t e q = cc

start-IsOnSchedule :
    (current_time : ℤ) (first_delay : ℕ)
    → IsOnSchedule (current_time +ℤ pos first_delay) (delayed_start current_time first_delay)
unfolding delayed_start
start-IsOnSchedule current_time first_delay = record {
  chain = tt;
  on_time = tt;
  waits = (refl, ground arith);
  goes_on = λ e q. cc;
  agrees = refl;
}

stop-IsOnSchedule : (first : ℤ) (s : System) → IsOnSchedule first s → IsOnSchedule first (stop s)
unfolding stop
stop-IsOnSchedule first s i = elim (Bool-cases s.has_flag) [
  | inl held ↦
      rw (held, stop)
        (record {
          chain = i.chain;
          on_time = i.on_time;
          waits = i.waits;
          goes_on = λ e q. cc;
          agrees = refl;
        })
  | inr gone ↦ let j = rw gone at i in rw (gone, stop) j
]

run-IsOnSchedule :
    (first : ℤ) (s : System) (t : RepeatingTask) (due : ℤ) (o : Outcome)
    → s.queued ≡ some (t, due)
    → due ≤ℤ s.clock
    → IsOnSchedule first s
    → IsOnSchedule first (run_task t o s)
unfolding run_task stop
run-IsOnSchedule first s t due o q late i = elim (Bool-cases s.flag.alive) [
  | inr dead ↦
      rw (dead, run_task)
        (record {
          chain = i.chain;
          on_time = i.on_time;
          waits = tt;
          goes_on = λ e r. absurd (ground (arith, dead, e));
          agrees = sym dead ∙ i.agrees;
        })
  | inl alive ↦
      let w = subst (WaitsFor first s.calls) q i.waits in
      let held : s.has_flag ≡ true = sym i.agrees ∙ alive in
      let k = s.clock +ℤ pos o.lasts in
      elim (Bool-cases o.stops) [
        | inl stops ↦
            rw (alive, run_task, stops, held, stop)
              (record {
                chain = (w.0, i.chain);
                on_time = (omega (arith, w.1, late), i.on_time);
                waits = posted_waits first s.calls o.delay false k s.clock t;
                goes_on = posted_goes_on first s.calls o.delay false k s.clock t;
                agrees = refl;
              })
        | inr goes ↦
            rw (alive, run_task, goes)
              (record {
                chain = (w.0, i.chain);
                on_time = (omega (arith, w.1, late), i.on_time);
                waits = posted_waits first s.calls o.delay true k s.clock t;
                goes_on = posted_goes_on first s.calls o.delay true k s.clock t;
                agrees = sym held;
              })
      ]
]

Step-IsOnSchedule :
    (first : ℤ) {s u : System} → Step s u → IsOnSchedule first s → IsOnSchedule first u
Step-IsOnSchedule first (tick s n) i = record {
  chain = i.chain;
  on_time = i.on_time;
  waits = i.waits;
  goes_on = i.goes_on;
  agrees = i.agrees;
}
Step-IsOnSchedule first (start_task s t due o q late) i = run-IsOnSchedule first s t due o q late i
Step-IsOnSchedule first (stop_task s) i = stop-IsOnSchedule first s i

Steps-IsOnSchedule :
    (first : ℤ) {s u : System} → Steps s u → IsOnSchedule first s → IsOnSchedule first u
Steps-IsOnSchedule first here i = i
Steps-IsOnSchedule first (next r st) i = Step-IsOnSchedule first st (Steps-IsOnSchedule first r i)

-- In every state that a started repeating task reaches: each call was scheduled its predecessor's delay
-- after its predecessor was scheduled, however late that started and however long it took; no call
-- started before its time; and while the handle runs, nothing is in the queue only after a call that
-- returned +infinity.
pub no_drift :
    (current_time : ℤ) (first_delay : ℕ) {s : System}
    → Steps (delayed_start current_time first_delay) s
    → let first = current_time +ℤ pos first_delay in
      HasNoDrift first s.calls
      × All IsNotEarly s.calls
      × (is_running s ≡ true → s.queued ≡ none → next_scheduled first s.calls ≡ none)
unfolding is_running
no_drift current_time first_delay {s} r =
    let first = current_time +ℤ pos first_delay in
    let i = Steps-IsOnSchedule first r (start-IsOnSchedule current_time first_delay) in
    (i.chain, i.on_time, λ h q. i.goes_on (i.agrees ∙ h) q)

-- The handle's flag is off and its history is what it was.
pub record IsStopped (calls : List Call) (s : System) : Type 0 where
  pub dead : s.flag.alive ≡ false
  pub released : s.has_flag ≡ false
  pub unchanged : s.calls ≡ calls

stop_releases : (first : ℤ) (s : System) → IsOnSchedule first s → IsStopped s.calls (stop s)
unfolding stop
stop_releases first s i = elim (Bool-cases s.has_flag) [
  | inl held ↦ rw (held, stop) (record { dead = refl; released = refl; unchanged = refl })
  | inr gone ↦
      let off = i.agrees ∙ gone in
      rw (gone, stop) (record { dead = off; released = refl; unchanged = refl })
]

Step-IsStopped :
    (calls : List Call) {s u : System} → Step s u → IsStopped calls s → IsStopped calls u
unfolding run_task stop
Step-IsStopped calls (tick s n) i = record {
  dead = i.dead;
  released = i.released;
  unchanged = i.unchanged;
}
Step-IsStopped calls (start_task s t due o q late) i =
    let off = i.dead in
    rw (off, run_task) (record { dead = refl; released = i.released; unchanged = i.unchanged })
Step-IsStopped calls (stop_task s) i =
    let gone = i.released in
    let off = i.dead in
    rw (gone, stop) (record { dead = off; released = refl; unchanged = i.unchanged })

Steps-IsStopped :
    (calls : List Call) {s u : System} → Steps s u → IsStopped calls s → IsStopped calls u
Steps-IsStopped calls here i = i
Steps-IsStopped calls (next r st) i = Step-IsStopped calls st (Steps-IsStopped calls r i)

-- After Stop, in whatever state a started task is, the closure is never called again, and the handle no
-- longer runs.
pub stopped_for_good :
    (current_time : ℤ) (first_delay : ℕ) {s u : System}
    → Steps (delayed_start current_time first_delay) s
    → Steps (stop s) u
    → (u.calls ≡ s.calls) × (is_running u ≡ false)
unfolding is_running
stopped_for_good current_time first_delay {s} r later =
    let first = current_time +ℤ pos first_delay in
    let i = Steps-IsOnSchedule first r (start-IsOnSchedule current_time first_delay) in
    let e = Steps-IsStopped s.calls later (stop_releases first s i) in (e.unchanged, e.released)
