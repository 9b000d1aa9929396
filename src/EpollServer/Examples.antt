-- ===== src/EpollServer/Examples.antt =====
-- Sockets of PhysicalSocketServer at concrete runs (rtc_base/physical_socket_server.cc), with a set of
-- epoll that is a function.
use tqlib.Prelude.{
  ℕ, ◌≡◌, refl, inl, inr, Option-cases, Bool-cases, if◌then◌else◌, true, false, Option, none, some,
  List, [], ◌∷◌, ◌==◌, arith,
}
use tqlib.EpollServer.{
  Events, no_events, EpollEvents, EpollCalls, IsEpoll, CtlResult, done, no_entry, failed, put,
  requested, add, close, remove, update, add_epoll, remove_epoll, update_epoll, modify_or_add,
  maybe_update_dispatcher, set_enabled_events, enable_events, disable_events,
  start_batched_event_updates, finish_batched_event_updates,
}
use tqlib.EpollServer.KeyMaps.{put_same, put_other}
use tqlib.EpollServer.Calls.{wanted}
use tqlib.EpollServer.Process.{
  error_is, no_answer, process_events, handle_event, IsConsistent, process_events-IsConsistent,
}
use tqlib.EpollServer.Operations.{
  Operation, added, closed, set_to, enabled, disabled, started, finished, run, AllAllowed,
  new_server,
}
use tqlib.EpollServer.Run.{epoll_in_sync}
use tqlib.EpollServer.Stale.{stale_event_dropped}

abbrev Table : Type 0
Table = ℕ → Option (EpollEvents × ℕ)

-- Descriptor 9 is a file that epoll refuses.
abbrev add_to : ℕ → EpollEvents × ℕ → Table → CtlResult × Table
add_to fd i e =
    if fd == 9
    then (failed, e)
    else elim (e fd) [ none ↦ (done, put e fd (some i)) | some j ↦ (failed, e) ]

abbrev change_in : ℕ → EpollEvents × ℕ → Table → CtlResult × Table
change_in fd i e = elim (e fd) [ none ↦ (no_entry, e) | some j ↦ (done, put e fd (some i)) ]

abbrev delete_from : ℕ → Table → CtlResult × Table
delete_from fd e = (done, put e fd none)

abbrev tables : EpollCalls
tables = record {
  Interests = Table;
  ctl_add = add_to;
  ctl_mod = change_in;
  ctl_del = delete_from;
  registered = λ e fd. e fd;
}

module _ (fd : ℕ) (i : EpollEvents × ℕ) (e : Table) where
  add_fresh : (add_to fd i e).0 ≡ done → (add_to fd i e).1 fd ≡ some i
  add_fresh q = elim (Bool-cases (fd == 9)) [
    | inl f ↦ let clash : failed ≡ done = rw (f, add_to) at q in cc
    | inr f ↦ elim (Option-cases (e fd)) [
      | inl h ↦ rw (f, h, add_to) (put_same e fd (some i))
      | inr (j, h) ↦ let clash : failed ≡ done = rw (f, h, add_to) at q in cc
    ]
  ]

  add_beside : (g : ℕ) → (g == fd) ≡ false → (add_to fd i e).1 g ≡ e g
  add_beside g n = elim (Bool-cases (fd == 9)) [
    | inl f ↦ rw (f, add_to) refl
    | inr f ↦ elim (Option-cases (e fd)) [
      | inl h ↦ rw (f, h, add_to) (put_other e fd g (some i) n)
      | inr (j, h) ↦ rw (f, h, add_to) refl
    ]
  ]

  change_known : (change_in fd i e).0 ≡ done → (change_in fd i e).1 fd ≡ some i
  change_known q = elim (Option-cases (e fd)) [
    | inl h ↦ let clash : no_entry ≡ done = rw (h, change_in) at q in cc
    | inr (j, h) ↦ rw (h, change_in) (put_same e fd (some i))
  ]

  change_beside : (g : ℕ) → (g == fd) ≡ false → (change_in fd i e).1 g ≡ e g
  change_beside g n = elim (Option-cases (e fd)) [
    | inl h ↦ rw (h, change_in) refl
    | inr (j, h) ↦ rw (h, change_in) (put_other e fd g (some i) n)
  ]

tables-IsEpoll : IsEpoll tables
tables-IsEpoll = record {
  add_done = add_fresh;
  mod_done = change_known;
  del_done = λ fd e h. put_same e fd none;
  add_other = λ fd g i e n. add_beside fd i e g n;
  mod_other = λ fd g i e n. change_beside fd i e g n;
  del_other = λ fd g e n. put_other e fd g none n;
}

abbrev both : Events
both = record no_events { de_read = true; de_write = true }

abbrev write_only : Events
write_only = record no_events { de_write = true }

-- Socket 5 is added, asks for both kinds of events, and no longer for writing, in a batch; socket 9,
-- which epoll refuses, is added, asks for both and is closed.
abbrev some_operations : List Operation
some_operations =
    added 5
    ∷ enabled 5 both
    ∷ added 9
    ∷ enabled 9 both
    ∷ started 5
    ∷ disabled 5 write_only
    ∷ closed 9
    ∷ finished 5
    ∷ []

abbrev nothing : Table
nothing = λ fd. none

abbrev all_allowed : AllAllowed some_operations (new_server tables nothing)
unfolding add close remove set_enabled_events enable_events disable_events maybe_update_dispatcher
    start_batched_event_updates finish_batched_event_updates update update_epoll add_epoll
    remove_epoll modify_or_add
all_allowed = (refl, (tt, (refl, (tt, (refl, (tt, (tt, (tt, tt))))))))

in_the_set :
    (run some_operations (new_server tables nothing)).interests 5
    ≡ some (record { epollin = true; epollout = false }, 0)
unfolding add close remove set_enabled_events enable_events disable_events maybe_update_dispatcher
    start_batched_event_updates finish_batched_event_updates update update_epoll add_epoll
    remove_epoll modify_or_add
in_the_set = refl

refused_nine : (run some_operations (new_server tables nothing)).refused 9 ≡ true
unfolding add close remove set_enabled_events enable_events disable_events maybe_update_dispatcher
    start_batched_event_updates finish_batched_event_updates update update_epoll add_epoll
    remove_epoll modify_or_add
refused_nine = refl

abbrev unsaved :
    ((run some_operations (new_server tables nothing)).sockets 5).saved_enabled_events ≡ none
unfolding add close remove set_enabled_events enable_events disable_events maybe_update_dispatcher
    start_batched_event_updates finish_batched_event_updates update update_epoll add_epoll
    remove_epoll modify_or_add
unsaved = refl

abbrev unrefused : (run some_operations (new_server tables nothing)).refused 5 ≡ false
unfolding add close remove set_enabled_events enable_events disable_events maybe_update_dispatcher
    start_batched_event_updates finish_batched_event_updates update update_epoll add_epoll
    remove_epoll modify_or_add
unrefused = refl

epoll_in_sync_example :
    let s = run some_operations (new_server tables nothing) in
    s.interests 5 ≡ wanted (s.key_by_dispatcher 5) (requested 5 s)
epoll_in_sync_example =
    epoll_in_sync tables-IsEpoll nothing some_operations 5 (λ g. refl) (omega arith) all_allowed
      unsaved unrefused

abbrev key_of_five : (run some_operations (new_server tables nothing)).key_by_dispatcher 5 ≡ some 0
unfolding add close remove set_enabled_events enable_events disable_events maybe_update_dispatcher
    start_batched_event_updates finish_batched_event_updates update update_epoll add_epoll
    remove_epoll modify_or_add
key_of_five = refl

-- Socket 5 is closed and added again; an event under its old key is dropped.
stale_event_dropped_example :
    handle_event
      (run (added 5 ∷ []) (close 5 (run some_operations (new_server tables nothing))))
      0
      (λ d. error_is 0)
      (λ d. false)
      true
      false
      false
    ≡ none
stale_event_dropped_example =
    stale_event_dropped tables nothing some_operations (added 5 ∷ []) 5 0 (λ d. error_is 0)
      (λ d. false) true false false (omega arith) key_of_five

process_events-IsConsistent_example :
    IsConsistent (process_events both no_answer false true true true true)
process_events-IsConsistent_example =
    process_events-IsConsistent both no_answer false true true true true

-- A socket that its handler closes and opens again in a batch, and that the close event of the batch then
-- silences, stays in the set: the batch compares with the zero that Close saved.
reopened_stays :
    let s =
      run
        (added 5
          ∷ started 5
          ∷ closed 5
          ∷ enabled 5 both
          ∷ added 5
          ∷ set_to 5 no_events
          ∷ finished 5
          ∷ [])
        (new_server tables nothing) in
    (s.interests 5 ≡ some (record { epollin = true; epollout = true }, 1))
    × (s.sockets 5 ≡ record { enabled_events = no_events; saved_enabled_events = none })
unfolding add close remove set_enabled_events enable_events disable_events maybe_update_dispatcher
    start_batched_event_updates finish_batched_event_updates update update_epoll add_epoll
    remove_epoll modify_or_add
reopened_stays = (refl, refl)
