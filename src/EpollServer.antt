-- ===== src/EpollServer.antt =====
-- The registration of sockets with epoll in rtc_base/physical_socket_server.cc: the keys of dispatchers,
-- the events that SocketDispatcher enables, the batches of OnEvent, and ProcessEvents. A dispatcher
-- stands for itself and for its open descriptor, so one that is closed and opened again, or another one
-- at its address, is the same number. `epoll_ctl` is a parameter, which may fail, and an `epoll_event`
-- is its two bits and its key. The next key is a uint64_t that wraps around.
pub mod KeyMaps
pub mod Keys
pub mod Calls
pub mod Sync
pub mod Keep
pub mod Operations
pub mod Gone
pub mod Run
pub mod Process
pub mod Stale
mod Examples
use tqlib.Prelude.{
  ℕ, ◌+◌, ◌%◌, ◌^◌, ◌≡◌, ◌≢◌, Bool, true, false, not, ◌&&◌, ◌||◌, Option, none, some, List, [], ◌∷◌,
  ◌==◌, if◌then◌else◌,
}

-- An `enabled_events_`: its bits DE_READ, DE_WRITE, DE_CONNECT, DE_CLOSE and DE_ACCEPT
pub record Events : Type 0 where
  pub de_read : Bool
  pub de_write : Bool
  pub de_connect : Bool
  pub de_close : Bool
  pub de_accept : Bool

abbrev pub no_events : Events
no_events = record {
  de_read = false;
  de_write = false;
  de_connect = false;
  de_close = false;
  de_accept = false;
}

-- `|=` and `&= ~`
abbrev pub with_events : Events → Events → Events
with_events a b = record {
  de_read = a.de_read || b.de_read;
  de_write = a.de_write || b.de_write;
  de_connect = a.de_connect || b.de_connect;
  de_close = a.de_close || b.de_close;
  de_accept = a.de_accept || b.de_accept;
}

abbrev pub without_events : Events → Events → Events
without_events a b = record {
  de_read = a.de_read && not b.de_read;
  de_write = a.de_write && not b.de_write;
  de_connect = a.de_connect && not b.de_connect;
  de_close = a.de_close && not b.de_close;
  de_accept = a.de_accept && not b.de_accept;
}

-- The bits EPOLLIN and EPOLLOUT, and GetEpollEvents
pub record EpollEvents : Type 0 where
  pub epollin : Bool
  pub epollout : Bool

abbrev pub get_epoll_events : Events → EpollEvents
get_epoll_events ff = record {
  epollin = ff.de_read || ff.de_accept;
  epollout = ff.de_write || ff.de_connect;
}

abbrev pub is_zero : EpollEvents → Bool
is_zero e = not e.epollin && not e.epollout

abbrev pub same_bit : Bool → Bool → Bool
same_bit true b = b
same_bit false b = not b

abbrev pub same_events : EpollEvents → EpollEvents → Bool
same_events a b = same_bit a.epollin b.epollin && same_bit a.epollout b.epollout

-- The result of `epoll_ctl`: zero, or an error, which is ENOENT or another one
pub data CtlResult : Type 0 where
  done : CtlResult
  no_entry : CtlResult
  failed : CtlResult

-- `epoll_ctl` with EPOLL_CTL_ADD, EPOLL_CTL_MOD and EPOLL_CTL_DEL, on the system's set, and what the set has
-- of a descriptor
pub record EpollCalls : Type 1 where
  pub Interests : Type 0
  pub ctl_add : ℕ → EpollEvents × ℕ → Interests → CtlResult × Interests
  pub ctl_mod : ℕ → EpollEvents × ℕ → Interests → CtlResult × Interests
  pub ctl_del : ℕ → Interests → CtlResult × Interests
  pub registered : Interests → ℕ → Option (EpollEvents × ℕ)

abbrev pub is_done : CtlResult → Bool
is_done done = true
is_done no_entry = false
is_done failed = false

abbrev pub is_failed : CtlResult → Bool
is_failed done = false
is_failed no_entry = false
is_failed failed = true

-- What the manual of epoll_ctl says of a call that succeeds, and of ENOENT: the descriptor is not in
-- the set. Any call may fail, and what a call that fails leaves of its descriptor is open.
pub record IsEpoll (calls : EpollCalls) : Type 0 where
  pub add_done :
      (fd : ℕ) (i : EpollEvents × ℕ) (e : calls.Interests)
      → (calls.ctl_add fd i e).0 ≡ done
      → calls.registered (calls.ctl_add fd i e).1 fd ≡ some i
  pub mod_done :
      (fd : ℕ) (i : EpollEvents × ℕ) (e : calls.Interests)
      → (calls.ctl_mod fd i e).0 ≡ done
      → calls.registered (calls.ctl_mod fd i e).1 fd ≡ some i
  pub del_done :
      (fd : ℕ) (e : calls.Interests)
      → is_failed (calls.ctl_del fd e).0 ≡ false
      → calls.registered (calls.ctl_del fd e).1 fd ≡ none
  pub add_other :
      (fd g : ℕ) (i : EpollEvents × ℕ) (e : calls.Interests)
      → (g == fd) ≡ false
      → calls.registered (calls.ctl_add fd i e).1 g ≡ calls.registered e g
  pub mod_other :
      (fd g : ℕ) (i : EpollEvents × ℕ) (e : calls.Interests)
      → (g == fd) ≡ false
      → calls.registered (calls.ctl_mod fd i e).1 g ≡ calls.registered e g
  pub del_other :
      (fd g : ℕ) (e : calls.Interests)
      → (g == fd) ≡ false
      → calls.registered (calls.ctl_del fd e).1 g ≡ calls.registered e g

-- `enabled_events_` and `saved_enabled_events_`, where -1 is `none`
pub record SocketState : Type 0 where
  pub enabled_events : Events
  pub saved_enabled_events : Option Events

abbrev pub is_saved : Option Events → Bool
is_saved none = false
is_saved (some e) = true

-- A map with a value put at a key.
abbrev pub put {ℓ} : {A : Type ℓ} → (ℕ → A) → ℕ → A → ℕ → A
put f k v = λ j. if j == k then v else f j

-- `emplace` of a map: a key that is there keeps its value.
abbrev pub emplace : (ℕ → Option ℕ) → ℕ → ℕ → ℕ → Option ℕ
emplace f k v = elim (f k) [ none ↦ put f k (some v) | some w ↦ f ]

-- `next_dispatcher_key_++`, a uint64_t
abbrev pub next_key : ℕ → ℕ
next_key key = (key + 1) % 2 ^ 64

module _ (calls : EpollCalls) where
  -- The members of PhysicalSocketServer, the system's set, and the states of the sockets. `refused` is
  -- a history, which no code reads: whether a call of epoll_ctl for the descriptor has failed, other
  -- than with an ENOENT on which the code goes on.
  pub record Server : Type 0 where
    pub next_dispatcher_key : ℕ
    pub dispatcher_by_key : ℕ → Option ℕ
    pub key_by_dispatcher : ℕ → Option ℕ
    pub interests : calls.Interests
    pub refused : ℕ → Bool
    pub sockets : ℕ → SocketState

  -- UpdateEpoll from its EPOLL_CTL_MOD on: whether it logs an error, and the set.
  unfoldable pub modify_or_add : ℕ → EpollEvents × ℕ → calls.Interests → Bool × calls.Interests
  modify_or_add d event e = elim (calls.ctl_mod d event e).0 [
    | done ↦ (false, (calls.ctl_mod d event e).1)
    | no_entry ↦
        let added = calls.ctl_add d event (calls.ctl_mod d event e).1 in
        (not (is_done added.0), added.1)
    | failed ↦ (true, (calls.ctl_mod d event e).1)
  ]

module _ {calls : EpollCalls} where
  abbrev pub requested : ℕ → Server calls → EpollEvents
  requested d s = get_epoll_events (s.sockets d).enabled_events

  -- What a call of epoll_ctl for the descriptor leaves, and whether it failed.
  abbrev pub after_call : ℕ → Bool → calls.Interests → Server calls → Server calls
  after_call d fails e s = record s {
    interests = e;
    refused = put s.refused d (s.refused d || fails);
  }

  -- AddEpoll, RemoveEpoll and UpdateEpoll; errors are only logged.
  unfoldable pub add_epoll : ℕ → ℕ → Server calls → Server calls
  add_epoll d key s =
      let events = requested d s in
      let called = calls.ctl_add d (events, key) s.interests in
      if is_zero events then s else after_call d (not (is_done called.0)) called.1 s

  unfoldable pub remove_epoll : ℕ → Server calls → Server calls
  remove_epoll d s =
      let called = calls.ctl_del d s.interests in after_call d (is_failed called.0) called.1 s

  unfoldable pub update_epoll : ℕ → ℕ → Server calls → Server calls
  unfolding remove_epoll
  update_epoll d key s =
      let events = requested d s in
      let called = modify_or_add calls d (events, key) s.interests in
      if is_zero events then remove_epoll d s else after_call d called.0 called.1 s

  -- `Add`, `Remove` and `Update`
  unfoldable pub add : ℕ → Server calls → Server calls
  unfolding add_epoll
  add d s = elim (s.key_by_dispatcher d) [
    | some key ↦ s
    | none ↦
        let key = s.next_dispatcher_key in
        add_epoll d key (record s {
          next_dispatcher_key = next_key key;
          dispatcher_by_key = emplace s.dispatcher_by_key key d;
          key_by_dispatcher = put s.key_by_dispatcher d (some key);
        })
  ]

  unfoldable pub remove : ℕ → Server calls → Server calls
  unfolding remove_epoll
  remove d s = elim (s.key_by_dispatcher d) [
    | none ↦ s
    | some key ↦ remove_epoll d (record s {
      key_by_dispatcher = put s.key_by_dispatcher d none;
      dispatcher_by_key = put s.dispatcher_by_key key none;
    })
  ]

  unfoldable pub update : ℕ → Server calls → Server calls
  unfolding update_epoll
  update d s = elim (s.key_by_dispatcher d) [ none ↦ s | some key ↦ update_epoll d key s ]

  -- `MaybeUpdateDispatcher`
  unfoldable pub maybe_update_dispatcher : ℕ → Events → Server calls → Server calls
  unfolding update
  maybe_update_dispatcher d old_events s =
      if not (same_events (requested d s) (get_epoll_events old_events))
        && not (is_saved (s.sockets d).saved_enabled_events)
      then update d s
      else s

  -- `SetEnabledEvents`, `EnableEvents` and `DisableEvents` of SocketDispatcher
  unfoldable pub set_enabled_events : ℕ → Events → Server calls → Server calls
  unfolding maybe_update_dispatcher
  set_enabled_events d events s =
      let old = s.sockets d in
      maybe_update_dispatcher d old.enabled_events
        (record s { sockets = put s.sockets d (record old { enabled_events = events }) })

  unfoldable pub enable_events : ℕ → Events → Server calls → Server calls
  unfolding set_enabled_events
  enable_events d events s =
      set_enabled_events d (with_events (s.sockets d).enabled_events events) s

  unfoldable pub disable_events : ℕ → Events → Server calls → Server calls
  unfolding set_enabled_events
  disable_events d events s =
      set_enabled_events d (without_events (s.sockets d).enabled_events events) s

  -- `StartBatchedEventUpdates` and `FinishBatchedEventUpdates`
  unfoldable pub start_batched_event_updates : ℕ → Server calls → Server calls
  start_batched_event_updates d s =
      let old = s.sockets d in
      record s {
        sockets = put s.sockets d (record old { saved_enabled_events = some old.enabled_events });
      }

  unfoldable pub finish_batched_event_updates : ℕ → Server calls → Server calls
  unfolding maybe_update_dispatcher
  finish_batched_event_updates d s = elim (s.sockets d).saved_enabled_events [
    | none ↦ s
    | some old_events ↦ maybe_update_dispatcher d old_events (record s {
      sockets = put s.sockets d (record (s.sockets d) { saved_enabled_events = none });
    })
  ]

  -- `SocketDispatcher::Close` of an open socket, with the `SetEnabledEvents` of `PhysicalSocket::Close`
  unfoldable pub close : ℕ → Server calls → Server calls
  unfolding remove set_enabled_events
  close d s =
      let old = s.sockets d in
      let saved : Option Events = elim old.saved_enabled_events [
        | none ↦ none
        | some e ↦ some no_events
      ] in
      set_enabled_events d no_events (
        remove d
          (record s { sockets = put s.sockets d (record old { saved_enabled_events = saved }) }))
