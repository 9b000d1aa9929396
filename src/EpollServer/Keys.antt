-- ===== src/EpollServer/Keys.antt =====
-- What the operations on a socket of PhysicalSocketServer do to the counter of the keys
-- (rtc_base/physical_socket_server.cc).
use tqlib.Prelude.{
  ◌≤◌, ◌≡◌, ℕ, suc, refl, ◌∙◌, inl, inr, not, ◌&&◌, Option, none, some, Bool-cases, Option-cases,
  arith,
}
use tqlib.EpollServer.{
  Events, no_events, get_epoll_events, is_zero, same_events, EpollCalls, put, Server, requested,
  add_epoll, remove_epoll, update_epoll, add, remove, update, is_saved, maybe_update_dispatcher,
  set_enabled_events, finish_batched_event_updates, close, next_key,
}

next_key-le : (k : ℕ) → next_key k ≤ suc k
next_key-le k = omega arith

module _ {calls : EpollCalls} (d : ℕ) where
  -- An operation leaves the maps and the counter as they are.
  pub record SameKeys (s t : Server calls) : Type 0 where
    pub same_next : t.next_dispatcher_key ≡ s.next_dispatcher_key
    pub same_map : t.dispatcher_by_key ≡ s.dispatcher_by_key
    pub same_keys : t.key_by_dispatcher ≡ s.key_by_dispatcher

  update_epoll-SameKeys : (key : ℕ) (s : Server calls) → SameKeys s (update_epoll d key s)
  unfolding update_epoll remove_epoll
  update_epoll-SameKeys key s = elim (Bool-cases (is_zero (requested d s))) [
    | inl z ↦ rw (z, update_epoll) (record { same_next = refl; same_map = refl; same_keys = refl })
    | inr z ↦ rw (z, update_epoll) (record { same_next = refl; same_map = refl; same_keys = refl })
  ]

  maybe-SameKeys : (old : Events) (s : Server calls) → SameKeys s (maybe_update_dispatcher d old s)
  unfolding maybe_update_dispatcher update
  maybe-SameKeys old s =
      elim (Bool-cases (
        not (same_events (requested d s) (get_epoll_events old))
        && not (is_saved (s.sockets d).saved_enabled_events))) [
          | inr f ↦
              rw (f, maybe_update_dispatcher)
                (record { same_next = refl; same_map = refl; same_keys = refl })
          | inl t ↦ elim (Option-cases (s.key_by_dispatcher d)) [
            | inl n ↦
                rw (t, maybe_update_dispatcher, n, update)
                  (record { same_next = refl; same_map = refl; same_keys = refl })
            | inr (key, e) ↦
                rw (t, maybe_update_dispatcher, e, update) (update_epoll-SameKeys key s)
          ]
        ]

  pub set-SameKeys :
      (events : Events) (s : Server calls) → SameKeys s (set_enabled_events d events s)
  unfolding set_enabled_events
  set-SameKeys events s =
      let v = record (s.sockets d) { enabled_events = events } in
      let m =
        maybe-SameKeys (s.sockets d).enabled_events (record s { sockets = put s.sockets d v }) in
      record { same_next = m.same_next; same_map = m.same_map; same_keys = m.same_keys }

  pub finish-SameKeys : (s : Server calls) → SameKeys s (finish_batched_event_updates d s)
  unfolding finish_batched_event_updates
  finish-SameKeys s = elim (Option-cases (s.sockets d).saved_enabled_events) [
    | inl n ↦
        rw (n, finish_batched_event_updates)
          (record { same_next = refl; same_map = refl; same_keys = refl })
    | inr (old, e) ↦
        let v = record (s.sockets d) { saved_enabled_events = none } in
        let m = maybe-SameKeys old (record s { sockets = put s.sockets d v }) in
        rw (e, finish_batched_event_updates)
          (record { same_next = m.same_next; same_map = m.same_map; same_keys = m.same_keys })
  ]

  remove-next : (s : Server calls) → (remove d s).next_dispatcher_key ≡ s.next_dispatcher_key
  unfolding remove remove_epoll
  remove-next s = elim (Option-cases (s.key_by_dispatcher d)) [
    | inl n ↦ rw (n, remove) refl
    | inr (key, e) ↦ rw (e, remove) refl
  ]

  pub close-next : (s : Server calls) → (close d s).next_dispatcher_key ≡ s.next_dispatcher_key
  unfolding close
  close-next s =
      let saved : Option Events = elim (s.sockets d).saved_enabled_events [
        | none ↦ none
        | some e ↦ some no_events
      ] in
      let v = record (s.sockets d) { saved_enabled_events = saved } in
      let s1 = record s { sockets = put s.sockets d v } in
      let m = set-SameKeys no_events (remove d s1) in m.same_next ∙ remove-next s1

  pub add-next : (s : Server calls) → (add d s).next_dispatcher_key ≤ suc s.next_dispatcher_key
  unfolding add add_epoll
  add-next s = elim (Option-cases (s.key_by_dispatcher d)) [
    | inr (key, e) ↦ rw (e, add) (omega arith)
    | inl n ↦ elim (Bool-cases (is_zero (requested d s))) [
      | inl z ↦ rw (n, add, z, add_epoll) (next_key-le s.next_dispatcher_key)
      | inr z ↦ rw (n, add, z, add_epoll) (next_key-le s.next_dispatcher_key)
    ]
  ]
