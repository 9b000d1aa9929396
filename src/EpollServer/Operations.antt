-- ===== src/EpollServer/Operations.antt =====
-- The operations on the sockets of PhysicalSocketServer and their sequences
-- (rtc_base/physical_socket_server.cc).
use tqlib.Prelude.{ℕ, suc, ◌+◌, ◌≤◌, ◌≡◌, false, length, none, List, [], ◌∷◌, arith}
use tqlib.EpollServer.{
  Events, no_events, with_events, without_events, get_epoll_events, EpollCalls, Server, requested,
  add, set_enabled_events, enable_events, disable_events, start_batched_event_updates,
  finish_batched_event_updates, close,
}
use tqlib.EpollServer.Keys.{set-SameKeys, finish-SameKeys, close-next, add-next}
use tqlib.EpollServer.Sync.{followed}

pub data Operation : Type 0 where
  added : ℕ → Operation
  closed : ℕ → Operation
  set_to : ℕ → Events → Operation
  enabled : ℕ → Events → Operation
  disabled : ℕ → Events → Operation
  started : ℕ → Operation
  finished : ℕ → Operation

-- A server with no dispatchers, and with sockets that ask for nothing.
abbrev pub new_server : (calls : EpollCalls) → calls.Interests → Server calls
new_server calls e = record {
  next_dispatcher_key = 0;
  dispatcher_by_key = λ k. none;
  key_by_dispatcher = λ d. none;
  interests = e;
  refused = λ d. false;
  sockets = λ d. record { enabled_events = no_events; saved_enabled_events = none };
}

module _ {calls : EpollCalls} where
  abbrev pub operate : Operation → Server calls → Server calls
  operate (added d) s = add d s
  operate (closed d) s = close d s
  operate (set_to d events) s = set_enabled_events d events s
  operate (enabled d events) s = enable_events d events s
  operate (disabled d events) s = disable_events d events s
  operate (started d) s = start_batched_event_updates d s
  operate (finished d) s = finish_batched_event_updates d s

  -- A batch is not started inside a batch, as the code checks; and a socket that is added is in no batch,
  -- or asks for what the batch will compare with.
  abbrev pub IsAllowed : Operation → Server calls → Type 0
  IsAllowed (added d) s = get_epoll_events (followed (s.sockets d)) ≡ requested d s
  IsAllowed (started d) s = (s.sockets d).saved_enabled_events ≡ none
  IsAllowed _ s = Unit {0}

  abbrev pub run : List Operation → Server calls → Server calls
  run [] s = s
  run (o ∷ os) s = run os (operate o s)

  abbrev pub AllAllowed : List Operation → Server calls → Type 0
  AllAllowed [] s = Unit {0}
  AllAllowed (o ∷ os) s = IsAllowed o s × AllAllowed os (operate o s)

  -- An operation takes at most one key.
  pub operate-next :
      (o : Operation) (s : Server calls)
      → (operate o s).next_dispatcher_key ≤ suc s.next_dispatcher_key
  unfolding enable_events disable_events start_batched_event_updates
  operate-next (added d) s = add-next d s
  operate-next (closed d) s = omega (arith, close-next d s)
  operate-next (set_to d events) s = let m = set-SameKeys d events s in omega (arith, m.same_next)
  operate-next (enabled d events) s =
      let m = set-SameKeys d (with_events (s.sockets d).enabled_events events) s in
      omega (arith, m.same_next)
  operate-next (disabled d events) s =
      let m = set-SameKeys d (without_events (s.sockets d).enabled_events events) s in
      omega (arith, m.same_next)
  operate-next (started d) s = omega arith
  operate-next (finished d) s = let m = finish-SameKeys d s in omega (arith, m.same_next)

  pub run-next :
      (os : List Operation) (s : Server calls)
      → (run os s).next_dispatcher_key ≤ s.next_dispatcher_key + length os
  run-next [] s = omega arith
  run-next (o ∷ os) s = omega (arith, run-next os (operate o s), operate-next o s)
