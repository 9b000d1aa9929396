-- ===== src/EpollServer/Run.antt =====
-- Any sequence of operations on the sockets of PhysicalSocketServer
-- (rtc_base/physical_socket_server.cc).
use tqlib.Prelude.{ℕ, ◌+◌, ◌^◌, ◌<◌, ◌≡◌, refl, ap, ◌∙◌, false, length, none, List, [], ◌∷◌, arith}
use tqlib.EpollServer.{
  with_events, without_events, get_epoll_events, EpollCalls, IsEpoll, SocketState, Server,
  requested, enable_events, disable_events,
}
use tqlib.EpollServer.KeyMaps.{empty-IsKeyMap}
use tqlib.EpollServer.Calls.{wanted}
use tqlib.EpollServer.Sync.{followed, IsInSync}
use tqlib.EpollServer.Keep.{
  set-IsInSync, start-IsInSync, finish-IsInSync, close-IsInSync, add-IsInSync,
}
use tqlib.EpollServer.Operations.{
  Operation, added, closed, set_to, enabled, disabled, started, finished, new_server, operate,
  IsAllowed, run, AllAllowed, operate-next,
}

unbatched : (v : SocketState) → v.saved_enabled_events ≡ none → followed v ≡ v.enabled_events
unbatched v h = rw h refl

module _ {calls : EpollCalls} where
  module _ (law : IsEpoll calls) where
    operate-IsInSync :
        (o : Operation) (s : Server calls)
        → s.next_dispatcher_key + 1 < 2 ^ 64
        → IsAllowed o s
        → IsInSync s
        → IsInSync (operate o s)
    unfolding enable_events disable_events
    operate-IsInSync (added d) s small ok i = add-IsInSync law d s small ok i
    operate-IsInSync (closed d) s small ok i = close-IsInSync law d s i
    operate-IsInSync (set_to d events) s small ok i = set-IsInSync law d events s i
    operate-IsInSync (enabled d events) s small ok i =
        set-IsInSync law d (with_events (s.sockets d).enabled_events events) s i
    operate-IsInSync (disabled d events) s small ok i =
        set-IsInSync law d (without_events (s.sockets d).enabled_events events) s i
    operate-IsInSync (started d) s small ok i = start-IsInSync law d s ok i
    operate-IsInSync (finished d) s small ok i = finish-IsInSync law d s i

    run-IsInSync :
        (os : List Operation) (s : Server calls)
        → s.next_dispatcher_key + length os < 2 ^ 64
        → AllAllowed os s
        → IsInSync s
        → IsInSync (run os s)
    run-IsInSync [] s small ok i = i
    run-IsInSync (o ∷ os) s small ok i =
        run-IsInSync os (operate o s) (omega (arith, operate-next o s)) ok.1
          (operate-IsInSync o s (omega arith) ok.0 i)

    -- What the system's set is at the start: empty.
    abbrev pub IsEmpty : calls.Interests → Type 0
    IsEmpty e = (g : ℕ) → calls.registered e g ≡ none

    new-IsInSync : (e : calls.Interests) → IsEmpty e → IsInSync (new_server calls e)
    new-IsInSync e empty = record { keyed = empty-IsKeyMap; agrees = λ g h. empty g }

    -- After fewer than 2 ^ 64 operations on a new server, the system's set has for each dispatcher that
    -- is in no batch, and for which no call of `epoll_ctl` has failed other than with the ENOENT on which
    -- the code goes on, just the EPOLLIN and EPOLLOUT that its enabled events ask for, under its key, and
    -- nothing where they ask for nothing or it has no key; calls for other descriptors may have failed. No
    -- batch is started inside a batch of its socket, and no socket is added in one unless it asks for what
    -- the batch compares with; `epoll_ctl` does what its manual says.
    pub epoll_in_sync :
        (e : calls.Interests) (os : List Operation) (d : ℕ)
        → IsEmpty e
        → length os < 2 ^ 64
        → AllAllowed os (new_server calls e)
        → ((run os (new_server calls e)).sockets d).saved_enabled_events ≡ none
        → (run os (new_server calls e)).refused d ≡ false
        → let s = run os (new_server calls e) in
          calls.registered s.interests d ≡ wanted (s.key_by_dispatcher d) (requested d s)
    epoll_in_sync e os d empty few ok unsaved unrefused =
        let i = run-IsInSync os (new_server calls e) (omega arith) ok (new-IsInSync e empty) in
        i.agrees d unrefused
        ∙ ap (λ r. wanted ((run os (new_server calls e)).key_by_dispatcher d) (get_epoll_events r))
            (unbatched ((run os (new_server calls e)).sockets d) unsaved)
