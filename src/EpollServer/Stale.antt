-- ===== src/EpollServer/Stale.antt =====
-- Events that epoll delivers for a socket that was closed (rtc_base/physical_socket_server.cc).
use tqlib.Prelude.{ℕ, ◌+◌, ◌^◌, ◌<◌, ◌≡◌, refl, Bool, none, some, List, length}
use tqlib.EpollServer.{EpollCalls, Server, close}
use tqlib.EpollServer.Process.{SocketError, handle_event}
use tqlib.EpollServer.Operations.{Operation, run, new_server}
use tqlib.EpollServer.Gone.{stale_key}

module _ {calls : EpollCalls} where
  unknown_key :
      (s : Server calls) (k : ℕ) (answers : ℕ → SocketError) (closes : ℕ → Bool)
      (readable writable error : Bool)
      → s.dispatcher_by_key k ≡ none
      → handle_event s k answers closes readable writable error ≡ none
  unfolding handle_event
  unknown_key s k answers closes readable writable error h = rw (h, handle_event) refl

-- After a dispatcher was closed, and after any further operations, also if the dispatcher or another
-- one at its address was added again, an event that epoll still delivers under its key calls no
-- OnEvent, whatever `epoll_ctl` does. There are fewer than 2 ^ 64 operations, so that the uint64_t of
-- the next key does not wrap around.
pub stale_event_dropped :
    (calls : EpollCalls) (e : calls.Interests) (os later : List Operation) (d k : ℕ)
    (answers : ℕ → SocketError) (closes : ℕ → Bool) (readable writable error : Bool)
    → length os + length later < 2 ^ 64
    → (run os (new_server calls e)).key_by_dispatcher d ≡ some k
    → handle_event
        (run later (close d (run os (new_server calls e))))
        k
        answers
        closes
        readable
        writable
        error
      ≡ none
stale_event_dropped calls e os later d k answers closes readable writable error few h =
    unknown_key (run later (close d (run os (new_server calls e)))) k answers closes readable
      writable error (stale_key calls e os later d k few h)
