-- ===== src/EpollServer/Process.antt =====
-- ProcessEvents and the events of a loop of WaitEpoll (rtc_base/physical_socket_server.cc).
use tqlib.Prelude.{
  ℕ, ◌≡◌, Bool, true, false, not, ◌&&◌, ◌||◌, Option, none, some, ◌==◌, if◌then◌else◌, arith,
}
use tqlib.EpollServer.{Events, no_events, with_events, EpollCalls, Server}

-- The result of `getsockopt` with SO_ERROR: the error of the socket, zero for none; or its own failure,
-- where errno is ENOTSOCK or something else
pub data SocketError : Type 0 where
  error_is : ℕ → SocketError
  not_a_socket : SocketError
  no_answer : SocketError

-- `EBADF`
abbrev pub ebadf : ℕ
ebadf = 9

-- The error code that ProcessEvents finds.
unfoldable pub error_code : SocketError → Bool → Bool → ℕ
error_code answer error_event check_error = if not check_error then 0 else elim answer [
  | error_is n ↦ n
  | not_a_socket ↦ if error_event then ebadf else 0
  | no_answer ↦ ebadf
]

abbrev pub de_close_only : Events
de_close_only = record no_events { de_close = true }

abbrev pub one_event_read : Bool → Events
one_event_read accepts =
    if accepts then record no_events { de_accept = true } else record no_events { de_read = true }

-- What a readable descriptor and a writable one add to `ff`.
unfoldable pub read_events : Bool → Bool → Bool → Events → Events
read_events readable has_error descriptor_closed requested =
    if not readable
    then no_events
    else if has_error || descriptor_closed
    then de_close_only
    else one_event_read requested.de_accept

unfoldable pub write_events : Bool → Bool → Events → Events
write_events writable has_error requested =
    if not writable
    then no_events
    else if requested.de_connect
    then (if has_error then no_events else record no_events { de_connect = true })
    else record no_events { de_write = true }

abbrev pub any_event : Events → Bool
any_event ff = ff.de_read || ff.de_write || ff.de_connect || ff.de_close || ff.de_accept

-- ProcessEvents: the events and the error of its call of `OnEvent`, if it makes one
unfoldable pub process_events :
    Events → SocketError → Bool → Bool → Bool → Bool → Bool → Option (Events × ℕ)
unfolding error_code read_events write_events
process_events requested answer descriptor_closed readable writable error_event check_error =
    let errcode = error_code answer error_event check_error in
    let has_error = not (errcode == 0) in
    let ff =
      with_events
        (with_events (read_events readable has_error descriptor_closed requested)
          (write_events writable has_error requested))
        (if has_error then de_close_only else no_events) in
    if any_event ff then some (ff, errcode) else none

-- The body of the loop of WaitEpoll for an event with a key, which says what ProcessEvents does with the
-- dispatcher: the dispatcher that OnEvent is called for, if any, and its events and error
unfoldable pub handle_event :
    {calls : EpollCalls}
    → Server calls
    → ℕ
    → (ℕ → SocketError)
    → (ℕ → Bool)
    → Bool
    → Bool
    → Bool
    → Option (ℕ × (Events × ℕ))
unfolding process_events
handle_event s key answers closes readable writable error = elim (s.dispatcher_by_key key) [
  | none ↦ none
  | some d ↦
      elim (process_events (s.sockets d).enabled_events (answers d) (closes d) readable writable
        error error) [ none ↦ none | some call ↦ some (d, call) ]
]

-- The flags of a call of OnEvent against whether there is an error.
abbrev pub Fits : Bool → Events → Type 0
Fits has_error ff =
    ((ff.de_connect && has_error) ≡ false)
    × ((has_error && not ff.de_close) ≡ false)
    × (((ff.de_read || ff.de_accept) && ff.de_close) ≡ false)
    × ((ff.de_read && ff.de_accept) ≡ false)
    × ((ff.de_connect && ff.de_write) ≡ false)

abbrev pub IsConsistent : Option (Events × ℕ) → Type 0
IsConsistent none = Unit {0}
IsConsistent (some (ff, errcode)) = Fits (not (errcode == 0)) ff

called-IsConsistent :
    (b : Bool) (ff : Events) (errcode : ℕ)
    → Fits (not (errcode == 0)) ff
    → IsConsistent (if b then some (ff, errcode) else none)
called-IsConsistent true ff errcode h = h
called-IsConsistent false ff errcode h = tt

flags-Fit :
    (readable writable has_error descriptor_closed : Bool) (requested : Events)
    → Fits has_error (
        with_events
          (with_events
            (read_events readable has_error descriptor_closed requested)
            (write_events writable has_error requested))
          (if has_error then de_close_only else no_events))
unfolding read_events write_events
flags-Fit readable writable has_error descriptor_closed requested =
    (ground arith, ground arith, ground arith, ground arith, ground arith)

-- A call of OnEvent says a connection only without an error, and a close wherever there is an error;
-- never data or a new connection together with a close, nor both of them, nor both a connection and
-- that the socket can be written.
pub process_events-IsConsistent :
    (requested : Events) (answer : SocketError)
    (descriptor_closed readable writable error_event check_error : Bool)
    → IsConsistent (
        process_events requested answer descriptor_closed readable writable error_event check_error)
unfolding process_events
process_events-IsConsistent requested answer descriptor_closed readable writable error_event
      check_error =
    let errcode = error_code answer error_event check_error in
    called-IsConsistent _ _ errcode
      (flags-Fit readable writable (not (errcode == 0)) descriptor_closed requested)
