-- ===== src/Session.antt =====
-- `class session` of include/minapp/session.hpp and src/session.cpp: its status, its reads and
-- writes, and the completion handlers of its socket operations.
-- Each function is one atomic step; the compare-and-exchange loop of `close` is one such step, as
-- it retries until it has exchanged. The handler is the program's user: the parameter `handle`
-- says what it does to the session, whatever calls of these functions it makes. The socket is
-- what the session has asked of it.
pub mod Lifecycle
pub mod Writing
pub mod Reading
pub mod Draining
pub mod Termination
pub mod Promise
pub mod Generator
pub mod Threads
use minapp.Base.{
  ℕ, zero, suc, ◌+◌, Bool, true, false, ◌&&◌, ◌||◌, not, Option, none, some, List, [], ◌∷◌, ltb,
  leb, ◌==◌, if◌then◌else◌,
}
use minapp.Protocol.{Protocol, Options}
use minapp.Buffer.{TripleBuffer, empty, commit_to_external_input}
use minapp.Reader.{
  Errc, Request, Resume, Next, Step, idle, waiting, delivered, failed, thrown, start, resume,
}
use minapp.WriteQueue
use minapp.WriteQueue.{Manager, ℤ, pos, negsuc}

pub data Status : Type 0 where
  connecting connected reading closing closed : Status

-- The order of the enumerators, which the comparisons of `status` use.
abbrev pub rank : Status → ℕ
rank connecting = 0
rank connected = 1
rank reading = 2
rank closing = 3
rank closed = 4

-- The calls of the handler.
pub data Event : Type 0 where
  on_connect on_read on_write on_close : Event
  on_error : Errc → Event

-- What `shutdown` and `close` have done to the socket.
pub record Socket : Type 0 where
  pub receive_shut : Bool
  pub send_shut : Bool
  pub is_closed : Bool

pub record Session : Type 0 where
  pub id : ℕ
  pub socket : Socket
  pub write_queue : Manager
  pub buf : TripleBuffer
  pub protocol : Protocol
  pub protocol_options : Options
  pub status : Status
  pub read_buffer_size : ℕ
  pub delimiter : List ℕ
  -- the asynchronous operations under way; a write stays so until its completion handler has
  -- called the session's handler
  pub pending_read : Option (Request × Resume)
  pub pending_write : Bool
  -- the handler's calls so far, the last one first
  pub events : List Event

-- `session::session`; `id` is what the global counter gave, `queue` the new write queue.
unfoldable pub init : ℕ → Manager → Session
init id queue = record {
  id = id;
  socket = record { receive_shut = false; send_shut = false; is_closed = false };
  write_queue = queue;
  buf = empty;
  protocol = Protocol.any;
  protocol_options = 0;
  status = connecting;
  read_buffer_size = 65536;
  delimiter = [];
  pending_read = none;
  pending_write = false;
  events = [];
}

-- The setters `read_buffer_size(sz)`, `delimiter(delim)` and `protocol(...)`.
unfoldable pub set_read_buffer_size : Session → ℕ → Session
set_read_buffer_size s sz = record s { read_buffer_size = sz }

unfoldable pub set_delimiter_char : Session → ℕ → Session
set_delimiter_char s delim = record s { delimiter = delim ∷ [] }

unfoldable pub set_delimiter : Session → List ℕ → Session
set_delimiter s delim = record s { delimiter = delim }

unfoldable pub set_protocol : Session → Protocol → Options → Session
set_protocol s protocol options = record s { protocol = protocol; protocol_options = options }

unfoldable pub set_protocol_and_size : Session → Protocol → ℕ → Options → Session
unfolding set_protocol set_read_buffer_size
set_protocol_and_size s protocol bufsz options =
    set_read_buffer_size (set_protocol s protocol options) bufsz

abbrev pub close_socket : Session → Session
close_socket s = record s {
  socket = record { receive_shut = true; send_shut = true; is_closed = true };
}

abbrev pub shutdown_receive : Session → Session
shutdown_receive s = record s { socket = record (s.socket) { receive_shut = true } }

-- `marker <= 0`, and `marker == 0`.
abbrev pub is_positive : ℤ → Bool
is_positive (pos n) = ltb 0 n
is_positive (negsuc n) = false

abbrev pub is_zero : ℤ → Bool
is_zero (pos n) = n == 0
is_zero (negsuc n) = false

-- Whether `socket_.remote_endpoint()` returns: the socket is open and has a peer.
abbrev pub has_peer : Bool → Session → Bool
has_peer peer s = peer && not s.socket.is_closed

module _ (handle : Event → Session → Session) where
  -- A call of the handler.
  unfoldable pub call : Event → Session → Session
  call e s = handle e (record s { events = e ∷ s.events })

  -- `close(true)`
  unfoldable pub close_immediately : Session → Session
  close_immediately s =
      if leb (rank closed) (rank s.status)
      then s
      else call on_close (close_socket (record s { status = closed }))

  -- `write()`
  unfoldable pub write : Session → Session
  write s =
      let (marker, queue) = WriteQueue.mark s.write_queue in
      let s' = record s { write_queue = queue } in
      if leb (rank closed) (rank s.status)
      then s
      else if is_positive marker
      then record s' { pending_write = true }
      else if is_zero marker && rank s.status == rank closing
      then close_immediately s'
      else s'

  -- `close(false)`
  unfoldable pub close_gracefully : Session → Session
  close_gracefully s =
      if leb (rank closing) (rank s.status)
      then s
      else write (shutdown_receive (record s { status = closing }))

  unfoldable pub close : Session → Bool → Session
  close s immediately = if immediately then close_immediately s else close_gracefully s

  -- `check(ec)`, where `ec` is an error; without one it returns true and does nothing.
  unfoldable pub check : Session → Errc → Session
  check s ec = close_gracefully (call (on_error ec) s)

  -- `write(persistent_buffer_list&)`
  unfoldable pub write_list : (List ℕ → ℕ) → Session → List (List ℕ) → Session
  write_list malloc s list =
      if leb (rank closing) (rank s.status)
      then s
      else write (record s { write_queue = WriteQueue.manage_list malloc s.write_queue list })

  -- `write(Buffers&&...)` of one or more buffers, which `persist` has made.
  unfoldable pub write_buffers : (List ℕ → ℕ) → Session → List ℕ → List (List ℕ) → Session
  write_buffers malloc s b bs =
      if leb (rank closing) (rank s.status)
      then s
      else write (record s { write_queue = WriteQueue.manage_buffers malloc s.write_queue b bs })

  -- The completion handler of `async_write`; `none` is success.
  unfoldable pub written : Session → Option Errc → Session
  written s (some ec) = close_immediately (record (call (on_error ec) s) { pending_write = false })
  written s none =
      let s' = call on_write s in
      write
        (record s' { write_queue = WriteQueue.clear_marked s'.write_queue; pending_write = false })

  module _ (max_size : ℕ) where
    -- What `read_some`, `read_fixed`, `read_delim` and `read_prefix` end with. `true` asks for one
    -- more call of `read`, after the handler has been given a message.
    unfoldable pub act : Session → Step → Session × Bool
    act s (idle, b) = (
      record s { buf = b; status = if rank s.status == rank reading then connected else s.status },
      false,
    )
    act s (waiting request after, b) =
        (record s { buf = b; pending_read = some (request, after) }, false)
    act s (failed ec, b) = (check (record s { buf = b }) ec, false)
    act s (thrown, b) = (record s { buf = b }, false)
    act s (delivered none, b) = (call on_read (record s { buf = b }), true)
    act s (delivered (some n), b) =
        let s' = call on_read (record s { buf = b }) in
        (record s' { buf = commit_to_external_input s'.buf n }, true)

    -- `read()`, up to the call of itself that follows a message.
    unfoldable pub read_once : Session → Session × Bool
    unfolding act
    read_once s =
        if rank s.status == rank connected || rank s.status == rank reading
        then act (record s { status = reading })
            (start max_size s.protocol_options s.read_buffer_size s.protocol s.delimiter s.buf)
        else (s, false)

    -- `read()`, for `fuel` messages at most that are in the buffer already; `none` if it needs more.
    unfoldable pub read : ℕ → Session → Option Session
    read zero s = none
    read (suc fuel) s =
        let (s', again) = read_once s in let rest = read fuel s' in if again then rest else some s'

    -- The completion handlers of the reads; the bytes that arrived are in `buf` already.
    unfoldable pub received : ℕ → Session → Resume → Option Errc → ℕ → Option Session
    unfolding act
    received fuel s after (some ec) n = some (check (record s { pending_read = none }) ec)
    received fuel s after none n =
        let s₀ = record s { pending_read = none } in
        let (s', again) =
          act s₀ (resume max_size s.protocol_options s.read_buffer_size s.buf after n) in
        let rest = read fuel s' in if again then rest else some s'

    -- `connect(ec, promise)`. `peer` tells whether `remote_endpoint` finds the peer of a socket that
    -- is open; where it throws, `status_` has been stored and nothing else has happened.
    unfoldable pub connect : Bool → ℕ → Session → Option Errc → Option Session
    connect peer fuel s (some ec) = some (close_immediately (call (on_error ec) s))
    connect peer fuel s none =
        let s' = record s { status = connected } in
        let rest = read fuel (call on_connect s') in if has_peer peer s' then rest else some s'
