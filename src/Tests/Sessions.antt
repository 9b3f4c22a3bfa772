-- ===== src/Tests/Sessions.antt =====
-- A session whose handler does nothing.
use minapp.Base.{◌≡◌, refl, [], ◌∷◌, true, none, some, arith}
use minapp.WriteQueue
use minapp.Protocol.{Protocol}
use minapp.Session.{
  Session, connected, closed, Event, on_connect, init, call, close_immediately, check, write_list,
  written, read_once, read, connect,
}
use minapp.Session.Lifecycle.{IsConsistent, IsTame, Goes, closes, accounted, close_immediately-Goes}
use minapp.Session.Writing.{write_list-Goes, written-Goes}
use minapp.Session.{closing}
use minapp.Session.Draining.{written_closes}
use minapp.Session.Reading.{connect_reopens, read_never_ends}

abbrev idle_handler : Event → Session → Session
idle_handler e s = s

idle_handler-IsTame : IsTame idle_handler
idle_handler-IsTame = record { forward = λ e s. omega arith; consistent = λ e s v. v }

abbrev opened : Session
unfolding init WriteQueue.init WriteQueue.construct
opened = record (init 1 (WriteQueue.init 1000 2)) { status = connected }

opened-IsConsistent : IsConsistent opened
unfolding opened init WriteQueue.init WriteQueue.construct
opened-IsConsistent = record {
  once = refl;
  socket_closed = refl;
  receive_shut = refl;
  no_spurious = refl;
  no_stall = refl;
}

-- A session with a write under way.
abbrev busy : Session
unfolding write_list
busy = write_list idle_handler (λ pool. 1002) opened ((5 ∷ []) ∷ [])

busy-IsConsistent : IsConsistent busy
unfolding busy write_list
busy-IsConsistent =
    (write_list-Goes idle_handler idle_handler-IsTame (λ pool. 1002) opened ((5 ∷ []) ∷ [])
      opened-IsConsistent).consistent

close_immediately-Goes_example :
    Goes opened (close_immediately idle_handler opened)
    × ((close_immediately idle_handler opened).status ≡ closed)
close_immediately-Goes_example =
    close_immediately-Goes idle_handler idle_handler-IsTame opened (accounted opened-IsConsistent)

written-Goes_example : Goes busy (written idle_handler busy none)
written-Goes_example = written-Goes idle_handler idle_handler-IsTame busy none busy-IsConsistent

abbrev ended : Session
unfolding opened close_immediately
ended = close_immediately idle_handler opened

ended-IsConsistent : IsConsistent ended
unfolding ended
ended-IsConsistent = close_immediately-Goes_example.0.consistent

connect_reopens_example :
    (s : Session) × (connect idle_handler 100 true 5 ended none ≡ some s)
    × (s.status ≡ connected)
    × (s.socket.is_closed ≡ true)
    × (s.events ≡ ended.events)
    × (closes s.events ≡ 1)
    × (closes (close_immediately idle_handler s).events ≡ 2)
unfolding ended
connect_reopens_example =
    connect_reopens idle_handler 100 (λ e t. refl) true 5 ended ended-IsConsistent
      close_immediately-Goes_example.1

abbrev empty_frames : Session
unfolding opened
empty_frames = record opened { protocol = Protocol.fixed; read_buffer_size = 0 }

read_never_ends_example : read idle_handler 100 7 empty_frames ≡ none
unfolding empty_frames
read_never_ends_example =
    read_never_ends idle_handler 100 (λ e t. refl) 7 empty_frames refl refl refl (λ e. cc)

-- A write is under way, nothing waits, and the session is closing.
abbrev draining : Session
unfolding busy
draining = record busy { status = closing }

draining_waits : draining.write_queue.managed ≡ []
unfolding draining busy write_list opened init WriteQueue.init WriteQueue.construct
    minapp.Session.write WriteQueue.mark WriteQueue.manage_list WriteQueue.hold_buffer
draining_waits = refl

written_closes_example : (written idle_handler draining none).status ≡ closed
unfolding draining
written_closes_example = written_closes idle_handler (λ e s. refl) draining refl draining_waits
