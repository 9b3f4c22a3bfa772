-- ===== src/Session/Draining.antt =====
-- How a session that is closing comes to its end, src/session.cpp.
use minapp.Base.{false, ◌≡◌, refl, ap, ◌∙◌, none, List, [], ◌∷◌, arith}
use minapp.WriteQueue
use minapp.WriteQueue.{Manager, PersistentBuffer}
use minapp.WriteQueue.Fifo.{contents, queues-clear_marked}
use minapp.Session.{
  closing, closed, rank, Event, on_close, on_write, Session, close_socket, call, close_immediately,
  write, written,
}

no_contents : (ps : List PersistentBuffer) → contents ps ≡ [] → ps ≡ []
no_contents [] e = refl
no_contents (p ∷ ps) e = absurd (ground (arith, e))

nothing_marked :
    (q : Manager) → q.marked ≡ [] → q.managed ≡ [] → (WriteQueue.mark q).0 ≡ WriteQueue.pos 0
unfolding WriteQueue.mark
nothing_marked q e e' = ground (arith, e, e')

module _ (handle : Event → Session → Session)
    (idle_handler : (e : Event) (s : Session) → handle e s ≡ s) where
  -- A session that is closing, with nothing to write, is closed by the next `write()`.
  write_closes :
      (s : Session)
      → s.status ≡ closing
      → s.write_queue.marked ≡ []
      → s.write_queue.managed ≡ []
      → (write handle s).status ≡ closed
  unfolding write close_immediately call
  write_closes s st marked managed =
      let none_marked = nothing_marked s.write_queue marked managed in
      let s' = close_socket (record s {
        write_queue = (WriteQueue.mark s.write_queue).1;
        status = closed;
        events = on_close ∷ s.events;
      }) in
      ground (arith, ap rank st, none_marked, idle_handler on_close s')

  -- With a handler that leaves the session alone, when a write completes without an error on a
  -- session that is closing and nothing waits to be written, the session is closed.
  pub written_closes :
      (s : Session)
      → s.status ≡ closing
      → s.write_queue.managed ≡ []
      → (written handle s none).status ≡ closed
  unfolding written call
  written_closes s st managed =
      let s' = record s { events = on_write ∷ s.events } in
      let q = WriteQueue.clear_marked s.write_queue in
      let empty = queues-clear_marked s.write_queue in
      let marked' : q.marked ≡ [] = no_contents q.marked (ap (λ t. t.1) empty) in
      let managed' : q.managed ≡ [] =
        no_contents q.managed (ap (λ t. t.0) empty ∙ ap contents managed) in
      rw (idle_handler on_write s')
        (write_closes (record s' { write_queue = q; pending_write = false }) st marked' managed')
