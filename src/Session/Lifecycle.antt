-- ===== src/Session/Lifecycle.antt =====
-- The status only moves towards `closed`, the handler's `close` is called once, and the socket is
-- shut accordingly.
use minapp.Base.{
  ℕ, suc, ◌≤◌, ◌≡◌, refl, Bool, true, false, ◌&&◌, not, ◌∙◌, List, [], ◌∷◌, arith, ltb, leb, ◌==◌,
  if◌then◌else◌, Bool-cases, inl, inr,
}
use minapp.WriteQueue.{PersistentBuffer}
use minapp.Session.{
  Status, connecting, connected, reading, closing, closed, rank, Event, on_connect, on_read,
  on_write, on_close, on_error, Session, call, close_immediately, close_socket,
}

abbrev pub closes : List Event → ℕ
closes [] = 0
closes (on_close ∷ es) = suc (closes es)
closes (on_connect ∷ es) = closes es
closes (on_read ∷ es) = closes es
closes (on_write ∷ es) = closes es
closes (on_error ec ∷ es) = closes es

abbrev pub is_empty : List PersistentBuffer → Bool
is_empty [] = true
is_empty (p ∷ ps) = false

-- How far the session is on its way to the end, which `connecting`, `connected` and `reading`
-- have not begun.
abbrev pub phase : Status → ℕ
phase connecting = 0
phase connected = 0
phase reading = 0
phase closing = 1
phase closed = 2

-- The handler's `close` has been called once if the session is closed, and not before; the socket
-- is closed with the session, and receives nothing from `closing` on; a write is under way exactly
-- while buffers are marked, unless the session is closed.
pub record IsConsistent (s : Session) : Type 0 where
  pub once : closes s.events ≡ (if phase s.status == 2 then 1 else 0)
  pub socket_closed : s.socket.is_closed ≡ (phase s.status == 2)
  pub receive_shut : s.socket.receive_shut ≡ leb 1 (phase s.status)
  pub no_spurious : (s.pending_write && is_empty s.write_queue.marked) ≡ false
  pub no_stall :
      (not s.pending_write && (not (is_empty s.write_queue.marked) && ltb (phase s.status) 2))
      ≡ false

-- The same without the last field, which a write that has failed does not have.
abbrev pub IsAccounted : Session → Type 0
IsAccounted s =
    (closes s.events ≡ (if phase s.status == 2 then 1 else 0))
    × (s.socket.is_closed ≡ (phase s.status == 2))
    × (s.socket.receive_shut ≡ leb 1 (phase s.status))
    × ((s.pending_write && is_empty s.write_queue.marked) ≡ false)

pub accounted : {s : Session} → IsConsistent s → IsAccounted s
accounted v = (v.once, v.socket_closed, v.receive_shut, v.no_spurious)

-- What the handler may do with a session that it is given: what the functions below do.
pub record IsTame (handle : Event → Session → Session) : Type 0 where
  pub forward : (e : Event) (s : Session) → phase s.status ≤ phase (handle e s).status
  pub consistent : (e : Event) (s : Session) → IsConsistent s → IsConsistent (handle e s)

closed_of_phase : (st : Status) → 2 ≤ phase st → st ≡ closed
closed_of_phase connecting h = absurd (omega arith)
closed_of_phase connected h = absurd (omega arith)
closed_of_phase reading h = absurd (omega arith)
closed_of_phase closing h = absurd (omega arith)
closed_of_phase closed h = refl

pub rank-phase :
    (st : Status)
    → (leb 4 (rank st) ≡ leb 2 (phase st))
      × (leb 3 (rank st) ≡ leb 1 (phase st))
      × ((rank st == 3) ≡ (phase st == 1))
rank-phase connecting = (refl, refl, refl)
rank-phase connected = (refl, refl, refl)
rank-phase reading = (refl, refl, refl)
rank-phase closing = (refl, refl, refl)
rank-phase closed = (refl, refl, refl)

-- A step that keeps the session consistent and does not go back.
pub record Goes (s s' : Session) : Type 0 where
  pub forward : phase s.status ≤ phase s'.status
  pub consistent : IsConsistent s'

-- Two such steps in a row are one.
pub Goes-trans : {s t u : Session} → Goes s t → Goes t u → Goes s u
Goes-trans g h = record { forward = omega (arith, g.forward, h.forward); consistent = h.consistent }

module _ (handle : Event → Session → Session) (tame : IsTame handle) where
  -- A call of the handler for any other event than `close`.
  pub call-Goes :
      (e : Event) (s : Session)
      → ((es : List Event) → closes (e ∷ es) ≡ closes es)
      → IsConsistent s
      → Goes s (call handle e s)
  unfolding call
  call-Goes e s quiet v =
      let s' = record s { events = e ∷ s.events } in
      let v' : IsConsistent s' = ground (arith, v, quiet s.events) in
      record { forward = tame.forward e s'; consistent = tame.consistent e s' v' }

  -- Whatever the handler, as long as it is tame (no call of it moves the status back or breaks the
  -- consistency of a consistent session), `close(true)` on a session whose calls of `close`,
  -- socket and pending write agree with its status ends in the status `closed` and a consistent
  -- session: the handler's `close` has been called once in all, and the socket is closed.
  pub close_immediately-Goes :
      (s : Session)
      → IsAccounted s
      → Goes s (close_immediately handle s) × ((close_immediately handle s).status ≡ closed)
  unfolding close_immediately call
  close_immediately-Goes s (once, socket_closed, receive_shut, no_spurious) =
      let s' = close_socket (record s { status = closed; events = on_close ∷ s.events }) in
      elim (Bool-cases (leb 2 (phase s.status))) [
        | inl e ↦
            let v : IsConsistent s = ground arith in
            rw ((rank-phase s.status).0 ∙ e) (
              record { forward = omega arith; consistent = v },
              closed_of_phase s.status (ground arith),
            )
        | inr e ↦
            let v' : IsConsistent s' = ground arith in
            rw ((rank-phase s.status).0 ∙ e) (
              record {
                forward = ground (arith, tame.forward on_close s');
                consistent = tame.consistent on_close s' v';
              },
              closed_of_phase _ (tame.forward on_close s'),
            )
      ]
