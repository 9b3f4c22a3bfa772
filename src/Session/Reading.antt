-- ===== src/Session/Reading.antt =====
-- The reads of a session: its status, how they end, and a use in which they do not.
use minapp.Base.{
  ℕ, zero, suc, ◌≡◌, refl, ap, Bool, true, Option, none, some, ◌∷◌, arith, ◌==◌, if◌then◌else◌,
  Bool-cases, inl, inr, subst, ◌≢◌, ◌||◌,
}
use mathlib.Core.Option.{some-injective}
use minapp.Buffer.{internal_input_buffer, mark_current_external_input, consume_whole_external_input}
use minapp.Protocol.{Protocol}
use minapp.Protocol.{has_options, do_not_consume_buffer}
use minapp.Reader.{
  deliver, dispatch, read_fixed, Errc, Step, Resume, idle, waiting, delivered, failed, thrown,
  start, resume,
}
use minapp.Session.{
  connecting, connected, reading, closed, rank, Event, on_connect, on_read, on_error, Session, call,
  has_peer, close_immediately, act, read_once, read, received, connect,
}
use minapp.Session.Lifecycle.{
  IsConsistent, IsTame, Goes, closes, phase, call-Goes, close_immediately-Goes, accounted,
  Goes-trans,
}
use minapp.Session.Writing.{check-Goes}

module _ (handle : Event → Session → Session) (tame : IsTame handle) (max_size : ℕ) where
  act-Goes : (s : Session) (step : Step) → IsConsistent s → Goes s (act handle max_size s step).0
  unfolding act
  act-Goes s (idle, b) v = ground (arith, v)
  act-Goes s (waiting request after, b) v = ground (arith, v)
  act-Goes s (failed ec, b) v =
      let s' = record s { buf = b } in
      let v' : IsConsistent s' = ground (arith, v) in
      let g = (check-Goes handle tame s' ec v').0 in
      record { forward = g.forward; consistent = g.consistent }
  act-Goes s (thrown, b) v = ground (arith, v)
  act-Goes s (delivered none, b) v =
      let s' = record s { buf = b } in
      let v' : IsConsistent s' = ground (arith, v) in
      let c = call-Goes handle tame on_read s' (λ es. refl) v' in
      record { forward = c.forward; consistent = c.consistent }
  act-Goes s (delivered (some n), b) v =
      let s' = record s { buf = b } in
      let v' : IsConsistent s' = ground (arith, v) in
      let c = call-Goes handle tame on_read s' (λ es. refl) v' in ground (arith, c)

  -- Whatever the handler, as long as it is tame (no call of it moves the status back or breaks the
  -- consistency of a consistent session), one round of `read()`, whatever the buffer, the protocol
  -- and the size of the read buffer, leaves a consistent session consistent and its status not
  -- further back.
  pub read_once-Goes : (s : Session) → IsConsistent s → Goes s (read_once handle max_size s).0
  unfolding read_once
  read_once-Goes s v =
      let s' = record s { status = reading } in
      elim (Bool-cases (rank s.status == 1 || rank s.status == 2)) [
        | inl e ↦
            let v' : IsConsistent s' = ground (arith, v) in
            let a =
              act-Goes s'
                (start max_size s.protocol_options s.read_buffer_size s.protocol s.delimiter s.buf)
                v' in
            rw e (record { forward = ground (arith, a.forward); consistent = a.consistent })
        | inr e ↦ rw e (record { forward = omega arith; consistent = v })
      ]

  -- All of `read()`, if it ends within the fuel.
  pub read-Goes :
      (fuel : ℕ) (s : Session) {s' : Session}
      → IsConsistent s
      → read handle max_size fuel s ≡ some s'
      → Goes s s'
  unfolding read
  read-Goes zero s v e = cc
  read-Goes (suc fuel) s {s' = s'} v e =
      let one = read_once-Goes s v in
      elim (Bool-cases (read_once handle max_size s).1) [
        | inl more ↦ Goes-trans one (
            read-Goes fuel (read_once handle max_size s).0 one.consistent (ground (arith, e, more)))
        | inr done ↦
            let last : (read_once handle max_size s).0 ≡ s' = ground (arith, e, done) in
            subst (Goes s) last one
      ]

  -- The completion handlers of the reads.
  pub received-Goes :
      (fuel : ℕ) (s : Session) (after : Resume) (result : Option Errc) (n : ℕ) {s' : Session}
      → IsConsistent s
      → received handle max_size fuel s after result n ≡ some s'
      → Goes s s'
  unfolding received
  received-Goes fuel s after (some ec) n {s' = s'} v e =
      let s₀ = record s { pending_read = none } in
      let v₀ : IsConsistent s₀ = ground (arith, v) in
      let g = (check-Goes handle tame s₀ ec v₀).0 in
      subst (Goes s) (some-injective _ _ e)
        (record { forward = g.forward; consistent = g.consistent })
  received-Goes fuel s after none n {s' = s'} v e =
      let s₀ = record s { pending_read = none } in
      let v₀ : IsConsistent s₀ = ground (arith, v) in
      let step = resume max_size s.protocol_options s.read_buffer_size s.buf after n in
      let a = act-Goes s₀ step v₀ in
      let one : Goes s (act handle max_size s₀ step).0 = record {
        forward = a.forward;
        consistent = a.consistent;
      } in
      elim (Bool-cases (act handle max_size s₀ step).1) [
        | inl more ↦ Goes-trans one (
            read-Goes fuel (act handle max_size s₀ step).0 one.consistent (ground (arith, e, more)))
        | inr done ↦
            let last : (act handle max_size s₀ step).0 ≡ s' = ground (arith, e, done) in
            subst (Goes s) last one
      ]

  -- `connect(ec, promise)` of a session that has not begun to close.
  pub connect-Goes :
      (peer : Bool) (fuel : ℕ) (s : Session) (result : Option Errc) {s' : Session}
      → IsConsistent s
      → s.status ≡ connecting
      → connect handle max_size peer fuel s result ≡ some s'
      → Goes s s'
  unfolding connect
  connect-Goes peer fuel s (some ec) v new e =
      let c = call-Goes handle tame (on_error ec) s (λ es. refl) v in
      subst (Goes s) (some-injective _ _ e)
        (Goes-trans c (close_immediately-Goes handle tame _ (accounted c.consistent)).0)
  connect-Goes peer fuel s none v new e =
      let s₀ = record s { status = connected } in
      let v₀ : IsConsistent s₀ = ground (arith, v, new) in
      elim (Bool-cases (has_peer peer s₀)) [
        | inr gone ↦
            let left : s₀ ≡ _ = some-injective _ _ (ground (arith, e, gone)) in
            subst (Goes s) left (record { forward = ground (arith, new); consistent = v₀ })
        | inl found ↦
            let c = call-Goes handle tame on_connect s₀ (λ es. refl) v₀ in
            let g = read-Goes fuel _ c.consistent (ground (arith, e, found)) in
            record { forward = ground (arith, new); consistent = g.consistent }
      ]

-- With a handler that leaves the session alone: a connect that succeeds on a consistent session
-- that is closed leaves it with the status `connected`, its socket closed, and without a call of
-- the handler; `close(true)` then calls the handler's `close` for the second time.
pub connect_reopens :
    (handle : Event → Session → Session) (max_size : ℕ)
    → ((e : Event) (t : Session) → handle e t ≡ t)
    → (peer : Bool) (fuel : ℕ) (s : Session) → IsConsistent s
    → s.status ≡ closed
    → (s' : Session) × (connect handle max_size peer fuel s none ≡ some s')
      × (s'.status ≡ connected)
      × (s'.socket.is_closed ≡ true)
      × (s'.events ≡ s.events)
      × (closes s'.events ≡ 1)
      × (closes (close_immediately handle s').events ≡ 2)
unfolding connect close_immediately call
connect_reopens handle max_size idle_handler peer fuel s v e =
    let shut : s.socket.is_closed ≡ true = ground (arith, v, e) in
    let once : closes s.events ≡ 1 = ground (arith, v, e) in
    (
      record s { status = connected },
      rw (shut, connect) (ground (arith, shut)),
      refl,
      shut,
      refl,
      once,
      rw (idle_handler _ _) (ap suc once),
    )

-- One round in which an empty message is delivered.
empty_message :
    (handle : Event → Session → Session) (max_size : ℕ)
    → ((e : Event) (t : Session) → handle e t ≡ t)
    → (s : Session) → s.protocol ≡ Protocol.fixed
    → s.read_buffer_size ≡ 0
    → phase s.status ≡ 0
    → s.status ≢ connecting
    → let r = read_once handle max_size s in
      (r.1 ≡ true)
      × (r.0.protocol ≡ Protocol.fixed)
      × (r.0.read_buffer_size ≡ 0)
      × (r.0.status ≡ reading)
unfolding read_once act call
empty_message handle max_size idle_handler s p z ph c =
    let b = mark_current_external_input (
      if has_options s.protocol_options do_not_consume_buffer
      then s.buf
      else consume_whole_external_input s.buf) in
    let begun : start max_size s.protocol_options s.read_buffer_size s.protocol s.delimiter s.buf
        ≡ deliver b 0 =
      rw (p, z) (unfold start dispatch read_fixed internal_input_buffer in ground arith) in
    let on : (rank s.status == 1 || rank s.status == 2) ≡ true = ground arith in
    let t : Session = record s {
      status = reading;
      buf = (deliver b 0).1;
      events = on_read ∷ s.events;
    } in
    rw (on, begun) (ground (arith, idle_handler on_read t))

-- With a handler that does nothing, the protocol `fixed` and a read buffer of no bytes, `read()`
-- on a session that is connected and not closing asks for more than any number of rounds: it calls
-- itself for ever.
pub read_never_ends :
    (handle : Event → Session → Session) (max_size : ℕ)
    → ((e : Event) (t : Session) → handle e t ≡ t)
    → (fuel : ℕ) (s : Session) → s.protocol ≡ Protocol.fixed
    → s.read_buffer_size ≡ 0
    → phase s.status ≡ 0
    → s.status ≢ connecting
    → read handle max_size fuel s ≡ none
unfolding read
read_never_ends handle max_size idle_handler zero s p z ph c = refl
read_never_ends handle max_size idle_handler (suc fuel) s p z ph c =
    let one = empty_message handle max_size idle_handler s p z ph c in
    rw one.0 (
      read_never_ends handle max_size idle_handler fuel (read_once handle max_size s).0 one.1 one.2
        (rw one.3 refl) (λ e. cc))
