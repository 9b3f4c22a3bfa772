-- ===== src/Session/Promise.antt =====
-- `session::connect` of src/session.cpp with its promise, and the generator of the endpoints that
-- `boost::asio::async_connect` tries.
use minapp.Base.{
  subst, sym, ℕ, zero, suc, ◌<◌, ◌≡◌, ◌^◌, refl, Bool, true, false, ◌&&◌, ◌||◌, not, Bool-cases,
  inl, inr, Option, none, some, ◌∷◌, ◌==◌, if◌then◌else◌, arith,
}
use minapp.Reader.{Errc, Step, idle, waiting, delivered, failed, thrown, start}
use minapp.Session.{
  connecting, connected, reading, closed, rank, has_peer, Event, on_connect, on_error, Session,
  call, close_immediately, read_once, read, connect,
}
use minapp.Session.Lifecycle.{
  IsConsistent, IsTame, Goes, Goes-trans, call-Goes, close_immediately-Goes, accounted,
}
use minapp.Session.Reading.{connect-Goes}
use minapp.Session.Termination.{IsTerse, read_total}

-- `std::promise<session_ptr>`: not yet set, set to a session or an error, or destroyed without
-- having been set.
pub data Promise : Type 0 where
  pending : Promise
  value : ℕ → Promise
  exception : Errc → Promise
  broken : Promise

pub record Connected : Type 0 where
  pub session : Session
  -- what `connect` returns, none if an exception leaves it
  pub result : Option Bool
  pub promise : Promise

abbrev is_thrown : Step → Bool
is_thrown (idle, b) = false
is_thrown (waiting request after, b) = false
is_thrown (failed ec, b) = false
is_thrown (delivered k, b) = false
is_thrown (thrown, b) = true

-- A connect that succeeds, when the reads have ended.
abbrev result_of : Bool → Session → Connected
result_of throws s' =
    if throws
    then record { session = s'; result = none; promise = broken }
    else record { session = s'; result = some true; promise = value s'.id }

-- What a connect comes to; `throws` tells whether an exception leaves one that has succeeded.
abbrev pub EndsAs : Bool → Option Errc → Connected → Type 0
EndsAs throws (some ec) c =
    (c.session.status ≡ closed) × (c.result ≡ some false) × (c.promise ≡ exception ec)
EndsAs throws none c =
    (c.result ≡ (if throws then none else some true))
    × (c.promise ≡ (if throws then broken else value c.session.id))

result_of_lem : (throws : Bool) (s' : Session) → EndsAs throws none (result_of throws s')
result_of_lem true s' = (refl, refl)
result_of_lem false s' = (refl, refl)

module _ (handle : Event → Session → Session) (max_size : ℕ) where
  -- Whether a round of `read()` throws, for a buffer that would be longer than `max_size`.
  unfoldable pub once_throws : Session → Bool
  once_throws s =
      (rank s.status == rank connected || rank s.status == rank reading)
      && is_thrown
          (start max_size s.protocol_options s.read_buffer_size s.protocol s.delimiter s.buf)

  unfoldable pub read_throws : ℕ → Session → Bool
  unfolding once_throws
  read_throws zero s = false
  read_throws (suc fuel) s =
      let (s', again) = read_once handle max_size s in
      let rest = read_throws fuel s' in
      if once_throws s then true else if again then rest else false

  -- What follows where `remote_endpoint` has returned: the handler's `connect` and the reads.
  unfoldable pub connect_reads : ℕ → Session → Option Connected
  unfolding read_throws
  connect_reads fuel s =
      let s₀ = call handle on_connect s in
      elim (read handle max_size fuel s₀) [
        | none ↦ none
        | some s' ↦
            if read_throws fuel s₀
            then some (record { session = s'; result = none; promise = broken })
            else some (record { session = s'; result = some true; promise = value s'.id })
      ]

  -- `connect(ec, promise)` and what follows it in the completion handler of `async_connect`, which
  -- is destroyed with the promise.
  unfoldable pub connect_with : Bool → ℕ → Session → Option Errc → Option Connected
  unfolding connect_reads
  connect_with peer fuel s (some ec) = elim (connect handle max_size peer fuel s (some ec)) [
    | none ↦ none
    | some s' ↦ some (record { session = s'; result = some false; promise = exception ec })
  ]
  connect_with peer fuel s none =
      let s' = record s { status = connected } in
      if has_peer peer s'
      then connect_reads fuel s'
      else some (record { session = s'; result = none; promise = broken })

  -- Whether an exception leaves a connect that has succeeded: `remote_endpoint` throws, or a round
  -- of the reads.
  abbrev pub throws : Bool → ℕ → Session → Bool
  throws peer fuel s =
      let s' = record s { status = connected } in
      not (has_peer peer s') || read_throws fuel (call handle on_connect s')

  connect_reads_lem :
      (fuel : ℕ) (s s' : Session)
      → read handle max_size fuel (call handle on_connect s) ≡ some s'
      → connect_reads fuel s ≡ some (result_of (read_throws fuel (call handle on_connect s)) s')
  unfolding connect_reads
  connect_reads_lem fuel s s' e = rw (connect_reads, e) (ground arith)

  -- Whatever the handler, as long as it is tame and terse (as in `read_ends`): on a consistent
  -- session that is connecting, with a read buffer that is not empty, `connect(ec, promise)` ends
  -- and leaves the session consistent. If the connect has failed, the session is closed, `connect`
  -- returns false and the future shows the error. Otherwise `connect` returns true and the future
  -- shows the session, unless an exception leaves `connect`, of `remote_endpoint` where the peer
  -- is gone or of the reads: then the promise is broken.
  pub connect_ends :
      IsTame handle
      → IsTerse handle
      → (peer : Bool) (fuel : ℕ) (s : Session) (result : Option Errc) → IsConsistent s
      → s.status ≡ connecting
      → 0 < s.read_buffer_size
      → s.buf.internal_input_size < 2 ^ 64
      → s.buf.internal_input_size < fuel
      → (c : Connected) × (connect_with peer fuel s result ≡ some c)
        × Goes s c.session
        × EndsAs (throws peer fuel s) result c
  unfolding connect_with connect call
  connect_ends tame terse peer fuel s (some ec) v new pos h lt =
      let c = call-Goes handle tame (on_error ec) s (λ es. refl) v in
      let s' = close_immediately handle (call handle (on_error ec) s) in
      let closes' = close_immediately-Goes handle tame _ (accounted c.consistent) in
      (
        record { session = s'; result = some false; promise = exception ec },
        refl,
        Goes-trans c closes'.0,
        (closes'.1, refl, refl),
      )
  connect_ends tame terse peer fuel s none v new pos h lt =
      let s₁ = record s { status = connected } in
      elim (Bool-cases (has_peer peer s₁)) [
        | inr gone ↦ (
          record { session = s₁; result = none; promise = broken },
          rw (gone, connect_with) refl,
          connect-Goes handle tame max_size peer fuel s none v new (rw (gone, connect) refl),
          ground (arith, gone),
        )
        | inl found ↦
            let s₂ = record s₁ { events = on_connect ∷ s.events } in
            let s₀ = call handle on_connect s₁ in
            let (s', e) =
              read_total handle terse max_size fuel s₀ (terse.leaves_room on_connect s₂ pos)
                (omega (arith, terse.adds_nothing on_connect s₂))
                (omega (arith, terse.adds_nothing on_connect s₂)) in
            let goes =
              connect-Goes handle tame max_size peer fuel s none v new (rw (found, connect) e) in
            let same : (result_of (read_throws fuel s₀) s').session ≡ s' = ground arith in
            (
              result_of (read_throws fuel s₀) s',
              rw (found, connect_with) (connect_reads_lem fuel s₁ s' e),
              subst (Goes s) (sym same) goes,
              subst (λ t. EndsAs t none (result_of (read_throws fuel s₀) s'))
                  (sym (ground (arith, found))) (result_of_lem (read_throws fuel s₀) s'),
            )
      ]
