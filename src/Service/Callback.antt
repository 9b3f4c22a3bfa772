-- ===== src/Service/Callback.antt =====
-- `connect_handler` (src/service.cpp), the handler of a session that is opened with a function.
use minapp.Base.{
  ℕ, ◌≡◌, refl, ◌⊎◌, inl, inr, Bool, true, false, Option, none, some, List, [], ◌∷◌, if◌then◌else◌,
}
use minapp.Handler.{
  ErrorCode, Call, connect, read, write, except, error, close, Outcome, returned, threw,
  threw_other, dispatch, guarded, call_error, call_except,
}

-- `conn` tells whether it still has its function, and that is not empty; `called` are the error
-- codes of the function's calls, the last first; `user` is the session and what the program keeps.
pub record Connecting (U : Type 0) : Type 0 where
  pub conn : Bool
  pub called : List (Option ErrorCode)
  pub user : U

Outcome-cases : (o : Outcome) → (o ≡ returned) ⊎ (((e : ℕ) × (o ≡ threw e)) ⊎ (o ≡ threw_other))
Outcome-cases returned = inl refl
Outcome-cases (threw e) = inr (inl (e, refl))
Outcome-cases threw_other = inr (inr refl)

-- The first call that tells whether the connection was made.
abbrev pub first_outcome : List Call → List (Option ErrorCode)
first_outcome [] = []
first_outcome (connect ep ∷ calls) = none ∷ []
first_outcome (error ec ∷ calls) = some ec ∷ []
first_outcome (read buf ∷ calls) = first_outcome calls
first_outcome (write list ∷ calls) = first_outcome calls
first_outcome (except e ∷ calls) = first_outcome calls
first_outcome (close ∷ calls) = first_outcome calls

module _ {U : Type 0} (reset : U → U)  -- `session->handler({})`
    (forward : Call → U → U)  -- a call of the session's handler
    (callback : Option ErrorCode → U → Outcome × U)  -- the function
  where
    -- The body that `connect_impl` and `error_impl` share.
    unfoldable pub use_callback : Option ErrorCode → Call → Connecting U → Outcome × Connecting U
    use_callback ec call st =
        let u = reset st.user in
        let (outcome, u') = callback ec u in
        if st.conn
        then (outcome, record { conn = false; called = ec ∷ st.called; user = u' })
        else (returned, record st { user = forward call u })

    -- The methods of `connect_handler`, and those of `noexcept_handler_impl` that it has not overridden.
    unfoldable pub connect_handler : Call → Connecting U → Outcome × Connecting U
    unfolding use_callback
    connect_handler (connect ep) st = use_callback none (connect ep) st
    connect_handler (error ec) st = use_callback (some ec) (error ec) st
    connect_handler (read buf) st = (returned, st)
    connect_handler (write list) st = (returned, st)
    connect_handler (except e) st = (returned, st)
    connect_handler close st = (returned, st)

    -- The calls of a session to its handler, one after the other.
    unfoldable pub serve : List Call → Connecting U → Connecting U
    unfolding connect_handler dispatch
    serve [] st = st
    serve (call ∷ calls) st = serve calls (dispatch connect_handler call st)

    -- Without its function, a `connect_handler` calls none.
    serve_spent :
        (calls : List Call) (called : List (Option ErrorCode)) (u : U)
        → (serve calls (record { conn = false; called = called; user = u })).called ≡ called
    unfolding serve dispatch guarded call_error call_except connect_handler use_callback
    serve_spent [] called u = refl
    serve_spent (connect ep ∷ calls) called u = serve_spent calls called _
    serve_spent (error ec ∷ calls) called u = serve_spent calls called _
    serve_spent (read buf ∷ calls) called u = serve_spent calls called u
    serve_spent (write list ∷ calls) called u = serve_spent calls called u
    serve_spent (except e ∷ calls) called u = serve_spent calls called u
    serve_spent (close ∷ calls) called u = serve_spent calls called u

    -- Whatever the calls of a session to a `connect_handler` with a function, and whatever the
    -- function throws, the function is called once for the first call of `connect` or `error`,
    -- with its error code, and not for any other call.
    pub callback_is_called_once :
        (calls : List Call) (u : U)
        → (serve calls (record { conn = true; called = []; user = u })).called ≡ first_outcome calls
    unfolding serve dispatch guarded call_error call_except connect_handler use_callback
    callback_is_called_once [] u = refl
    callback_is_called_once (connect ep ∷ calls) u =
        elim (Outcome-cases (callback none (reset u)).0) [
          | inl e ↦
              rw (e, serve, dispatch, guarded, call_error, call_except)
                (serve_spent calls (none ∷ []) _)
          | inr (inl (x, e)) ↦
              rw (e, serve, dispatch, guarded, call_error, call_except)
                (serve_spent calls (none ∷ []) _)
          | inr (inr e) ↦
              rw (e, serve, dispatch, guarded, call_error, call_except)
                (serve_spent calls (none ∷ []) _)
        ]
    callback_is_called_once (error ec ∷ calls) u =
        elim (Outcome-cases (callback (some ec) (reset u)).0) [
          | inl e ↦
              rw (e, serve, dispatch, guarded, call_error, call_except)
                (serve_spent calls (some ec ∷ []) _)
          | inr (inl (x, e)) ↦
              rw (e, serve, dispatch, guarded, call_error, call_except)
                (serve_spent calls (some ec ∷ []) _)
          | inr (inr e) ↦
              rw (e, serve, dispatch, guarded, call_error, call_except)
                (serve_spent calls (some ec ∷ []) _)
        ]
    callback_is_called_once (read buf ∷ calls) u = callback_is_called_once calls u
    callback_is_called_once (write list ∷ calls) u = callback_is_called_once calls u
    callback_is_called_once (except e ∷ calls) u = callback_is_called_once calls u
    callback_is_called_once (close ∷ calls) u = callback_is_called_once calls u
