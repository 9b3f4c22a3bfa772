-- ===== src/Handler.antt =====
-- The handlers of include/minapp/handler.hpp and src/handler.cpp: the methods that may not throw,
-- made from methods that may. A handler is a function of the call and of a state of its own, which
-- returns, throws a `std::exception` (its number), or throws something else. The session, the
-- buffer and the list that each call passes on are in the call.
pub mod Routing
use minapp.Base.{ℕ, List, Option, none, some}

pub data RuntimeErrc : Type 0 where
  unknown_connect_exception : RuntimeErrc
  unknown_read_exception : RuntimeErrc
  unknown_write_exception : RuntimeErrc
  unknown_except_exception : RuntimeErrc
  unknown_error_exception : RuntimeErrc
  unknown_close_exception : RuntimeErrc

-- `boost::system::error_code`: one of a system category, or of `runtime_category`.
pub data ErrorCode : Type 0 where
  system : ℕ → ErrorCode
  runtime : RuntimeErrc → ErrorCode

pub data Call : Type 0 where
  connect : ℕ → Call
  read : List ℕ → Call
  write : List (List ℕ) → Call
  except : ℕ → Call
  error : ErrorCode → Call
  close : Call

pub data Outcome : Type 0 where
  returned : Outcome
  threw : ℕ → Outcome
  threw_other : Outcome

module _ {S : Type 0} where
  module _ (impl : Call → S → Outcome × S) where
    -- `noexcept_handler_impl::error`
    unfoldable pub call_error : ErrorCode → S → S
    call_error ec s =
        let (first, s') = impl (error ec) s in
        let (second, s'') = impl (error (runtime unknown_error_exception)) s' in
        elim first [ returned ↦ s' | threw e ↦ s'' | threw_other ↦ s'' ]

    -- `noexcept_handler_impl::except`
    unfoldable pub call_except : ℕ → S → S
    unfolding call_error
    call_except e s =
        let (outcome, s') = impl (except e) s in
        let failed = call_error (runtime unknown_except_exception) s' in
        elim outcome [ returned ↦ s' | threw e' ↦ failed | threw_other ↦ failed ]

    -- The body that `connect`, `read`, `write` and `close` share.
    unfoldable pub guarded : Call → RuntimeErrc → S → S
    unfolding call_error call_except
    guarded call unknown s =
        let (outcome, s') = impl call s in
        elim outcome [
          | returned ↦ s'
          | threw e ↦ call_except e s'
          | threw_other ↦ call_error (runtime unknown) s'
        ]

    -- The methods of `noexcept_handler_impl`.
    unfoldable pub dispatch : Call → S → S
    unfolding guarded call_error call_except
    dispatch (connect ep) s = guarded (connect ep) unknown_connect_exception s
    dispatch (read buf) s = guarded (read buf) unknown_read_exception s
    dispatch (write list) s = guarded (write list) unknown_write_exception s
    dispatch (except e) s = call_except e s
    dispatch (error ec) s = call_error ec s
    dispatch close s = guarded close unknown_close_exception s

  -- `noexcept_handler_wrapper`: the methods pass each call on.
  unfoldable pub wrapper_impl : (Call → S → Outcome × S) → Call → S → Outcome × S
  wrapper_impl handler call s = handler call s

-- A `handler_ptr` that is not null: a `noexcept_handler`, or another handler.
pub data Handler (S : Type 0) : Type 0 where
  noexcept_handler : (Call → S → S) → Handler S
  plain_handler : (Call → S → Outcome × S) → Handler S

-- `handler::dummy()`, whose methods do nothing.
unfoldable pub dummy : {S : Type 0} → Call → S → S
dummy call s = s

-- `noexcept_handler::wrap`
unfoldable pub wrap : {S : Type 0} → Option (Handler S) → Call → S → S
unfolding dispatch wrapper_impl dummy
wrap none = dummy
wrap (some (noexcept_handler f)) = f
wrap (some (plain_handler handler)) = dispatch (wrapper_impl handler)
