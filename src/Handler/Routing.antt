-- ===== src/Handler/Routing.antt =====
-- What the exceptions of a handler become, src/handler.cpp.
use minapp.Base.{ℕ, ◌+◌, ◌≤◌, ◌≡◌, refl, some, arith, ◌⊎◌, inl, inr}
use minapp.Handler.{
  RuntimeErrc, ErrorCode, runtime, Call, connect, read, write, except, error, close, Outcome,
  returned, threw, threw_other, call_error, call_except, guarded, dispatch, wrapper_impl,
  plain_handler, wrap, unknown_connect_exception, unknown_read_exception, unknown_write_exception,
  unknown_close_exception, unknown_except_exception, unknown_error_exception,
}

outcome_cases : (o : Outcome) → (o ≡ returned) ⊎ ((n : ℕ) × (o ≡ threw n)) ⊎ (o ≡ threw_other)
outcome_cases returned = inl refl
outcome_cases (threw n) = inr (inl (n, refl))
outcome_cases threw_other = inr (inr refl)

module _ {S : Type 0} (handler : Call → S → Outcome × S) where
  -- A handler whose methods return is not changed by `wrap`.
  pub wrap_transparent :
      ((call : Call) (s : S) → (handler call s).0 ≡ returned)
      → (call : Call) (s : S) → wrap (some (plain_handler handler)) call s ≡ (handler call s).1
  unfolding wrap wrapper_impl dispatch guarded call_error call_except
  wrap_transparent quiet (connect ep) s = ground (arith, quiet (connect ep) s)
  wrap_transparent quiet (read buf) s = ground (arith, quiet (read buf) s)
  wrap_transparent quiet (write list) s = ground (arith, quiet (write list) s)
  wrap_transparent quiet (except e) s = ground (arith, quiet (except e) s)
  wrap_transparent quiet (error ec) s = ground (arith, quiet (error ec) s)
  wrap_transparent quiet close s = ground (arith, quiet close s)

  module _ (I : S → Type 0) (keeps : (call : Call) (s : S) → I s → I (handler call s).1) where
    call_error_keeps : (ec : ErrorCode) (s : S) → I s → I (call_error handler ec s)
    unfolding call_error
    call_error_keeps ec s i =
        let i' = keeps (error ec) s i in
        let i'' = keeps (error (runtime unknown_error_exception)) (handler (error ec) s).1 i' in
        elim (outcome_cases (handler (error ec) s).0) [
          | inl e ↦ rw (e, call_error) i'
          | inr (inl (n, e)) ↦ rw (e, call_error) i''
          | inr (inr e) ↦ rw (e, call_error) i''
        ]

    call_except_keeps : (n : ℕ) (s : S) → I s → I (call_except handler n s)
    unfolding call_except
    call_except_keeps n s i =
        let s' = (handler (except n) s).1 in
        let i' = keeps (except n) s i in
        let i'' = call_error_keeps (runtime unknown_except_exception) s' i' in
        elim (outcome_cases (handler (except n) s).0) [
          | inl e ↦ rw (e, call_except) i'
          | inr (inl (m, e)) ↦ rw (e, call_except) i''
          | inr (inr e) ↦ rw (e, call_except) i''
        ]

    guarded_keeps :
        (call : Call) (unknown : RuntimeErrc) (s : S) → I s → I (guarded handler call unknown s)
    unfolding guarded
    guarded_keeps call unknown s i =
        let s' = (handler call s).1 in
        let i' = keeps call s i in
        elim (outcome_cases (handler call s).0) [
          | inl e ↦ rw (e, guarded) i'
          | inr (inl (m, e)) ↦ rw (e, guarded) (call_except_keeps m s' i')
          | inr (inr e) ↦ rw (e, guarded) (call_error_keeps (runtime unknown) s' i')
        ]

    -- What every method of a handler keeps, whether it returns or throws, every method of the
    -- handler wrapped by `wrap` keeps.
    pub wrap_keeps : (call : Call) (s : S) → I s → I (wrap (some (plain_handler handler)) call s)
    unfolding wrap wrapper_impl dispatch
    wrap_keeps (connect ep) s i = guarded_keeps (connect ep) unknown_connect_exception s i
    wrap_keeps (read buf) s i = guarded_keeps (read buf) unknown_read_exception s i
    wrap_keeps (write list) s i = guarded_keeps (write list) unknown_write_exception s i
    wrap_keeps (except e) s i = call_except_keeps e s i
    wrap_keeps (error ec) s i = call_error_keeps ec s i
    wrap_keeps close s i = guarded_keeps close unknown_close_exception s i

-- A handler that counts the calls of its methods.
unfoldable pub counted : (Call → ℕ → Outcome) → Call → ℕ → Outcome × ℕ
counted does call n = (does call n, n + 1)

module _ (does : Call → ℕ → Outcome) where
  call_error_bound :
      (ec : ErrorCode) (n : ℕ)
      → (n + 1 ≤ call_error (counted does) ec n) × (call_error (counted does) ec n ≤ n + 2)
  unfolding call_error counted
  call_error_bound ec n = elim (outcome_cases (does (error ec) n)) [
    | inl e ↦ ground (arith, e)
    | inr (inl (m, e)) ↦ ground (arith, e)
    | inr (inr e) ↦ ground (arith, e)
  ]

  call_except_bound :
      (x n : ℕ)
      → (n + 1 ≤ call_except (counted does) x n) × (call_except (counted does) x n ≤ n + 3)
  unfolding call_except counted
  call_except_bound x n =
      let b = call_error_bound (runtime unknown_except_exception) (n + 1) in
      elim (outcome_cases (does (except x) n)) [
        | inl e ↦ ground (arith, e)
        | inr (inl (m, e)) ↦ ground (arith, e, b)
        | inr (inr e) ↦ ground (arith, e, b)
      ]

  guarded_bound :
      (call : Call) (unknown : RuntimeErrc) (n : ℕ)
      → (n + 1 ≤ guarded (counted does) call unknown n)
        × (guarded (counted does) call unknown n ≤ n + 4)
  unfolding guarded counted
  guarded_bound call unknown n =
      let b = call_error_bound (runtime unknown) (n + 1) in
      elim (outcome_cases (does call n)) [
        | inl e ↦ ground (arith, e)
        | inr (inl (m, e)) ↦ ground (arith, e, call_except_bound m (n + 1))
        | inr (inr e) ↦ ground (arith, e, b)
      ]

  -- Whatever a handler throws and when, each method of the handler wrapped by `wrap` calls its
  -- methods at least once and at most four times.
  pub wrap_bound :
      (call : Call) (n : ℕ)
      → (n + 1 ≤ wrap (some (plain_handler (counted does))) call n)
        × (wrap (some (plain_handler (counted does))) call n ≤ n + 4)
  unfolding wrap wrapper_impl dispatch
  wrap_bound (connect ep) n = guarded_bound (connect ep) unknown_connect_exception n
  wrap_bound (read buf) n = guarded_bound (read buf) unknown_read_exception n
  wrap_bound (write list) n = guarded_bound (write list) unknown_write_exception n
  wrap_bound (except x) n = ground (arith, call_except_bound x n)
  wrap_bound (error ec) n = ground (arith, call_error_bound ec n)
  wrap_bound close n = guarded_bound close unknown_close_exception n
