-- ===== src/Object/Views/Types.antt =====
-- The views of a program have the types that they ask for.
use minapp.Base.{
  ℕ, ◌≡◌, sym, ap, ◌∙◌, ◌⊎◌, inl, inr, Bool, true, false, none, some, ◌==◌, arith, Bool-cases,
}
use minapp.Object.{Handle, same_handle, Memory, start, swap, copy_assign, move_assign}
use minapp.Object.Counting.{IsCounted}
use minapp.Object.Program.{
  Op, apply, assign, assign_move, exchange_vars, drop, replace, MayApply, Runs-IsCounted,
}
use minapp.Object.Types.{type_of}
use minapp.Object.Flow.{vars_after, apply-vars_after}
use minapp.Object.Views.{Exception, bad_object_cast, object_not_fn, returned, check_type}
use minapp.Object.Views.Typed.{Views, Respects, IsTyped, apply-IsTyped, kept_type}
use minapp.Object.Views.Program.{
  ViewOp, plain, ptr_copies, ptr_moves, ref_copies, ref_moves, fn_copies, fn_moves, vec_copies,
  vec_moves, ref_copies_ptr, ref_moves_ptr, vec_emplaces, apply_view, NewView, MayView, ViewRuns,
  begin_views, step, base, returns_base, check_returned, not_null_returned, ViewRuns-Runs,
  finish_returned,
}

module _ (n : ℕ) (view : Views) (m : Memory) (c : (a : ℕ) → IsCounted n none m a)
    (t : IsTyped n view m) where
  -- Where the new view is given a pointer to a block of its type.
  new_view :
      (op : Op) (i j type : ℕ) {m' : Memory}
      → apply op m ≡ some m'
      → ((a : ℕ) → IsCounted n none m' a)
      → view i ≡ some type
      → ((a : ℕ) → m.var j ≡ some a → type_of (m.block a) ≡ some type)
      → ((k a : ℕ)
          → vars_after op m k ≡ some a
          → (m.var k ≡ some a) ⊎ ((k ≡ i) × (m.var j ≡ some a)))
      → IsTyped n view m'
  unfolding IsTyped
  new_view op i j type {m'} f c' v known flows k a type' lt w e =
      let e' = ap (λ (g : ℕ → Handle). g k) (sym (apply-vars_after m op f)) ∙ e in
      kept_type n m op k a type' c c' f lt e (elim (flows k a e') [
        | inl x ↦ t k a type' lt w x
        | inr (x, y) ↦ known a y ∙ sym v ∙ ap view (sym x) ∙ w
      ])

  assign_flows :
      (i j k a : ℕ)
      → vars_after (assign i j) m k ≡ some a
      → (m.var k ≡ some a) ⊎ ((k ≡ i) × (m.var j ≡ some a))
  unfolding vars_after
  assign_flows i j k a e = elim (Bool-cases (same_handle (m.var i) (m.var j))) [
    | inl s ↦ inl (ground (arith, e, s))
    | inr s ↦ elim (Bool-cases (i == k)) [
      | inl x ↦ inr (ground (arith, x), ground (arith, e, s, x))
      | inr x ↦ inl (ground (arith, e, s, x))
    ]
  ]

  exchange_flows :
      (i j k a : ℕ)
      → m.var i ≡ none
      → vars_after (exchange_vars i j) m k ≡ some a
      → (m.var k ≡ some a) ⊎ ((k ≡ i) × (m.var j ≡ some a))
  unfolding vars_after
  exchange_flows i j k a x e = elim (Bool-cases (i == k)) [
    | inl y ↦ inr (ground (arith, y), ground (arith, e, y))
    | inr y ↦ elim (Bool-cases (j == k)) [
      | inl z ↦ absurd (ground (arith, e, x, y, z))
      | inr z ↦ inl (ground (arith, e, y, z))
    ]
  ]

  move_flows :
      (i j k a : ℕ)
      → vars_after (assign_move i j) m k ≡ some a
      → (m.var k ≡ some a) ⊎ ((k ≡ i) × (m.var j ≡ some a))
  unfolding vars_after
  move_flows i j k a e = elim (Bool-cases (same_handle (m.var i) (m.var j))) [
    | inl s ↦ inl (ground (arith, e, s))
    | inr s ↦ elim (Bool-cases (i == k)) [
      | inl x ↦ inr (ground (arith, x), ground (arith, e, s, x))
      | inr x ↦ elim (Bool-cases (j == k)) [
        | inl z ↦ absurd (ground (arith, e, s, x, z))
        | inr z ↦ inl (ground (arith, e, s, x, z))
      ]
    ]
  ]

  copied :
      (p : Bool) (ex : Exception) (type i j : ℕ) {m' : Memory}
      → NewView n view m type i j
      → ((a : ℕ) → IsCounted n none m' a)
      → check_type p ex type j m (copy_assign i j m) ≡ returned m'
      → IsTyped n view m'
  unfolding apply
  copied p ex type i j (lt, lt', x, v) c' e =
      let q = check_returned p ex type j m (copy_assign i j m) e in
      new_view (assign i j) i j type q.0 c' v q.1 (assign_flows i j)

  moved :
      (p : Bool) (ex : Exception) (type i j : ℕ) {m' : Memory}
      → NewView n view m type i j
      → ((a : ℕ) → IsCounted n none m' a)
      → check_type p ex type j m (swap i j m) ≡ returned m'
      → IsTyped n view m'
  unfolding apply
  moved p ex type i j (lt, lt', x, v) c' e =
      let q = check_returned p ex type j m (swap i j m) e in
      new_view (exchange_vars i j) i j type q.0 c' v q.1 (λ k a. exchange_flows i j k a x)

  plain_step :
      (op : Op) {m' : Memory}
      → ((a : ℕ) → IsCounted n none m' a)
      → MayApply n m op
      → Respects view op
      → apply op m ≡ some m'
      → IsTyped n view m'
  plain_step op c' may ok e = apply-IsTyped n view m op c c' may ok e t

  step-IsTyped :
      (op : ViewOp) {m' : Memory}
      → ((a : ℕ) → IsCounted n none m' a)
      → MayView n view m op
      → apply_view op m ≡ returned m'
      → IsTyped n view m'
  unfolding apply_view MayView Respects MayApply apply base
  step-IsTyped (plain op) c' may e = plain_step op c' may.0 may.1 (finish_returned (apply op m) e)
  step-IsTyped (ptr_copies type i j) c' may e = copied true bad_object_cast type i j may c' e
  step-IsTyped (ptr_moves type i j) c' may e = moved true bad_object_cast type i j may c' e
  step-IsTyped (ref_copies type i j) c' may e = copied false bad_object_cast type i j may c' e
  step-IsTyped (ref_moves type i j) c' may e = moved false bad_object_cast type i j may c' e
  step-IsTyped (fn_copies type i j) c' may e = copied true object_not_fn type i j may c' e
  step-IsTyped (fn_moves type i j) {m'} c' may e =
      let q = check_returned true object_not_fn type j m (move_assign i j m) e in
      new_view (assign_move i j) i j type q.0 c' may.3 q.1 (move_flows i j)
  step-IsTyped (vec_copies type i j) c' may e = copied true bad_object_cast type i j may c' e
  step-IsTyped (vec_moves type i j) c' may e = moved true bad_object_cast type i j may c' e
  step-IsTyped (ref_copies_ptr i j) c' (lt, lt', x, v) e =
      plain_step (assign i j) c' (lt, lt') (λ type w. sym v ∙ w)
        (not_null_returned i j m (copy_assign i j m) e)
  step-IsTyped (ref_moves_ptr i j) c' (lt, lt', x, v) e =
      plain_step (exchange_vars i j) c' (lt, lt') (λ type w. sym v ∙ w, λ type w. v ∙ w)
        (not_null_returned i j m (swap i j m) e)
  step-IsTyped (vec_emplaces type i k) {m'} c' (lt, v) e =
      let r = returns_base n view m (vec_emplaces type i k) e in
      elim (Bool-cases (k == 0)) [
        | inl z ↦ plain_step (drop i) c' lt tt (rw (z, base) at r)
        | inr z ↦
            plain_step (replace i type) c' lt (λ type' w. ground (arith, v, w)) (rw (z, base) at r)
      ]

start-IsTyped : (n : ℕ) (view : Views) → IsTyped n view start
unfolding IsTyped
start-IsTyped n view i a type lt v e = cc

pub ViewRuns-IsTyped : {n : ℕ} {view : Views} {m : Memory} → ViewRuns n view m → IsTyped n view m
ViewRuns-IsTyped {n} {view} begin_views = start-IsTyped n view
ViewRuns-IsTyped {n} {view} (step {m} {m'} op r may e) =
    step-IsTyped n view m (Runs-IsCounted (ViewRuns-Runs r)) (ViewRuns-IsTyped r) op
      (Runs-IsCounted (ViewRuns-Runs (step op r may e))) may e
