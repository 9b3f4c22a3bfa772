-- ===== src/Object/Views/Program.antt =====
-- Programs whose variables are objects and views of them.
use minapp.Base.{
  ℕ, ◌<◌, ◌≡◌, ap, inl, inr, Bool, true, false, Option, none, some, ◌==◌, if◌then◌else◌, arith,
  Bool-cases, Option-cases,
}
use minapp.Object.{Memory, start, destroy, emplace}
use minapp.Object.Program.{
  Op, apply, assign, assign_move, exchange_vars, drop, replace, MayApply, Runs, begin, next,
}
use minapp.Object.Types.{type_of}
use minapp.Object.Views.{
  Exception, bad_object_cast, object_not_fn, Outcome, returned, thrown, fault, finish, check_type,
  ptr_copy, ptr_move, ref_copy, ref_move, ref_copy_ptr, ref_move_ptr, fn_copy, fn_move, vec_copy,
  vec_move, vec_emplace, is_length, unless_null,
}
use minapp.Object.Views.Typed.{Views, Respects}

pub data ViewOp : Type 0 where
  plain : Op → ViewOp
  ptr_copies : (type i j : ℕ) → ViewOp
  ptr_moves : (type i j : ℕ) → ViewOp
  ref_copies : (type i j : ℕ) → ViewOp
  ref_moves : (type i j : ℕ) → ViewOp
  fn_copies : (type i j : ℕ) → ViewOp
  fn_moves : (type i j : ℕ) → ViewOp
  vec_copies : (type i j : ℕ) → ViewOp
  vec_moves : (type i j : ℕ) → ViewOp
  ref_copies_ptr : (i j : ℕ) → ViewOp
  ref_moves_ptr : (i j : ℕ) → ViewOp
  vec_emplaces : (type i n : ℕ) → ViewOp

unfoldable pub apply_view : ViewOp → Memory → Outcome
unfolding apply ptr_copy ptr_move ref_copy ref_move fn_copy fn_move vec_copy vec_move ref_copy_ptr
    ref_move_ptr vec_emplace
apply_view (plain op) m = finish (apply op m)
apply_view (ptr_copies type i j) m = ptr_copy type i j m
apply_view (ptr_moves type i j) m = ptr_move type i j m
apply_view (ref_copies type i j) m = ref_copy type i j m
apply_view (ref_moves type i j) m = ref_move type i j m
apply_view (fn_copies type i j) m = fn_copy type i j m
apply_view (fn_moves type i j) m = fn_move type i j m
apply_view (vec_copies type i j) m = vec_copy type i j m
apply_view (vec_moves type i j) m = vec_move type i j m
apply_view (ref_copies_ptr i j) m = ref_copy_ptr i j m
apply_view (ref_moves_ptr i j) m = ref_move_ptr i j m
apply_view (vec_emplaces type i n) m = vec_emplace type i n m

-- The new view is a null variable of its type.
abbrev pub NewView : ℕ → Views → Memory → ℕ → ℕ → ℕ → Type 0
NewView n view m type i j = (i < n) × (j < n) × (m.var i ≡ none) × (view i ≡ some type)

-- What C++ asks of the variables, and that no view is changed as an `object`, through a reference
-- to its base class.
unfoldable pub MayView : ℕ → Views → Memory → ViewOp → Type 0
MayView n view m (plain op) = MayApply n m op × Respects view op
MayView n view m (ptr_copies type i j) = NewView n view m type i j
MayView n view m (ptr_moves type i j) = NewView n view m type i j
MayView n view m (ref_copies type i j) = NewView n view m type i j
MayView n view m (ref_moves type i j) = NewView n view m type i j
MayView n view m (fn_copies type i j) = NewView n view m type i j
MayView n view m (fn_moves type i j) = NewView n view m type i j
MayView n view m (vec_copies type i j) = NewView n view m type i j
MayView n view m (vec_moves type i j) = NewView n view m type i j
MayView n view m (ref_copies_ptr i j) = (i < n) × (j < n) × (m.var i ≡ none) × (view i ≡ view j)
MayView n view m (ref_moves_ptr i j) = (i < n) × (j < n) × (m.var i ≡ none) × (view i ≡ view j)
MayView n view m (vec_emplaces type i c) = (i < n) × (view i ≡ some type)

-- The memories that a program comes to, with `n` variables that `view` restricts. An operation that
-- throws leaves the memory as it is.
pub data ViewRuns (n : ℕ) (view : Views) : Memory → Type 0 where
  begin_views : ViewRuns n view start
  step :
      {m m' : Memory} (op : ViewOp)
      → ViewRuns n view m
      → MayView n view m op
      → apply_view op m ≡ returned m'
      → ViewRuns n view m'

-- The operation of `object` that one of a view ends with.
unfoldable pub base : ViewOp → Op
base (plain op) = op
base (ptr_copies type i j) = assign i j
base (ptr_moves type i j) = exchange_vars i j
base (ref_copies type i j) = assign i j
base (ref_moves type i j) = exchange_vars i j
base (fn_copies type i j) = assign i j
base (fn_moves type i j) = assign_move i j
base (vec_copies type i j) = assign i j
base (vec_moves type i j) = exchange_vars i j
base (ref_copies_ptr i j) = assign i j
base (ref_moves_ptr i j) = exchange_vars i j
base (vec_emplaces type i n) = if n == 0 then drop i else replace i type

pub base-MayApply :
    (n : ℕ) (view : Views) (m : Memory) (op : ViewOp) → MayView n view m op → MayApply n m (base op)
unfolding MayView MayApply base
base-MayApply n view m (plain op) may = may.0
base-MayApply n view m (ptr_copies type i j) may = (may.0, may.1)
base-MayApply n view m (ptr_moves type i j) may = (may.0, may.1)
base-MayApply n view m (ref_copies type i j) may = (may.0, may.1)
base-MayApply n view m (ref_moves type i j) may = (may.0, may.1)
base-MayApply n view m (fn_copies type i j) may = (may.0, may.1)
base-MayApply n view m (fn_moves type i j) may = (may.0, may.1)
base-MayApply n view m (vec_copies type i j) may = (may.0, may.1)
base-MayApply n view m (vec_moves type i j) may = (may.0, may.1)
base-MayApply n view m (ref_copies_ptr i j) may = (may.0, may.1)
base-MayApply n view m (ref_moves_ptr i j) may = (may.0, may.1)
base-MayApply n view m (vec_emplaces type i c) may = elim (Bool-cases (c == 0)) [
  | inl e ↦ rw e may.0
  | inr e ↦ rw e may.0
]

memory_of : Memory → Outcome → Memory
memory_of m (returned m') = m'
memory_of m (thrown e) = m
memory_of m fault = m

pub finish_returned : (r : Option Memory) {m' : Memory} → finish r ≡ returned m' → r ≡ some m'
unfolding memory_of
finish_returned none e = cc
finish_returned (some m) e = ap (λ o. some (memory_of m o)) e

-- What the check has found, where the constructor returns.
pub check_returned :
    (p : Bool) (e : Exception) (type j : ℕ) (m : Memory) (r : Option Memory) {m' : Memory}
    → check_type p e type j m r ≡ returned m'
    → (r ≡ some m') × ((a : ℕ) → m.var j ≡ some a → type_of (m.block a) ≡ some type)
unfolding check_type
check_returned p e type j m r f = elim (Option-cases (m.var j)) [
  | inl x ↦ elim (Bool-cases p) [
    | inl y ↦ (finish_returned r (rw (x, y, check_type) at f), λ a z. cc)
    | inr y ↦ absurd (ground (arith, f, x, y))
  ]
  | inr (a, x) ↦ elim (Option-cases (m.block a)) [
    | inl y ↦ absurd (ground (arith, f, x, y))
    | inr (b, y) ↦ elim (Bool-cases (b.type == type)) [
      | inl z ↦
          (finish_returned r (rw (x, check_type, y, z) at f), λ c w. ground (arith, w, x, y, z))
      | inr z ↦ absurd (ground (arith, f, x, y, z))
    ]
  ]
]

pub not_null_returned :
    (i j : ℕ) (m : Memory) (r : Option Memory) {m' : Memory}
    → unless_null j m r ≡ returned m'
    → r ≡ some m'
not_null_returned i j m r e = elim (Option-cases (m.var j)) [
  | inl x ↦ absurd (ground (arith, e, x))
  | inr (a, x) ↦ finish_returned r (rw (x, unless_null) at e)
]

pub returns_base :
    (n : ℕ) (view : Views) (m : Memory) (op : ViewOp) {m' : Memory}
    → apply_view op m ≡ returned m'
    → apply (base op) m ≡ some m'
unfolding apply_view base apply
returns_base n view m (plain op) e = finish_returned _ e
returns_base n view m (ptr_copies type i j) e = (check_returned true bad_object_cast type j m _ e).0
returns_base n view m (ptr_moves type i j) e = (check_returned true bad_object_cast type j m _ e).0
returns_base n view m (ref_copies type i j) e =
    (check_returned false bad_object_cast type j m _ e).0
returns_base n view m (ref_moves type i j) e = (check_returned false bad_object_cast type j m _ e).0
returns_base n view m (fn_copies type i j) e = (check_returned true object_not_fn type j m _ e).0
returns_base n view m (fn_moves type i j) e = (check_returned true object_not_fn type j m _ e).0
returns_base n view m (vec_copies type i j) e = (check_returned true bad_object_cast type j m _ e).0
returns_base n view m (vec_moves type i j) e = (check_returned true bad_object_cast type j m _ e).0
returns_base n view m (ref_copies_ptr i j) e = not_null_returned i j m _ e
returns_base n view m (ref_moves_ptr i j) e = not_null_returned i j m _ e
returns_base n view m (vec_emplaces type i c) e = elim (Bool-cases (c == 0)) [
  | inl z ↦ rw z (finish_returned (destroy i m) (rw z at e))
  | inr z ↦ elim (Bool-cases (is_length c)) [
    | inl l ↦ rw z (finish_returned (emplace i type m) (rw (z, l) at e))
    | inr l ↦ absurd (ground (arith, e, z, l))
  ]
]

-- The variables of the program are the same as those of its objects.
pub ViewRuns-Runs : {n : ℕ} {view : Views} {m : Memory} → ViewRuns n view m → Runs n m
ViewRuns-Runs begin_views = begin
ViewRuns-Runs {n} {view} (step {m} op r may e) =
    next (base op) (ViewRuns-Runs r) (base-MayApply n view m op may) (returns_base n view m op e)
