-- ===== src/Object/Views.antt =====
-- The typed views of an object in include/minapp/object.hpp: `object::ptr<T>`, `object::ref<T>`,
-- `object::fn<R(Args...)>` and `object::vec<T>`, which are objects, and `object::fn<R(&)(Args...)>`,
-- which refers to one. A view is a variable of the program; its type is that of the holder that it
-- asks for, `T`, `R(Args...)` or `T[]`.
pub mod Typed
pub mod Program
pub mod Types
pub mod Safety
use minapp.Base.{ℕ, Bool, true, false, Option, none, some, leb, ◌==◌, ◌^◌, if◌then◌else◌}
use minapp.Object.{
  addref, Handle, Memory, construct, copy_assign, move_assign, swap, emplace, destroy,
}

pub data Exception : Type 0 where
  bad_object_cast object_not_fn bad_array_new_length : Exception

-- How an operation ends: with a new memory, with an exception, after which the memory is as it was,
-- or with an access to a block that is not allocated.
pub data Outcome : Type 0 where
  returned : Memory → Outcome
  thrown : Exception → Outcome
  fault : Outcome

abbrev pub finish : Option Memory → Outcome
finish none = fault
finish (some m) = returned m

-- `if (obj && obj.type() != type_id<T>()) throw`, where null is let pass, and
-- `if (obj.type() != type_id<T>()) throw` otherwise, in front of what follows.
unfoldable pub check_type : Bool → Exception → ℕ → ℕ → Memory → Option Memory → Outcome
check_type null_passes e type j m next = elim (m.var j) [
  | none ↦ if null_passes then finish next else thrown e
  | some a ↦ elim (m.block a) [
    | none ↦ fault
    | some b ↦ if b.type == type then finish next else thrown e
  ]
]

-- The constructors `ptr(const object& obj)` and `ptr(object&& obj)` of the new variable `i`.
unfoldable pub ptr_copy : ℕ → ℕ → ℕ → Memory → Outcome
unfolding check_type
ptr_copy type i j m = check_type true bad_object_cast type j m (copy_assign i j m)

unfoldable pub ptr_move : ℕ → ℕ → ℕ → Memory → Outcome
unfolding check_type
ptr_move type i j m = check_type true bad_object_cast type j m (swap i j m)

-- The constructors of `ref` from an object.
unfoldable pub ref_copy : ℕ → ℕ → ℕ → Memory → Outcome
unfolding check_type
ref_copy type i j m = check_type false bad_object_cast type j m (copy_assign i j m)

unfoldable pub ref_move : ℕ → ℕ → ℕ → Memory → Outcome
unfolding check_type
ref_move type i j m = check_type false bad_object_cast type j m (swap i j m)

-- The constructors of `ref` from a `ptr`, which look at the pointer only.
abbrev pub unless_null : ℕ → Memory → Option Memory → Outcome
unless_null j m next = elim (m.var j) [ none ↦ thrown bad_object_cast | some a ↦ finish next ]

unfoldable pub ref_copy_ptr : ℕ → ℕ → Memory → Outcome
ref_copy_ptr i j m = unless_null j m (copy_assign i j m)

unfoldable pub ref_move_ptr : ℕ → ℕ → Memory → Outcome
ref_move_ptr i j m = unless_null j m (swap i j m)

-- The constructors of `fn` from an object: the assignment is the object's.
unfoldable pub fn_copy : ℕ → ℕ → ℕ → Memory → Outcome
unfolding check_type
fn_copy type i j m = check_type true object_not_fn type j m (copy_assign i j m)

unfoldable pub fn_move : ℕ → ℕ → ℕ → Memory → Outcome
unfolding check_type
fn_move type i j m = check_type true object_not_fn type j m (move_assign i j m)

-- The constructors of `vec` from an object.
unfoldable pub vec_copy : ℕ → ℕ → ℕ → Memory → Outcome
unfolding check_type
vec_copy type i j m = check_type true bad_object_cast type j m (copy_assign i j m)

unfoldable pub vec_move : ℕ → ℕ → ℕ → Memory → Outcome
unfolding check_type
vec_move type i j m = check_type true bad_object_cast type j m (swap i j m)

-- `holder<T[]>::create(n)` throws for a `std::ptrdiff_t` below 1: for a size with its highest bit set
-- too, which becomes negative.
unfoldable pub is_length : ℕ → Bool
is_length n = if n == 0 then false else if leb (2 ^ 63) n then false else true

-- `vec::emplace(n)`, and `vec(n)` in a new variable.
unfoldable pub vec_emplace : ℕ → ℕ → ℕ → Memory → Outcome
vec_emplace type i n m =
    if n == 0
    then finish (destroy i m)
    else if is_length n
    then finish (emplace i type m)
    else thrown bad_array_new_length

-- An access to the value: the block that it is in, an exception, or undefined behaviour, where the
-- pointer is null, or its block is not allocated or holds a value of another type.
pub data Access : Type 0 where
  value : ℕ → Access
  threw : Exception → Access
  undefined : Access

-- `unsafe_object_cast<T>(&obj)`
unfoldable pub unsafe_object_cast : ℕ → ℕ → Memory → Access
unsafe_object_cast type i m = elim (m.var i) [
  | none ↦ undefined
  | some a ↦ elim (m.block a) [
    | none ↦ undefined
    | some b ↦ if b.type == type then value a else undefined
  ]
]

-- The conversions and `operator->` of `ref`, which do not test for null.
unfoldable pub ref_value : ℕ → ℕ → Memory → Access
unfolding unsafe_object_cast
ref_value type i m = unsafe_object_cast type i m

-- `ref::release() const`: the handle, whose count has been raised for the caller.
unfoldable pub ref_release : ℕ → Memory → Option (Handle × Memory)
unfolding addref
ref_release i m = elim (addref (m.var i) m) [ none ↦ none | some m' ↦ some (m.var i, m') ]

-- `ptr::operator->`
unfoldable pub arrow : ℕ → ℕ → Memory → Access
unfolding unsafe_object_cast
arrow type i m = elim (m.var i) [
  | none ↦ threw bad_object_cast
  | some a ↦ unsafe_object_cast type i m
]

-- `fn::operator()`: the function that is called.
unfoldable pub call : ℕ → ℕ → Memory → Access
unfolding unsafe_object_cast
call type i m = elim (m.var i) [ none ↦ threw object_not_fn | some a ↦ unsafe_object_cast type i m ]

-- `object::fn<R(&)(Args...)>`: `f` is `callobj` and `o` a variable, or `o` is a function of the
-- program.
pub data FnRef : Type 0 where
  callobj : ℕ → FnRef
  function : ℕ → FnRef

pub data FnRefOutcome : Type 0 where
  made : FnRef → FnRefOutcome
  not_made : Exception → FnRefOutcome
  made_fault : FnRefOutcome

-- Its constructors from an `fn` and from an object.
unfoldable pub fn_ref_of_fn : ℕ → Memory → FnRefOutcome
fn_ref_of_fn i m = elim (m.var i) [ none ↦ not_made object_not_fn | some a ↦ made (callobj i) ]

unfoldable pub fn_ref_of_object : ℕ → ℕ → Memory → FnRefOutcome
fn_ref_of_object type i m = elim (m.var i) [
  | none ↦ not_made object_not_fn
  | some a ↦ elim (m.block a) [
    | none ↦ made_fault
    | some b ↦ if b.type == type then made (callobj i) else not_made object_not_fn
  ]
]

-- `object()` into the new variable `i`, and `operator()`.
unfoldable pub fn_ref_object : ℕ → FnRef → Memory → Option Memory
fn_ref_object i (callobj j) m = copy_assign i j m
fn_ref_object i (function f) m = some m

unfoldable pub fn_ref_call : ℕ → FnRef → Memory → Access
unfolding call
fn_ref_call type (callobj i) m = call type i m
fn_ref_call type (function f) m = value f
