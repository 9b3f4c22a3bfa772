-- ===== src/Object/Views/Safety.antt =====
-- Accesses through views: what is called or dereferenced is a value of the view's type.
use minapp.Base.{
  ℕ, ◌<◌, ◌≡◌, ◌≢◌, ap, ◌∙◌, ◌⊎◌, inl, inr, Bool, true, false, Option, none, some, ◌==◌, arith,
  Bool-cases, Option-cases,
}
use minapp.Object.{Handle, Memory, destroy, emplace}
use minapp.Object.Counting.{held-allocated}
use minapp.Object.Program.{
  Op, apply, assign, assign_move, exchange_vars, drop, replace, MayApply, Runs, next,
  Runs-IsCounted, Runs-apply,
}
use minapp.Object.Types.{type_of, object_cast}
use minapp.Object.Flow.{vars_after, apply-vars_after}
use minapp.Object.Views.{
  Exception, bad_object_cast, object_not_fn, Outcome, returned, thrown, fault, finish, check_type,
  ref_copy, ref_move, vec_emplace, unless_null, value, threw, undefined, ref_value, arrow, call,
}
use minapp.Object.Views.Typed.{Views, IsTyped, kept_type}
use minapp.Object.Views.Program.{
  ViewOp, plain, ptr_copies, ptr_moves, ref_copies, ref_moves, fn_copies, fn_moves, vec_copies,
  vec_moves, ref_copies_ptr, ref_moves_ptr, vec_emplaces, apply_view, NewView, MayView, ViewRuns,
  ViewRuns-Runs,
}
use minapp.Object.Views.Types.{ViewRuns-IsTyped}

-- From the start on, after any sequence of operations of `object`, `object::atomic`, `ptr`, `ref`,
-- `fn` and `vec` on the variables of a program, each as C++ allows it and none changing a view
-- through a reference to its base class: where a view asks for a type, either it is null,
-- `object_cast` finds no value, `operator->` of `ptr` and the call of `fn` throw, and only the
-- conversions of `ref`, which do not test for null, are undefined behaviour; or all of these reach
-- the value that it points to, which is of this type and which `object_cast` finds.
pub view_access :
    {n : ℕ} {view : Views} {m : Memory}
    → ViewRuns n view m
    → (i type : ℕ) → i < n
    → view i ≡ some type
    → ((m.var i ≡ none)
        × (arrow type i m ≡ threw bad_object_cast)
        × (call type i m ≡ threw object_not_fn)
        × (ref_value type i m ≡ undefined)
        × (object_cast type i m ≡ none))
      ⊎ ((a : ℕ) × (arrow type i m ≡ value a)
          × (call type i m ≡ value a)
          × (ref_value type i m ≡ value a)
          × (object_cast type i m ≡ some a))
unfolding IsTyped arrow call ref_value object_cast
view_access {n} {view} {m} r i type lt v = elim (Option-cases (m.var i)) [
  | inl x ↦ inl (x, ground (arith, x), ground (arith, x), ground (arith, x), ground (arith, x))
  | inr (a, x) ↦
      let (b, y, _) = held-allocated n i a m lt x (Runs-IsCounted (ViewRuns-Runs r) a) in
      let t = ViewRuns-IsTyped r i a type lt v x in
      inr (
        a,
        ground (arith, x, y, t),
        ground (arith, x, y, t),
        ground (arith, x, y, t),
        ground (arith, x, y, t),
      )
]

emplace_no_fault :
    (type i k : ℕ) (m : Memory) {m' m'' : Memory}
    → vec_emplace type i k m ≡ fault
    → destroy i m ≡ some m'
    → emplace i type m ≡ some m''
    → ⊥
unfolding vec_emplace
emplace_no_fault type i k m f e e' = ground (arith, f, e, e')

-- A constructor of a view: it returns exactly where the type is right.
check_no_fault :
    {n : ℕ} {m : Memory} (r : Runs n m) (p : Bool) (e : Exception) (type j : ℕ) (op : Op)
    → j < n
    → MayApply n m op
    → check_type p e type j m (apply op m) ≢ fault
unfolding check_type
check_no_fault {n} {m} r p e type j op lt may f =
    let (m', x) = Runs-apply r op may in
    elim (Option-cases (m.var j)) [
      | inl y ↦ ground (arith, f, x, y)
      | inr (a, y) ↦
          let (b, z, _) = held-allocated n j a m lt y (Runs-IsCounted r a) in
          ground (arith, f, x, y, z)
    ]

no_fault : (r : Option Memory) {m' : Memory} → r ≡ some m' → finish r ≢ fault
no_fault r e f = ground (arith, e, f)

not_null_no_fault :
    {n : ℕ} {m : Memory} (r : Runs n m) (j : ℕ) (op : Op)
    → MayApply n m op
    → unless_null j m (apply op m) ≢ fault
not_null_no_fault {n} {m} r j op may f =
    let (m', x) = Runs-apply r op may in
    elim (Option-cases (m.var j)) [
      | inl y ↦ ground (arith, f, x, y)
      | inr (a, y) ↦ ground (arith, f, x, y)
    ]

view_no_fault :
    {n : ℕ} (view : Views) {m : Memory} (s : Runs n m) (op : ViewOp)
    → MayView n view m op
    → apply_view op m ≢ fault
unfolding apply_view MayView apply MayApply
view_no_fault view s (plain op) may f = no_fault (apply op _) (Runs-apply s op may.0).1 f
view_no_fault view s (ptr_copies type i j) may f =
    check_no_fault s true bad_object_cast type j (assign i j) may.1 (may.0, may.1) f
view_no_fault view s (ptr_moves type i j) may f =
    check_no_fault s true bad_object_cast type j (exchange_vars i j) may.1 (may.0, may.1) f
view_no_fault view s (ref_copies type i j) may f =
    check_no_fault s false bad_object_cast type j (assign i j) may.1 (may.0, may.1) f
view_no_fault view s (ref_moves type i j) may f =
    check_no_fault s false bad_object_cast type j (exchange_vars i j) may.1 (may.0, may.1) f
view_no_fault view s (fn_copies type i j) may f =
    check_no_fault s true object_not_fn type j (assign i j) may.1 (may.0, may.1) f
view_no_fault view s (fn_moves type i j) may f =
    check_no_fault s true object_not_fn type j (assign_move i j) may.1 (may.0, may.1) f
view_no_fault view s (vec_copies type i j) may f =
    check_no_fault s true bad_object_cast type j (assign i j) may.1 (may.0, may.1) f
view_no_fault view s (vec_moves type i j) may f =
    check_no_fault s true bad_object_cast type j (exchange_vars i j) may.1 (may.0, may.1) f
view_no_fault view s (ref_copies_ptr i j) may f =
    not_null_no_fault s j (assign i j) (may.0, may.1) f
view_no_fault view s (ref_moves_ptr i j) may f =
    not_null_no_fault s j (exchange_vars i j) (may.0, may.1) f
view_no_fault view {m} s (vec_emplaces type i k) may f =
    emplace_no_fault type i k m f (Runs-apply s (drop i) may.0).1
      (Runs-apply s (replace i type) may.0).1

-- From the start on, after any sequence of operations of `object`, `object::atomic`, `ptr`, `ref`,
-- `fn` and `vec` on the variables of a program, each as C++ allows it and none changing a view
-- through a reference to its base class, the next such operation touches no block that has been
-- deleted: it returns or throws.
pub apply_view_safe :
    {n : ℕ} {view : Views} {m : Memory}
    → ViewRuns n view m
    → (op : ViewOp) → MayView n view m op
    → apply_view op m ≢ fault
apply_view_safe {view} r op may = view_no_fault view (ViewRuns-Runs r) op may

-- What a view is that has been made, by an operation `op`, of an object with a value of its type.
made_view :
    {n : ℕ} {m : Memory}
    → Runs n m
    → (op : Op) (i j a type : ℕ) {m' : Memory} → i < n
    → MayApply n m op
    → apply op m ≡ some m'
    → vars_after op m i ≡ some a
    → type_of (m.block a) ≡ some type
    → ref_value type i m' ≡ value a
unfolding ref_value
made_view {n} {m} s op i j a type {m'} lt may w v old =
    let e : m'.var i ≡ some a = ap (λ (g : ℕ → Handle). g i) (apply-vars_after m op w) ∙ v in
    let c' = Runs-IsCounted (next op s may w) in
    let (b', y', _) = held-allocated n i a m' lt e (c' a) in
    let t = kept_type n m op i a type (Runs-IsCounted s) c' w lt e old in ground (arith, e, y', t)

-- How the constructor of a `ref` ends that goes on with the operation `op`.
pub RefMade : Outcome → ℕ → ℕ → ℕ → Memory → Type 0
RefMade r type i j m =
    ((r ≡ thrown bad_object_cast) × (object_cast type j m ≡ none))
    ⊎ ((m' : Memory) × (a : ℕ) × (r ≡ returned m')
        × (object_cast type j m ≡ some a)
        × (ref_value type i m' ≡ value a))

ref_made :
    {n : ℕ} {view : Views} {m : Memory}
    → ViewRuns n view m
    → (op : Op) (type i j : ℕ) → NewView n view m type i j
    → MayApply n m op
    → ((a : ℕ) → m.var j ≡ some a → vars_after op m i ≡ some a)
    → RefMade (check_type false bad_object_cast type j m (apply op m)) type i j m
unfolding check_type object_cast RefMade
ref_made {n} {view} {m} r op type i j new may flows = elim (Option-cases (m.var j)) [
  | inl x ↦ inl (ground (arith, x), ground (arith, x))
  | inr (a, x) ↦
      let s = ViewRuns-Runs r in
      let (b, y, _) = held-allocated n j a m new.1 x (Runs-IsCounted s a) in
      elim (Bool-cases (b.type == type)) [
        | inr z ↦ inl (ground (arith, x, y, z), ground (arith, x, y, z))
        | inl z ↦
            let (m', w) = Runs-apply s op may in
            let old : type_of (m.block a) ≡ some type = ground (arith, y, z) in
            inr (
              m',
              a,
              ground (arith, x, y, z, w),
              ground (arith, x, y, z),
              made_view s op i j a type new.0 may w (flows a x) old,
            )
      ]
]

-- From the start on, after any sequence of operations on objects and views, each as C++ allows it
-- and none changing a view through a reference to its base class: the constructors of a new `ref`
-- from an object throw `bad_object_cast` where `object_cast` finds no value of its type, and
-- otherwise return a reference to the value that `object_cast` finds.
pub ref_lem :
    {n : ℕ} {view : Views} {m : Memory}
    → ViewRuns n view m
    → (type i j : ℕ) → NewView n view m type i j
    → RefMade (ref_copy type i j m) type i j m × RefMade (ref_move type i j m) type i j m
unfolding ref_copy ref_move apply MayApply vars_after
ref_lem {m} r type i j new = (
  ref_made r (assign i j) type i j new (new.0, new.1) (λ a x. ground (arith, x, new.2)),
  ref_made r (exchange_vars i j) type i j new (new.0, new.1) (λ a x. ground (arith, x)),
)
