-- ===== src/Object/Program.antt =====
-- Programs that use `object` and `object::atomic`: sequences of their operations on the variables.
-- `release()` and the constructor from a handle are left out.
use minapp.Base.{
  ℕ, ◌<◌, ◌≡◌, ◌≢◌, refl, sym, ap, subst, ◌∙◌, Option, none, some, leb, arith, sum_below,
  sum_below-eq_zero, Option-cases,
}
use minapp.Object.{
  Memory, construct, copy_construct, move_construct, destroy, copy_assign, move_assign, swap,
  emplace, load, exchange, store, compare_exchange, start,
}
use minapp.Object.Counting.{points_to, count_of, is_allocated, IsCounted}
use minapp.Object.Steps.{
  Kept, construct_kept, copy_kept, move_kept, destroy_kept, emplace_kept, store_kept, exchange_kept,
  swap_kept, copy_assign_kept, compare_kept, move_assign_kept,
}

-- An operation and the variables it is on.
pub data Op : Type 0 where
  make : (i type : ℕ) → Op
  copy : (i j : ℕ) → Op
  move : (i j : ℕ) → Op
  drop : (i : ℕ) → Op
  assign : (i j : ℕ) → Op
  assign_move : (i j : ℕ) → Op
  exchange_vars : (i j : ℕ) → Op
  replace : (i type : ℕ) → Op
  atomic_load : (i s : ℕ) → Op
  atomic_exchange : (i s d : ℕ) → Op
  atomic_store : (s d : ℕ) → Op
  atomic_compare : (s expected d : ℕ) → Op

unfoldable pub apply : Op → Memory → Option Memory
unfolding construct copy_construct move_construct destroy copy_assign move_assign swap emplace load
    exchange store compare_exchange
apply (make i type) m = construct i type m
apply (copy i j) m = copy_construct i j m
apply (move i j) m = move_construct i j m
apply (drop i) m = destroy i m
apply (assign i j) m = copy_assign i j m
apply (assign_move i j) m = move_assign i j m
apply (exchange_vars i j) m = swap i j m
apply (replace i type) m = emplace i type m
apply (atomic_load i s) m = load i s m
apply (atomic_exchange i s d) m = exchange i s d m
apply (atomic_store s d) m = store s d m
apply (atomic_compare s expected d) m = compare_exchange s expected d m

-- What C++ asks of the variables: they exist, a constructor is called on one that has not been
-- constructed or is null, and an argument that is passed by value is a variable of its own.
unfoldable pub MayApply : ℕ → Memory → Op → Type 0
MayApply n m (make i type) = (i < n) × (m.var i ≡ none)
MayApply n m (copy i j) = (i < n) × (j < n) × (m.var i ≡ none)
MayApply n m (move i j) = (i < n) × (j < n) × (m.var i ≡ none)
MayApply n m (drop i) = i < n
MayApply n m (assign i j) = (i < n) × (j < n)
MayApply n m (assign_move i j) = (i < n) × (j < n)
MayApply n m (exchange_vars i j) = (i < n) × (j < n)
MayApply n m (replace i type) = i < n
MayApply n m (atomic_load i s) = (i < n) × (s < n) × (m.var i ≡ none)
MayApply n m (atomic_exchange i s d) =
    (i < n) × (s < n) × (d < n) × (s ≢ d) × (i ≢ s) × (m.var i ≡ none)
MayApply n m (atomic_store s d) = (s < n) × (d < n) × (s ≢ d)
MayApply n m (atomic_compare s expected d) =
    (s < n) × (expected < n) × (d < n) × (s ≢ d) × (s ≢ expected) × (expected ≢ d)

-- Every operation.
pub apply-IsCounted :
    (n : ℕ) (m : Memory) (op : Op)
    → ((a : ℕ) → IsCounted n none m a)
    → MayApply n m op
    → Kept n (apply op m)
unfolding apply MayApply
apply-IsCounted n m (make i type) v (lt, e) = construct_kept n m v i type lt e
apply-IsCounted n m (copy i j) v (lt, lt', e) = copy_kept n m v i j lt lt' e
apply-IsCounted n m (move i j) v (lt, lt', e) = move_kept n m v i j lt lt' e
apply-IsCounted n m (drop i) v lt = destroy_kept n m v i lt
apply-IsCounted n m (assign i j) v (lt, lt') = copy_assign_kept n m v i j lt lt'
apply-IsCounted n m (assign_move i j) v (lt, lt') = move_assign_kept n m v i j lt lt'
apply-IsCounted n m (exchange_vars i j) v (lt, lt') = swap_kept n m v i j lt lt'
apply-IsCounted n m (replace i type) v lt = emplace_kept n m v i type lt
apply-IsCounted n m (atomic_load i s) v (lt, lt', e) = copy_kept n m v i s lt lt' e
apply-IsCounted n m (atomic_exchange i s d) v (lt, lt', lt'', ne, ne', e) =
    exchange_kept n m v i s d lt lt' lt'' ne ne' e
apply-IsCounted n m (atomic_store s d) v (lt, lt', ne) = store_kept n m v s d lt lt' ne
apply-IsCounted n m (atomic_compare s x d) v (lt, lt', lt'', ne, ne', ne'') =
    compare_kept n m v s x d lt lt' lt'' ne ne' ne''

-- The memories that a program with `n` variables comes to.
pub data Runs (n : ℕ) : Memory → Type 0 where
  begin : Runs n start
  next : {m m' : Memory} (op : Op) → Runs n m → MayApply n m op → apply op m ≡ some m' → Runs n m'

some_injective : {m m' : Memory} → ◌≡◌ {A = Option Memory} (some m) (some m') → m ≡ m'
some_injective {m} e = ap (λ (o : Option Memory). elim o [ none ↦ m | some x ↦ x ]) e

pub Runs-IsCounted : {n : ℕ} {m : Memory} → Runs n m → (a : ℕ) → IsCounted n none m a
Runs-IsCounted {n} begin a = record {
  counted = omega (arith, sum_below-eq_zero (points_to a) n (λ i. none) (λ i. refl));
  owned = refl;
  unused = refl;
}
Runs-IsCounted {n} (next {m} op r may e) a =
    let k = apply-IsCounted n m op (Runs-IsCounted r) may in
    subst (λ (x : Memory). IsCounted n none x a) (some_injective (sym k.result ∙ e)) (k.kept a)

-- From the start on, after any sequence of operations of `object` and `object::atomic` on the
-- variables of a program, each as C++ allows it, the next one of them that C++ allows touches no
-- block that has been deleted.
pub Runs-apply :
    {n : ℕ} {m : Memory}
    → Runs n m
    → (op : Op) → MayApply n m op
    → (m' : Memory) × (apply op m ≡ some m')
Runs-apply {n} {m} r op may =
    let k = apply-IsCounted n m op (Runs-IsCounted r) may in (k.memory, k.result)

-- From the start on, after any sequence of the constructors, the destructor, the assignments,
-- `swap` and `emplace` of `object` and the accesses of `object::atomic`, on the variables of a
-- program and each as C++ allows it, but without `release()` and the constructor from a handle, by
-- which a program takes over a count itself: the count of every block is the number of variables
-- that point to it, and exactly the blocks that a variable points to are allocated: none leaks.
pub Runs-count_of :
    {n : ℕ} {m : Memory}
    → Runs n m
    → (a : ℕ)
    → (count_of (m.block a) ≡ sum_below (points_to a) n m.var)
      × (is_allocated (m.block a) ≡ leb 1 (sum_below (points_to a) n m.var))
Runs-count_of {n} {m} r a =
    let c = Runs-IsCounted r a in
    (omega (arith, c.counted), ground (arith, c.counted, c.owned, Option-cases (m.block a)))
