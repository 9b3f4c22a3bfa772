-- ===== src/Object/Types.antt =====
-- `object_cast`, and the types of the blocks while a program runs.
use minapp.Base.{
  ℕ, ◌≤◌, ◌<◌, ◌≡◌, refl, ap, subst, ◌∙◌, ◌⊎◌, inl, inr, Option, none, some, ◌==◌, if◌then◌else◌,
  arith, Option-cases, Bool-cases,
}
use minapp.Object.{
  Block, Handle, Memory, addref, release, create, set_var, same_handle, construct, copy_construct,
  move_construct, destroy, copy_assign, move_assign, swap, emplace, load, exchange, store,
  compare_exchange,
}
use minapp.Object.Counting.{held-allocated}
use minapp.Object.Program.{
  Runs-IsCounted, Op, apply, make, copy, move, drop, assign, assign_move, exchange_vars, replace,
  atomic_load, atomic_exchange, atomic_store, atomic_compare, Runs, MayApply, next,
}

-- `object_cast`: the block whose value it points to, if the type is the one asked for.
unfoldable pub object_cast : ℕ → ℕ → Memory → Option ℕ
object_cast type i m = elim (m.var i) [
  | none ↦ none
  | some a ↦ elim (m.block a) [ none ↦ none | some b ↦ if b.type == type then some a else none ]
]

abbrev pub type_of : Option Block → Option ℕ
type_of none = none
type_of (some b) = some b.type

-- The blocks that may be there in `m` are of the same type in `m'`, or deleted.
pub record Keeps (m m' : Memory) : Type 0 where
  pub grows : m.fresh ≤ m'.fresh
  pub same :
      (c : ℕ)
      → c < m.fresh
      → (type_of (m'.block c) ≡ none) ⊎ (type_of (m'.block c) ≡ type_of (m.block c))

abbrev pub KeepsIn : Memory → Option Memory → Type 0
KeepsIn m none = Unit
KeepsIn m (some m') = Keeps m m'

pub Keeps-refl : (m : Memory) → Keeps m m
Keeps-refl m = record { grows = omega arith; same = λ c lt. inr refl }

Keeps-trans : {m m' m'' : Memory} → Keeps m m' → Keeps m' m'' → Keeps m m''
Keeps-trans {m} {m'} {m''} k l = record {
  grows = omega (arith, k.grows, l.grows);
  same = λ c lt. elim (l.same c (omega (arith, lt, k.grows))) [
    | inl gone ↦ inl gone
    | inr e ↦ elim (k.same c lt) [ inl gone ↦ inl (e ∙ gone) | inr f ↦ inr (e ∙ f) ]
  ];
}

addref_types : (h : Handle) (m : Memory) → KeepsIn m (addref h m)
unfolding addref
addref_types none m = Keeps-refl m
addref_types (some a) m = elim (Option-cases (m.block a)) [
  | inl x ↦ rw (x, addref) tt
  | inr (b, x) ↦ rw (x, addref) (record { grows = omega arith; same = λ c lt. ground (arith, x) })
]

release_types : (h : Handle) (m : Memory) → KeepsIn m (release h m)
unfolding release
release_types none m = Keeps-refl m
release_types (some a) m = elim (Option-cases (m.block a)) [
  | inl x ↦ rw (x, release) tt
  | inr (b, x) ↦ rw (x, release) (record { grows = omega arith; same = λ c lt. ground (arith, x) })
]

create_types : (type : ℕ) (m : Memory) → Keeps m (create type m).1
unfolding create
create_types type m = record { grows = omega arith; same = λ c lt. ground arith }

KeepsIn-trans : {m m' : Memory} (r : Option Memory) → Keeps m m' → KeepsIn m' r → KeepsIn m r
KeepsIn-trans none k l = tt
KeepsIn-trans (some m'') k l = Keeps-trans k l

-- What follows a step.
pub after : {m m' : Memory} {r : Option Memory} → KeepsIn m r → r ≡ some m' → Keeps m m'
after {m} {m'} {r} k e = subst (λ (o : Option Memory). KeepsIn m o) e k

pub put_types : {m m' : Memory} (i : ℕ) (h : Handle) → Keeps m m' → Keeps m (set_var i h m')
put_types i h k = record { grows = k.grows; same = k.same }

-- A release at the end.
pub then_release : (h : Handle) {m m' : Memory} → Keeps m m' → KeepsIn m (release h m')
then_release h {m} {m'} k = KeepsIn-trans (release h m') k (release_types h m')

counted_types : (h : Handle) {m m' : Memory} → addref h m ≡ some m' → Keeps m m'
counted_types h {m} e = after (addref_types h m) e

module _ (m : Memory) where
  put : (i : ℕ) (h : Handle) → Keeps m (set_var i h m)
  put i h = put_types i h (Keeps-refl m)

  copy_types : (i j : ℕ) → KeepsIn m (copy_construct i j m)
  unfolding copy_construct
  copy_types i j = elim (Option-cases (addref (m.var j) m)) [
    | inl e ↦ rw (e, copy_construct) tt
    | inr (m', e) ↦ rw (e, copy_construct) (put_types i (m.var j) (counted_types (m.var j) e))
  ]

  store_types : (s d : ℕ) → KeepsIn m (store s d m)
  unfolding store
  store_types s d = then_release (m.var s) (put_types s (m.var d) (put d none))

  copy_assign_types : (i j : ℕ) → KeepsIn m (copy_assign i j m)
  unfolding copy_assign
  copy_assign_types i j = elim (Bool-cases (same_handle (m.var i) (m.var j))) [
    | inl e ↦ rw (e, copy_assign) (Keeps-refl m)
    | inr e ↦ elim (Option-cases (addref (m.var j) m)) [
      | inl f ↦ rw (e, copy_assign, f) tt
      | inr (m', f) ↦
          rw (e, copy_assign, f)
            (then_release (m.var i) (put_types i (m.var j) (counted_types (m.var j) f)))
    ]
  ]

  move_assign_types : (i j : ℕ) → KeepsIn m (move_assign i j m)
  unfolding move_assign
  move_assign_types i j = elim (Bool-cases (same_handle (m.var i) (m.var j))) [
    | inl e ↦ rw (e, move_assign) (Keeps-refl m)
    | inr e ↦ rw (e, move_assign) (then_release (m.var i) (put_types i (m.var j) (put j none)))
  ]

  compare_types : (s expected d : ℕ) → KeepsIn m (compare_exchange s expected d m)
  unfolding compare_exchange
  compare_types s expected d = elim (Bool-cases (same_handle (m.var s) (m.var expected))) [
    | inl e ↦ rw (e, compare_exchange) (then_release (m.var s) (put_types s (m.var d) (put d none)))
    | inr e ↦ elim (Option-cases (addref (m.var s) m)) [
      | inl f ↦ rw (e, compare_exchange, f) tt
      | inr (m', f) ↦
          elim (Option-cases (release (m.var expected) (set_var expected (m.var s) m'))) [
            | inl g ↦ rw (e, compare_exchange, f, g) tt
            | inr (m'', g) ↦
                rw (e, compare_exchange, f, g)
                  (then_release (m.var d) (
                    put_types d none (
                      after
                        (then_release (m.var expected)
                          (put_types expected (m.var s) (counted_types (m.var s) f)))
                        g)))
          ]
    ]
  ]

  pub apply_types : (op : Op) → KeepsIn m (apply op m)
  unfolding apply construct create move_construct destroy swap emplace load exchange store
  apply_types (make i type) = put_types i _ (create_types type m)
  apply_types (copy i j) = copy_types i j
  apply_types (move i j) = put_types j none (put i (m.var j))
  apply_types (drop i) = then_release (m.var i) (put i none)
  apply_types (assign i j) = copy_assign_types i j
  apply_types (assign_move i j) = move_assign_types i j
  apply_types (exchange_vars i j) = put_types i (m.var j) (put j (m.var i))
  apply_types (replace i type) = then_release (m.var i) (put_types i _ (create_types type m))
  apply_types (atomic_load i s) = copy_types i s
  apply_types (atomic_exchange i s d) = put_types i (m.var s) (put_types s (m.var d) (put d none))
  apply_types (atomic_store s d) = store_types s d
  apply_types (atomic_compare s x d) = compare_types s x d

cast_lem :
    (type i a : ℕ) (m : Memory) (b : Block)
    → m.var i ≡ some a
    → m.block a ≡ some b
    → object_cast type i m ≡ (if b.type == type then some a else none)
unfolding object_cast
cast_lem type i a m b e f = rw (object_cast, e, f) refl

-- From the start on, after any sequence of operations of `object` and `object::atomic` on the
-- variables of a program, each as C++ allows it, and after one more: where a variable pointed to a
-- block before the last operation and a variable points to the same block after it, there is one
-- type for which `object_cast` finds the value of the block, by the one before as by the other
-- after, and for every other type both find none. A block is the one that its creation made: a new
-- block at the address of a deleted one is another.
pub object_cast_stable :
    {n : ℕ} {m m' : Memory} (r : Runs n m) (op : Op)
    → MayApply n m op
    → apply op m ≡ some m'
    → (i j a : ℕ) → i < n
    → j < n
    → m.var i ≡ some a
    → m'.var j ≡ some a
    → (held : ℕ) × ((type : ℕ)
        → (object_cast type i m ≡ (if held == type then some a else none))
          × (object_cast type j m' ≡ (if held == type then some a else none)))
object_cast_stable {n} {m} {m'} r op may e i j a lt lt' f f' =
    let v = Runs-IsCounted r a in
    let (b, x, _) = held-allocated n i a m lt f v in
    let (b', x', _) = held-allocated n j a m' lt' f' (Runs-IsCounted (next op r may e) a) in
    let k = after (apply_types m op) e in
    let old : a < m.fresh = ground (arith, v.unused, x) in
    let same : b'.type ≡ b.type = elim (k.same a old) [
      | inl gone ↦ ground (arith, gone, x')
      | inr t ↦ ground (arith, t, x, x')
    ] in
    (
      b.type,
      λ type. (
        cast_lem type i a m b f x,
        cast_lem type j a m' b' f' x' ∙ ap (λ t. if t == type then some a else none) same,
      ),
    )
