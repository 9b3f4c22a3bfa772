-- ===== src/Object.antt =====
-- `class object` and `class object::atomic` of include/minapp/object.hpp: pointers to counted blocks,
-- a block being an `object::placeholder` with its value. The variables of a program that are
-- objects are numbered; a variable that is not constructed, or destroyed, is null. Each access to
-- a count is one step. The counts, of type `long`, are taken not to pass 2 ^ 63.
pub mod Counting
pub mod Steps
pub mod Program
pub mod Types
pub mod Casts
pub mod Lock
pub mod Flow
pub mod Views
pub mod Arrays
use minapp.Base.{ℕ, ◌+◌, ◌-◌, Bool, true, false, Option, none, some, ◌==◌, if◌then◌else◌, set_at}

-- `placeholder`; `type` is what `type()` returns.
pub record Block : Type 0 where
  pub refcount : ℕ
  pub type : ℕ

-- `object::handle`, null or the number of a block.
abbrev pub Handle : Type 0
Handle = Option ℕ

pub record Memory : Type 0 where
  -- the blocks that are allocated
  pub block : ℕ → Option Block
  -- the blocks from here on have not been allocated yet
  pub fresh : ℕ
  -- the pointers of the variables
  pub var : ℕ → Handle

abbrev pub start : Memory
start = record { block = λ a. none; fresh = 0; var = λ i. none }

abbrev pub same_handle : Handle → Handle → Bool
same_handle none none = true
same_handle none (some b) = false
same_handle (some a) none = false
same_handle (some a) (some b) = a == b

abbrev pub set_var : ℕ → Handle → Memory → Memory
set_var i h m = record m { var = set_at m.var i h }

-- `if (p) p->addref()`. None is the access to a block that is not allocated.
unfoldable pub addref : Handle → Memory → Option Memory
addref none m = some m
addref (some a) m = elim (m.block a) [
  | none ↦ none
  | some b ↦
      some (record m { block = set_at m.block a (some (record b { refcount = b.refcount + 1 })) })
]

-- `if (p && p->release() == 0) delete p`
unfoldable pub release : Handle → Memory → Option Memory
release none m = some m
release (some a) m = elim (m.block a) [
  | none ↦ none
  | some b ↦
      let left = b.refcount - 1 in
      some (record m {
        block = set_at m.block a (if left == 0 then none else some (record b { refcount = left }));
      })
]

-- `holder<T>::create`
unfoldable pub create : ℕ → Memory → Handle × Memory
create type m = (
  some m.fresh,
  record m {
    block = set_at m.block m.fresh (some (record { refcount = 1; type = type }));
    fresh = m.fresh + 1;
  },
)

-- The constructor `object(std::in_place_type_t<T>, ...)`.
unfoldable pub construct : ℕ → ℕ → Memory → Option Memory
unfolding create
construct i type m = let (q, m') = create type m in some (set_var i q m')

-- `object(const object& obj)`
unfoldable pub copy_construct : ℕ → ℕ → Memory → Option Memory
unfolding addref
copy_construct i j m = elim (addref (m.var j) m) [
  | none ↦ none
  | some m' ↦ some (set_var i (m.var j) m')
]

-- `object(object&& obj)`
unfoldable pub move_construct : ℕ → ℕ → Memory → Option Memory
move_construct i j m = some (set_var j none (set_var i (m.var j) m))

-- `~object()`
unfoldable pub destroy : ℕ → Memory → Option Memory
unfolding release
destroy i m = release (m.var i) (set_var i none m)

-- `operator=(const object& obj)`: the temporary holds the old pointer when it is destroyed.
unfoldable pub copy_assign : ℕ → ℕ → Memory → Option Memory
unfolding addref release
copy_assign i j m = if same_handle (m.var i) (m.var j) then some m else elim (addref (m.var j) m) [
  | none ↦ none
  | some m' ↦ release (m.var i) (set_var i (m.var j) m')
]

-- `operator=(object&& obj)`
unfoldable pub move_assign : ℕ → ℕ → Memory → Option Memory
unfolding release
move_assign i j m =
    if same_handle (m.var i) (m.var j)
    then some m
    else release (m.var i) (set_var i (m.var j) (set_var j none m))

unfoldable pub swap : ℕ → ℕ → Memory → Option Memory
swap i j m = some (set_var i (m.var j) (set_var j (m.var i) m))

-- `emplace`
unfoldable pub emplace : ℕ → ℕ → Memory → Option Memory
unfolding create release
emplace i type m = let (q, m') = create type m in release (m.var i) (set_var i q m')

-- `object::atomic`, whose storage is the variable `s`: what each operation does between the lock
-- and the unlock, and with its arguments and its result. `load` into the new variable `i`:
unfoldable pub load : ℕ → ℕ → Memory → Option Memory
unfolding copy_construct
load i s m = copy_construct i s m

-- `exchange` with the argument `d` and the result in the new variable `i`.
unfoldable pub exchange : ℕ → ℕ → ℕ → Memory → Option Memory
exchange i s d m = some (set_var i (m.var s) (set_var s (m.var d) (set_var d none m)))

-- `store` with the argument `d`: the old object is destroyed.
unfoldable pub store : ℕ → ℕ → Memory → Option Memory
unfolding release
store s d m = release (m.var s) (set_var s (m.var d) (set_var d none m))

-- `compare_exchange_strong` with `expected` and the argument `d`, which is destroyed at the end
-- unless its pointer has been stored.
unfoldable pub compare_exchange : ℕ → ℕ → ℕ → Memory → Option Memory
unfolding addref release
compare_exchange s expected d m =
    if same_handle (m.var s) (m.var expected)
    then release (m.var s) (set_var s (m.var d) (set_var d none m))
    else elim (addref (m.var s) m) [
      | none ↦ none
      | some m' ↦ elim (release (m.var expected) (set_var expected (m.var s) m')) [
        | none ↦ none
        | some m'' ↦ release (m.var d) (set_var d none m'')
      ]
    ]
