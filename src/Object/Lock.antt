-- ===== src/Object/Lock.antt =====
-- `lock_and_load`, `store_and_unlock`, `try_lock` and `unlock` of `object::atomic`
-- (include/minapp/object.hpp), with `std::atomic::wait`: threads that share one storage, one access
-- to it at a time, in any order that is sequentially consistent. A handle is a multiple of 4; it
-- is given by its quotient, so that the two low bits of the storage are the remainder by 4. `set` is
-- left out: it writes the handle in the storage whoever has the lock.
pub mod Invariant
pub mod Moves
pub mod Safety
use minapp.Base.{
  ℕ, ◌+◌, ◌*◌, ◌/◌, ◌%◌, ◌≤◌, ◌<◌, ◌≡◌, ◌≢◌, Bool, true, false, Option, none, some, List, [], ◌∷◌,
  ◌==◌, if◌then◌else◌, set_at,
}

-- What a thread does with the handle that `lock_and_load` has returned: `load`, `exchange`,
-- `compare_exchange_strong`, or `lock` and `unlock`.
pub data Access : Type 0 where
  load : Access
  exchange : (desired : ℕ) → Access
  compare : (expected desired : ℕ) → Access
  guard : Access

-- The handle that it stores, from the one loaded.
abbrev pub new_value : Access → ℕ → ℕ
new_value load p = p
new_value (exchange desired) p = desired
new_value (compare expected desired) p = if p == expected then desired else p
new_value guard p = p

-- The storage, and the accesses that are complete with the handles that they loaded, latest first.
pub record Shared : Type 0 where
  pub storage : ℕ
  pub log : List (Access × ℕ)

-- Where a thread stands, with its local variables.
pub data Pc : Type 0 where
  idle : Pc
  switching : (v : ℕ) (op : Access) → Pc  -- head of the loop
  waiting : (v : ℕ) (op : Access) → Pc  -- before `storage.wait(v)`
  asleep : (v : ℕ) (op : Access) → Pc  -- in it
  reloading : (op : Access) → Pc  -- after it
  trying : (v : ℕ) → Pc  -- before the exchange of `try_lock`
  holding : (p : ℕ) (op : Access) → Pc  -- after `lock_and_load`
  storing : (p h : ℕ) (op : Access) → Pc  -- start of `store_and_unlock`
  notifying : Pc  -- before `notify_all`
  terminated : Pc

-- `unlock` reads the storage again.
abbrev pub stored : Access → ℕ → ℕ → ℕ
stored guard p word = word / 4
stored op p word = new_value op p

-- `store_and_unlock` after its exchange of the storage
abbrev pub after_store : ℕ → Pc
after_store v = if v % 4 == 2 then notifying else idle

-- One access of one thread to the storage. A weak compare and exchange may fail without reason, a
-- wait may end without one.
pub data Move (m : Shared) : Pc → Shared → Pc → Type 0 where
  enter : (op : Access) → Move m idle m (switching m.storage op)
  lock :
      {v : ℕ} {op : Access}
      → v % 4 ≡ 0
      → m.storage ≡ v
      → Move m (switching v op) (record m { storage = v + 1 }) (holding (v / 4) op)
  mark :
      {v : ℕ} {op : Access}
      → v % 4 ≡ 1
      → m.storage ≡ v
      → Move m
          (switching v op)
          (record m { storage = 4 * (v / 4) + 2 })
          (waiting (4 * (v / 4) + 2) op)
  fail : {v : ℕ} {op : Access} → v % 4 ≤ 1 → Move m (switching v op) m (switching m.storage op)
  marked : {v : ℕ} {op : Access} → v % 4 ≡ 2 → Move m (switching v op) m (waiting v op)
  terminate : {v : ℕ} {op : Access} → v % 4 ≡ 3 → Move m (switching v op) m terminated
  sleep : {v : ℕ} {op : Access} → m.storage ≡ v → Move m (waiting v op) m (asleep v op)
  pass : {v : ℕ} {op : Access} → m.storage ≢ v → Move m (waiting v op) m (reloading op)
  stir : {v : ℕ} {op : Access} → Move m (asleep v op) m (waiting v op)
  reload : {op : Access} → Move m (reloading op) m (switching m.storage op)
  try_enter : Move m idle m (trying (4 * (m.storage / 4)))
  try_lock :
      {v : ℕ}
      → m.storage ≡ v
      → v % 4 ≡ 0
      → Move m (trying v) (record m { storage = v + 1 }) (holding (v / 4) guard)
  try_fail : {v : ℕ} → Move m (trying v) m idle
  prepare : {p : ℕ} {op : Access} → Move m (holding p op) m (storing p (stored op p m.storage) op)
  unlock :
      {p h : ℕ} {op : Access}
      → Move m
          (storing p h op)
          (record m { storage = 4 * h; log = (op, p) ∷ m.log })
          (after_store m.storage)

-- `notify_all` wakes who is asleep.
abbrev pub wake : Pc → Pc
wake (asleep v op) = waiting v op
wake p = p

pub record System : Type 0 where
  pub shared : Shared
  pub pc : ℕ → Pc

pub data Step (n : ℕ) (s : System) : System → Type 0 where
  pick :
      (i : ℕ) {m : Shared} {p : Pc}
      → i < n
      → Move s.shared (s.pc i) m p
      → Step n s (record { shared = m; pc = set_at s.pc i p })
  notify_all :
      (i : ℕ)
      → i < n
      → s.pc i ≡ notifying
      → Step n s (record s { pc = λ j. wake (set_at s.pc i idle j) })

-- `atomic(object obj)`, with the handle of `obj`
abbrev pub init : ℕ → System
init h = record { shared = record { storage = 4 * h; log = [] }; pc = λ i. idle }

pub data Reach (n h : ℕ) : System → Type 0 where
  start : Reach n h (init h)
  later : {s t : System} → Reach n h s → Step n s t → Reach n h t
