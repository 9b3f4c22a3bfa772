-- ===== src/Spinlock.antt =====
-- `spinlock` (include/minapp/spinlock.hpp) with `std::atomic_flag::wait`: threads that share one
-- guard, one access to it at a time, in any order that is sequentially consistent.
pub mod Safety
use minapp.Base.{ℕ, ◌+◌, ◌≤◌, ◌<◌, ◌≡◌, Bool, true, false, set_at, sum_below}

-- Where a thread stands.
pub data Pc : Type 0 where
  outside : Pc
  trying : Pc  -- head of the loop in `lock`
  waiting : Pc  -- before `guard_.wait(true)`
  asleep : Pc  -- in it
  inside : Pc  -- has the lock
  notifying : Pc  -- before `notify_one` in `unlock`

-- One access of one thread to the guard. A wait may end without reason.
pub data Move (guard : Bool) : Pc → Bool → Pc → Type 0 where
  enter : Move guard outside guard trying
  take : guard ≡ false → Move guard trying true inside
  refuse : guard ≡ true → Move guard trying true waiting
  sleep : guard ≡ true → Move guard waiting guard asleep
  pass : guard ≡ false → Move guard waiting guard trying
  stir : Move guard asleep guard waiting
  try_take : guard ≡ false → Move guard outside true inside
  try_refuse : guard ≡ true → Move guard outside true outside
  clear : Move guard inside false notifying

pub record System : Type 0 where
  pub guard : Bool
  pub pc : ℕ → Pc

abbrev pub is_asleep : Pc → ℕ
is_asleep asleep = 1
is_asleep p = 0

-- `notify_one` wakes one of those that are asleep, if there are any.
pub data Step (n : ℕ) (s : System) : System → Type 0 where
  pick :
      (i : ℕ) {g : Bool} {p : Pc}
      → i < n
      → Move s.guard (s.pc i) g p
      → Step n s (record { guard = g; pc = set_at s.pc i p })
  notify_one :
      (i j : ℕ)
      → i < n
      → j < n
      → s.pc i ≡ notifying
      → s.pc j ≡ asleep
      → Step n s (record s { pc = set_at (set_at s.pc i outside) j waiting })
  notify_none :
      (i : ℕ)
      → i < n
      → s.pc i ≡ notifying
      → sum_below is_asleep n s.pc ≡ 0
      → Step n s (record s { pc = set_at s.pc i outside })

pub data Reach (n : ℕ) : System → Type 0 where
  start : Reach n (record { guard = false; pc = λ i. outside })
  later : {s t : System} → Reach n s → Step n s t → Reach n t
