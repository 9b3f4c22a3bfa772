-- ===== src/Tests/Atomics.antt =====
-- Two threads that share an atomic object: the first loads it, the second exchanges it.
use minapp.Base.{ℕ, ◌/◌, ◌<◌, ◌≡◌, ◌⊎◌, refl, some, arith}
use minapp.Object.Lock.{
  load, exchange, enter, lock, mark, sleep, prepare, unlock, System, pick, notify_all, Reach, start,
  later,
}
use minapp.Object.Lock.Invariant.{replay, holds, notifies}
use minapp.Object.Lock.Safety.{mutual_exclusion, accesses_linearize, sleeper_is_woken}

-- Thread 0 is in the lock, thread 1 is asleep.
contended : (s : System) × Reach 2 5 s
contended = (
  _,
  later
      (later
        (later
          (later (later start (pick 0 (omega arith) (enter load)))
            (pick 0 (omega arith) (lock refl refl)))
          (pick 1 (omega arith) (enter (exchange 7))))
        (pick 1 (omega arith) (mark refl refl)))
      (pick 1 (omega arith) (sleep refl)),
)

released : (s : System) × Reach 2 5 s
unfolding contended
released = (
  _,
  later (later (later contended.1 (pick 0 (omega arith) prepare)) (pick 0 (omega arith) unlock))
      (notify_all 0 (omega arith) refl),
)

mutual_exclusion_example : ◌≡◌ {A = ℕ} 0 0
unfolding contended
mutual_exclusion_example = mutual_exclusion contended.1 0 0 (omega arith) (omega arith) refl refl

sleeper_is_woken_example :
    (j : ℕ) × (j < 2) × ((0 < holds (contended.0.pc j)) ⊎ (0 < notifies (contended.0.pc j)))
unfolding contended
sleeper_is_woken_example = sleeper_is_woken contended.1 1 22 (exchange 7) (omega arith) refl

accesses_linearize_example : replay 5 released.0.shared.log ≡ some (released.0.shared.storage / 4)
accesses_linearize_example = accesses_linearize released.1
