-- ===== src/Object/Lock/Safety.antt =====
-- What holds whenever threads share an `object::atomic`.
use minapp.Base.{
  ℕ, ◌/◌, ◌<◌, ◌≡◌, ◌≢◌, ap, ◌⊎◌, inl, inr, some, arith, le-sum_below, sum_below-positive,
  sum_below_unique,
}
use minapp.Object.Lock.{Access, asleep, terminated, System, Reach}
use minapp.Object.Lock.Moves.{Reach-Inv}
use minapp.Object.Lock.Invariant.{replay, holds, sleeps, notifies, misled}

module _ {n h : ℕ} {s : System} (r : Reach n h s) where
  -- In every state that threads sharing an `object::atomic` come to, however their accesses to the
  -- storage are interleaved, two of them are never both between `lock_and_load` and
  -- `store_and_unlock`.
  pub mutual_exclusion : (i j : ℕ) → i < n → j < n → holds (s.pc i) ≡ 1 → holds (s.pc j) ≡ 1 → i ≡ j
  mutual_exclusion i j lt lt' a b =
      let owned = (Reach-Inv r).owned in
      sum_below_unique holds n s.pc i j (ground (arith, owned)) lt lt' (omega (arith, a))
        (omega (arith, b))

  -- In every state that threads sharing an `object::atomic` come to by `load`, `exchange`,
  -- `store`, `compare_exchange`, `lock`, `try_lock` and `unlock`, none of them calling `set`, the
  -- accesses that are complete, in the order of their stores, are a run of an atomic object from
  -- the first handle: each has loaded what the one before it has left, and the handle in the
  -- storage is what the last one has left.
  pub accesses_linearize : replay h s.shared.log ≡ some (s.shared.storage / 4)
  accesses_linearize = (Reach-Inv r).legal

  -- In every state that threads sharing an `object::atomic` come to, while one of them is asleep
  -- in `wait`, some thread has the lock or is about to call `notify_all`.
  pub sleeper_is_woken :
      (i v : ℕ) (op : Access)
      → i < n
      → s.pc i ≡ asleep v op
      → (j : ℕ) × (j < n) × ((0 < holds (s.pc j)) ⊎ (0 < notifies (s.pc j)))
  sleeper_is_woken i v op lt e =
      let inv = Reach-Inv r in
      elim inv.told [
        | inl quiet ↦ absurd (omega (arith, quiet, le-sum_below sleeps n s.pc i lt, ap sleeps e))
        | inr (inl marked) ↦
            let (j, lt', p) = sum_below-positive holds n s.pc (ground (arith, inv.owned, marked)) in
            (j, lt', inl p)
        | inr (inr notified) ↦
            let (j, lt', p) = sum_below-positive notifies n s.pc notified in (j, lt', inr p)
      ]

  pub never_terminates : (i : ℕ) → i < n → s.pc i ≢ terminated
  never_terminates i lt e =
      let calm = (Reach-Inv r).calm in
      omega (arith, calm, le-sum_below misled n s.pc i lt, ap misled e)
