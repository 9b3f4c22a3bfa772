-- ===== src/Object/Counting.antt =====
-- The count of a block is the number of variables that point to it.
use minapp.Base.{
  ℕ, ◌+◌, ◌<◌, ◌≡◌, Bool, true, false, ◌&&◌, Option, none, some, leb, ◌==◌, if◌then◌else◌, arith,
  sum_below, sum_below-set_at, le-sum_below, Option-cases, inl, inr,
}
use minapp.Object.{Block, Handle, Memory, set_var}

abbrev pub points_to : ℕ → Handle → ℕ
points_to a none = 0
points_to a (some b) = if a == b then 1 else 0

-- The count of a block, 0 if it is not allocated.
abbrev pub count_of : Option Block → ℕ
count_of none = 0
count_of (some b) = b.refcount

abbrev pub is_allocated : Option Block → Bool
is_allocated none = false
is_allocated (some b) = true

-- With `n` variables and one more pointer in hand, at the block `a`: the count is the number of
-- pointers, an allocated block has one, and no block is allocated that `create` would use.
pub record IsCounted (n : ℕ) (hand : Handle) (m : Memory) (a : ℕ) : Type 0 where
  pub counted : points_to a hand + sum_below (points_to a) n m.var ≡ count_of (m.block a)
  pub owned : (is_allocated (m.block a) && count_of (m.block a) == 0) ≡ false
  pub unused : (is_allocated (m.block a) && leb m.fresh a) ≡ false

module _ (n : ℕ) where
  -- A variable that takes over the pointer in hand, and gives its own.
  pub set_var-IsCounted :
      (i : ℕ) (h : Handle) (m : Memory) (a : ℕ)
      → i < n
      → IsCounted n h m a
      → IsCounted n (m.var i) (set_var i h m) a
  set_var-IsCounted i h m a lt v = record {
    counted = omega (arith, sum_below-set_at (points_to a) n m.var i h lt, v.counted);
    owned = v.owned;
    unused = v.unused;
  }

  -- A pointer that is held somewhere points to an allocated block.
  pub held-allocated :
      (i a : ℕ) (m : Memory)
      → i < n
      → m.var i ≡ some a
      → IsCounted n none m a
      → (b : Block) × (m.block a ≡ some b) × (0 < b.refcount)
  held-allocated i a m lt e v =
      let one = le-sum_below (points_to a) n m.var i lt in
      elim (Option-cases (m.block a)) [
        | inl x ↦ absurd (ground (arith, v.counted, x, one, e))
        | inr (b, x) ↦ (b, x, ground (arith, v.counted, x, one, e))
      ]
