-- ===== src/Base/Indexed.antt =====
-- Functions of an index, such as the threads of a program or its variables: a change at one index
-- and a weight summed up over the indices below a bound.
use Prim.Native.Nat.{ℕ, zero, suc, ◌+◌, ◌≤◌, ◌<◌}
use mathlib.Core.Path.{◌≡◌, refl, sym, ◌∙◌}
use mathlib.Core.Logic.{◌⊎◌, inl, inr}
use native.Mathlib.Omega.{arith}
use minapp.Base.Tests.{◌==◌, if◌then◌else◌}

abbrev pub set_at {ℓ} : {A : Type ℓ} → (ℕ → A) → ℕ → A → ℕ → A
set_at f i a j = if i == j then a else f j

le_split : (i n : ℕ) → i < suc n → (i < n) ⊎ (i ≡ n)
le_split i n h = ground arith

pub zero_or_positive : (n : ℕ) → (n ≡ 0) ⊎ (0 < n)
zero_or_positive n = ground arith

module _ {ℓ} {A : Type ℓ} where
  pub sum_below : (A → ℕ) → ℕ → (ℕ → A) → ℕ
  sum_below w zero f = 0
  sum_below w (suc n) f = w (f n) + sum_below w n f

  sum_below-set_beyond :
      (w : A → ℕ) (n : ℕ) (f : ℕ → A) (i : ℕ) (a : A)
      → n ≤ i
      → sum_below w n (set_at f i a) ≡ sum_below w n f
  unfolding sum_below
  sum_below-set_beyond w zero f i a h = refl
  sum_below-set_beyond w (suc n) f i a h = ground (arith, sum_below-set_beyond w n f i a)

  pub sum_below-set_at :
      (w : A → ℕ) (n : ℕ) (f : ℕ → A) (i : ℕ) (a : A)
      → i < n
      → sum_below w n (set_at f i a) + w (f i) ≡ sum_below w n f + w a
  unfolding sum_below
  sum_below-set_at w zero f i a h = absurd (omega arith)
  sum_below-set_at w (suc n) f i a h = elim (le_split i n h) [
    | inl below ↦ ground (arith, sum_below-set_at w n f i a below)
    | inr last ↦ ground (arith, sum_below-set_beyond w n f i a (omega arith), last)
  ]

  pub le-sum_below : (w : A → ℕ) (n : ℕ) (f : ℕ → A) (i : ℕ) → i < n → w (f i) ≤ sum_below w n f
  unfolding sum_below
  le-sum_below w zero f i h = absurd (omega arith)
  le-sum_below w (suc n) f i h = elim (le_split i n h) [
    | inl below ↦ omega (arith, le-sum_below w n f i below)
    | inr last ↦ rw last (omega arith)
  ]

  pub sum_below-eq_zero :
      (w : A → ℕ) (n : ℕ) (f : ℕ → A) → ((i : ℕ) → w (f i) ≡ 0) → sum_below w n f ≡ 0
  unfolding sum_below
  sum_below-eq_zero w zero f h = refl
  sum_below-eq_zero w (suc n) f h = omega (arith, h n, sum_below-eq_zero w n f h)

  -- A weight that is 0 wherever another one is.
  pub sum_below-zero_of :
      (v w : A → ℕ) (n : ℕ) (f : ℕ → A)
      → ((a : A) → v a ≡ 0 → w a ≡ 0)
      → sum_below v n f ≡ 0
      → sum_below w n f ≡ 0
  unfolding sum_below
  sum_below-zero_of v w zero f h e = refl
  sum_below-zero_of v w (suc n) f h e =
      omega (arith, h (f n) (omega (arith, e)), sum_below-zero_of v w n f h (omega (arith, e)))

  -- A change of every value that leaves the weights as another weight has them.
  pub sum_below-change :
      (v w : A → ℕ) (g : A → A) (n : ℕ) (f : ℕ → A)
      → ((a : A) → w (g a) ≡ v a)
      → sum_below w n (λ i. g (f i)) ≡ sum_below v n f
  unfolding sum_below
  sum_below-change v w g zero f h = refl
  sum_below-change v w g (suc n) f h = omega (arith, h (f n), sum_below-change v w g n f h)

  pub sum_below-positive :
      (w : A → ℕ) (n : ℕ) (f : ℕ → A) → 0 < sum_below w n f → (i : ℕ) × (i < n) × (0 < w (f i))
  unfolding sum_below
  sum_below-positive w zero f h = absurd (omega arith)
  sum_below-positive w (suc n) f h = elim (zero_or_positive (w (f n))) [
    | inl none ↦
        let (i, lt, p) = sum_below-positive w n f (omega (arith, none)) in (i, omega (arith, lt), p)
    | inr here ↦ (n, omega arith, here)
  ]

  -- Of two indices that have weight, a total of 1 has room for one.
  pub sum_below_unique :
      (w : A → ℕ) (n : ℕ) (f : ℕ → A) (i j : ℕ)
      → sum_below w n f ≤ 1
      → i < n
      → j < n
      → 0 < w (f i)
      → 0 < w (f j)
      → i ≡ j
  unfolding sum_below
  sum_below_unique w zero f i j few lt lt' a b = absurd (omega arith)
  sum_below_unique w (suc n) f i j few lt lt' a b = elim (le_split i n lt) [
    | inl below ↦ elim (le_split j n lt') [
      | inl below' ↦ sum_below_unique w n f i j (omega (arith, few)) below below' a b
      | inr last ↦ absurd (ground (arith, le-sum_below w n f i below, few, last))
    ]
    | inr last ↦ elim (le_split j n lt') [
      | inl below' ↦ absurd (ground (arith, le-sum_below w n f j below', few, last))
      | inr last' ↦ last ∙ sym last'
    ]
  ]
