-- ===== src/Object/Casts.antt =====
-- `polymorphic_object_cast` of include/minapp/object.hpp, which throws the address of the value
-- and catches it as a pointer to the type asked for.
use minapp.Base.{
  ℕ, ◌≡◌, Bool, true, Option, none, some, ◌==◌, if◌then◌else◌, inl, inr, Option-cases, Bool-cases,
  arith,
}
use minapp.Object.{Block, Memory}
use minapp.Object.Types.{object_cast}

-- `caught a type`: whether a handler for pointers to `type` takes what `throws` of the block at `a`
-- throws, which C++ decides by the classes.
module _ (caught : ℕ → ℕ → Bool) where
  unfoldable pub polymorphic_object_cast : ℕ → ℕ → Memory → Option ℕ
  polymorphic_object_cast type i m = elim (m.var i) [
    | none ↦ none
    | some a ↦ elim (m.block a) [ none ↦ none | some b ↦ if caught a type then some a else none ]
  ]

  -- Where a handler for pointers to the type of each block takes what the block throws, the
  -- polymorphic cast finds every value that `object_cast` finds.
  pub polymorphic_object_cast-object_cast :
      (type i a : ℕ) (m : Memory)
      → ((c : ℕ) (b : Block) → m.block c ≡ some b → b.type == type ≡ true → caught c type ≡ true)
      → object_cast type i m ≡ some a
      → polymorphic_object_cast type i m ≡ some a
  unfolding object_cast polymorphic_object_cast
  polymorphic_object_cast-object_cast type i a m own e = elim (Option-cases (m.var i)) [
    | inl x ↦ absurd (ground (arith, e, x))
    | inr (c, x) ↦ elim (Option-cases (m.block c)) [
      | inl y ↦ absurd (ground (arith, e, x, y))
      | inr (b, y) ↦ elim (Bool-cases (b.type == type)) [
        | inr z ↦ absurd (ground (arith, e, x, y, z))
        | inl z ↦ ground (arith, e, x, y, z, own c b y z)
      ]
    ]
  ]
