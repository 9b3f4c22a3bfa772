-- ===== src/AttributeSet/Typed.antt =====
-- The templates `get<Value>` of include/minapp/attribute_set.hpp, which copy a value of a type out
-- of the set. `type_of` gives the number of the type of the value that an object holds; a value is
-- named by its object.
use minapp.Base.{
  ℕ, ◌≡◌, refl, ap, ◌∙◌, Bool, true, false, Option, none, some, ◌==◌, if◌then◌else◌, Bool-cases,
  inl, inr,
}
use minapp.AttributeSet.Keys.{Key, Value, same}
use minapp.AttributeSet.Interface.{NvpSet}
use minapp.AttributeSet.{get, set}
use minapp.AttributeSet.Laws.{set_lem}

-- What `get<Value>(key)` returns or throws.
pub data Got : Type 0 where
  got : ℕ → Got
  bad_object_cast : Got
  out_of_range : Got

ap_if :
    {A : Type 0} (f : Value → A) (b : Bool) (x y : Value)
    → f (if b then x else y) ≡ (if b then f x else f y)
ap_if f true x y = refl
ap_if f false x y = refl

module _ (type_of : ℕ → ℕ) (boost : NvpSet) (type : ℕ) where
  -- What is done with the object found; `object_cast` compares the types.
  abbrev pub cast_value : Value → Got
  cast_value none = out_of_range
  cast_value (some object) = if type_of object == type then got object else bad_object_cast

  unfoldable pub get_value : Key → boost.Map → Got
  get_value key m = cast_value (get boost key m)

  -- `object_cast` of a pointer, which is null for a null object and for one of another type.
  abbrev pub cast_pointer : Value → Option ℕ
  cast_pointer none = none
  cast_pointer (some object) = if type_of object == type then some object else none

  -- `get(key, value)`: the value that is assigned, where it returns true.
  unfoldable pub get_into : Key → boost.Map → Option ℕ
  get_into key m = cast_pointer (get boost key m)

  -- What `get<Value>` does not throw.
  abbrev pub assigned_value : Got → Option ℕ
  assigned_value (got object) = some object
  assigned_value bad_object_cast = none
  assigned_value out_of_range = none

  cast_pointer_lem : (value : Value) → cast_pointer value ≡ assigned_value (cast_value value)
  cast_pointer_lem none = refl
  cast_pointer_lem (some object) = elim (Bool-cases (type_of object == type)) [
    | inl e ↦ rw e refl
    | inr e ↦ rw e refl
  ]

  get-set :
      (key : Key) (value : Value) (m : boost.Map) (j : Key)
      → get boost j (set boost key value m).1 ≡ (if same j key then value else get boost j m)
  unfolding get
  get-set key value m j = elim (Bool-cases (same j key)) [
    | inl e ↦ rw ((set_lem boost key value m j).1, get) (rw e refl)
    | inr e ↦ rw ((set_lem boost key value m j).1, get) (rw e refl)
  ]

  -- After `set` of a key, `get<Value>` of this key returns the value where the object is of this
  -- type and throws otherwise, `out_of_range` for a null object and else `bad_object_cast`; both
  -- forms do with every other key what they did before; and `get(key, value)` returns true exactly
  -- where `get<Value>` does not throw, with the same value.
  pub get_value-set :
      (key : Key) (value : Value) (m : boost.Map) (j : Key)
      → let m' = (set boost key value m).1 in
        (get_value j m' ≡ (if same j key then cast_value value else get_value j m))
        × (get_into j m' ≡ (if same j key then cast_pointer value else get_into j m))
        × (get_into j m' ≡ assigned_value (get_value j m'))
  unfolding get_value get_into
  get_value-set key value m j = (
    ap cast_value (get-set key value m j) ∙ ap_if cast_value (same j key) value (get boost j m),
    ap cast_pointer (get-set key value m j) ∙ ap_if cast_pointer (same j key) value (get boost j m),
    cast_pointer_lem (get boost j (set boost key value m).1),
  )
