-- ===== src/Servlets.antt =====
-- `struct servlets` of include/minapp/servlets.hpp: typed access to an attribute set. A type is the
-- number of its `type_index`; `type_bytes` gives the bytes of a `type_index` in memory, `null_type`
-- is `object::null_t()`, and `type_of` the type of the value that an object holds. An operation that
-- makes an object is given its number. An exception leaves the operation as a `Result`.
pub mod Single
pub mod Stored
use minapp.Base.{
  ℕ, zero, suc, ◌-◌, ◌/◌, ◌%◌, Bool, true, false, Option, none, some, List, [], ◌∷◌, ◌++◌, length,
  take, drop, get_or, ltb, ◌==◌, ◌⊎◌, inl, inr, if◌then◌else◌,
}
use minapp.Hexdump.{table}
use minapp.AttributeSet.Keys.{Key, Value}
use minapp.AttributeSet.Interface.{NvpSet}
use minapp.AttributeSet as attrs

pub data Result : Type 0 where
  object : ℕ → Result
  servlet_not_exists : Key → Result
  servlet_already_exists : Key → Result
  servlet_type_mismatch : Result
  servlet_params_error : Result

-- `enum class ops`
pub data Ops : Type 0 where
  ops_get : Ops
  ops_set : Ops
  ops_ret : Ops
  ops_add : Ops
  ops_del : Ops

unfoldable pub leading_zeros : List ℕ → ℕ
leading_zeros [] = 0
leading_zeros (b ∷ bin) = let rest = leading_zeros bin in if b == 0 then suc rest else 0

-- The zeros at the end, counted from the front: `n` of them stand right before.
unfoldable pub trailing_zeros : ℕ → List ℕ → ℕ
trailing_zeros n [] = n
trailing_zeros n (b ∷ bin) = trailing_zeros (if b == 0 then suc n else 0) bin

-- The loop over the bytes of the type in `id`.
unfoldable pub hex_name : List ℕ → List ℕ
unfolding table
hex_name [] = []
hex_name (c ∷ bin) = get_or (table true) (c / 16) 0 ∷ get_or (table true) (c % 16) 0 ∷ hex_name bin

-- `bin`, without the zeros that the type's number begins or ends with.
unfoldable pub stripped : List ℕ → List ℕ → List ℕ
unfolding leading_zeros trailing_zeros
stripped null_bin bin =
    if ltb (trailing_zeros 0 null_bin) (leading_zeros null_bin)
    then drop (leading_zeros bin) bin
    else take (length bin - trailing_zeros 0 bin) bin

-- The suffix, ":" and the name of the instance, if there is one.
unfoldable pub suffix : Key → List ℕ
suffix [] = []
suffix (c ∷ instance_name) = 58 ∷ c ∷ instance_name

module _ (type_bytes : ℕ → List ℕ) (null_type : ℕ) where
  unfoldable pub id : ℕ → Key → Key
  unfolding hex_name stripped suffix
  id type instance_name =
      83
      ∷ 58
      ∷ (hex_name (stripped (type_bytes null_type) (type_bytes type)) ++ suffix instance_name)

  module _ (type_of : ℕ → ℕ) where
    -- The conversion to `object::ref<T>`, with `bad_object_cast` caught.
    unfoldable pub as_ref : ℕ → Value → Result
    as_ref type none = servlet_type_mismatch
    as_ref type (some o) = if type_of o == type then object o else servlet_type_mismatch

    module _ (boost : NvpSet) (type : ℕ) (instance_name : Key) where
      unfoldable pub get : boost.Map → Result
      unfolding id as_ref
      get m =
          let name = id type instance_name in
          elim (attrs.get boost name m) [
            | none ↦ servlet_not_exists name
            | some o ↦ as_ref type (some o)
          ]

      unfoldable pub set : ℕ → boost.Map → Result × boost.Map
      unfolding id as_ref
      set made m =
          (as_ref type (some made), (attrs.set boost (id type instance_name) (some made) m).1)

      -- The callbacks of `ret` and `add` on the value mapped.
      unfoldable pub make_if_null : ℕ → Value → Value
      make_if_null made none = some made
      make_if_null made (some o) = some o

      unfoldable pub ret : ℕ → boost.Map → Result × boost.Map
      unfolding id as_ref make_if_null
      ret made m =
          let name = id type instance_name in
          let srv = make_if_null made (attrs.get boost name m) in
          (as_ref type srv, attrs.compute boost name (make_if_null made) m)

      unfoldable pub add : ℕ → boost.Map → Result × boost.Map
      unfolding id as_ref make_if_null
      add made m =
          let name = id type instance_name in
          let m' = attrs.compute boost name (make_if_null made) m in
          elim (attrs.get boost name m) [
            | none ↦ (as_ref type (some made), m')
            | some o ↦ (servlet_already_exists name, m')
          ]

      unfoldable pub del : boost.Map → Result × boost.Map
      unfolding id as_ref
      del m =
          let name = id type instance_name in
          let (srv, m') = attrs.remove boost name m in
          elim srv [ none ↦ (servlet_not_exists name, m') | some o ↦ (as_ref type (some o), m') ]

      -- The result is none where the conversion to `object::ptr<T>` throws `bad_object_cast`: `remove`
      -- is `noexcept`, so that `std::terminate` is called.
      unfoldable pub remove : boost.Map → Option Value × boost.Map
      unfolding id
      remove m =
          let (srv, m') = attrs.remove boost (id type instance_name) m in
          (
            elim srv [
              | none ↦ some none
              | some o ↦ if type_of o == type then some (some o) else none
            ],
            m',
          )

      -- The callback of `op`: what it throws, or `srv` and the new value.
      unfoldable pub op_callback : Ops → Option ℕ → Value → Result ⊎ (ℕ × Value)
      unfolding id
      op_callback ops_get made none = inl (servlet_not_exists (id type instance_name))
      op_callback ops_get made (some o) = inr (o, some o)
      op_callback ops_del made none = inl (servlet_not_exists (id type instance_name))
      op_callback ops_del made (some o) = inr (o, none)
      op_callback ops_ret made (some o) = inr (o, some o)
      op_callback ops_add made (some o) = inl (servlet_already_exists (id type instance_name))
      op_callback ops_ret none none = inl servlet_params_error
      op_callback ops_ret (some o) none = inr (o, some o)
      op_callback ops_add none none = inl servlet_params_error
      op_callback ops_add (some o) none = inr (o, some o)
      op_callback ops_set none old = inl servlet_params_error
      op_callback ops_set (some o) old = inr (o, some o)

      -- `op`, where `made` is the object made, if `T` can be made from the arguments. Where the
      -- callback throws, `compute` has changed nothing.
      unfoldable pub op : Ops → Option ℕ → boost.Map → Result × boost.Map
      unfolding id as_ref op_callback
      op o made m =
          let name = id type instance_name in
          elim (op_callback o made (attrs.get boost name m)) [
            | inl thrown ↦ (thrown, m)
            | inr (srv, val) ↦ (as_ref type (some srv), attrs.compute boost name (λ old. val) m)
          ]

      -- `session::servlet<T>(instance, op)`: the object is made with the session's context where `T`
      -- can be made from it, and else by default; one of these is required of `T`.
      unfoldable pub servlet : Option ℕ → ℕ → Ops → boost.Map → Result × boost.Map
      unfolding op
      servlet with_context by_default o m =
          op o (some (elim with_context [ none ↦ by_default | some made ↦ made ])) m
