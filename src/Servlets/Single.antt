-- ===== src/Servlets/Single.antt =====
-- `servlets::op` against `get`, `set`, `ret`, `add` and `del`, include/minapp/servlets.hpp.
use minapp.Base.{ℕ, ◌≡◌, none, some, List, Option-cases, inl, inr, arith}
use minapp.AttributeSet.Keys.{Key}
use minapp.AttributeSet.Interface.{NvpSet}
use minapp.AttributeSet as attrs
use minapp.Servlets.{
  ops_get, ops_set, ops_ret, ops_add, ops_del, id, get, set, ret, add, del, make_if_null,
  op_callback, op,
}

module _ (type_bytes : ℕ → List ℕ) (null_type : ℕ) (type_of : ℕ → ℕ) (boost : NvpSet) where
  module _ (type : ℕ) (instance_name : Key) where
    -- For every ordered set, `op` with an object that could be made has the result of the
    -- operation that it names: `get`, `set`, `ret`, `add` or `del`.
    pub op_result :
        (made : ℕ) (m : boost.Map)
        → ((op type_bytes null_type type_of boost type instance_name ops_get (some made) m).0
            ≡ get type_bytes null_type type_of boost type instance_name m)
          × ((op type_bytes null_type type_of boost type instance_name ops_set (some made) m).0
              ≡ (set type_bytes null_type type_of boost type instance_name made m).0)
          × ((op type_bytes null_type type_of boost type instance_name ops_ret (some made) m).0
              ≡ (ret type_bytes null_type type_of boost type instance_name made m).0)
          × ((op type_bytes null_type type_of boost type instance_name ops_add (some made) m).0
              ≡ (add type_bytes null_type type_of boost type instance_name made m).0)
          × ((op type_bytes null_type type_of boost type instance_name ops_del (some made) m).0
              ≡ (del type_bytes null_type type_of boost type instance_name m).0)
    unfolding op op_callback get set ret add del make_if_null attrs.get attrs.remove
    op_result made m =
        let name = id type_bytes null_type type instance_name in
        elim (Option-cases (boost.find name m)) [
          | inl e ↦ (
            ground (arith, e),
            ground (arith, e),
            ground (arith, e),
            ground (arith, e),
            ground (arith, e),
          )
          | inr (none, e) ↦ (
            ground (arith, e),
            ground (arith, e),
            ground (arith, e),
            ground (arith, e),
            ground (arith, e),
          )
          | inr (some o, e) ↦ (
            ground (arith, e),
            ground (arith, e),
            ground (arith, e),
            ground (arith, e),
            ground (arith, e),
          )
        ]
