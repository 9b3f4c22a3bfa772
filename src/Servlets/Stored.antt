-- ===== src/Servlets/Stored.antt =====
-- `session::servlet`, include/minapp/session.hpp, called again: the servlet that it has made stays.
use minapp.Base.{ℕ, ◌≡◌, refl, sym, ap, ◌∙◌, Option, none, some, List, Option-cases, inl, inr}
use minapp.AttributeSet.Keys.{Key, same_refl}
use minapp.AttributeSet.Interface.{NvpSet}
use minapp.AttributeSet as attrs
use minapp.AttributeSet.Laws.{compute_lem}
use minapp.Servlets.{Result, Ops, ops_get, ops_ret, id, as_ref, op_callback, op, servlet}

module _ (type_bytes : ℕ → List ℕ) (null_type : ℕ) (type_of : ℕ → ℕ) (boost : NvpSet) where
  module _ (type : ℕ) (instance_name : Key) where
    get_computed :
        (key : Key) (o : ℕ) (m : boost.Map)
        → attrs.get boost key (attrs.compute boost key (λ old. some o) m) ≡ some o
    unfolding attrs.get
    get_computed key o m =
        rw (compute_lem boost key (λ old. some o) m key, attrs.get) (rw (same_refl key) refl)

    name : Key
    name = id type_bytes null_type type instance_name

    call : Ops → ℕ → boost.Map → Result × boost.Map
    call o k m = op type_bytes null_type type_of boost type instance_name o (some k) m

    with_value : ℕ → boost.Map → Result × boost.Map
    with_value o m = (
      as_ref type_bytes null_type type_of type (some o),
      attrs.compute boost name (λ old. some o) m,
    )

    call_found :
        (k o : ℕ) (m : boost.Map)
        → attrs.get boost name m ≡ some o
        → (call ops_ret k m ≡ with_value o m) × (call ops_get k m ≡ with_value o m)
    unfolding call with_value name op op_callback
    call_found k o m e = (rw (e, op, op_callback) refl, rw (e, op, op_callback) refl)

    call_made :
        (k : ℕ) (m : boost.Map) → attrs.get boost name m ≡ none → call ops_ret k m ≡ with_value k m
    unfolding call with_value name op op_callback
    call_made k m e = rw (e, op, op_callback) refl

    call_value : (k : ℕ) (m : boost.Map) → (o : ℕ) × (call ops_ret k m ≡ with_value o m)
    call_value k m = elim (Option-cases (attrs.get boost name m)) [
      | inl e ↦ (k, call_made k m e)
      | inr (o, e) ↦ (o, (call_found k o m e).0)
    ]

    call_again :
        (k k' : ℕ) (m : boost.Map)
        → ((call ops_ret k' (call ops_ret k m).1).0 ≡ (call ops_ret k m).0)
          × ((call ops_get k' (call ops_ret k m).1).0 ≡ (call ops_ret k m).0)
    unfolding with_value
    call_again k k' m =
        let (o, e) = call_value k m in
        let e' = ap (λ t. attrs.get boost name t.1) e ∙ get_computed name o m in
        let f = call_found k' o (call ops_ret k m).1 e' in
        (ap (λ t. t.0) f.0 ∙ sym (ap (λ t. t.0) e), ap (λ t. t.0) f.1 ∙ sym (ap (λ t. t.0) e))

    -- For every ordered set and whatever objects could be made: a second call of `servlet` with
    -- `ops::ret`, and one with `ops::get`, has the result of the first call with `ops::ret`.
    pub servlet_stays :
        (made made' : Option ℕ) (spare spare' : ℕ) (m : boost.Map)
        → let (r, m') =
            servlet type_bytes null_type type_of boost type instance_name made spare ops_ret m in
          ((servlet type_bytes null_type type_of boost type instance_name made' spare' ops_ret m').0
            ≡ r)
          × ((servlet type_bytes null_type type_of boost type instance_name made' spare' ops_get
                m').0
              ≡ r)
    unfolding servlet call
    servlet_stays made made' spare spare' m =
        call_again (elim made [ none ↦ spare | some k ↦ k ])
          (elim made' [ none ↦ spare' | some k ↦ k ]) m
