-- ===== src/AttributeSet/Laws.antt =====
-- The operations of `attribute_set` on one key, src/attribute_set.cpp, as include/minapp/attribute_set.hpp
-- describes them.
use minapp.Base.{
  ◌≡◌, refl, ap, ◌∙◌, true, false, Option, none, some, List, [], ◌∷◌, ◌&&◌, if◌then◌else◌,
  Option-cases, Bool-cases, inl, inr, arith,
}
use minapp.AttributeSet.Keys.{Key, Value, same, same→eq}
use minapp.AttributeSet.Interface.{NvpSet}
use minapp.AttributeSet.{
  same_object, insert_all, from_list, contains, get, remove, remove_if, set, emplace, replace,
  replace_if, compute,
}

-- The first value that a list gives to a key.
unfoldable pub first_value : Key → List (Key × Value) → Option Value
first_value j [] = none
first_value j ((k, v) ∷ list) = if same j k then some v else first_value j list

module _ (boost : NvpSet) where
  -- `set` maps the key to the value, leaves every other key as it was, and returns what `get`
  -- returned before.
  pub set_lem :
      (key : Key) (value : Value) (m : boost.Map) (j : Key)
      → ((set boost key value m).0 ≡ get boost key m)
        × (boost.find j (set boost key value m).1
            ≡ (if same j key then some value else boost.find j m))
  unfolding set get
  set_lem key value m j = elim (Option-cases (boost.find key m)) [
    | inl e ↦ rw (e, set, get) (refl, boost.find-insert j key value m e)
    | inr (old, e) ↦ rw (e, set, get) (refl, boost.find-assign j key value old m e)
  ]

  keep_absent :
      (j key : Key) (m : boost.Map)
      → boost.find key m ≡ none
      → boost.find j m ≡ (if same j key then none else boost.find j m)
  keep_absent j key m e = elim (Bool-cases (same j key)) [
    | inl s ↦ rw s (ap (λ k. boost.find k m) (same→eq j key s) ∙ e)
    | inr s ↦ rw s refl
  ]

  -- `remove` forgets the key, leaves every other key as it was, and returns what `get` returned
  -- before.
  pub remove_lem :
      (key : Key) (m : boost.Map) (j : Key)
      → ((remove boost key m).0 ≡ get boost key m)
        × (boost.find j (remove boost key m).1 ≡ (if same j key then none else boost.find j m))
  unfolding remove get
  remove_lem key m j = elim (Option-cases (boost.find key m)) [
    | inl e ↦ rw (e, remove, get) (refl, keep_absent j key m e)
    | inr (old, e) ↦ rw (e, remove, get) (refl, boost.find-erase j key m)
  ]

  -- For every ordered set, `emplace`, both forms of `replace` and the conditional `remove` are the
  -- combinations of `contains`, `get`, `set` and `remove` that their documentation gives as
  -- equivalent, in the result and in the set.
  pub conditional_operations :
      (key : Key) (value other : Value) (m : boost.Map)
      → (emplace boost key value m
          ≡ (if contains boost key m then (get boost key m, m) else set boost key value m))
        × (replace boost key value m
            ≡ (if contains boost key m then set boost key value m else (none, m)))
        × (replace_if boost key other value m ≡ (
            if contains boost key m && same_object (get boost key m) other
            then (true, (set boost key value m).1)
            else (false, m)))
        × (remove_if boost key other m ≡ (
            if contains boost key m && same_object (get boost key m) other
            then (true, (remove boost key m).1)
            else (false, m)))
  unfolding emplace replace replace_if remove_if contains get set remove
  conditional_operations key value other m = elim (Option-cases (boost.find key m)) [
    | inl e ↦
        rw (e, emplace, replace, replace_if, remove_if, contains, get, set, remove)
          (refl, refl, refl, refl)
    | inr (old, e) ↦
        rw (e, emplace, replace, replace_if, remove_if, contains, get, set, remove)
          (refl, refl, refl, refl)
  ]

  -- For every ordered set, after `compute` the key is mapped to what `f` makes of the value that
  -- `get` returned before, or to nothing where that is null, and every other key is mapped as it
  -- was.
  pub compute_lem :
      (key : Key) (f : Value → Value) (m : boost.Map) (j : Key)
      → boost.find j (compute boost key f m) ≡ (
          if same j key
          then (elim (f (get boost key m)) [ none ↦ none | some object ↦ some (some object) ])
          else boost.find j m)
  unfolding compute get
  compute_lem key f m j = elim (Option-cases (boost.find key m)) [
    | inl e ↦
        rw (e, compute, get)
          (elim (Option-cases (f none)) [
            | inl n ↦ rw n (keep_absent j key m e)
            | inr (object, n) ↦ rw n (boost.find-insert j key (some object) m e)
          ])
    | inr (old, e) ↦
        rw (e, compute, get)
          (elim (Option-cases (f old)) [
            | inl n ↦ rw n (boost.find-erase j key m)
            | inr (object, n) ↦ rw n (boost.find-assign j key (some object) old m e)
          ])
  ]

  find-insert_all :
      (list : List (Key × Value)) (m : boost.Map) (j : Key)
      → boost.find j (insert_all boost list m)
        ≡ (elim (boost.find j m) [ none ↦ first_value j list | some v ↦ some v ])
  unfolding insert_all first_value
  find-insert_all [] m j = elim (Option-cases (boost.find j m)) [
    | inl e ↦ rw e refl
    | inr (v, e) ↦ rw e refl
  ]
  find-insert_all ((k, v) ∷ list) m j = elim (Option-cases (boost.find k m)) [
    | inl e ↦
        let ih = find-insert_all list (boost.insert k v m) j in
        let fi = boost.find-insert j k v m e in
        elim (Bool-cases (same j k)) [
          | inl s ↦
              let ej : boost.find j m ≡ none = ap (λ k. boost.find k m) (same→eq j k s) ∙ e in
              ground (arith, ih, fi, s, e, ej)
          | inr s ↦ ground (arith, ih, fi, s, e)
        ]
    | inr (old, e) ↦
        let ih = find-insert_all list m j in
        elim (Bool-cases (same j k)) [
          | inl s ↦
              let ej : boost.find j m ≡ some old = ap (λ k. boost.find k m) (same→eq j k s) ∙ e in
              ground (arith, ih, s, e, ej)
          | inr s ↦ ground (arith, ih, s, e)
        ]
  ]

  -- For every ordered set, a set made from a list of pairs maps each key to the first value that
  -- the list gives it, and no other key.
  pub find-from_list :
      (list : List (Key × Value)) (j : Key)
      → boost.find j (from_list boost list) ≡ first_value j list
  unfolding from_list
  find-from_list list j = find-insert_all list boost.empty j ∙ rw (boost.find-empty j) refl
