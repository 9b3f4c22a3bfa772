-- ===== src/AttributeSet.antt =====
-- `class attribute_set` of include/minapp/attribute_set.hpp and src/attribute_set.cpp: a map from
-- byte strings to objects. A value is none for the null `object` and else the number of the object
-- that it holds, which `object::operator==` compares. Each method is one atomic step, as its
-- spinlock makes it; the three `foreach` release the lock around the callback, which may therefore
-- change the set: they pass the set through it. `boost::intrusive::set` belongs to Boost and is the
-- record `NvpSet` of its operations and of the laws that the code relies on.
pub mod Keys
pub mod Interface
pub mod Laws
pub mod Foreach
pub mod Listed
pub mod Typed
pub use Keys.*
pub use Interface.*
use minapp.Base.{
  ℕ, zero, suc, ◌+◌, Bool, true, false, not, Option, none, some, List, [], ◌∷◌, ◌++◌, ◌==◌, ◌&&◌,
  if◌then◌else◌,
}

-- `object::operator==`
unfoldable pub same_object : Value → Value → Bool
same_object none none = true
same_object none (some b) = false
same_object (some a) none = false
same_object (some a) (some b) = a == b

-- A loop of `foreach`, when it stops: the number of entries iterated and the set. The last part
-- is what the callback has been called with, in order.
pub record Visited (S : Type 0) : Type 0 where
  pub count : ℕ
  pub set_after : S
  pub calls : List (Key × Value)

module _ (boost : NvpSet) where
  -- `attribute_set(attribute_set&& other)`: this set and `other` after it.
  unfoldable pub move : boost.Map → boost.Map × boost.Map
  move other = (other, boost.empty)

  unfoldable pub swap : boost.Map → boost.Map → boost.Map × boost.Map
  swap this other = (other, this)

  unfoldable pub insert_all : List (Key × Value) → boost.Map → boost.Map
  insert_all [] m = m
  insert_all ((key, value) ∷ list) m = elim (boost.find key m) [
    | none ↦ insert_all list (boost.insert key value m)
    | some old ↦ insert_all list m
  ]

  -- `attribute_set(std::initializer_list)`
  unfoldable pub from_list : List (Key × Value) → boost.Map
  unfolding insert_all
  from_list list = insert_all list boost.empty

  unfoldable pub contains : Key → boost.Map → Bool
  contains key m = elim (boost.find key m) [ none ↦ false | some value ↦ true ]

  unfoldable pub get : Key → boost.Map → Value
  get key m = elim (boost.find key m) [ none ↦ none | some value ↦ value ]

  unfoldable pub remove : Key → boost.Map → Value × boost.Map
  remove key m = elim (boost.find key m) [
    | none ↦ (none, m)
    | some value ↦ (value, boost.erase key m)
  ]

  -- `remove(key, value)`
  unfoldable pub remove_if : Key → Value → boost.Map → Bool × boost.Map
  unfolding same_object
  remove_if key value m = elim (boost.find key m) [
    | none ↦ (false, m)
    | some old ↦ if same_object old value then (true, boost.erase key m) else (false, m)
  ]

  unfoldable pub set : Key → Value → boost.Map → Value × boost.Map
  set key value m = elim (boost.find key m) [
    | none ↦ (none, boost.insert key value m)
    | some old ↦ (old, boost.assign key value m)
  ]

  unfoldable pub emplace : Key → Value → boost.Map → Value × boost.Map
  emplace key value m = elim (boost.find key m) [
    | none ↦ (none, boost.insert key value m)
    | some old ↦ (old, m)
  ]

  unfoldable pub replace : Key → Value → boost.Map → Value × boost.Map
  replace key value m = elim (boost.find key m) [
    | none ↦ (none, m)
    | some old ↦ (old, boost.assign key value m)
  ]

  -- `replace(key, oldval, newval)`
  unfoldable pub replace_if : Key → Value → Value → boost.Map → Bool × boost.Map
  unfolding same_object
  replace_if key oldval newval m = elim (boost.find key m) [
    | none ↦ (false, m)
    | some old ↦ if same_object old oldval then (true, boost.assign key newval m) else (false, m)
  ]

  unfoldable pub compute : Key → (Value → Value) → boost.Map → boost.Map
  compute key f m = elim (boost.find key m) [
    | none ↦ elim (f none) [ none ↦ m | some object ↦ boost.insert key (some object) m ]
    | some old ↦ elim (f old) [
      | none ↦ boost.erase key m
      | some object ↦ boost.assign key (some object) m
    ]
  ]

  module _ (f : Key → Value → boost.Map → Bool × boost.Map) (ends : Key → Bool) where
    -- The loop of a `foreach`, at the iterator given; it breaks where `ends` holds of the key.
    unfoldable pub visit : ℕ → Option (Key × Value) → boost.Map → Option (Visited boost.Map)
    visit zero iter m = none
    visit (suc fuel) none m = some (record { count = 0; set_after = m; calls = [] })
    visit (suc fuel) (some (key, value)) m =
        let (continues, m') = f key value m in
        let rest = visit fuel (boost.upper_bound key m') m' in
        if ends key
        then some (record { count = 0; set_after = m; calls = [] })
        else if continues
        then elim rest [
          | none ↦ none
          | some r ↦ some (record r { count = r.count + 1; calls = (key, value) ∷ r.calls })
        ]
        else some (record { count = 0; set_after = m'; calls = (key, value) ∷ [] })

  module _ (f : Key → Value → boost.Map → Bool × boost.Map) where
    unfoldable pub foreach : ℕ → boost.Map → Option (Visited boost.Map)
    foreach fuel m = visit f (λ key. false) fuel (boost.begin m) m

    -- `foreach(prefix, f)`
    unfoldable pub foreach_prefix : Key → ℕ → boost.Map → Option (Visited boost.Map)
    foreach_prefix prefix fuel m =
        visit f (λ key. not (starts_with prefix key)) fuel (boost.lower_bound prefix m) m

    -- The test that ends the third `foreach`: `key.compare(max) >= (int)include_max`.
    unfoldable pub is_over : Key → Bool → Key → Bool
    is_over max include_max key = if include_max then less max key else not (less key max)

    -- `foreach(min, max, include_min, include_max, f)`
    unfoldable pub foreach_between :
        Key → Key → Bool → Bool → ℕ → boost.Map → Option (Visited boost.Map)
    foreach_between min max include_min include_max fuel m =
        let iter = if include_min then boost.lower_bound min m else boost.upper_bound min m in
        visit f (is_over max include_max) fuel iter m
