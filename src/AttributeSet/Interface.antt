-- ===== src/AttributeSet/Interface.antt =====
-- `boost::intrusive::set<nvp>` as src/attribute_set.cpp uses it: an iterator is the entry that it
-- points to, none at the end; `insert` is `insert_check` and `insert_commit` where no such key is
-- in the set, `assign` an assignment to the value of the entry found.
use minapp.AttributeSet.Keys.{Key, Value, less, same}
use minapp.Base.{ℕ, ◌<◌, true, false, Option, none, some, ◌≡◌, if◌then◌else◌}

pub record NvpSet : Type 1 where
  pub Map : Type 0
  pub empty : Map
  pub find : Key → Map → Option Value
  pub insert : Key → Value → Map → Map
  pub assign : Key → Value → Map → Map
  pub erase : Key → Map → Map
  pub begin : Map → Option (Key × Value)
  pub lower_bound : Key → Map → Option (Key × Value)
  pub upper_bound : Key → Map → Option (Key × Value)
  -- The number of entries, and of those whose key is above a bound.
  pub size : Map → ℕ
  pub above : Key → Map → ℕ
  pub find-empty : (k : Key) → find k empty ≡ none
  pub find-insert :
      (j k : Key) (v : Value) (m : Map)
      → find k m ≡ none
      → find j (insert k v m) ≡ (if same j k then some v else find j m)
  pub find-assign :
      (j k : Key) (v old : Value) (m : Map)
      → find k m ≡ some old
      → find j (assign k v m) ≡ (if same j k then some v else find j m)
  pub find-erase :
      (j k : Key) (m : Map) → find j (erase k m) ≡ (if same j k then none else find j m)
  pub begin-first : (k : Key) (v : Value) (m : Map) → begin m ≡ some (k, v) → find k m ≡ some v
  pub begin-least :
      (j k : Key) (v w : Value) (m : Map)
      → begin m ≡ some (k, v)
      → find j m ≡ some w
      → less j k ≡ false
  pub begin-none : (j : Key) (m : Map) → begin m ≡ none → find j m ≡ none
  pub lower_bound-entry :
      (b k : Key) (v : Value) (m : Map)
      → lower_bound b m ≡ some (k, v)
      → (less k b ≡ false) × (find k m ≡ some v)
  pub upper_bound-entry :
      (b k : Key) (v : Value) (m : Map)
      → upper_bound b m ≡ some (k, v)
      → (less b k ≡ true) × (find k m ≡ some v)
  pub upper_bound-least :
      (b j k : Key) (v w : Value) (m : Map)
      → upper_bound b m ≡ some (k, v)
      → less b j ≡ true
      → find j m ≡ some w
      → less j k ≡ false
  pub upper_bound-none :
      (b j : Key) (m : Map) → upper_bound b m ≡ none → less b j ≡ true → find j m ≡ none
  pub above_size : (k : Key) (v : Value) (m : Map) → find k m ≡ some v → above k m < size m
  pub above_less :
      (b k : Key) (v : Value) (m : Map)
      → find k m ≡ some v
      → less b k ≡ true
      → above k m < above b m
