-- ===== src/Manager/Registry/Listed.antt =====
-- A list of the sessions' numbers as the set of src/session.cpp.
use minapp.Base.{ℕ, ◌≡◌, refl, Option, none, some, List, [], ◌∷◌, ◌==◌, if◌then◌else◌, arith}
use minapp.Manager.Registry.{SessionSet}

unfoldable pub find : ℕ → List ℕ → Option ℕ
find id [] = none
find id (x ∷ xs) = if x == id then some x else find id xs

unfoldable pub erase : ℕ → List ℕ → List ℕ
erase i [] = []
erase i (x ∷ xs) = let rest = erase i xs in if x == i then rest else x ∷ rest

pub find-erase :
    (id i : ℕ) (xs : List ℕ) → find id (erase i xs) ≡ (if i == id then none else find id xs)
unfolding find erase
find-erase id i [] = ground arith
find-erase id i (x ∷ xs) = ground (arith, find-erase id i xs)

pub find-insert :
    (id i : ℕ) (xs : List ℕ) → find id (i ∷ xs) ≡ (if i == id then some i else find id xs)
unfolding find
find-insert id i xs = refl

pub find-empty : (id : ℕ) → find id [] ≡ none
unfolding find
find-empty id = refl

abbrev pub listed : SessionSet
listed = record {
  Sessions = List ℕ;
  empty = [];
  find = find;
  insert = ◌∷◌;
  erase = erase;
  find-empty = find-empty;
  find-insert = find-insert;
  find-erase = find-erase;
}
