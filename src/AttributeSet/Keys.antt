-- ===== src/AttributeSet/Keys.antt =====
-- The keys of src/attribute_set.cpp, `std::string_view`s: the order of their bytes, which
-- `std::less` and `compare` read, and the test of a prefix.
use minapp.Base.{
  ℕ, ◌≡◌, refl, Bool, true, false, Option, List, [], ◌∷◌, ltb, ◌==◌, ◌&&◌, ◌||◌, arith, ap₂,
}

abbrev pub Key : Type 0
Key = List ℕ

abbrev pub Value : Type 0
Value = Option ℕ

abbrev pub less : Key → Key → Bool
less [] [] = false
less [] (y ∷ ys) = true
less (x ∷ xs) [] = false
less (x ∷ xs) (y ∷ ys) = ltb x y || ((x == y) && less xs ys)

abbrev pub same : Key → Key → Bool
same [] [] = true
same [] (y ∷ ys) = false
same (x ∷ xs) [] = false
same (x ∷ xs) (y ∷ ys) = (x == y) && same xs ys

-- `key.substr(0, prefix.size()) == prefix`
abbrev pub starts_with : Key → Key → Bool
starts_with [] key = true
starts_with (x ∷ xs) [] = false
starts_with (x ∷ xs) (y ∷ ys) = (x == y) && starts_with xs ys

pub less_irrefl : (a : Key) → less a a ≡ false
less_irrefl [] = refl
less_irrefl (x ∷ xs) = ground (arith, less_irrefl xs)

pub same_refl : (a : Key) → same a a ≡ true
same_refl [] = refl
same_refl (x ∷ xs) = ground (arith, same_refl xs)

pub same→eq : (a b : Key) → same a b ≡ true → a ≡ b
same→eq [] [] e = refl
same→eq [] (y ∷ ys) e = absurd (ground arith)
same→eq (x ∷ xs) [] e = absurd (ground arith)
same→eq (x ∷ xs) (y ∷ ys) e = ap₂ (◌∷◌) (ground arith) (same→eq xs ys (ground arith))

pub less_trans : (a b c : Key) → less a b ≡ true → less b c ≡ true → less a c ≡ true
less_trans [] [] c h k = absurd (ground arith)
less_trans [] (y ∷ ys) [] h k = absurd (ground arith)
less_trans [] (y ∷ ys) (z ∷ zs) h k = refl
less_trans (x ∷ xs) [] c h k = absurd (ground arith)
less_trans (x ∷ xs) (y ∷ ys) [] h k = absurd (ground arith)
less_trans (x ∷ xs) (y ∷ ys) (z ∷ zs) h k = ground (arith, less_trans xs ys zs)

-- Two keys that are not in order are the same.
pub less_total : (a b : Key) → less a b ≡ false → less b a ≡ false → a ≡ b
less_total [] [] h k = refl
less_total [] (y ∷ ys) h k = absurd (ground arith)
less_total (x ∷ xs) [] h k = absurd (ground arith)
less_total (x ∷ xs) (y ∷ ys) h k =
    ap₂ (◌∷◌) (ground arith) (less_total xs ys (ground arith) (ground arith))
