-- ===== src/Object/Arrays.antt =====
-- The arrays of include/minapp/object.hpp: `object::holder<T[]>`, which allocates one with its count
-- of references, `object::vec<T>`, an object that holds one, and `object::vec<T&>`, a part of one.
pub mod Lifetimes
pub mod Sharing
use minapp.Base.{
  ℕ, zero, suc, ◌+◌, ◌-◌, ◌*◌, ◌%◌, ◌^◌, Bool, true, false, ◌&&◌, Option, none, some, List, [], ◌∷◌,
  ◌++◌, length, get_elem?, set_elem, take, drop, replicate, leb, ltb, ◌==◌, if◌then◌else◌, set_at,
  add_size, sub_size,
}
use minapp.Object.{Memory, Handle}
use minapp.Object.Views.{
  Outcome, Exception, bad_array_new_length, returned, thrown, fault, is_length, vec_emplace,
}

-- `sizeof(T)`, `offsetof(holder, v)` and `sizeof(holder)`.
pub record Layout : Type 0 where
  pub element : ℕ
  pub offset : ℕ
  pub holder : ℕ

-- The argument of `::operator new`, for `n` elements.
unfoldable pub new_size : Layout → ℕ → ℕ
new_size l n = add_size l.holder ((n - 1) * l.element % 2 ^ 64)

-- What happens to the elements and to the memory.
pub data Life : Type 0 where
  allocate : ℕ → Life
  construct : ℕ → Life
  destroy : ℕ → Life
  deallocate : Life

-- `std::uninitialized_value_construct_n` on the `c` elements from `k` on, of which those that
-- `throws` says throw: whether it has returned. The elements that it has constructed it destroys
-- if one throws.
unfoldable pub value_construct_n : (ℕ → Bool) → ℕ → ℕ → Bool × List Life
value_construct_n throws k zero = (true, [])
value_construct_n throws k (suc c) =
    let (ok, rest) = value_construct_n throws (k + 1) c in
    if throws k
    then (false, [])
    else if ok
    then (true, construct k ∷ rest)
    else (false, construct k ∷ (rest ++ (destroy k ∷ [])))

-- `std::destroy_n` on the `c` elements from `k` on.
unfoldable pub destroy_n : ℕ → ℕ → List Life
destroy_n k zero = []
destroy_n k (suc c) = destroy k ∷ destroy_n (k + 1) c

-- `create(n)`: whether it has returned a holder, and what has happened. `available` tells for which
-- numbers of bytes `::operator new` gives memory and does not throw `std::bad_alloc`.
unfoldable pub create : (ℕ → Bool) → Layout → (ℕ → Bool) → ℕ → Bool × List Life
unfolding new_size value_construct_n is_length
create available l throws n =
    let (ok, rest) = value_construct_n throws 1 (n - 1) in
    if is_length n && available (new_size l n)
    then (if throws 0
        then (false, allocate (new_size l n) ∷ deallocate ∷ [])
        else if ok
        then (true, allocate (new_size l n) ∷ construct 0 ∷ rest)
        else (
          false,
          allocate (new_size l n) ∷ construct 0 ∷ (rest ++ (destroy 0 ∷ deallocate ∷ [])),
        ))
    else (false, [])

-- `~holder()` and `operator delete`, of `n` elements: the first is the member `v`.
unfoldable pub delete_holder : ℕ → List Life
unfolding destroy_n
delete_holder n = destroy_n 1 (n - 1) ++ (destroy 0 ∷ deallocate ∷ [])

-- The memory with the elements of the arrays.
pub record Arrays (A : Type 0) : Type 0 where
  pub memory : Memory
  pub elements : ℕ → List A

pub data Made (A : Type 0) : Type 0 where
  made : Arrays A → Made A
  not_made : Exception → Made A
  made_fault : Made A

-- What an access to an element gives; `undefined` is undefined behaviour, outside of the array or
-- at a null pointer.
pub data Reached (A : Type 0) : Type 0 where
  found : A → Reached A
  out_of_range : Reached A
  undefined : Reached A

-- The array that a handle points to; null is an empty one.
abbrev pub array_of : {A : Type 0} → Handle → Arrays A → List A
array_of none s = []
array_of (some a) s = s.elements a

abbrev pub with_elements : {A : Type 0} → (ℕ → List A) → Outcome → Made A
with_elements elements (returned m) = made (record { memory = m; elements = elements })
with_elements elements (thrown e) = not_made e
with_elements elements fault = made_fault

module _ {A : Type 0} (type : ℕ) (value_initialized : A) where
  -- `vec(n)` in a new variable, and `vec::emplace(n)`.
  unfoldable pub vec_of_size : ℕ → ℕ → Arrays A → Made A
  unfolding vec_emplace
  vec_of_size i n s =
      with_elements (set_at s.elements s.memory.fresh (replicate n value_initialized))
        (vec_emplace type i n s.memory)

  -- `vec(std::initializer_list<T> list)`
  unfoldable pub vec_of_list : ℕ → List A → Arrays A → Made A
  unfolding vec_emplace
  vec_of_list i [] s = made s
  vec_of_list i (x ∷ list) s =
      with_elements (set_at s.elements s.memory.fresh (x ∷ list))
        (vec_emplace type i (length (x ∷ list)) s.memory)

module _ {A : Type 0} where
  -- `vec::size`
  unfoldable pub vec_size : ℕ → Arrays A → ℕ
  vec_size i s = length (array_of (s.memory.var i) s)

  -- `vec::empty`
  unfoldable pub vec_empty : ℕ → Arrays A → Bool
  vec_empty i s = elim (s.memory.var i) [ none ↦ true | some a ↦ false ]

  -- An access to an element by a pointer to the first one.
  abbrev pub element_at : List A → ℕ → Reached A
  element_at list k = elim (get_elem? list k) [ none ↦ undefined | some v ↦ found v ]

  -- `vec::at`
  unfoldable pub vec_at : ℕ → ℕ → Arrays A → Reached A
  unfolding vec_size
  vec_at i k s =
      if leb (vec_size i s) k then out_of_range else element_at (array_of (s.memory.var i) s) k

  -- An assignment to the element that `vec::at` refers to.
  unfoldable pub vec_assign_at : ℕ → ℕ → A → Arrays A → Reached (Arrays A)
  unfolding vec_size
  vec_assign_at i k v s = if leb (vec_size i s) k then out_of_range else elim (s.memory.var i) [
    | none ↦ undefined
    | some a ↦
        if ltb k (length (s.elements a))
        then found (record s { elements = set_at s.elements a (set_elem (s.elements a) k v) })
        else undefined
  ]

  -- `vec::operator[]`
  unfoldable pub vec_index : ℕ → ℕ → Arrays A → Reached A
  vec_index i k s = element_at (array_of (s.memory.var i) s) k

-- `vec<T&>`: its pointer, as the number of the element in the array of a handle, and its size.
pub record Span : Type 0 where
  pub of : Handle
  pub p : ℕ
  pub n : ℕ

module _ {A : Type 0} where
  -- The conversion of a `vec<T>`, whose `begin` and `end` are those of the span.
  unfoldable pub span_of : ℕ → Arrays A → Span
  unfolding vec_size
  span_of i s = record { of = s.memory.var i; p = 0; n = vec_size i s }

  -- `operator[]`, `front` and `back`; none is undefined behaviour, outside the array.
  unfoldable pub span_at : Span → ℕ → Arrays A → Option A
  span_at v i s = get_elem? (array_of v.of s) (v.p + i)

  unfoldable pub front : Span → Arrays A → Option A
  unfolding span_at
  front v s = span_at v 0 s

  unfoldable pub back : Span → Arrays A → Option A
  unfolding span_at
  back v s = span_at v (sub_size v.n 1) s

-- `empty`, `size_bytes`, `subspan`, `first` and `last`.
unfoldable pub span_empty : Span → Bool
span_empty v = v.n == 0

unfoldable pub size_bytes : ℕ → Span → ℕ
size_bytes element v = v.n * element % 2 ^ 64

unfoldable pub subspan : ℕ → ℕ → Span → Span
subspan offset count v = record v { p = v.p + offset; n = count }

unfoldable pub first : ℕ → Span → Span
first count v = record v { n = count }

unfoldable pub last : ℕ → Span → Span
last count v = record v { p = v.p + sub_size v.n count; n = count }
