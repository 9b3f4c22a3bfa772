-- ===== src/Persist.antt =====
-- `persistent_buffer` and `persist` of include/minapp/persistent_buffer.hpp: what a program gives to
-- be written, with the storage that keeps it. A buffer points to bytes of its storage that no other
-- part of the program has, or to bytes that are the program's too: those of a `const_buffer`, those
-- that a container which does not own them refers to, and those of an `object`, whose value is
-- shared with all that hold the object. Copies of a persistent buffer share its storage, which is
-- taken not to be changed through them. A type of values is the bytes that `boost::asio::buffer`
-- makes of one.
pub mod Ownership
use minapp.Base.{
  ℕ, ◌*◌, ◌^◌, ◌%◌, min, Bool, true, false, ◌||◌, Option, none, some, List, [], take, length, leb,
  ◌==◌, if◌then◌else◌,
}

pub record PersistentBuffer : Type 0 where
  -- the bytes that `boost::asio::buffer` makes of the object that `storage_` holds
  pub storage : Option (List ℕ)
  -- whether the buffer points to them, and no other part of the program has them
  pub inside : Bool
  pub size : ℕ

-- What `persist` is given; the branches are those of its `if constexpr`.
pub data Source : Type 0 where
  object : (holds_type : Bool) (value : List ℕ) → Source  -- and whether it is of the type `A`
  persistent : PersistentBuffer → Source
  pointer : (size_of : ℕ) (memory : List ℕ) → Source  -- the bytes from the pointer on
  mutable_buffer : List ℕ → Source
  const_buffer : List ℕ → Source
  container : (owning : Bool) (value : List ℕ) → Source
  pod : List ℕ → Source

pub data Result : Type 0 where
  returned : PersistentBuffer → Result
  bad_object_cast : Result
  bad_array_new_length : Result

-- The storage of an array of `n` elements: `object::emplace<T[]>(n)` and `std::memcpy`. A length of
-- `std::ptrdiff_t` is below 1 if it is 0 or has its highest bit set.
unfoldable pub copy_array : (size_of : ℕ) (memory : List ℕ) (n : ℕ) → Result
copy_array size_of memory n =
    let bytes = n * size_of % 2 ^ 64 in
    if n == 0 || leb (2 ^ 63) n
    then bad_array_new_length
    else returned (record { storage = some (take bytes memory); inside = true; size = bytes })

unfoldable pub persist : Source → ℕ → Result
unfolding copy_array
persist (object false value) n = bad_object_cast
persist (object true value) n =
    returned (record { storage = some value; inside = false; size = min (length value) n })
persist (persistent buf) n = returned (record buf { size = min buf.size n })
persist (pointer size_of memory) n = copy_array size_of memory n
persist (mutable_buffer value) n = copy_array 1 value (min (length value) n)
persist (const_buffer value) n =
    returned (record { storage = none; inside = false; size = min (length value) n })
persist (container owning value) n =
    returned (record { storage = some value; inside = owning; size = min (length value) n })
persist (pod value) n =
    returned (record { storage = some value; inside = true; size = min (length value) n })

-- The bytes that are written, where the program's memory that a buffer points to, if it is not
-- `inside`, has come to be `outside`.
unfoldable pub content : PersistentBuffer → List ℕ → List ℕ
content p outside =
    take p.size (if p.inside then elim p.storage [ none ↦ [] | some value ↦ value ] else outside)
