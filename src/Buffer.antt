-- ===== src/Buffer.antt =====
-- `class triple_buffer` and `class buffer` of include/minapp/buffer.hpp.
-- The vector is the list of its bytes. A `boost::asio::mutable_buffer` is the offset of its first
-- byte in the vector's data, with its size; the base class that a handler sees is such a `Span`.
-- `std::vector::max_size`, which belongs to the library, is the parameter `max_size`.
pub mod Segments
pub mod Refine
pub mod Laws
pub mod Window
pub mod Adaptor
pub mod Growing
use minapp.Base.{
  ℕ, ◌-◌, ◌≤◌, ◌<◌, ◌^◌, ◌+◌, min, Bool, ◌||◌, Option, none, some, List, [], ◌++◌, length, take,
  drop, replicate, ltb, leb, if◌then◌else◌, add_size, sub_size,
}

pub record Span : Type 0 where
  pub begin : ℕ
  pub size : ℕ

abbrev pub no_bytes : Span
no_bytes = record { begin = 0; size = 0 }

pub record TripleBuffer : Type 0 where
  pub storage : List ℕ
  pub external_input_size : ℕ
  pub internal_input_size : ℕ
  -- the base class `mutable_buffer`
  pub view : Span

abbrev pub empty : TripleBuffer
empty = record { storage = []; external_input_size = 0; internal_input_size = 0; view = no_bytes }

-- `vector::resize`: the new bytes are zero.
unfoldable pub resize : List ℕ → ℕ → List ℕ
resize xs n = take n xs ++ replicate (n - length xs) 0

-- `boost::asio::mutable_buffer + n` skips at most the whole buffer.
abbrev pub skip : Span → ℕ → Span
skip s n = record { begin = s.begin + min n s.size; size = s.size - min n s.size }

-- The bytes that a span shows.
abbrev pub bytes : List ℕ → Span → List ℕ
bytes xs s = take s.size (drop s.begin xs)

abbrev pub window : TripleBuffer → List ℕ
window b = bytes b.storage b.view

unfoldable pub output_buffer : TripleBuffer → Span
output_buffer b =
    let sz = add_size b.external_input_size b.internal_input_size in
    record { begin = sz; size = sub_size (length b.storage) sz }

-- `none` is the `std::length_error` of a resize beyond `max_size`.
unfoldable pub prepare_output_buffer : ℕ → TripleBuffer → ℕ → Option (Span × TripleBuffer)
prepare_output_buffer max_size b n =
    let sz = add_size b.external_input_size b.internal_input_size in
    let total = add_size sz n in
    if ltb max_size total
    then none
    else some (record { begin = sz; size = n }, record b { storage = resize b.storage total })

unfoldable pub grow_output_buffer : ℕ → TripleBuffer → ℕ → Option TripleBuffer
grow_output_buffer max_size b n =
    let total = add_size (length b.storage) n in
    if ltb max_size total then none else some (record b { storage = resize b.storage total })

unfoldable pub shrink_output_buffer : TripleBuffer → ℕ → TripleBuffer
unfolding output_buffer
shrink_output_buffer b n =
    let k = min n (output_buffer b).size in
    record b { storage = resize b.storage (sub_size (length b.storage) k) }

unfoldable pub internal_input_buffer : TripleBuffer → Span
internal_input_buffer b = record { begin = b.external_input_size; size = b.internal_input_size }

unfoldable pub commit_to_internal_input : TripleBuffer → ℕ → TripleBuffer
unfolding output_buffer
commit_to_internal_input b n = record b {
  internal_input_size = add_size b.internal_input_size (min n (output_buffer b).size);
}

unfoldable pub consume_from_internal_input : TripleBuffer → ℕ → TripleBuffer
consume_from_internal_input b n =
    let k = if ltb b.internal_input_size n then b.internal_input_size else n in
    record b { internal_input_size = sub_size b.internal_input_size k }

unfoldable pub commit_whole_internal_input : TripleBuffer → TripleBuffer
commit_whole_internal_input b = record b {
  external_input_size = add_size b.external_input_size b.internal_input_size;
  internal_input_size = 0;
}

unfoldable pub external_input_buffer : TripleBuffer → Span
external_input_buffer b = record { begin = 0; size = b.external_input_size }

unfoldable pub commit_to_external_input : TripleBuffer → ℕ → TripleBuffer
commit_to_external_input b n =
    let k = if ltb b.internal_input_size n then b.internal_input_size else n in
    record b {
      external_input_size = add_size b.external_input_size k;
      internal_input_size = sub_size b.internal_input_size k;
    }

unfoldable pub consume_from_external_input : TripleBuffer → ℕ → TripleBuffer
consume_from_external_input b n =
    let k = if ltb b.external_input_size n then b.external_input_size else n in
    record b { storage = drop k b.storage; external_input_size = sub_size b.external_input_size k }

unfoldable pub consume_whole_external_input : TripleBuffer → TripleBuffer
consume_whole_external_input b = record b {
  storage = drop b.external_input_size b.storage;
  external_input_size = 0;
}

unfoldable pub mark_current_external_input : TripleBuffer → TripleBuffer
unfolding external_input_buffer
mark_current_external_input b = record b { view = external_input_buffer b }

unfoldable pub move_to_new_external_input_segment : TripleBuffer → TripleBuffer
unfolding external_input_buffer
move_to_new_external_input_segment b = record b {
  view = skip (external_input_buffer b) b.view.size;
}

-- `buffer::whole`
unfoldable pub whole : TripleBuffer → Span
unfolding external_input_buffer
whole b = external_input_buffer b

-- `begin` and `end - begin` as `buffer::consume` leaves them.
abbrev pub adjust : ℕ → ℕ → ℕ → Span
adjust n begin end =
    if ltb n begin
    then record { begin = sub_size begin n; size = sub_size end (sub_size begin n) }
    else if ltb n end
    then record { begin = 0; size = sub_size end n }
    else no_bytes

-- `buffer::consume`. `origin` is offset 0 and `data()` is offset `begin`, so the test reads
-- `begin >= 0 || begin < whole.size()`.
unfoldable pub consume : TripleBuffer → ℕ → TripleBuffer
unfolding external_input_buffer consume_from_external_input
consume b n =
    let before = external_input_buffer b in
    let b' = consume_from_external_input b n in
    if leb 0 b.view.begin || ltb b.view.begin before.size
    then record b' { view = adjust n b.view.begin (add_size b.view.begin b.view.size) }
    else b'

-- The invariant of the class: the two inputs lie in the vector, and the vector is no longer than
-- `max_size`, which `std::size_t` can count.
pub record IsValid (max_size : ℕ) (b : TripleBuffer) : Type 0 where
  pub inside : b.external_input_size + b.internal_input_size ≤ length b.storage
  pub small : length b.storage ≤ max_size
  pub countable : max_size < 2 ^ 63
