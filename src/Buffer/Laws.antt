-- ===== src/Buffer/Laws.antt =====
-- Every operation of buffer.hpp keeps the two inputs inside the vector.
use minapp.Base.{
  ℕ, ◌+◌, ◌-◌, ◌≤◌, min, ◌≡◌, some, List, length, arith, length-append, length-take, length-drop,
  length-replicate, take, replicate,
}
use minapp.Buffer.{
  TripleBuffer, Span, IsValid, resize, output_buffer, prepare_output_buffer, shrink_output_buffer,
  commit_to_internal_input, consume_from_internal_input, commit_whole_internal_input,
  commit_to_external_input, consume_from_external_input, consume_whole_external_input,
  mark_current_external_input, move_to_new_external_input_segment,
}

pub length-resize : (xs : List ℕ) (n : ℕ) → length (resize xs n) ≡ n
unfolding resize
length-resize xs n = omega (
  arith,
  length-append (take n xs) (replicate (n - length xs) 0),
  length-take n xs,
  length-replicate {A = ℕ} (n - length xs) 0,
)

module _ {m : ℕ} {b : TripleBuffer} (v : IsValid m b) where
  -- An output buffer of `n` bytes directly follows the inputs, whatever was there before.
  pub prepare_output_buffer-IsValid :
      (n : ℕ) {s : Span} {b' : TripleBuffer}
      → n ≤ m
      → prepare_output_buffer m b n ≡ some (s, b')
      → IsValid m b'
        × (s ≡ output_buffer b')
        × (s.size ≡ n)
        × (length b'.storage ≡ b.external_input_size + b.internal_input_size + n)
  unfolding prepare_output_buffer output_buffer
  prepare_output_buffer-IsValid n h e =
      ground (arith, v, length-resize b.storage (b.external_input_size + b.internal_input_size + n))

  pub prepare_output_buffer_keeps :
      (n : ℕ) {s : Span} {b' : TripleBuffer}
      → prepare_output_buffer m b n ≡ some (s, b')
      → (b'.external_input_size ≡ b.external_input_size)
        × (b'.internal_input_size ≡ b.internal_input_size)
        × (b'.view ≡ b.view)
  unfolding prepare_output_buffer
  prepare_output_buffer_keeps n e = ground arith

  pub commit_to_internal_input-IsValid : (n : ℕ) → IsValid m (commit_to_internal_input b n)
  unfolding commit_to_internal_input
  commit_to_internal_input-IsValid n = ground (arith, v)

  pub consume_from_internal_input-IsValid : (n : ℕ) → IsValid m (consume_from_internal_input b n)
  unfolding consume_from_internal_input
  consume_from_internal_input-IsValid n = ground (arith, v)

  pub commit_whole_internal_input-IsValid : IsValid m (commit_whole_internal_input b)
  unfolding commit_whole_internal_input
  commit_whole_internal_input-IsValid = ground (arith, v)

  pub commit_to_external_input-IsValid : (n : ℕ) → IsValid m (commit_to_external_input b n)
  unfolding commit_to_external_input
  commit_to_external_input-IsValid n = ground (arith, v)

  pub consume_from_external_input-IsValid : (n : ℕ) → IsValid m (consume_from_external_input b n)
  unfolding consume_from_external_input
  consume_from_external_input-IsValid n =
      ground (arith, v, length-drop n b.storage, length-drop b.external_input_size b.storage)

  pub consume_whole_external_input-IsValid : IsValid m (consume_whole_external_input b)
  unfolding consume_whole_external_input
  consume_whole_external_input-IsValid =
      ground (arith, v, length-drop b.external_input_size b.storage)

  pub mark_current_external_input-IsValid : IsValid m (mark_current_external_input b)
  unfolding mark_current_external_input
  mark_current_external_input-IsValid = ground (arith, v)

  pub move_to_new_external_input_segment-IsValid : IsValid m (move_to_new_external_input_segment b)
  unfolding move_to_new_external_input_segment
  move_to_new_external_input_segment-IsValid = ground (arith, v)

  pub shrink_output_buffer-IsValid : (n : ℕ) → IsValid m (shrink_output_buffer b n)
  unfolding shrink_output_buffer
  shrink_output_buffer-IsValid n = ground (
    arith,
    v,
    length-resize b.storage (
        length b.storage
        - min n (length b.storage - (b.external_input_size + b.internal_input_size))),
  )
