-- ===== src/Reader/Limits.antt =====
-- The size checks of `read_prefix`.
use minapp.Base.{
  ℕ, ◌+◌, ◌-◌, ◌^◌, ◌≤◌, ◌<◌, ◌≡◌, refl, true, false, arith, length, if◌then◌else◌, Bool-cases, inl,
  inr, le→ltb, add_size,
}
use minapp.Protocol.{Options, has_options, include_prefix_in_payload, ignore_protocol_bytes}
use minapp.Buffer.{
  Span, resize, TripleBuffer, IsValid, internal_input_buffer, prepare_output_buffer,
  commit_to_external_input, mark_current_external_input,
}
use minapp.Buffer.Laws.{
  length-resize, commit_to_external_input-IsValid, mark_current_external_input-IsValid,
}
use minapp.Reader.{
  accept, read_fixed, failed, bad_message, message_size, waiting, read_all_into, fixed_read,
}

-- A resize to a sum that passes 2 ^ 64.
read_fixed_wraps :
    (m : ℕ) (c : TripleBuffer) (n : ℕ)
    → IsValid m c
    → c.internal_input_size ≡ 0
    → n < 2 ^ 64
    → 2 ^ 64 ≤ c.external_input_size + n
    → (s : Span) × (c' : TripleBuffer) × (read_fixed m c n
        ≡ (waiting (read_all_into s) fixed_read, c'))
      × (s.size ≡ n)
      × (length c'.storage < s.begin)
unfolding read_fixed internal_input_buffer prepare_output_buffer
read_fixed_wraps m c n v only small large =
    let total = c.external_input_size + n - 2 ^ 64 in
    (
      record { begin = c.external_input_size; size = n },
      record c { storage = resize c.storage total },
      ground (arith, v),
      refl,
      omega (arith, v, length-resize c.storage total),
    )

module _ (m : ℕ) (options : Options) (read_buffer_size : ℕ) (b : TripleBuffer)
    (len data_size : ℕ) where
  -- A number that counts the prefix too and is less than its length is a bad message.
  pub accept_bad_message :
      has_options options include_prefix_in_payload ≡ true
      → data_size < len
      → accept m options read_buffer_size b len data_size ≡ (failed bad_message, b)
  unfolding accept
  accept_bad_message inclusive short = ground arith

  -- A frame that is longer than the read buffer, prefix included, is refused with `message_size`
  -- and the buffer is left alone, where the length of the frame is below `2 ^ 64` and a number
  -- that counts the prefix is at least the prefix's length.
  pub accept_message_size :
      let inclusive = has_options options include_prefix_in_payload in
      let total = if inclusive then data_size else data_size + len in
      read_buffer_size < total
      → len ≤ total
      → total < 2 ^ 64
      → accept m options read_buffer_size b len data_size ≡ (failed message_size, b)
  unfolding accept
  accept_message_size large whole fits = ground arith

  accept_passes_check :
      has_options options include_prefix_in_payload ≡ false
      → data_size < 2 ^ 64
      → 2 ^ 64 ≤ data_size + len
      → data_size + len ≤ read_buffer_size + 2 ^ 64
      → len < 2 ^ 63
      → accept m options read_buffer_size b len data_size
        ≡ read_fixed m
            (if has_options options ignore_protocol_bytes
              then mark_current_external_input (commit_to_external_input b len)
              else commit_to_external_input b len)
            data_size
  unfolding accept
  accept_passes_check exclusive small large fits below =
      rw (exclusive, le→ltb read_buffer_size (add_size data_size len) (omega arith))

  committed_sizes :
      IsValid m b
      → b.internal_input_size ≡ len
      → ((commit_to_external_input b len).external_input_size ≡ b.external_input_size + len)
        × ((commit_to_external_input b len).internal_input_size ≡ 0)
  unfolding commit_to_external_input
  committed_sizes v only = ground (arith, v)

  -- Where the prefix is all the internal input of a valid buffer and its number, which does not
  -- count the prefix, is such that the sum with the prefix's length passes `2 ^ 64` and is, less
  -- `2 ^ 64`, at most the size of the read buffer, the check of the size lets it pass, and
  -- `async_read` is started on a span of that many bytes that begins behind the end of the vector.
  pub accept_wraps :
      IsValid m b
      → has_options options include_prefix_in_payload ≡ false
      → b.internal_input_size ≡ len
      → data_size < 2 ^ 64
      → 2 ^ 64 ≤ data_size + len
      → data_size + len ≤ read_buffer_size + 2 ^ 64
      → (s : Span) × (b' : TripleBuffer) × (accept m options read_buffer_size b len data_size
          ≡ (waiting (read_all_into s) fixed_read, b'))
        × (s.size ≡ data_size)
        × (length b'.storage < s.begin)
  accept_wraps v exclusive only small large fits =
      let committed = commit_to_external_input b len in
      let sizes = committed_sizes v only in
      rw (accept_passes_check exclusive small large fits (omega (arith, v)))
        (elim (Bool-cases (has_options options ignore_protocol_bytes)) [
          | inl e ↦ rw e (
              read_fixed_wraps m (mark_current_external_input committed) data_size
                (mark_current_external_input-IsValid (commit_to_external_input-IsValid v len))
                (unfold mark_current_external_input in sizes.1) small
                (unfold mark_current_external_input in omega (arith, sizes, v)))
          | inr e ↦ rw e (
              read_fixed_wraps m committed data_size (commit_to_external_input-IsValid v len)
                sizes.1 small (omega (arith, sizes, v)))
        ])
