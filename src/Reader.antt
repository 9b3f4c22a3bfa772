-- ===== src/Reader.antt =====
-- How `session` cuts the input into messages: `read_some`, `read_fixed`, `read_delim`,
-- `read_prefix` and the completion handlers of their asynchronous reads (src/session.cpp).
-- A function ends by starting an asynchronous read, by handing a message to the handler, or by an
-- error for `check`; which of these it is, with the buffer, is its result. `Session` acts on it.
pub mod Number
pub mod Prefix
pub mod Message
pub mod Arrival
pub mod Delim
pub mod Pieces
pub mod Limits
pub mod Until
pub mod Stream
pub mod Prefixed
pub mod Varint
pub mod Sequence
pub mod Varints
use minapp.Base.{
  [], ◌∷◌, ℕ, zero, suc, ◌+◌, ◌-◌, ◌*◌, ◌/◌, ◌%◌, ◌^◌, min, Bool, true, false, not, ◌&&◌, ◌||◌,
  Option, none, some, List, [], ◌∷◌, ◌++◌, length, take, drop, get_or, ltb, leb, ◌==◌,
  if◌then◌else◌, add_size, sub_size, bit_and, bit_or,
}
use mathlib.Core.List.{reverse}
use minapp.Protocol.{
  Protocol, do_not_consume_buffer, Options, has_options, ignore_protocol_bytes, use_little_endian,
  include_prefix_in_payload,
}
use minapp.Buffer.{
  Span, TripleBuffer, bytes, output_buffer, prepare_output_buffer, grow_output_buffer,
  shrink_output_buffer, internal_input_buffer, external_input_buffer, commit_to_internal_input,
  commit_whole_internal_input, consume_whole_external_input, output_buffer, shrink_output_buffer,
  commit_to_external_input, mark_current_external_input, move_to_new_external_input_segment,
}

-- `system n` is an error that the socket reports.
pub data Errc : Type 0 where
  protocol_not_supported message_size value_too_large bad_message : Errc
  system : ℕ → Errc

-- The completion handler that a read is started with.
pub data Resume : Type 0 where
  some_read fixed_read : Resume
  prefix_read : ℕ → Resume
  delim_read : ℕ → Bool → Resume

-- `async_read_some` into a span, `async_read` that fills a span, and `async_read_until`.
pub data Request : Type 0 where
  read_some_into read_all_into : Span → Request
  read_until : List ℕ → ℕ → Request

-- `thrown` is the `std::length_error` of `prepare_output_buffer`. After `delivered n` the handler
-- is called, then the `n` bytes of a delimiter that were left out are committed.
-- `idle` is a read that starts nothing: protocol `none`.
pub data Next : Type 0 where
  idle : Next
  waiting : Request → Resume → Next
  delivered : Option ℕ → Next
  failed : Errc → Next
  thrown : Next

abbrev pub Step : Type 0
Step = Next × TripleBuffer

abbrev pub size_msb : ℕ
size_msb = 2 ^ 63

abbrev pub internal_bytes : TripleBuffer → List ℕ
internal_bytes b = take b.internal_input_size (drop b.external_input_size b.storage)

-- `commit_to_external_input`, `move_to_new_external_input_segment` and the handler.
abbrev pub deliver : TripleBuffer → ℕ → Step
deliver b n = (delivered none, move_to_new_external_input_segment (commit_to_external_input b n))

-- The body shared by the completion handlers of `read_some` and `read_fixed`.
unfoldable pub deliver_whole : TripleBuffer → ℕ → Step
deliver_whole b bytes_transferred = (
  delivered none,
  move_to_new_external_input_segment
      (commit_whole_internal_input (commit_to_internal_input b bytes_transferred)),
)

-- The most significant bit of a byte.
unfoldable pub msb : ℕ → Bool
msb c = not (bit_and c 0x80 == 0)

-- `while (len < remaining && (p[len] & 0x80u) != 0) ++len;` over the bytes from `p[len]` on.
unfoldable pub scan : List ℕ → ℕ → ℕ
unfolding msb
scan [] len = len
scan (c ∷ cs) len = if msb c then scan cs (len + 1) else len

-- `data_size |= (uintmax_t)(c & mask) << (width * i)` over the bytes in the order in which the loop
-- reaches them. `uintmax_t` has 64 bits.
unfoldable pub gather : (ℕ → ℕ) → ℕ → List ℕ → ℕ → ℕ → ℕ
gather mask width [] i data_size = data_size
gather mask width (c ∷ cs) i data_size =
    gather mask width cs (i + 1) (bit_or data_size (mask c * 2 ^ (width * i) % 2 ^ 64))

abbrev pub whole_byte : ℕ → ℕ
whole_byte c = c

abbrev pub low_bits : ℕ → ℕ
low_bits c = bit_and c 0x7f

-- The four loops of `read_prefix` over the `len` bytes of the prefix.
unfoldable pub decode : Options → Bool → List ℕ → ℕ
unfolding gather
decode options var ps =
    let cs = if has_options options use_little_endian then ps else reverse ps in
    if var then gather low_bits 7 cs 0 0 else gather whole_byte 8 cs 0 0

-- The completion handler of `read_delim`, up to the call of the session's handler.
unfoldable pub deliver_delim : TripleBuffer → ℕ → ℕ → Bool → Step
deliver_delim b bytes_transferred delim_length ignore =
    let left_out = if ignore then delim_length else 0 in
    let b' = commit_to_internal_input b (output_buffer b).size in
    (
      delivered (some left_out),
      move_to_new_external_input_segment
          (commit_to_external_input b' (sub_size bytes_transferred left_out)),
    )

module _ (max_size : ℕ) where
  -- `socket_.async_read_some` or `boost::asio::async_read` into `prepare_output_buffer(n)`.
  abbrev pub wait_for : (Span → Request) → Resume → TripleBuffer → ℕ → Step
  wait_for request resume b n = elim (prepare_output_buffer max_size b n) [
    | none ↦ (thrown, b)
    | some (span, b') ↦ (waiting (request span) resume, b')
  ]

  unfoldable pub read_some : TripleBuffer → ℕ → Step
  read_some b bufsize =
      if ltb 0 (internal_input_buffer b).size
      then deliver b bufsize
      else wait_for read_some_into some_read b bufsize

  unfoldable pub read_fixed : TripleBuffer → ℕ → Step
  read_fixed b bufsize =
      let remaining = (internal_input_buffer b).size in
      if leb bufsize remaining
      then deliver b bufsize
      else wait_for read_all_into fixed_read b (sub_size bufsize remaining)

module _ (max_size : ℕ) (options : Options) (read_buffer_size : ℕ) where
  -- The last branch of `read_prefix`, with the value of the prefix decoded.
  unfoldable pub accept : TripleBuffer → ℕ → ℕ → Step
  accept b len data_size =
      let inclusive = has_options options include_prefix_in_payload in
      let size = if inclusive then sub_size data_size len else data_size in
      let committed = commit_to_external_input b len in
      if inclusive && ltb data_size len
      then (failed bad_message, b)
      else if ltb read_buffer_size (add_size size len)
      then (failed message_size, b)
      else read_fixed max_size
          (if has_options options ignore_protocol_bytes
            then mark_current_external_input committed
            else committed)
          size

  -- The branch that lacks bytes of the prefix: it asks for `len - remaining` of them.
  unfoldable pub ask : TripleBuffer → Bool → ℕ → Step
  ask b var len =
      let remaining = (internal_input_buffer b).size in
      if ltb read_buffer_size len
      then (failed message_size, b)
      else wait_for max_size read_all_into
          (prefix_read (if var then add_size len size_msb else len)) b (sub_size len remaining)

  unfoldable pub read_prefix : TripleBuffer → ℕ → Step
  read_prefix b len₀ =
      let p = internal_bytes b in
      let remaining = (internal_input_buffer b).size in
      let var = leb size_msb len₀ in
      let len₁ = if var then sub_size len₀ size_msb else len₀ in
      let len = if len₁ == 0 then scan p 0 + 1 else len₁ in
      if ltb remaining len
      then ask b var len
      else if var && msb (get_or p (len - 1) 0)
      then ask b var (len + 1)
      else if ltb (8 + (if var then 1 else 0)) len
      then (failed value_too_large, b)
      else accept b len (decode options var (take len p))

  -- `read_delim(const std::string&)`, with BOOST_ASIO_NO_DYNAMIC_BUFFER_V1.
  unfoldable pub read_delim : TripleBuffer → List ℕ → Step
  read_delim b delim = if length delim == 0 then read_some max_size b read_buffer_size else (
    waiting (read_until delim read_buffer_size)
        (delim_read (length delim) (has_options options ignore_protocol_bytes)),
    shrink_output_buffer b (output_buffer b).size,
  )

  -- The completion handlers, for a read without an error.
  unfoldable pub resume : TripleBuffer → Resume → ℕ → Step
  unfolding deliver_delim
  resume b some_read n = deliver_whole b n
  resume b fixed_read n = deliver_whole b n
  resume b (prefix_read len) n = read_prefix (commit_to_internal_input b n) len
  resume b (delim_read delim_length ignore) n = deliver_delim b n delim_length ignore

  -- The `switch` of `session::read`.
  unfoldable pub dispatch : Protocol → List ℕ → TripleBuffer → Step
  dispatch Protocol.none delimiter b = (idle, b)
  dispatch Protocol.any delimiter b = read_some max_size b read_buffer_size
  dispatch Protocol.fixed delimiter b = read_fixed max_size b read_buffer_size
  dispatch Protocol.delim delimiter b = read_delim b delimiter
  dispatch Protocol.delim_zero delimiter b = read_delim b (0 ∷ [])
  dispatch Protocol.delim_cr delimiter b = read_delim b (13 ∷ [])
  dispatch Protocol.delim_lf delimiter b = read_delim b (10 ∷ [])
  dispatch Protocol.delim_crlf delimiter b = read_delim b (13 ∷ 10 ∷ [])
  dispatch Protocol.prefix_8 delimiter b = read_prefix b 1
  dispatch Protocol.prefix_16 delimiter b = read_prefix b 2
  dispatch Protocol.prefix_32 delimiter b = read_prefix b 4
  dispatch Protocol.prefix_64 delimiter b = read_prefix b 8
  dispatch Protocol.prefix_var delimiter b = read_prefix b size_msb
  dispatch Protocol.unknown delimiter b = (failed protocol_not_supported, b)

  -- The body of `session::read` behind its test of the status.
  unfoldable pub start : Protocol → List ℕ → TripleBuffer → Step
  start protocol delimiter b =
      let kept =
        if has_options options do_not_consume_buffer then b else consume_whole_external_input b in
      dispatch protocol delimiter (mark_current_external_input kept)

-- What the socket does before it calls a completion handler: the received bytes are in the span
-- of an `async_read` or `async_read_some`; an `async_read_until` has left them as the output.
unfoldable pub fill : TripleBuffer → Span → List ℕ → TripleBuffer
fill b s received = record b {
  storage = take s.begin b.storage ++ (received ++ drop (s.begin + length received) b.storage);
}

unfoldable pub extend : TripleBuffer → List ℕ → TripleBuffer
extend b received = record b { storage = b.storage ++ received }
