-- ===== src/Reader/Varints.antt =====
-- A sender that writes payloads behind integers of variable length, and a session that reads them.
use minapp.Base.{
  ℕ, ◌+◌, ◌-◌, ◌≤◌, ◌≡◌, refl, ap, subst, ◌∙◌, inl, true, false, some, List, [], ◌∷◌, ◌++◌, map,
  arith, length, if◌then◌else◌, All, IsByte,
}
use minapp.Protocol.{
  Protocol, Options, has_options, ignore_protocol_bytes, include_prefix_in_payload,
  use_little_endian, do_not_consume_buffer,
}
use minapp.Buffer.{TripleBuffer, IsValid, mark_current_external_input, consume_whole_external_input}
use minapp.Reader.{read_prefix, internal_bytes, start, dispatch, size_msb}
use minapp.Reader.Number.{number}
use minapp.Reader.Prefix.{IsVarint, IsVarint-pos}
use minapp.Reader.Stream.{run, Shown, after_read, Shown-within}
use minapp.Reader.Varint.{run-varint}
use minapp.Reader.Sequence.{receive, receive_more, cleared}

-- A payload and the integer before it.
pub record Framed : Type 0 where
  pub prefix : List ℕ
  pub payload : List ℕ

-- The integer has at most nine bytes and counts the payload, and the frame fits the read buffer.
pub record Counts (options : Options) (read_buffer_size : ℕ) (f : Framed) : Type 0 where
  pub varint : IsVarint f.prefix
  pub bytes : All IsByte f.prefix
  pub nine : length f.prefix ≤ 9
  pub counts : number (has_options options use_little_endian) true f.prefix ≡ (
      if has_options options include_prefix_in_payload
      then length f.payload + length f.prefix
      else length f.payload)
  pub small : length f.prefix + length f.payload ≤ read_buffer_size

abbrev pub shown_of : Options → Framed → List ℕ
shown_of options f =
    if has_options options ignore_protocol_bytes then f.payload else f.prefix ++ f.payload

abbrev pub bytes_of : List Framed → List ℕ → List ℕ
bytes_of [] rest = rest
bytes_of (f ∷ fs) rest = f.prefix ++ (f.payload ++ bytes_of fs rest)

module _ (m : ℕ) (options : Options) (read_buffer_size : ℕ) (delimiter : List ℕ) where
  start_var :
      (b : TripleBuffer)
      → has_options options do_not_consume_buffer ≡ false
      → start m options read_buffer_size Protocol.prefix_var delimiter b
        ≡ read_prefix m options read_buffer_size
            (mark_current_external_input (consume_whole_external_input b))
            size_msb
  unfolding start dispatch
  start_var b consumes = rw consumes refl

  read_varint :
      {b : TripleBuffer} (v : IsValid m b) (f : Framed) (rest : List ℕ)
      → Counts options read_buffer_size f
      → has_options options do_not_consume_buffer ≡ false
      → read_buffer_size ≤ m
      → internal_bytes b ≡ []
      → Shown m options read_buffer_size
          (if has_options options ignore_protocol_bytes then f.prefix else [])
          (shown_of options f)
          rest
          (start m options read_buffer_size Protocol.prefix_var delimiter b)
          (f.prefix ++ (f.payload ++ rest))
          11
  read_varint {b} v f rest g consumes room int =
      let clean = cleared m options read_buffer_size Protocol.prefix_var delimiter v int in
      let c = mark_current_external_input (consume_whole_external_input b) in
      let shown =
        run-varint m options read_buffer_size f.prefix clean.valid size_msb [] f.prefix f.payload
          rest (IsVarint-pos f.prefix g.varint) refl g.varint g.bytes g.nine g.counts g.small
          clean.int tt tt (inl refl) clean.view (omega (arith, clean.size, g.small, room)) in
      let within =
        Shown-within m options read_buffer_size (9 - length f.prefix) (length f.prefix + 2) 11
          (omega (arith, g.nine)) shown in
      after_read m options read_buffer_size
        (ap (λ step. run m options read_buffer_size 11 step (f.prefix ++ (f.payload ++ rest)))
          (start_var b consumes))
        (subst
          (λ (x : List ℕ).
            Shown m options read_buffer_size
              (if has_options options ignore_protocol_bytes then x ++ f.prefix else x)
              (shown_of options f) rest (read_prefix m options read_buffer_size c size_msb)
              (f.prefix ++ (f.payload ++ rest)) 11)
          clean.ext within)

  -- For `prefix_var`, a valid buffer without internal input, options that consume the handler's
  -- input before each read, and a read buffer no larger than the buffer may be: where a sender
  -- writes any payloads, each behind an integer of variable length of at most nine bytes that
  -- counts it as the options say, each of which fits the read buffer with its integer, and each
  -- read that the session starts is completed with the next bytes of the socket, the handler, if
  -- it leaves the session alone, is shown exactly these payloads in their order, with their
  -- integers unless they are ignored, and the socket has left what came after them.
  pub receive-bytes_of :
      (fs : List Framed) (b : TripleBuffer) (v : IsValid m b) (rest : List ℕ)
      → All (Counts options read_buffer_size) fs
      → has_options options do_not_consume_buffer ≡ false
      → read_buffer_size ≤ m
      → internal_bytes b ≡ []
      → receive m options read_buffer_size Protocol.prefix_var delimiter
          (length fs)
          b
          (bytes_of fs rest)
        ≡ some (map (shown_of options) fs, rest)
  unfolding receive
  receive-bytes_of [] b v rest g consumes room int = refl
  receive-bytes_of (f ∷ fs) b v rest g consumes room int =
      let one = read_varint v f (bytes_of fs rest) g.0 consumes room int in
      let more =
        receive-bytes_of fs one.buffer one.delivers.valid rest g.1 consumes room
          one.delivers.kept in
      receive_more m options read_buffer_size Protocol.prefix_var delimiter b one.buffer _
        (bytes_of fs rest) (length fs) one.ran more
      ∙ ap (λ x. some (x ∷ map (shown_of options) fs, rest)) one.delivers.shown
