-- ===== src/Reader/Message.antt =====
-- The message that a handler is given: the bytes, and what stays in the buffer.
use minapp.Base.{
  ℕ, ◌+◌, ◌^◌, ◌≤◌, ◌<◌, ◌≡◌, refl, sym, ap, ◌∙◌, Bool, true, false, none, List, ◌++◌, append_assoc,
  arith, length, length-append, take, drop, if◌then◌else◌, take-append_self, drop-append_self,
  Bool-cases, inl, inr, IsByte, All, le→leb, le→ltb, sub_size, add_size, [], append-nil,
}
use minapp.Protocol.{
  Options, has_options, ignore_protocol_bytes, include_prefix_in_payload, use_little_endian,
}
use minapp.Buffer.{
  TripleBuffer, IsValid, window, internal_input_buffer, commit_to_external_input,
  mark_current_external_input, move_to_new_external_input_segment,
}
use minapp.Buffer.Laws.{
  commit_to_external_input-IsValid, mark_current_external_input-IsValid,
  move_to_new_external_input_segment-IsValid,
}
use minapp.Buffer.Segments.{segments, segments-Cut}
use minapp.Buffer.Refine.{segments-commit_to_external_input}
use minapp.Buffer.Window.{window-move_to_new_external_input_segment}
use minapp.Reader.{
  Step, delivered, internal_bytes, deliver, read_fixed, accept, read_prefix, size_msb,
}
use minapp.Reader.Number.{number}
use minapp.Reader.Prefix.{IsVarint, read_prefix_fixed, read_prefix_var}

-- The handler is called, its window shows `message`, and after the message the internal input
-- still has `rest`.
pub record Delivers (max_size : ℕ) (before message rest : List ℕ) (s : Step) : Type 0 where
  pub called : s.0 ≡ delivered none
  pub shown : window s.1 ≡ message
  pub kept : internal_bytes s.1 ≡ rest
  pub all : (segments s.1).external ≡ before ++ message
  pub valid : IsValid max_size s.1

-- Marking and moving the window leaves the segments.
pub segments-mark : (b : TripleBuffer) → segments (mark_current_external_input b) ≡ segments b
unfolding mark_current_external_input
segments-mark b = refl

pub segments-move :
    (b : TripleBuffer) → segments (move_to_new_external_input_segment b) ≡ segments b
unfolding move_to_new_external_input_segment
segments-move b = refl

pub view-commit : (b : TripleBuffer) (n : ℕ) → (commit_to_external_input b n).view ≡ b.view
unfolding commit_to_external_input
view-commit b n = refl

pub view-mark :
    (b : TripleBuffer) → (mark_current_external_input b).view.size ≡ b.external_input_size
unfolding mark_current_external_input
view-mark b = refl

module _ (m : ℕ) where
  -- A delivery at a window that began behind `x`, with `y` of the message committed before.
  pub deliver-Delivers :
      {b : TripleBuffer} (v : IsValid m b) (x y payload rest : List ℕ)
      → (segments b).external ≡ x ++ y
      → (segments b).internal ≡ payload ++ rest
      → b.view.size ≡ length x
      → Delivers m x (y ++ payload) rest (deliver b (length payload))
  deliver-Delivers {b} v x y payload rest ext int view =
      let n = length payload in
      let b' = commit_to_external_input b n in
      let v' = commit_to_external_input-IsValid v n in
      let s = segments-commit_to_external_input v n in
      let first : take n (segments b).internal ≡ payload =
        ap (take n) int ∙ take-append_self n payload rest refl in
      let second : drop n (segments b).internal ≡ rest =
        ap (drop n) int ∙ drop-append_self n payload rest refl in
      let whole : (segments b').external ≡ x ++ (y ++ payload) =
        ap (λ t. t.external) s
        ∙ ap (λ t. (segments b).external ++ t) first
        ∙ ap (λ t. t ++ payload) ext
        ∙ append_assoc x y payload in
      record {
        called = refl;
        shown =
            window-move_to_new_external_input_segment v' x (y ++ payload) whole
              (ap (λ t. t.size) (view-commit b n) ∙ view);
        kept = ap (λ t. t.internal) (segments-move b') ∙ ap (λ t. t.internal) s ∙ second;
        all = ap (λ t. t.external) (segments-move b') ∙ whole;
        valid = move_to_new_external_input_segment-IsValid v';
      }

  -- `read_fixed(n)` with `n` bytes of internal input at least delivers the first `n` of them.
  pub read_fixed-Delivers :
      {b : TripleBuffer} (v : IsValid m b) (x y payload rest : List ℕ)
      → (segments b).external ≡ x ++ y
      → (segments b).internal ≡ payload ++ rest
      → b.view.size ≡ length x
      → Delivers m x (y ++ payload) rest (read_fixed m b (length payload))
  unfolding read_fixed internal_input_buffer
  read_fixed-Delivers {b} v x y payload rest ext int view =
      let enough : length payload ≤ b.internal_input_size =
        omega (arith, (segments-Cut v).int, ap length int, length-append payload rest) in
      rw (le→leb _ _ enough) (deliver-Delivers v x y payload rest ext int view)

  -- The size checks of an accepted prefix.
  pub accept_passes :
      (options : Options) (read_buffer_size : ℕ) (b : TripleBuffer) (len size : ℕ)
      → len + size ≤ read_buffer_size
      → len + size < 2 ^ 63
      → let committed = commit_to_external_input b len in
        accept m options read_buffer_size b len
          (if has_options options include_prefix_in_payload then size + len else size)
        ≡ read_fixed m
            (if has_options options ignore_protocol_bytes
              then mark_current_external_input committed
              else committed)
            size
  unfolding accept
  accept_passes options read_buffer_size b len size fits small =
      elim (Bool-cases (has_options options include_prefix_in_payload)) [
        | inl e ↦
            let back : sub_size (size + len) len ≡ size = omega arith in
            rw (
              e,
              back,
              le→ltb (size + len) len (omega arith),
              le→ltb read_buffer_size (add_size size len) (omega arith),
            )
        | inr e ↦ rw (e, le→ltb read_buffer_size (add_size size len) (omega arith))
      ]

  -- An accepted prefix with its payload behind it. `ps` are the bytes of the prefix. The handler is
  -- shown the payload, with the prefix before it unless the option `ignore_protocol_bytes` is set,
  -- where the number in the prefix counts the payload, or both, as `include_prefix_in_payload`
  -- says, and both fit the read buffer.
  pub accept-Delivers :
      (options : Options) (read_buffer_size : ℕ) {b : TripleBuffer} (v : IsValid m b)
      (ps payload rest : List ℕ)
      → internal_bytes b ≡ ps ++ (payload ++ rest)
      → b.view.size ≡ b.external_input_size
      → length ps + length payload ≤ read_buffer_size
      → let ignored = has_options options ignore_protocol_bytes in
        let inclusive = has_options options include_prefix_in_payload in
        let before = (segments b).external in
        Delivers m
          (if ignored then before ++ ps else before)
          (if ignored then payload else ps ++ payload)
          rest
          (accept m options read_buffer_size b
            (length ps)
            (if inclusive then length payload + length ps else length payload))
  accept-Delivers options read_buffer_size {b} v ps payload rest int view fits =
      let len = length ps in
      let c = segments-Cut v in
      let b' = commit_to_external_input b len in
      let v' = commit_to_external_input-IsValid v len in
      let s = segments-commit_to_external_input v len in
      let ext : (segments b').external ≡ (segments b).external ++ ps =
        ap (λ t. t.external) s
        ∙ ap (λ t. (segments b).external ++ t)
            (ap (take len) int ∙ take-append_self len ps (payload ++ rest) refl) in
      let int' : (segments b').internal ≡ payload ++ rest =
        ap (λ t. t.internal) s
        ∙ ap (drop len) int
        ∙ drop-append_self len ps (payload ++ rest) refl in
      let small : len + length payload < 2 ^ 63 = omega (
        arith,
        v,
        c.int,
        ap length int,
        length-append ps (payload ++ rest),
        length-append payload rest,
      ) in
      let step = accept_passes options read_buffer_size b len (length payload) fits small in
      elim (Bool-cases (has_options options ignore_protocol_bytes)) [
        | inl e ↦
            rw (step, e)
              (read_fixed-Delivers (mark_current_external_input-IsValid v')
                ((segments b).external ++ ps) [] payload rest
                (ap (λ t. t.external) (segments-mark b')
                  ∙ ext
                  ∙ sym (append-nil ((segments b).external ++ ps)))
                (ap (λ t. t.internal) (segments-mark b') ∙ int')
                (view-mark b' ∙ (segments-Cut v').ext ∙ ap length ext))
        | inr e ↦
            rw (step, e)
              (read_fixed-Delivers v' (segments b).external ps payload rest ext int'
                (ap (λ t. t.size) (view-commit b len) ∙ view ∙ c.ext))
      ]

-- A complete frame at the start of the internal input: `ps`, a prefix of `n` bytes, then as many
-- bytes of payload as its number says. `read_prefix` hands exactly this message to the handler.
abbrev pub Frame : ℕ → Options → ℕ → Bool → TripleBuffer → List ℕ → List ℕ → List ℕ → Type 0
Frame m options read_buffer_size var b ps payload rest =
    (internal_bytes b ≡ ps ++ (payload ++ rest))
    × (b.view.size ≡ b.external_input_size)
    × All IsByte ps
    × (number (has_options options use_little_endian) var ps ≡ (
        if has_options options include_prefix_in_payload
        then length payload + length ps
        else length payload))
    × (length ps + length payload ≤ read_buffer_size)

-- The message of a frame, and what the external input holds before it.
abbrev pub Handed : ℕ → Options → TripleBuffer → List ℕ → List ℕ → List ℕ → Step → Type 0
Handed m options b ps payload rest =
    let ignored = has_options options ignore_protocol_bytes in
    let before = (segments b).external in
    Delivers m (if ignored then before ++ ps else before)
      (if ignored then payload else ps ++ payload) rest

module _ (m : ℕ) (options : Options) (read_buffer_size : ℕ) {b : TripleBuffer} (v : IsValid m b)
    (ps payload rest : List ℕ) where
  -- Where the internal input of a valid buffer, whose window has the size of the external input,
  -- begins with a complete frame behind a prefix of one to eight bytes, and the frame fits the read buffer, `read_prefix` of that width calls the
  -- handler with exactly this message in its window, with the prefix unless it is ignored, leaves
  -- what follows the frame as internal input, and the buffer is valid.
  pub read_prefix_fixed-Handed :
      Frame m options read_buffer_size false b ps payload rest
      → 0 < length ps
      → length ps ≤ 8
      → Handed m options b ps payload rest (read_prefix m options read_buffer_size b (length ps))
  read_prefix_fixed-Handed (int, view, h, num, fits) pos small =
      rw
        (
          read_prefix_fixed m options read_buffer_size v (length ps) ps (payload ++ rest) int h refl
              pos small,
          num,
        )
        (accept-Delivers m options read_buffer_size v ps payload rest int view fits)

  -- Where the internal input of a valid buffer, whose window has the size of the external input,
  -- begins with a complete frame behind an integer of variable length of at most nine bytes, and
  -- the frame fits the read buffer, `read_prefix` for `prefix_var` calls the handler with exactly
  -- this message in its window, with the prefix unless it is ignored, leaves what follows the
  -- frame as internal input, and the buffer is valid.
  pub read_prefix_var-Handed :
      Frame m options read_buffer_size true b ps payload rest
      → IsVarint ps
      → length ps ≤ 9
      → Handed m options b ps payload rest (read_prefix m options read_buffer_size b size_msb)
  read_prefix_var-Handed (int, view, h, num, fits) varint small =
      rw
        (
          read_prefix_var m options read_buffer_size v size_msb ps (payload ++ rest) int varint h
              (inl refl),
          le→ltb 9 (length ps) small,
          num,
        )
        (accept-Delivers m options read_buffer_size v ps payload rest int view fits)
