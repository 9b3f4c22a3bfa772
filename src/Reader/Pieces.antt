-- ===== src/Reader/Pieces.antt =====
-- Messages that arrive in pieces: the reads that wait, and what their completion handlers do.
use minapp.Base.{
  ℕ, ◌+◌, ◌≤◌, ◌<◌, ◌≡◌, refl, sym, ap, ap₂, ◌∙◌, true, false, some, none, List, [], ◌++◌, arith,
  length, IsByte, All, append_assoc, append-nil, drop_all, take_all, inr,
}
use minapp.Protocol.{Options, has_options, use_little_endian}
use minapp.Buffer.{
  Span, TripleBuffer, IsValid, prepare_output_buffer, commit_to_internal_input,
  commit_whole_internal_input, move_to_new_external_input_segment,
}
use minapp.Buffer.Laws.{
  commit_whole_internal_input-IsValid, move_to_new_external_input_segment-IsValid,
}
use minapp.Buffer.Refine.{segments-commit_whole_internal_input}
use minapp.Buffer.Window.{window-move_to_new_external_input_segment}
use minapp.Buffer.Segments.{Segments, segments}
use minapp.Reader.{
  fill, resume, deliver_whole, fixed_read, prefix_read, accept, internal_bytes, size_msb, delivered,
}
use minapp.Reader.Number.{number}
use minapp.Reader.Prefix.{IsVarint, read_prefix_fixed, read_prefix_var}
use minapp.Reader.Message.{Delivers, segments-move}
use minapp.Reader.Arrival.{arrived}

view-commit_whole : (b : TripleBuffer) → (commit_whole_internal_input b).view ≡ b.view
unfolding commit_whole_internal_input
view-commit_whole b = refl

-- All of the input is delivered.
whole-Delivers :
    (m : ℕ) {c : TripleBuffer} (v : IsValid m c) (x y : List ℕ)
    → (segments c).external ++ (segments c).internal ≡ x ++ y
    → c.view.size ≡ length x
    → Delivers m x y []
        (delivered none, move_to_new_external_input_segment (commit_whole_internal_input c))
whole-Delivers m {c} v x y ext view =
    let n = length (segments c).internal in
    let v' = commit_whole_internal_input-IsValid v in
    let s = segments-commit_whole_internal_input v in
    let whole : (segments (commit_whole_internal_input c)).external ≡ x ++ y =
      ap (λ t. t.external) s
      ∙ ap (λ w. (segments c).external ++ w) (take_all n (segments c).internal (omega arith))
      ∙ ext in
    record {
      called = refl;
      shown =
          window-move_to_new_external_input_segment v' x y whole
            (ap (λ t. t.size) (view-commit_whole c) ∙ view);
      kept =
          ap (λ t. t.internal) (segments-move (commit_whole_internal_input c))
          ∙ ap (λ t. t.internal) s
          ∙ drop_all n (segments c).internal (omega arith);
      all = ap (λ t. t.external) (segments-move (commit_whole_internal_input c)) ∙ whole;
      valid = move_to_new_external_input_segment-IsValid v';
    }

module _ (m : ℕ) (options : Options) (read_buffer_size : ℕ) {b : TripleBuffer} (v : IsValid m b)
    {s : Span} {b' : TripleBuffer} where
  -- Where a valid buffer's window began behind `x` and its external input is `x ++ y`, the
  -- completion handler of `read_some` and `read_fixed`, for a read into the prepared output that
  -- got all its bytes, calls the handler with `y`, the internal input and the received bytes in
  -- its window, and leaves no internal input.
  pub resume_fixed-Delivers :
      (x y received : List ℕ)
      → (segments b).external ≡ x ++ y
      → b.view.size ≡ length x
      → length received ≤ m
      → prepare_output_buffer m b (length received) ≡ some (s, b')
      → Delivers m x
          (y ++ ((segments b).internal ++ received))
          []
          (resume m options read_buffer_size (fill b' s received) fixed_read (length received))
  unfolding resume deliver_whole
  resume_fixed-Delivers x y received ext view small e =
      let a = arrived v (length received) received small e refl in
      whole-Delivers m a.0 x (y ++ ((segments b).internal ++ received))
        (ap₂ (λ (t u : Segments). t.external ++ u.internal) a.1 a.1
          ∙ ap (λ w. w ++ ((segments b).internal ++ received)) ext
          ∙ append_assoc x y ((segments b).internal ++ received))
        (ap (λ t. t.size) a.2 ∙ view)

  -- A prefix of fixed width that arrives in two pieces, `ps` and then `received`, is decoded as a
  -- whole.
  pub resume_prefix_fixed :
      (n : ℕ) (ps received : List ℕ)
      → internal_bytes b ≡ ps
      → All IsByte (ps ++ received)
      → length (ps ++ received) ≡ n
      → 0 < n
      → n ≤ 8
      → length received ≤ m
      → prepare_output_buffer m b (length received) ≡ some (s, b')
      → let c = commit_to_internal_input (fill b' s received) (length received) in
        resume m options read_buffer_size (fill b' s received) (prefix_read n) (length received)
        ≡ accept m options read_buffer_size c n
            (number (has_options options use_little_endian) false (ps ++ received))
  unfolding resume
  resume_prefix_fixed n ps received int bytes len pos eight small e =
      let a = arrived v (length received) received small e refl in
      read_prefix_fixed m options read_buffer_size a.0 n (ps ++ received) []
        (ap (λ (t : Segments). t.internal) a.1
          ∙ ap (λ w. w ++ received) int
          ∙ sym (append-nil (ps ++ received)))
        bytes len pos eight

  -- Where the internal input of a valid buffer and the received bytes are together an integer of
  -- variable length of at most nine bytes, the completion handler of `read_prefix` decodes them as
  -- one number and goes on to the checks of the size with it.
  pub resume_prefix_var :
      (ps received : List ℕ)
      → internal_bytes b ≡ ps
      → All IsByte (ps ++ received)
      → IsVarint (ps ++ received)
      → length (ps ++ received) ≤ 9
      → length received ≤ m
      → prepare_output_buffer m b (length received) ≡ some (s, b')
      → let c = commit_to_internal_input (fill b' s received) (length received) in
        resume m options read_buffer_size
          (fill b' s received)
          (prefix_read (size_msb + length (ps ++ received)))
          (length received)
        ≡ accept m options read_buffer_size c
            (length (ps ++ received))
            (number (has_options options use_little_endian) true (ps ++ received))
  unfolding resume
  resume_prefix_var ps received int bytes varint nine small e =
      let a = arrived v (length received) received small e refl in
      read_prefix_var m options read_buffer_size a.0 (size_msb + length (ps ++ received))
        (ps ++ received) []
        (ap (λ (t : Segments). t.internal) a.1
          ∙ ap (λ w. w ++ received) int
          ∙ sym (append-nil (ps ++ received)))
        varint bytes (inr refl)
      ∙ ground (arith, nine)
