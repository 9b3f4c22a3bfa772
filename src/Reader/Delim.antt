-- ===== src/Reader/Delim.antt =====
-- Messages that end with a delimiter.
use minapp.Base.{
  ℕ, ◌+◌, ◌^◌, ◌<◌, ◌≡◌, refl, sym, ap, ◌∙◌, Bool, true, false, some, List, [], ◌++◌, arith, length,
  length-append, drop, append_assoc, drop-append_self, if◌then◌else◌, sub_size, take_all,
  append-nil,
}
use minapp.Buffer.{
  TripleBuffer, IsValid, window, output_buffer, commit_to_internal_input, commit_to_external_input,
}
use minapp.Buffer.Laws.{commit_to_internal_input-IsValid}
use minapp.Buffer.Refine.{
  segments-commit_to_internal_input, segments-commit_to_external_input, output_size,
}
use minapp.Buffer.Segments.{segments, segments-Cut}
use minapp.Reader.{deliver_delim, deliver, delivered, internal_bytes}
use minapp.Reader.Message.{deliver-Delivers}

-- The internal input and the output together, when the library's `async_read_until` has found the
-- delimiter: a line, the delimiter, and whatever came with them.
abbrev pub Line : TripleBuffer → List ℕ → List ℕ → List ℕ → Type 0
Line b line delim rest =
    ((segments b).internal ++ (segments b).output ≡ line ++ (delim ++ rest))
    × (b.view.size ≡ b.external_input_size)

-- All of the output becomes internal input.
whole_output :
    {m : ℕ} {b : TripleBuffer}
    → IsValid m b
    → let b' = commit_to_internal_input b (output_buffer b).size in
      ((segments b').internal ≡ (segments b).internal ++ (segments b).output)
      × ((segments b').external ≡ (segments b).external)
      × (b'.view ≡ b.view)
      × (b'.external_input_size ≡ b.external_input_size)
unfolding commit_to_internal_input output_buffer
whole_output {b = b} v =
    let n = (output_buffer b).size in
    let s = segments-commit_to_internal_input v n in
    (
      ap (λ t. t.internal) s
          ∙ ap (λ w. (segments b).internal ++ w)
              (take_all n (segments b).output (omega (arith, output_size v))),
      ap (λ t. t.external) s,
      refl,
      refl,
    )

-- A line in a valid buffer is far shorter than what `std::size_t` counts.
line_short :
    {m : ℕ} {b : TripleBuffer}
    → IsValid m b
    → (line delim rest : List ℕ)
    → (segments b).internal ++ (segments b).output ≡ line ++ (delim ++ rest)
    → length line + length delim < 2 ^ 63
line_short {b = b} v line delim rest e =
    let s = segments b in
    let c = segments-Cut v in
    omega (
      arith,
      v,
      ap length e,
      ap length c.whole,
      length-append s.external (s.internal ++ s.output),
      length-append s.internal s.output,
      length-append line (delim ++ rest),
      length-append delim rest,
    )

-- A delivery of `payload`, and then a commit of the first part of what is left.
deliver_and_commit :
    {m : ℕ} {b : TripleBuffer} (v : IsValid m b) (k j : ℕ) (payload left rest : List ℕ)
    → (segments b).internal ≡ payload ++ (left ++ rest)
    → b.view.size ≡ b.external_input_size
    → k ≡ length payload
    → j ≡ length left
    → let s = deliver b k in
      (window s.1 ≡ payload) × (internal_bytes (commit_to_external_input s.1 j) ≡ rest)
deliver_and_commit {m} {b} v k j payload left rest int view ek ej =
    let d =
      deliver-Delivers m v (segments b).external [] payload (left ++ rest)
        (sym (append-nil (segments b).external)) int (view ∙ (segments-Cut v).ext) in
    rw (ek, ej)
      (
        d.shown,
        ap (λ t. t.internal) (segments-commit_to_external_input d.valid (length left))
            ∙ ap (drop (length left)) d.kept
            ∙ drop-append_self (length left) left rest refl,
      )

-- Where the internal input and the output of a valid buffer are together a line, the delimiter and
-- a rest, and the window's size is that of the external input, the completion handler of
-- `read_delim` calls the handler with the line in its window, with the delimiter unless that is
-- ignored; once the delimiter that was left out is committed, the internal input is the rest.
pub deliver_delim_lem :
    {m : ℕ} {b : TripleBuffer} (v : IsValid m b) (line delim rest : List ℕ) (ignore : Bool)
    → Line b line delim rest
    → let s = deliver_delim b (length line + length delim) (length delim) ignore in
      let left_out = if ignore then length delim else 0 in
      (s.0 ≡ delivered (some left_out))
      × (window s.1 ≡ (if ignore then line else line ++ delim))
      × (internal_bytes (commit_to_external_input s.1 left_out) ≡ rest)
unfolding deliver_delim
deliver_delim_lem {m} {b} v line delim rest true (int, view) =
    let v' = commit_to_internal_input-IsValid v (output_buffer b).size in
    let w = whole_output v in
    let d =
      deliver_and_commit v' (sub_size (length line + length delim) (length delim)) (length delim)
        line delim rest (w.0 ∙ int) (ap (λ t. t.size) w.2 ∙ view ∙ sym w.3)
        (omega (arith, line_short v line delim rest int)) refl in
    (refl, d.0, d.1)
deliver_delim_lem {m} {b} v line delim rest false (int, view) =
    let v' = commit_to_internal_input-IsValid v (output_buffer b).size in
    let w = whole_output v in
    let d =
      deliver_and_commit v' (sub_size (length line + length delim) 0) 0 (line ++ delim) [] rest
        (w.0 ∙ int ∙ sym (append_assoc line delim rest)) (ap (λ t. t.size) w.2 ∙ view ∙ sym w.3)
        (omega (arith, line_short v line delim rest int, length-append line delim)) refl in
    (refl, d.0, d.1)
