-- ===== src/Reader/Arrival.antt =====
-- What the completion handlers make of the bytes that arrived.
use minapp.Base.{
  ℕ, ◌+◌, ◌≤◌, ◌≡◌, refl, sym, ap, ap₂, ◌∙◌, inl, inr, some, List, [], ◌++◌, arith, length,
  length-append, length-take, length-drop, take, drop, take-append_self, append_assoc, append-nil,
  take_all, drop_all, add_size,
}
use minapp.Buffer.{
  Span, TripleBuffer, IsValid, prepare_output_buffer, output_buffer, commit_to_internal_input,
}
use minapp.Buffer.Laws.{
  prepare_output_buffer-IsValid, commit_to_internal_input-IsValid, prepare_output_buffer_keeps,
}
use minapp.Buffer.Refine.{segments-commit_to_internal_input, segments-prepare_output_buffer}
use minapp.Buffer.Segments.{
  resize_output, Segments, segments, segments-Cut, segments_of, commit_internal,
}
use minapp.Reader.{fill, extend}

-- Bytes that fill the output buffer of a valid buffer are its output, and nothing else changes.
pub segments-fill :
    {m : ℕ} {b : TripleBuffer} (v : IsValid m b) (received : List ℕ)
    → length b.storage ≡ b.external_input_size + b.internal_input_size + length received
    → segments (fill b (output_buffer b) received) ≡ record (segments b) { output = received }
unfolding fill output_buffer
segments-fill {b = b} v received full =
    let s = segments b in
    let c = segments-Cut v in
    let at : add_size b.external_input_size b.internal_input_size
        ≡ length (s.external ++ s.internal) =
      omega (arith, v, c.ext, c.int, length-append s.external s.internal) in
    let front : take (add_size b.external_input_size b.internal_input_size) b.storage
        ≡ s.external ++ s.internal =
      ap (take (add_size b.external_input_size b.internal_input_size))
        (c.whole ∙ sym (append_assoc s.external s.internal s.output))
      ∙ take-append_self _ (s.external ++ s.internal) s.output at in
    let back : drop (add_size b.external_input_size b.internal_input_size + length received)
          b.storage
        ≡ [] =
      drop_all _ b.storage (omega (arith, v)) in
    segments_of (fill b (output_buffer b) received) s.external s.internal received
      (ap₂ (λ x y. x ++ (received ++ y)) front back
        ∙ ap (λ y. (s.external ++ s.internal) ++ y) (append-nil received)
        ∙ append_assoc s.external s.internal received)
      c.ext c.int

-- Bytes behind the inputs of a buffer that has no output are its output.
pub segments-extend :
    {m : ℕ} {b : TripleBuffer} (v : IsValid m b) (received : List ℕ)
    → (segments b).output ≡ []
    → segments (extend b received) ≡ record (segments b) { output = received }
unfolding extend
segments-extend {b = b} v received none_left =
    let s = segments b in
    let c = segments-Cut v in
    segments_of (extend b received) s.external s.internal received
      (ap (λ w. w ++ received)
          (c.whole
            ∙ ap (λ o. s.external ++ (s.internal ++ o)) none_left
            ∙ ap (◌++◌ s.external) (append-nil s.internal))
        ∙ append_assoc s.external s.internal received)
      c.ext c.int

fill-IsValid :
    {m : ℕ} {b : TripleBuffer} (received : List ℕ)
    → IsValid m b
    → length b.storage ≡ b.external_input_size + b.internal_input_size + length received
    → IsValid m (fill b (output_buffer b) received)
unfolding fill output_buffer
fill-IsValid {b = b} received v full =
    let at = add_size b.external_input_size b.internal_input_size in
    omega (
      arith,
      v,
      length-append (take at b.storage) (received ++ drop (at + length received) b.storage),
      length-append received (drop (at + length received) b.storage),
      length-take at b.storage,
      length-drop (at + length received) b.storage,
    )

view_kept :
    (c : TripleBuffer) (s : Span) (n : ℕ) (received : List ℕ)
    → (commit_to_internal_input (fill c s received) n).view ≡ c.view
unfolding commit_to_internal_input fill
view_kept c s n received = refl

prepared :
    {m : ℕ} {b : TripleBuffer} (v : IsValid m b) (n : ℕ) {s : Span} {b' : TripleBuffer}
    → n ≤ m
    → prepare_output_buffer m b n ≡ some (s, b')
    → segments b' ≡ resize_output (segments b) n
prepared v n {b' = b'} h e = elim (segments-prepare_output_buffer v n h) [
  | inl (fits, (b₂, e₂, same)) ↦ let one : b' ≡ b₂ = cc in rw one same
  | inr (over, e₂) ↦ cc
]

module _ {m : ℕ} {b : TripleBuffer} (v : IsValid m b) where
  -- An `async_read` of `n` bytes that completes: after `commit_to_internal_input(n)` the received
  -- bytes are at the end of the internal input, and the window is where it was.
  pub arrived :
      (n : ℕ) (received : List ℕ) {s : Span} {b' : TripleBuffer}
      → n ≤ m
      → prepare_output_buffer m b n ≡ some (s, b')
      → length received ≡ n
      → let after = commit_to_internal_input (fill b' s received) n in
        IsValid m after
        × (segments after
            ≡ record (segments b) { internal = (segments b).internal ++ received; output = [] })
        × (after.view ≡ b.view)
  arrived n received {s} {b'} h e len =
      let p = prepare_output_buffer-IsValid v n h e in
      let at : s ≡ output_buffer b' = p.1 in
      let seg = prepared v n h e in
      let keeps = prepare_output_buffer_keeps v n e in
      let full : length b'.storage
          ≡ b'.external_input_size + b'.internal_input_size + length received =
        omega (arith, p, keeps, len) in
      let v' : IsValid m (fill b' s received) = rw at (fill-IsValid received p.0 full) in
      let filled : segments (fill b' s received) ≡ record (segments b') { output = received } =
        rw at (segments-fill p.0 received full) in
      (
        commit_to_internal_input-IsValid v' n,
        segments-commit_to_internal_input v' n
            ∙ ap (λ t. commit_internal t n) filled
            ∙ ap
                (λ (t : Segments). record t {
                  internal = t.internal ++ take n received;
                  output = drop n received;
                })
                seg
            ∙ ap₂ (λ x y. record (segments b) { internal = (segments b).internal ++ x; output = y })
                (take_all n received (omega (arith, len)))
                (drop_all n received (omega (arith, len))),
        view_kept b' s n received ∙ keeps.2,
      )
