-- ===== src/Buffer/Refine.antt =====
-- The operations of `triple_buffer` on its segments.
use minapp.Base.{
  ℕ, suc, ◌+◌, ◌-◌, ◌≤◌, min, ◌≡◌, refl, sym, ap, ap₂, ◌∙◌, none, some, List, [], ◌∷◌, ◌++◌, arith,
  length, take, drop, replicate, length-append, length-take, length-drop, append_assoc,
  take-append-drop, take_all, drop_all, leb, zero, inl, inr, ◌<◌, ◌⊎◌, Bool-cases, sub_size,
  add_size, drop-append_left,
}
use native.Mathlib.Decide.{dec_le}
use minapp.Buffer.{
  TripleBuffer, output_buffer, IsValid, resize, prepare_output_buffer, commit_to_internal_input,
  consume_from_internal_input, commit_whole_internal_input, commit_to_external_input,
  consume_from_external_input, consume_whole_external_input,
}
use minapp.Buffer.Segments.{
  segments, segments_of, segments-Cut, commit_border, input_border, commit_external,
  commit_internal, uncommit_internal, consume_external, resize_output,
}

pub take-min {ℓ} : {A : Type ℓ} (n : ℕ) (xs : List A) → take (min n (length xs)) xs ≡ take n xs
take-min n xs = elim (Bool-cases (leb n (length xs))) [
  | inl e ↦ ap (λ k. take k xs) (ground arith)
  | inr e ↦
      ap (λ k. take k xs) (ground arith)
      ∙ take_all (length xs) xs (omega arith)
      ∙ sym (take_all n xs (ground arith))
]

pub drop-min {ℓ} : {A : Type ℓ} (n : ℕ) (xs : List A) → drop (min n (length xs)) xs ≡ drop n xs
drop-min n xs = elim (Bool-cases (leb n (length xs))) [
  | inl e ↦ ap (λ k. drop k xs) (ground arith)
  | inr e ↦
      ap (λ k. drop k xs) (ground arith)
      ∙ drop_all (length xs) xs (omega arith)
      ∙ sym (drop_all n xs (ground arith))
]

-- `std::vector::resize` of a list leaves what it keeps.
resize-append : (x z : List ℕ) (n k : ℕ) → k ≡ length x + n → resize (x ++ z) k ≡ x ++ resize z n
unfolding resize
resize-append [] z n k e = ap (λ i. take i z ++ replicate (i - length z) 0) (omega arith)
resize-append (a ∷ x) z n zero e = absurd (omega arith)
resize-append (a ∷ x) z n (suc k) e =
    let gap : suc k - length (a ∷ x ++ z) ≡ k - length (x ++ z) = omega arith in
    rw gap (ap (◌∷◌ a) (resize-append x z n k (omega arith)))

module _ {m : ℕ} {b : TripleBuffer} (v : IsValid m b) where
  pub output_size :
      sub_size (length b.storage) (add_size b.external_input_size b.internal_input_size)
      ≡ length (segments b).output
  output_size = omega (
    arith,
    v,
    length-drop b.internal_input_size (drop b.external_input_size b.storage),
    length-drop b.external_input_size b.storage,
  )

  -- On a valid buffer, `commit_to_external_input(n)` moves the first `n` bytes of the internal
  -- input, or all of it, to the end of the external input, and moves nothing else.
  pub segments-commit_to_external_input :
      (n : ℕ) → segments (commit_to_external_input b n) ≡ commit_external (segments b) n
  unfolding commit_to_external_input
  segments-commit_to_external_input n =
      let c = segments-Cut v in
      let s = segments b in
      let k = min n (length s.internal) in
      commit_border v (commit_to_external_input b n) k refl (omega arith) (ground (arith, v, c.int))
        (ground (arith, v, c.int))
      ∙ ap₂ (λ x y. record s { external = s.external ++ x; internal = y }) (take-min n s.internal)
          (drop-min n s.internal)

  -- `commit_whole_internal_input()` is that with all of the internal input.
  pub segments-commit_whole_internal_input :
      segments (commit_whole_internal_input b)
      ≡ commit_external (segments b) (length (segments b).internal)
  unfolding commit_whole_internal_input
  segments-commit_whole_internal_input =
      let c = segments-Cut v in
      commit_border v (commit_whole_internal_input b) (length (segments b).internal) refl
        (omega arith) (omega (arith, v, c.int)) (omega (arith, v, c.int))

  -- `commit_to_internal_input(n)` takes the first `n` bytes of the output, or all of it, and
  -- leaves the external input alone.
  pub segments-commit_to_internal_input :
      (n : ℕ) → segments (commit_to_internal_input b n) ≡ commit_internal (segments b) n
  unfolding commit_to_internal_input output_buffer
  segments-commit_to_internal_input n =
      let c = segments-Cut v in
      let s = segments b in
      input_border v (commit_to_internal_input b n) (s.internal ++ take n s.output)
        (drop n s.output) refl
        (ap (◌++◌ s.internal) (sym (take-append-drop n s.output)) ∙ simp append_assoc) refl
        (omega (
          arith,
          v,
          output_size,
          c.int,
          length-append s.internal (take n s.output),
          length-take n s.output,
          length-take b.internal_input_size (drop b.external_input_size b.storage),
          length-drop b.internal_input_size (drop b.external_input_size b.storage),
          length-drop b.external_input_size b.storage,
        ))

  -- On a valid buffer, `consume_from_internal_input(n)` gives the last `n` bytes of the internal
  -- input, or all of it, back to the front of the output, and moves nothing else.
  pub segments-consume_from_internal_input :
      (n : ℕ) → segments (consume_from_internal_input b n) ≡ uncommit_internal (segments b) n
  unfolding consume_from_internal_input
  segments-consume_from_internal_input n =
      let c = segments-Cut v in
      let s = segments b in
      let k = length s.internal - n in
      input_border v (consume_from_internal_input b n) (take k s.internal)
        (drop k s.internal ++ s.output) refl
        (ap (λ w. w ++ s.output) (sym (take-append-drop k s.internal)) ∙ simp append_assoc) refl
        (ground (arith, v, c.int, length-take k s.internal))

  -- `consume_from_external_input(n)` drops the first `n` bytes of the external input, or all of
  -- it, and leaves the other two.
  pub segments-consume_from_external_input :
      (n : ℕ) → segments (consume_from_external_input b n) ≡ consume_external (segments b) n
  unfolding consume_from_external_input
  segments-consume_from_external_input n =
      let c = segments-Cut v in
      let s = segments b in
      let k = min n (length s.external) in
      segments_of (consume_from_external_input b n) (drop n s.external) s.internal s.output
        (ap (λ i. drop i b.storage) (ground (arith, c.ext))
          ∙ ap (drop k) c.whole
          ∙ drop-append_left k s.external (s.internal ++ s.output) (omega arith)
          ∙ ap (λ w. w ++ (s.internal ++ s.output)) (drop-min n s.external))
        (ground (arith, v, c.ext, length-drop n s.external)) c.int

  -- `consume_whole_external_input()` is that with all of the external input.
  pub segments-consume_whole_external_input :
      segments (consume_whole_external_input b)
      ≡ consume_external (segments b) (length (segments b).external)
  unfolding consume_whole_external_input
  segments-consume_whole_external_input =
      let c = segments-Cut v in
      let s = segments b in
      segments_of (consume_whole_external_input b) (drop (length s.external) s.external) s.internal
        s.output
        (ap (λ i. drop i b.storage) c.ext
          ∙ ap (drop (length s.external)) c.whole
          ∙ drop-append_left (length s.external) s.external (s.internal ++ s.output) (omega arith))
        (omega (arith, length-drop (length s.external) s.external)) c.int

  -- A resize that keeps the inputs.
  output_border :
      (b' : TripleBuffer) (n k : ℕ)
      → k ≡ b.external_input_size + b.internal_input_size + n
      → b'.storage ≡ resize b.storage k
      → b'.external_input_size ≡ b.external_input_size
      → b'.internal_input_size ≡ b.internal_input_size
      → segments b' ≡ resize_output (segments b) n
  unfolding resize
  output_border b' n k e st ex int =
      let c = segments-Cut v in
      let s = segments b in
      segments_of b' s.external s.internal (resize s.output n)
        (st
          ∙ ap (λ w. resize w k) c.whole
          ∙ resize-append s.external (s.internal ++ s.output) (length s.internal + n) k
              (omega (arith, c.ext, c.int))
          ∙ ap (◌++◌ s.external) (resize-append s.internal s.output n (length s.internal + n) refl))
        (ex ∙ c.ext) (int ∙ c.int)

  -- On a valid buffer and for `n` at most `max_size`, `prepare_output_buffer(n)` keeps both inputs
  -- and leaves an output of `n` bytes where the inputs and `n` bytes fit `max_size`, and fails
  -- where they do not.
  pub segments-prepare_output_buffer :
      (n : ℕ)
      → n ≤ m
      → (b.external_input_size + b.internal_input_size + n ≤ m)
          × ((b' : TripleBuffer) × (prepare_output_buffer m b n
                ≡ some (
                  record { begin = b.external_input_size + b.internal_input_size; size = n },
                  b',
                ))
              × (segments b' ≡ resize_output (segments b) n))
        ⊎ (m < b.external_input_size + b.internal_input_size + n)
          × (prepare_output_buffer m b n ≡ none)
  unfolding prepare_output_buffer
  segments-prepare_output_buffer n h =
      elim (dec_le (b.external_input_size + b.internal_input_size + n) m) [
        | yes fits ↦ inl (
          fits,
          (
            record b {
              storage = resize b.storage (b.external_input_size + b.internal_input_size + n);
            },
            ground (arith, v),
            output_border
                (record b {
                  storage = resize b.storage (b.external_input_size + b.internal_input_size + n);
                })
                n _ refl refl refl refl,
          ),
        )
        | no over ↦ inr (omega (arith), ground (arith, v))
      ]
