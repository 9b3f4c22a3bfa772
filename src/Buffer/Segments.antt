-- ===== src/Buffer/Segments.antt =====
-- The picture in buffer.hpp: external input, internal input and output, as three lists. The
-- operations on `TripleBuffer` do to its segments what the operations below do to three lists.
use minapp.Base.{
  ℕ, ◌+◌, ◌-◌, ◌≤◌, ◌≡◌, sym, ap, ◌∙◌, List, ◌++◌, arith, length, take, drop, replicate,
  length-append, length-take, length-drop, append_assoc, take-append-drop, take-append_self,
  drop-append_self,
}
use minapp.Buffer.{TripleBuffer, IsValid}

pub record Segments : Type 0 where
  pub external : List ℕ
  pub internal : List ℕ
  pub output : List ℕ

abbrev pub segments : TripleBuffer → Segments
segments b = record {
  external = take b.external_input_size b.storage;
  internal = take b.internal_input_size (drop b.external_input_size b.storage);
  output = drop b.internal_input_size (drop b.external_input_size b.storage);
}

-- The first `n` bytes of the internal input go to the external input.
abbrev pub commit_external : Segments → ℕ → Segments
commit_external s n = record s {
  external = s.external ++ take n s.internal;
  internal = drop n s.internal;
}

-- The first `n` bytes of the output become internal input.
abbrev pub commit_internal : Segments → ℕ → Segments
commit_internal s n = record s {
  internal = s.internal ++ take n s.output;
  output = drop n s.output;
}

-- The last `n` bytes of the internal input become output again.
abbrev pub uncommit_internal : Segments → ℕ → Segments
uncommit_internal s n =
    let k = length s.internal - n in
    record s { internal = take k s.internal; output = drop k s.internal ++ s.output }

-- The first `n` bytes of the external input are forgotten.
abbrev pub consume_external : Segments → ℕ → Segments
consume_external s n = record s { external = drop n s.external }

-- The output is cut or padded with zeros to `n` bytes.
abbrev pub resize_output : Segments → ℕ → Segments
resize_output s n = record s { output = take n s.output ++ replicate (n - length s.output) 0 }

-- A vector cut at its two sizes gives the three lists that it was made of.
pub segments_of :
    (b : TripleBuffer) (x y z : List ℕ)
    → b.storage ≡ x ++ (y ++ z)
    → b.external_input_size ≡ length x
    → b.internal_input_size ≡ length y
    → segments b ≡ record { external = x; internal = y; output = z }
segments_of b x y z st ex int =
    let d =
      ap (drop b.external_input_size) st ∙ drop-append_self b.external_input_size x (y ++ z) ex in
    λ i. record {
      external =
          (ap (take b.external_input_size) st
              ∙ take-append_self b.external_input_size x (y ++ z) ex)
            i;
      internal =
          (ap (take b.internal_input_size) d ∙ take-append_self b.internal_input_size y z int) i;
      output =
          (ap (drop b.internal_input_size) d ∙ drop-append_self b.internal_input_size y z int) i;
    }

-- What the segments of a valid buffer are.
pub record Cut (b : TripleBuffer) (s : Segments) : Type 0 where
  pub whole : b.storage ≡ s.external ++ (s.internal ++ s.output)
  pub ext : b.external_input_size ≡ length s.external
  pub int : b.internal_input_size ≡ length s.internal

module _ {m : ℕ} {b : TripleBuffer} (v : IsValid m b) where
  pub segments-Cut : Cut b (segments b)
  segments-Cut = record {
    whole = sym (
        ap (◌++◌ (take b.external_input_size b.storage))
          (take-append-drop b.internal_input_size (drop b.external_input_size b.storage))
        ∙ take-append-drop b.external_input_size b.storage);
    ext = omega (arith, v.inside, length-take b.external_input_size b.storage);
    int = omega (
      arith,
      v.inside,
      length-take b.internal_input_size (drop b.external_input_size b.storage),
      length-drop b.external_input_size b.storage,
    );
  }

  -- Moving the border between the external and the internal input, `k` bytes to the right.
  pub commit_border :
      (b' : TripleBuffer) (k : ℕ)
      → b'.storage ≡ b.storage
      → k ≤ length (segments b).internal
      → b'.external_input_size ≡ b.external_input_size + k
      → b'.internal_input_size ≡ b.internal_input_size - k
      → segments b' ≡ commit_external (segments b) k
  commit_border b' k st h ex int =
      let c = segments-Cut in
      let s = segments b in
      segments_of b' (s.external ++ take k s.internal) (drop k s.internal) s.output
        (st
          ∙ c.whole
          ∙ ap (λ w. s.external ++ (w ++ s.output)) (sym (take-append-drop k s.internal))
          ∙ simp append_assoc)
        (omega
          (arith, c.ext, length-append s.external (take k s.internal), length-take k s.internal))
        (omega (arith, c.int, length-drop k s.internal))

  -- Setting the border between the internal input and the output.
  pub input_border :
      (b' : TripleBuffer) (y z : List ℕ)
      → b'.storage ≡ b.storage
      → (segments b).internal ++ (segments b).output ≡ y ++ z
      → b'.external_input_size ≡ b.external_input_size
      → b'.internal_input_size ≡ length y
      → segments b' ≡ record (segments b) { internal = y; output = z }
  input_border b' y z st e ex int =
      let c = segments-Cut in
      let s = segments b in
      segments_of b' s.external y z (st ∙ c.whole ∙ ap (◌++◌ s.external) e) (ex ∙ c.ext) int
