-- ===== src/Reader/Prefix.antt =====
-- `read_prefix`: when a prefix is complete, what it asks for when it is not, and what it makes of
-- the number.
use minapp.Base.{
  ℕ, zero, suc, ◌+◌, ◌-◌, ◌^◌, ◌≤◌, ◌<◌, ◌≡◌, refl, sym, ap, ap₂, sub_size, ◌∙◌, ◌⊎◌, inl, inr,
  true, false, List, [], ◌∷◌, ◌++◌, arith, length, length-append, take, drop, get_or, ltb,
  if◌then◌else◌, IsByte, All, bit_and-top, take-append_self, add_size, length-take, length-drop,
}
use minapp.Protocol.{Options, has_options, use_little_endian}
use minapp.Buffer.{TripleBuffer, IsValid, internal_input_buffer}
use minapp.Reader.{
  size_msb, internal_bytes, msb, scan, accept, ask, read_prefix, failed, value_too_large,
  message_size, prefix_read, read_all_into, wait_for,
}
use minapp.Reader.Number.{number, decode-number}

-- The bytes of a variable length integer: all but the last have the top bit set.
abbrev pub IsVarint : List ℕ → Type 0
IsVarint [] = ⊥
IsVarint (c ∷ []) = c < 128
IsVarint (c ∷ d ∷ cs) = (128 ≤ c) × IsVarint (d ∷ cs)

msb_high : (c : ℕ) → IsByte c → 128 ≤ c → msb c ≡ true
unfolding msb
msb_high c h high = ground (arith, bit_and-top c h)

msb_low : (c : ℕ) → c < 128 → msb c ≡ false
unfolding msb
msb_low c h = ground (arith, bit_and-top c (omega arith))

-- The scan stops at the last byte of an integer, whatever follows it.
scan-IsVarint :
    (ps rest : List ℕ) (k : ℕ)
    → IsVarint ps
    → All IsByte ps
    → scan (ps ++ rest) k + 1 ≡ k + length ps
unfolding scan
scan-IsVarint [] rest k v h = absurd v
scan-IsVarint (c ∷ []) rest k v h = ground (arith, msb_low c v)
scan-IsVarint (c ∷ d ∷ cs) rest k v h =
    ground (arith, msb_high c h.0 v.0, scan-IsVarint (d ∷ cs) rest (k + 1) v.1 h.1)

-- Bytes that all go on are scanned to their end.
scan_unfinished :
    (ps : List ℕ) (k : ℕ) → All (λ c. 128 ≤ c) ps → All IsByte ps → scan ps k ≡ k + length ps
unfolding scan
scan_unfinished [] k v h = omega arith
scan_unfinished (c ∷ cs) k v h =
    ground (arith, msb_high c h.0 v.0, scan_unfinished cs (k + 1) v.1 h.1)

last_low :
    (ps rest : List ℕ) (i : ℕ)
    → IsVarint ps
    → i + 1 ≡ length ps
    → msb (get_or (ps ++ rest) i 0) ≡ false
last_low [] rest i v e = absurd v
last_low (c ∷ []) rest zero v e = msb_low c v
last_low (c ∷ []) rest (suc i) v e = absurd (omega arith)
last_low (c ∷ d ∷ cs) rest zero v e = absurd (omega arith)
last_low (c ∷ d ∷ cs) rest (suc i) v e = last_low (d ∷ cs) rest i v.1 (omega arith)

last_high :
    (ps : List ℕ) (i : ℕ)
    → All (λ c. 128 ≤ c) ps
    → All IsByte ps
    → i < length ps
    → msb (get_or ps i 0) ≡ true
last_high [] i v h lt = absurd (omega arith)
last_high (c ∷ cs) zero v h lt = msb_high c h.0 v.0
last_high (c ∷ cs) (suc i) v h lt = last_high cs i v.1 h.1 (omega arith)

pub IsVarint-pos : (ps : List ℕ) → IsVarint ps → 0 < length ps
IsVarint-pos [] v = absurd v
IsVarint-pos (c ∷ cs) v = omega arith

module _ (max_size : ℕ) (options : Options) (read_buffer_size : ℕ) {b : TripleBuffer}
    (valid : IsValid max_size b) where
  internal_size : length (internal_bytes b) ≡ (internal_input_buffer b).size
  unfolding internal_input_buffer
  internal_size = omega (
    arith,
    valid,
    length-take b.internal_input_size (drop b.external_input_size b.storage),
    length-drop b.external_input_size b.storage,
  )

  internal_short : (internal_input_buffer b).size < 2 ^ 63
  unfolding internal_input_buffer
  internal_short = omega (arith, valid)

  -- A prefix of `n` bytes, of which `ps` are at the start of the internal input, is decoded.
  pub read_prefix_fixed :
      (n : ℕ) (ps rest : List ℕ)
      → internal_bytes b ≡ ps ++ rest
      → All IsByte ps
      → length ps ≡ n
      → 0 < n
      → n ≤ 8
      → read_prefix max_size options read_buffer_size b n
        ≡ accept max_size options read_buffer_size b n
            (number (has_options options use_little_endian) false ps)
  unfolding read_prefix
  read_prefix_fixed n ps rest e h len pos small = ground (
    arith,
    internal_size,
    ap length e,
    length-append ps rest,
    ap (take n) e ∙ take-append_self n ps rest (sym len),
    decode-number options false ps h (omega arith),
  )

  -- A complete variable length integer at the start of the internal input is decoded, both when
  -- the scan starts anew and when it goes on with the length asked for; one of more than nine
  -- bytes is refused.
  pub read_prefix_var :
      (len₀ : ℕ) (ps rest : List ℕ)
      → internal_bytes b ≡ ps ++ rest
      → IsVarint ps
      → All IsByte ps
      → (len₀ ≡ size_msb) ⊎ (len₀ ≡ size_msb + length ps)
      → read_prefix max_size options read_buffer_size b len₀ ≡ (
          if ltb 9 (length ps)
          then (failed value_too_large, b)
          else accept max_size options read_buffer_size b
              (length ps)
              (number (has_options options use_little_endian) true ps))
  unfolding read_prefix
  read_prefix_var len₀ ps rest e v h start =
      let fits : length ps + length rest ≡ (internal_input_buffer b).size =
        omega (arith, internal_size, ap length e, length-append ps rest) in
      let short = internal_short in
      ground (
        arith,
        fits,
        short,
        IsVarint-pos ps v,
        scan-IsVarint ps rest 0 v h,
        last_low ps rest (length ps - 1) v,
        ap (take (length ps)) e ∙ take-append_self (length ps) ps rest refl,
        decode-number options true ps h,
        e,
      )

  -- With less than the `n` bytes of a fixed prefix, exactly the missing bytes are asked for, and
  -- the handler goes on with the same `n`.
  pub read_prefix_fixed_missing :
      (n : ℕ)
      → (internal_input_buffer b).size < n
      → n ≤ 8
      → n ≤ read_buffer_size
      → read_prefix max_size options read_buffer_size b n
        ≡ wait_for max_size read_all_into (prefix_read n) b (n - (internal_input_buffer b).size)
  unfolding read_prefix ask
  read_prefix_fixed_missing n h small fits = ground arith

  var_asks :
      (len₀ : ℕ)
      → All (λ c. 128 ≤ c) (internal_bytes b)
      → All IsByte (internal_bytes b)
      → let n = length (internal_bytes b) in
        (len₀ ≡ size_msb) ⊎ ((0 < n) × (len₀ ≡ size_msb + n))
        → read_prefix max_size options read_buffer_size b len₀
          ≡ ask max_size options read_buffer_size b true (length (internal_bytes b) + 1)
  unfolding read_prefix
  var_asks len₀ high h (inl e) =
      ground (arith, internal_size, internal_short, scan_unfinished (internal_bytes b) 0 high h)
  var_asks len₀ high h (inr (pos, e)) = ground (
    arith,
    internal_size,
    internal_short,
    last_high (internal_bytes b) (length (internal_bytes b) - 1) high h,
  )

  -- With an unfinished variable length integer, exactly one more byte is asked for, so that nothing
  -- behind the integer is taken for a part of it; at `read_buffer_size` bytes it is refused.
  pub read_prefix_var_missing :
      (len₀ : ℕ)
      → All (λ c. 128 ≤ c) (internal_bytes b)
      → All IsByte (internal_bytes b)
      → let n = length (internal_bytes b) in
        (len₀ ≡ size_msb) ⊎ ((0 < n) × (len₀ ≡ size_msb + n))
        → n + 1 < 2 ^ 63
        → read_prefix max_size options read_buffer_size b len₀ ≡ (
            if ltb read_buffer_size (n + 1)
            then (failed message_size, b)
            else wait_for max_size read_all_into (prefix_read (n + 1 + size_msb)) b 1)
  unfolding ask
  read_prefix_var_missing len₀ high h start below =
      var_asks len₀ high h start
      ∙ (let n = length (internal_bytes b) in
          let same = internal_size in
          let short = internal_short in
          let tag : add_size (n + 1) size_msb ≡ n + 1 + size_msb = omega arith in
          let one : sub_size (n + 1) (internal_input_buffer b).size ≡ 1 = omega arith in
          ap₂
            (λ i j.
              if ltb read_buffer_size (n + 1)
              then (failed message_size, b)
              else wait_for max_size read_all_into (prefix_read i) b j)
            tag one)
