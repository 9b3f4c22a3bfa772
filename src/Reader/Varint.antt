-- ===== src/Reader/Varint.antt =====
-- One message behind an integer of variable length, which is read a byte at a time.
use minapp.Base.{
  ℕ, ◌+◌, ◌≤◌, ◌<◌, ◌≡◌, refl, sym, ap, subst, ◌∙◌, false, List, [], ◌++◌, arith, length,
  length-append, if◌then◌else◌, inr, IsByte, All,
}
use minapp.Protocol.{
  Options, has_options, ignore_protocol_bytes, include_prefix_in_payload, use_little_endian,
}
use minapp.Buffer.{Span, TripleBuffer, IsValid, commit_to_internal_input}
use minapp.Buffer.Segments.{Segments, segments, segments-Cut}
use minapp.Reader.{read_all_into, prefix_read, fill, wait_for, accept, read_prefix, internal_bytes}
use minapp.Reader.Number.{number}
use minapp.Reader.Arrival.{arrived}
use minapp.Reader.Stream.{run, Shown, after_read, run-wait_for}
use minapp.Base.{ltb, ◌⊎◌, le→ltb, ◌∷◌, inr, some, true, suc, append_assoc}
use minapp.Buffer.{prepare_output_buffer}
use minapp.Reader.{size_msb, resume}
use minapp.Reader.Prefix.{IsVarint, read_prefix_var_missing}
use minapp.Reader.Pieces.{resume_prefix_var}
use minapp.Reader.Prefixed.{run-accept}

-- All but the last byte go on.
goes_on : (done : List ℕ) (c d : ℕ) (cs : List ℕ) → IsVarint (done ++ (c ∷ d ∷ cs)) → 128 ≤ c
goes_on [] c d cs v = v.0
goes_on (a ∷ []) c d cs v = v.1.0
goes_on (a ∷ e ∷ done) c d cs v = goes_on (e ∷ done) c d cs v.1

All-member : (P : ℕ → Type 0) (done : List ℕ) (c : ℕ) (cs : List ℕ) → All P (done ++ (c ∷ cs)) → P c
All-member P [] c cs h = h.0
All-member P (a ∷ done) c cs h = All-member P done c cs h.1

All-snoc : (P : ℕ → Type 0) (done : List ℕ) (c : ℕ) → All P done → P c → All P (done ++ (c ∷ []))
All-snoc P [] c h p = (p, tt)
All-snoc P (a ∷ done) c h p = (h.0, All-snoc P done c h.1 p)

module _ (m : ℕ) (options : Options) (read_buffer_size : ℕ) where
  -- The read of one more byte of the integer.
  run_byte :
      {b : TripleBuffer} (v : IsValid m b) (len₀ rounds : ℕ) (done : List ℕ) (c : ℕ)
      (stream : List ℕ)
      → internal_bytes b ≡ done
      → All (λ x. 128 ≤ x) done
      → All IsByte done
      → (len₀ ≡ size_msb) ⊎ ((0 < length done) × (len₀ ≡ size_msb + length done))
      → length done + 1 ≤ read_buffer_size
      → b.external_input_size + length done + 1 ≤ m
      → (s : Span) × ((b' : TripleBuffer) × (prepare_output_buffer m b 1 ≡ some (s, b'))
          × (run m options read_buffer_size
                (suc rounds)
                (read_prefix m options read_buffer_size b len₀)
                (c ∷ stream)
              ≡ run m options read_buffer_size rounds
                  (resume m options read_buffer_size
                    (fill b' s (c ∷ []))
                    (prefix_read (size_msb + length (done ++ (c ∷ []))))
                    1)
                  stream))
  run_byte {b} v len₀ rounds done c stream int high bytes start room fits =
      let after = prefix_read (size_msb + length (done ++ (c ∷ []))) in
      let size : b.internal_input_size ≡ length done = (segments-Cut v).int ∙ ap length int in
      let enough : ltb read_buffer_size (length done + 1) ≡ false =
        le→ltb read_buffer_size (length done + 1) room in
      let tag : length done + 1 + size_msb ≡ size_msb + length (done ++ (c ∷ [])) =
        omega (arith, length-append done (c ∷ [])) in
      let missing =
        read_prefix_var_missing m options read_buffer_size v len₀
          (subst (λ (w : List ℕ). All (λ x. 128 ≤ x) w) (sym int) high)
          (subst (λ (w : List ℕ). All IsByte w) (sym int) bytes)
          (subst
            (λ (w : List ℕ). (len₀ ≡ size_msb) ⊎ ((0 < length w) × (len₀ ≡ size_msb + length w)))
            (sym int) start)
          (omega (arith, ap length int, fits, v.countable)) in
      let asks : read_prefix m options read_buffer_size b len₀
          ≡ wait_for m read_all_into after b 1 =
        missing ∙ rw (int, enough, tag) refl in
      let (s, (b', e, r)) =
        run-wait_for m options read_buffer_size v rounds after (c ∷ []) stream
          (omega (arith, size, fits)) in
      (
        s,
        (
          b',
          e,
          ap (λ step. run m options read_buffer_size (suc rounds) step (c ∷ stream)) asks ∙ r,
        ),
      )

  -- The bytes `todo` of an integer `ps` are still to come.
  pub run-varint :
      (todo : List ℕ) {b : TripleBuffer} (v : IsValid m b) (len₀ : ℕ)
      (done ps payload rest : List ℕ)
      → 0 < length todo
      → done ++ todo ≡ ps
      → IsVarint ps
      → All IsByte ps
      → length ps ≤ 9
      → number (has_options options use_little_endian) true ps ≡ (
          if has_options options include_prefix_in_payload
          then length payload + length ps
          else length payload)
      → length ps + length payload ≤ read_buffer_size
      → internal_bytes b ≡ done
      → All (λ x. 128 ≤ x) done
      → All IsByte done
      → (len₀ ≡ size_msb) ⊎ ((0 < length done) × (len₀ ≡ size_msb + length done))
      → b.view.size ≡ b.external_input_size
      → b.external_input_size + length ps + length payload ≤ m
      → let ignored = has_options options ignore_protocol_bytes in
        let ext = (segments b).external in
        Shown m options read_buffer_size
          (if ignored then ext ++ ps else ext)
          (if ignored then payload else ps ++ payload)
          rest
          (read_prefix m options read_buffer_size b len₀)
          (todo ++ (payload ++ rest))
          (length todo + 2)
  unfolding resume
  run-varint [] v len₀ done ps payload rest pos split varint bytes nine num small int high low start
        view fits =
      absurd (omega (arith, pos))
  run-varint (c ∷ []) {b} v len₀ done ps payload rest pos split varint bytes nine num small int high
        low start view fits =
      let len = ap length split in
      let room = length-append done (c ∷ []) in
      let (s, (b', e, r)) =
        run_byte v len₀ 2 done c (payload ++ rest) int high low start
          (omega (arith, len, room, small)) (omega (arith, len, room, fits)) in
      let a = arrived v 1 (c ∷ []) (omega (arith, len, room, fits)) e refl in
      let after = commit_to_internal_input (fill b' s (c ∷ [])) 1 in
      let same : after.external_input_size ≡ b.external_input_size =
        (segments-Cut a.0).ext
        ∙ ap (λ (t : Segments). length (t.external)) a.1
        ∙ sym (segments-Cut v).ext in
      let decoded =
        resume_prefix_var m options read_buffer_size v done (c ∷ []) int
          (subst (λ (w : List ℕ). All IsByte w) (sym split) bytes)
          (subst (λ (w : List ℕ). IsVarint w) (sym split) varint) (omega (arith, len, nine))
          (omega (arith, len, room, fits)) e in
      after_read m options read_buffer_size
        (r
          ∙ ap (λ step. run m options read_buffer_size 2 step (payload ++ rest))
              (decoded
                ∙ ap
                    (λ w.
                      accept m options read_buffer_size after (length w)
                        (number (has_options options use_little_endian) true w))
                    split
                ∙ ap (accept m options read_buffer_size after (length ps)) num))
        (subst
          (λ (w : List ℕ).
            Shown m options read_buffer_size
              (if has_options options ignore_protocol_bytes then w ++ ps else w)
              (if has_options options ignore_protocol_bytes then payload else ps ++ payload) rest
              (accept m options read_buffer_size after (length ps) (
                if has_options options include_prefix_in_payload
                then length payload + length ps
                else length payload))
              (payload ++ rest) (2))
          (ap (λ (t : Segments). t.external) a.1)
          (run-accept m options read_buffer_size a.0 ps payload rest
            (ap (λ (t : Segments). t.internal) a.1 ∙ ap (λ (w : List ℕ). w ++ (c ∷ [])) int ∙ split)
            (ap (λ (w : Span). w.size) a.2 ∙ view ∙ sym same) small (omega (arith, same, fits))))
  run-varint (c ∷ d ∷ cs) {b} v len₀ done ps payload rest pos split varint bytes nine num small int
        high low start view fits =
      let len = ap length split in
      let (s, (b', e, r)) =
        run_byte v len₀ (length (d ∷ cs) + 2) done c ((d ∷ cs) ++ (payload ++ rest)) int high low
          start (omega (arith, len, length-append done (c ∷ d ∷ cs), small))
          (omega (arith, len, length-append done (c ∷ d ∷ cs), fits)) in
      let a =
        arrived v 1 (c ∷ []) (omega (arith, len, length-append done (c ∷ d ∷ cs), fits)) e refl in
      let after = commit_to_internal_input (fill b' s (c ∷ [])) 1 in
      let same : after.external_input_size ≡ b.external_input_size =
        (segments-Cut a.0).ext
        ∙ ap (λ (t : Segments). length (t.external)) a.1
        ∙ sym (segments-Cut v).ext in
      let more =
        run-varint (d ∷ cs) a.0 (size_msb + length (done ++ (c ∷ []))) (done ++ (c ∷ [])) ps payload
          rest (omega arith) (append_assoc done (c ∷ []) (d ∷ cs) ∙ split) varint bytes nine num
          small (ap (λ (t : Segments). t.internal) a.1 ∙ ap (λ (w : List ℕ). w ++ (c ∷ [])) int)
          (All-snoc (λ x. 128 ≤ x) done c high
            (goes_on done c d cs (subst (λ (w : List ℕ). IsVarint w) (sym split) varint)))
          (All-snoc IsByte done c low (
            All-member IsByte done c (d ∷ cs)
              (subst (λ (w : List ℕ). All IsByte w) (sym split) bytes)))
          (inr (omega (arith, length-append done (c ∷ [])), refl))
          (ap (λ (w : Span). w.size) a.2 ∙ view ∙ sym same) (omega (arith, same, fits)) in
      let one_more : length (c ∷ d ∷ cs) + 2 ≡ suc (length (d ∷ cs) + 2) = omega arith in
      after_read m options read_buffer_size
        (ap
            (λ k.
              run m options read_buffer_size k (read_prefix m options read_buffer_size b len₀)
                ((c ∷ d ∷ cs) ++ (payload ++ rest)))
            one_more
          ∙ r)
        (subst
          (λ (w : List ℕ).
            Shown m options read_buffer_size
              (if has_options options ignore_protocol_bytes then w ++ ps else w)
              (if has_options options ignore_protocol_bytes then payload else ps ++ payload) rest
              (read_prefix m options read_buffer_size after (size_msb + length (done ++ (c ∷ []))))
              ((d ∷ cs) ++ (payload ++ rest)) (length (d ∷ cs) + 2))
          (ap (λ (t : Segments). t.external) a.1) more)
