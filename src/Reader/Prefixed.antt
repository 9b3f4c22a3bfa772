-- ===== src/Reader/Prefixed.antt =====
-- One message behind a prefix of fixed width, from the read of the prefix to the handler.
use minapp.Base.{
  ℕ, ◌+◌, ◌≤◌, ◌<◌, ◌≡◌, refl, sym, ap, subst, ◌∙◌, false, List, [], ◌++◌, append-nil, arith,
  length, length-append, take, drop, if◌then◌else◌, drop_all, take_all, Bool-cases, inl, inr,
  IsByte, All,
}
use minapp.Protocol.{
  Options, has_options, ignore_protocol_bytes, include_prefix_in_payload, use_little_endian,
}
use minapp.Buffer.{
  Span, TripleBuffer, IsValid, internal_input_buffer, commit_to_internal_input,
  commit_to_external_input,
}
use minapp.Buffer.Segments.{Segments, segments, segments-Cut}
use minapp.Buffer.Refine.{segments-commit_to_external_input}
use minapp.Buffer.Laws.{commit_to_external_input-IsValid, mark_current_external_input-IsValid}
use minapp.Reader.{read_all_into, prefix_read, fill, wait_for, accept, read_prefix, internal_bytes}
use minapp.Reader.Number.{number}
use minapp.Reader.Prefix.{read_prefix_fixed_missing}
use minapp.Reader.Message.{accept_passes, segments-mark, view-mark, view-commit}
use minapp.Reader.Arrival.{arrived}
use minapp.Reader.Pieces.{resume_prefix_fixed}
use minapp.Reader.Stream.{run, Shown, after_read, mark_size, run-wait_for, run-read_fixed}

module _ (m : ℕ) (options : Options) (read_buffer_size : ℕ) where
  -- An accepted prefix `ps` that is all the internal input, with the payload still to come.
  pub run-accept :
      {c : TripleBuffer} (v : IsValid m c) (ps payload rest : List ℕ)
      → (segments c).internal ≡ ps
      → c.view.size ≡ c.external_input_size
      → length ps + length payload ≤ read_buffer_size
      → c.external_input_size + length ps + length payload ≤ m
      → let ignored = has_options options ignore_protocol_bytes in
        let ext = (segments c).external in
        Shown m options read_buffer_size
          (if ignored then ext ++ ps else ext)
          (if ignored then payload else ps ++ payload)
          rest
          (accept m options read_buffer_size c (length ps) (
            if has_options options include_prefix_in_payload
            then length payload + length ps
            else length payload))
          (payload ++ rest)
          2
  run-accept {c} v ps payload rest int view small fits =
      let n = length ps in
      let d = commit_to_external_input c n in
      let v' = commit_to_external_input-IsValid v n in
      let t = segments-commit_to_external_input v n in
      let ext : (segments d).external ≡ (segments c).external ++ ps =
        ap (λ u. u.external) t
        ∙ ap (λ u. (segments c).external ++ u) (ap (take n) int ∙ take_all n ps (omega arith)) in
      let int' : (segments d).internal ≡ [] =
        ap (λ u. u.internal) t ∙ ap (drop n) int ∙ drop_all n ps (omega arith) in
      let size : d.external_input_size ≡ c.external_input_size + n =
        (segments-Cut v').ext
        ∙ ap length ext
        ∙ omega (arith, (segments-Cut v).ext, length-append (segments c).external ps) in
      let step =
        accept_passes m options read_buffer_size c n (length payload) small
          (omega (arith, fits, v.countable)) in
      elim (Bool-cases (has_options options ignore_protocol_bytes)) [
        | inl e ↦
            rw (step, e)
              (run-read_fixed m options read_buffer_size (mark_current_external_input-IsValid v')
                ((segments c).external ++ ps) [] payload rest
                (ap (λ u. u.external) (segments-mark d)
                  ∙ ext
                  ∙ sym (append-nil ((segments c).external ++ ps)))
                (ap (λ u. u.internal) (segments-mark d) ∙ int')
                (view-mark d ∙ (segments-Cut v').ext ∙ ap length ext)
                (omega (arith, mark_size d, size, fits)))
        | inr e ↦
            rw (step, e)
              (run-read_fixed m options read_buffer_size v' (segments c).external ps payload rest
                ext int' (ap (λ u. u.size) (view-commit c n) ∙ view ∙ (segments-Cut v).ext)
                (omega (arith, size, fits)))
      ]

  prefix_waits :
      (b : TripleBuffer) (v : IsValid m b) (n : ℕ)
      → b.internal_input_size ≡ 0
      → 0 < n
      → n ≤ 8
      → n ≤ read_buffer_size
      → read_prefix m options read_buffer_size b n ≡ wait_for m read_all_into (prefix_read n) b n
  unfolding internal_input_buffer
  prefix_waits b v n e pos eight small =
      read_prefix_fixed_missing m options read_buffer_size v n (omega (arith, e, pos)) eight small
      ∙ ap (wait_for m read_all_into (prefix_read n) b) (omega (arith, e))

  -- A prefix `ps` and its payload that are still to come.
  pub run-read_prefix :
      {b : TripleBuffer} (v : IsValid m b) (ps payload rest : List ℕ)
      → 0 < length ps
      → length ps ≤ 8
      → All IsByte ps
      → number (has_options options use_little_endian) false ps ≡ (
          if has_options options include_prefix_in_payload
          then length payload + length ps
          else length payload)
      → length ps + length payload ≤ read_buffer_size
      → internal_bytes b ≡ []
      → b.view.size ≡ b.external_input_size
      → b.external_input_size + length ps + length payload ≤ m
      → let ignored = has_options options ignore_protocol_bytes in
        let ext = (segments b).external in
        Shown m options read_buffer_size
          (if ignored then ext ++ ps else ext)
          (if ignored then payload else ps ++ payload)
          rest
          (read_prefix m options read_buffer_size b (length ps))
          (ps ++ (payload ++ rest))
          3
  run-read_prefix {b} v ps payload rest pos eight bytes num small int view fits =
      let none_yet : b.internal_input_size ≡ 0 = (segments-Cut v).int ∙ ap length int in
      let (s, (b', e, r)) =
        run-wait_for m options read_buffer_size v 2 (prefix_read (length ps)) ps (payload ++ rest)
          (omega (arith, fits, none_yet)) in
      let c = arrived v (length ps) ps (omega (arith, fits)) e refl in
      let after = commit_to_internal_input (fill b' s ps) (length ps) in
      let same : after.external_input_size ≡ b.external_input_size =
        (segments-Cut c.0).ext
        ∙ ap (λ (t : Segments). length (t.external)) c.1
        ∙ sym (segments-Cut v).ext in
      let decoded =
        resume_prefix_fixed m options read_buffer_size v (length ps) [] ps int bytes refl pos eight
          (omega (arith, fits)) e in
      let asks : read_prefix m options read_buffer_size b (length ps)
          ≡ wait_for m read_all_into (prefix_read (length ps)) b (length ps) =
        prefix_waits b v (length ps) none_yet pos eight (omega (arith, small)) in
      after_read m options read_buffer_size
        (ap (λ step. run m options read_buffer_size 3 step (ps ++ (payload ++ rest))) asks
          ∙ r
          ∙ ap (λ step. run m options read_buffer_size 2 step (payload ++ rest))
              (decoded ∙ ap (accept m options read_buffer_size _ (length ps)) num))
        (subst
          (λ (w : List ℕ).
            Shown m options read_buffer_size
              (if has_options options ignore_protocol_bytes then w ++ ps else w)
              (if has_options options ignore_protocol_bytes then payload else ps ++ payload) rest
              (accept m options read_buffer_size after (length ps) (
                if has_options options include_prefix_in_payload
                then length payload + length ps
                else length payload))
              (payload ++ rest) 2)
          (ap (λ (t : Segments). t.external) c.1)
          (run-accept c.0 ps payload rest
            (ap (λ (t : Segments). t.internal) c.1 ∙ ap (λ (w : List ℕ). w ++ ps) int)
            (ap (λ (w : Span). w.size) c.2 ∙ view ∙ sym same) small (omega (arith, same, fits))))
