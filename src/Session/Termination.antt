-- ===== src/Session/Termination.antt =====
-- `read()` of src/session.cpp ends: each message that it finds in the buffer takes bytes away.
use minapp.Base.{
  ℕ, zero, suc, ◌+◌, ◌-◌, ◌≤◌, ◌<◌, ◌≡◌, ◌^◌, refl, Bool, true, false, ◌&&◌, ◌||◌, Option, none,
  some, List, [], ◌∷◌, length, ltb, leb, ◌==◌, if◌then◌else◌, arith, Bool-cases, inl, inr, get_or,
  take, sub_size, add_size,
}
use minapp.Protocol.{
  Protocol, Options, has_options, do_not_consume_buffer, include_prefix_in_payload,
  ignore_protocol_bytes,
}
use minapp.Buffer.{
  TripleBuffer, internal_input_buffer, mark_current_external_input, consume_whole_external_input,
  commit_to_external_input, move_to_new_external_input_segment, Span, prepare_output_buffer,
}
use minapp.Reader.{
  Step, Request, Resume, idle, waiting, delivered, failed, thrown, start, dispatch, read_some,
  read_fixed, read_delim, read_prefix, accept, ask, deliver, wait_for, scan, decode, msb,
  internal_bytes, size_msb,
}
use minapp.Session.{rank, reading, Event, on_read, Session, call, act, read_once, read}
use minapp.Session.Lifecycle.{IsConsistent, IsTame, Goes}
use minapp.Session.Reading.{read-Goes}

-- What a step leaves of the internal input, where it hands a message over: less than `n` bytes.
abbrev Shrinks : ℕ → Step → Type 0
Shrinks n (idle, b) = Unit
Shrinks n (waiting request after, b) = Unit
Shrinks n (failed ec, b) = Unit
Shrinks n (thrown, b) = Unit
Shrinks n (delivered k, b) = b.internal_input_size < n

wait-Shrinks :
    (max_size n : ℕ) (request : Span → Request) (after : Resume) (b : TripleBuffer) (k : ℕ)
    → Shrinks n (wait_for max_size request after b k)
wait-Shrinks max_size n request after b k = waits (prepare_output_buffer max_size b k)
  where
    waits :
        (r : Option (Span × TripleBuffer))
        → Shrinks n
            (elim r [ none ↦ (thrown, b) | some (span, b') ↦ (waiting (request span) after, b') ])
    waits none = tt
    waits (some (span, b')) = tt

committed :
    (b : TripleBuffer) (k : ℕ)
    → b.internal_input_size < 2 ^ 64
    → (commit_to_external_input b k).internal_input_size ≡ b.internal_input_size - k
unfolding commit_to_external_input
committed b k h = ground arith

deliver-Shrinks :
    (b : TripleBuffer) (k n : ℕ)
    → b.internal_input_size < 2 ^ 64
    → b.internal_input_size - k < n
    → Shrinks n (deliver b k)
unfolding move_to_new_external_input_segment
deliver-Shrinks b k n h lt = omega (arith, committed b k h)

fixed-Shrinks :
    (max_size : ℕ) (b : TripleBuffer) (k n : ℕ)
    → b.internal_input_size < 2 ^ 64
    → b.internal_input_size - k < n
    → Shrinks n (read_fixed max_size b k)
unfolding read_fixed internal_input_buffer
fixed-Shrinks max_size b k n h lt = elim (Bool-cases (leb k b.internal_input_size)) [
  | inl x ↦ rw x (deliver-Shrinks b k n h lt)
  | inr x ↦ rw x (wait-Shrinks max_size n _ _ b _)
]

some-Shrinks :
    (max_size : ℕ) (b : TripleBuffer) (k : ℕ)
    → 0 < k
    → b.internal_input_size < 2 ^ 64
    → Shrinks b.internal_input_size (read_some max_size b k)
unfolding read_some internal_input_buffer
some-Shrinks max_size b k pos h = elim (Bool-cases (ltb 0 b.internal_input_size)) [
  | inl x ↦ rw x (deliver-Shrinks b k b.internal_input_size h (ground (arith, x)))
  | inr x ↦ rw x (wait-Shrinks max_size b.internal_input_size _ _ b _)
]

module _ (max_size : ℕ) (options : Options) (size : ℕ) (b : TripleBuffer)
    (h : b.internal_input_size < 2 ^ 64) where
  accept-Shrinks :
      (len data_size : ℕ)
      → 0 < len
      → len ≤ b.internal_input_size
      → Shrinks b.internal_input_size (accept max_size options size b len data_size)
  unfolding accept mark_current_external_input
  accept-Shrinks len data_size pos le =
      let inclusive = has_options options include_prefix_in_payload in
      let rest = if inclusive then sub_size data_size len else data_size in
      let committed' = commit_to_external_input b len in
      let next =
        if has_options options ignore_protocol_bytes
        then mark_current_external_input committed'
        else committed' in
      let left : next.internal_input_size ≡ b.internal_input_size - len =
        ground (arith, committed b len h) in
      let fixed =
        fixed-Shrinks max_size next rest b.internal_input_size (omega arith) (omega arith) in
      elim (Bool-cases (inclusive && ltb data_size len)) [
        | inl x ↦ rw x tt
        | inr x ↦ elim (Bool-cases (ltb size (add_size rest len))) [
          | inl y ↦ rw (x, y) tt
          | inr y ↦ rw (x, y) fixed
        ]
      ]

  ask-Shrinks :
      (var : Bool) (len : ℕ) → Shrinks b.internal_input_size (ask max_size options size b var len)
  unfolding ask
  ask-Shrinks var len = elim (Bool-cases (ltb size len)) [
    | inl x ↦ rw x tt
    | inr x ↦ rw x (wait-Shrinks max_size b.internal_input_size _ _ b _)
  ]

  prefix-Shrinks :
      (len₀ : ℕ) → Shrinks b.internal_input_size (read_prefix max_size options size b len₀)
  unfolding read_prefix internal_input_buffer
  prefix-Shrinks len₀ =
      let p = internal_bytes b in
      let remaining = b.internal_input_size in
      let var = leb size_msb len₀ in
      let len₁ = if var then sub_size len₀ size_msb else len₀ in
      let len = if len₁ == 0 then scan p 0 + 1 else len₁ in
      let value = decode options var (take len p) in
      let pos : 0 < len = ground arith in
      elim (Bool-cases (ltb remaining len)) [
        | inl x ↦ rw x (ask-Shrinks var len)
        | inr x ↦ elim (Bool-cases (var && msb (get_or p (len - 1) 0))) [
          | inl y ↦ rw (x, y) (ask-Shrinks var (len + 1))
          | inr y ↦ elim (Bool-cases (ltb (8 + (if var then 1 else 0)) len)) [
            | inl z ↦ rw (x, y, z) tt
            | inr z ↦ rw (x, y, z) (accept-Shrinks len value pos (ground (arith, x)))
          ]
        ]
      ]

  delim-Shrinks :
      (delim : List ℕ)
      → 0 < size
      → Shrinks b.internal_input_size (read_delim max_size options size b delim)
  unfolding read_delim
  delim-Shrinks [] pos = some-Shrinks max_size b size pos h
  delim-Shrinks (d ∷ delim) pos =
      let not_empty : (suc (length delim) == 0) ≡ false = ground arith in rw not_empty tt

  -- A message of the read buffer's size.
  whole-Shrinks : 0 < size → Shrinks b.internal_input_size (read_fixed max_size b size)
  unfolding read_fixed internal_input_buffer
  whole-Shrinks pos = elim (Bool-cases (leb size b.internal_input_size)) [
    | inl x ↦ rw x (deliver-Shrinks b size b.internal_input_size h (ground (arith, x)))
    | inr x ↦ rw x (wait-Shrinks max_size b.internal_input_size _ _ b _)
  ]

  dispatch-Shrinks :
      (protocol : Protocol) (delimiter : List ℕ)
      → 0 < size
      → Shrinks b.internal_input_size (dispatch max_size options size protocol delimiter b)
  unfolding dispatch
  dispatch-Shrinks Protocol.none delimiter pos = tt
  dispatch-Shrinks Protocol.any delimiter pos = some-Shrinks max_size b size pos h
  dispatch-Shrinks Protocol.fixed delimiter pos = whole-Shrinks pos
  dispatch-Shrinks Protocol.delim delimiter pos = delim-Shrinks delimiter pos
  dispatch-Shrinks Protocol.delim_zero delimiter pos = delim-Shrinks (0 ∷ []) pos
  dispatch-Shrinks Protocol.delim_cr delimiter pos = delim-Shrinks (13 ∷ []) pos
  dispatch-Shrinks Protocol.delim_lf delimiter pos = delim-Shrinks (10 ∷ []) pos
  dispatch-Shrinks Protocol.delim_crlf delimiter pos = delim-Shrinks (13 ∷ 10 ∷ []) pos
  dispatch-Shrinks Protocol.prefix_8 delimiter pos = prefix-Shrinks 1
  dispatch-Shrinks Protocol.prefix_16 delimiter pos = prefix-Shrinks 2
  dispatch-Shrinks Protocol.prefix_32 delimiter pos = prefix-Shrinks 4
  dispatch-Shrinks Protocol.prefix_64 delimiter pos = prefix-Shrinks 8
  dispatch-Shrinks Protocol.prefix_var delimiter pos = prefix-Shrinks size_msb
  dispatch-Shrinks Protocol.unknown delimiter pos = tt

-- What is asked of the handler, whatever else it does: that it adds nothing to the internal input,
-- to which it has no access, and sets no read buffer of no bytes.
pub record IsTerse (handle : Event → Session → Session) : Type 0 where
  pub adds_nothing :
      (e : Event) (s : Session) → (handle e s).buf.internal_input_size ≤ s.buf.internal_input_size
  pub leaves_room :
      (e : Event) (s : Session) → 0 < s.read_buffer_size → 0 < (handle e s).read_buffer_size

module _ (handle : Event → Session → Session) (terse : IsTerse handle) (max_size : ℕ) where
  -- A round that asks for one more has taken bytes away.
  act_falls :
      (s : Session) (step : Step) (n : ℕ)
      → 0 < s.read_buffer_size
      → Shrinks n step
      → (act handle max_size s step).1 ≡ true
      → ((act handle max_size s step).0.buf.internal_input_size < n)
        × (0 < (act handle max_size s step).0.read_buffer_size)
  unfolding act call commit_to_external_input
  act_falls s (idle, b) n pos x e = cc
  act_falls s (waiting request after, b) n pos x e = cc
  act_falls s (failed ec, b) n pos x e = cc
  act_falls s (thrown, b) n pos x e = cc
  act_falls s (delivered none, b) n pos x e =
      let s' = record s { buf = b; events = on_read ∷ s.events } in
      (omega (arith, terse.adds_nothing on_read s'), terse.leaves_room on_read s' pos)
  act_falls s (delivered (some k), b) n pos x e =
      let s' = record s { buf = b; events = on_read ∷ s.events } in
      (ground (arith, x, terse.adds_nothing on_read s'), terse.leaves_room on_read s' pos)

  round_falls :
      (s : Session)
      → 0 < s.read_buffer_size
      → s.buf.internal_input_size < 2 ^ 64
      → (read_once handle max_size s).1 ≡ true
      → ((read_once handle max_size s).0.buf.internal_input_size < s.buf.internal_input_size)
        × (0 < (read_once handle max_size s).0.read_buffer_size)
  unfolding read_once start mark_current_external_input consume_whole_external_input
  round_falls s pos h e = elim (Bool-cases (rank s.status == 1 || rank s.status == 2)) [
    | inr off ↦ absurd (ground (arith, e, off))
    | inl on ↦
        let kept =
          if has_options s.protocol_options do_not_consume_buffer
          then s.buf
          else consume_whole_external_input s.buf in
        let b = mark_current_external_input kept in
        let same : b.internal_input_size ≡ s.buf.internal_input_size = ground arith in
        let step =
          start max_size s.protocol_options s.read_buffer_size s.protocol s.delimiter s.buf in
        let shrinks : Shrinks b.internal_input_size step =
          dispatch-Shrinks max_size s.protocol_options s.read_buffer_size b (omega arith) s.protocol
            s.delimiter pos in
        let f =
          act_falls (record s { status = reading }) step b.internal_input_size pos shrinks
            (rw on at e) in
        rw on (omega arith, f.1)
  ]

  pub read_total :
      (fuel : ℕ) (s : Session)
      → 0 < s.read_buffer_size
      → s.buf.internal_input_size < 2 ^ 64
      → s.buf.internal_input_size < fuel
      → (s' : Session) × (read handle max_size fuel s ≡ some s')
  unfolding read
  read_total zero s pos h lt = absurd (omega arith)
  read_total (suc fuel) s pos h lt = elim (Bool-cases (read_once handle max_size s).1) [
    | inr done ↦ ((read_once handle max_size s).0, rw done refl)
    | inl more ↦
        let f = round_falls s pos h more in
        let (s', e) =
          read_total fuel (read_once handle max_size s).0 f.1 (omega arith) (omega arith) in
        (s', rw more e)
  ]

  -- Whatever the handler, as long as it is tame (no call of it moves the status back or breaks the
  -- consistency of a consistent session) and terse (no call adds to the internal input or sets a
  -- read buffer of no bytes): on a consistent session with a read buffer that is not empty,
  -- `read()` ends after no more rounds than there are bytes of internal input, and one more, and
  -- leaves the session consistent; the session does not come back from `closing` or `closed`, nor
  -- from `closed` to `closing`.
  pub read_ends :
      IsTame handle
      → (fuel : ℕ) (s : Session) → 0 < s.read_buffer_size
      → s.buf.internal_input_size < 2 ^ 64
      → s.buf.internal_input_size < fuel
      → IsConsistent s
      → (s' : Session) × (read handle max_size fuel s ≡ some s') × Goes s s'
  read_ends tame fuel s pos h lt v =
      let (s', e) = read_total fuel s pos h lt in (s', e, read-Goes handle tame max_size fuel s v e)
