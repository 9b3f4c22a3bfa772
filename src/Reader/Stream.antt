-- ===== src/Reader/Stream.antt =====
-- A socket's bytes from the first to the last: the reads that `session` starts for a prefix,
-- each completed with the next bytes, until the handler is called.
use minapp.Base.{
  Bool, true, false, ℕ, zero, suc, ◌+◌, ◌^◌, ◌≤◌, ◌<◌, ◌≡◌, refl, ap, subst, ◌∙◌, Option, none,
  some, List, [], ◌∷◌, ◌++◌, arith, length, length-append, take, drop, if◌then◌else◌,
  take-append_self, drop-append_self, inl, inr, ltb, le→ltb,
}
use minapp.Protocol.{Options}
use minapp.Buffer.{
  Span, TripleBuffer, IsValid, prepare_output_buffer, internal_input_buffer,
  mark_current_external_input,
}
use minapp.Buffer.Segments.{segments, segments-Cut}
use minapp.Buffer.Refine.{segments-prepare_output_buffer}
use minapp.Reader.{
  Step, Next, Resume, idle, waiting, delivered, failed, thrown, read_all_into, read_some_into,
  read_until, fixed_read, fill, resume, wait_for, read_fixed,
}
use minapp.Reader.Message.{Delivers, read_fixed-Delivers}
use minapp.Reader.Pieces.{resume_fixed-Delivers}

pub mark_size :
    (b : TripleBuffer) → (mark_current_external_input b).external_input_size ≡ b.external_input_size
unfolding mark_current_external_input
mark_size b = refl

if_some :
    {A : Type 0} {r r' : Option A} {x : A} (t : Bool)
    → (r ≡ some x → r' ≡ some x)
    → (if t then none else r) ≡ some x
    → (if t then none else r') ≡ some x
if_some true f e = e
if_some false f e = f e

module _ (m : ℕ) (options : Options) (read_buffer_size : ℕ) where
  -- At most `rounds` reads, and then the call of the handler: the buffer it is given, and what the
  -- socket has left. None if something else happens, or the socket has not enough bytes.
  unfoldable pub run : ℕ → Step → List ℕ → Option (TripleBuffer × List ℕ)
  run zero s stream = none
  run (suc rounds) (idle, b) stream = none
  run (suc rounds) (waiting (read_some_into s) after, b) stream = none
  run (suc rounds) (waiting (read_all_into s) after, b) stream =
      let rest =
        run rounds (resume m options read_buffer_size (fill b s (take s.size stream)) after s.size)
          (drop s.size stream) in
      if ltb (length stream) s.size then none else rest
  run (suc rounds) (waiting (read_until delim n) after, b) stream = none
  run (suc rounds) (delivered none, b) stream = some (b, stream)
  run (suc rounds) (delivered (some n), b) stream = none
  run (suc rounds) (failed ec, b) stream = none
  run (suc rounds) (thrown, b) stream = none

  -- More rounds than enough do no harm.
  run-suc :
      (rounds : ℕ) (step : Step) (stream : List ℕ) {x : TripleBuffer × List ℕ}
      → run rounds step stream ≡ some x
      → run (suc rounds) step stream ≡ some x
  unfolding run
  run-suc zero step stream e = absurd (cc)
  run-suc (suc rounds) (idle, b) stream e = e
  run-suc (suc rounds) (waiting (read_some_into s) after, b) stream e = e
  run-suc (suc rounds) (waiting (read_all_into s) after, b) stream e =
      if_some (ltb (length stream) s.size)
        (run-suc rounds
          (resume m options read_buffer_size (fill b s (take s.size stream)) after s.size)
          (drop s.size stream))
        e
  run-suc (suc rounds) (waiting (read_until delim n) after, b) stream e = e
  run-suc (suc rounds) (delivered none, b) stream e = e
  run-suc (suc rounds) (delivered (some n), b) stream e = e
  run-suc (suc rounds) (failed ec, b) stream e = e
  run-suc (suc rounds) (thrown, b) stream e = e

  run_waiting :
      (rounds : ℕ) (s : Span) (after : Resume) (b : TripleBuffer) (received rest : List ℕ)
      → s.size ≡ length received
      → run (suc rounds) (waiting (read_all_into s) after, b) (received ++ rest)
        ≡ run rounds (resume m options read_buffer_size (fill b s received) after s.size) rest
  unfolding run
  run_waiting rounds s after b received rest e =
      let enough =
        le→ltb (length (received ++ rest)) s.size (omega (arith, e, length-append received rest)) in
      rw (enough, take-append_self s.size received rest e, drop-append_self s.size received rest e)
        refl

  wait_for_lem :
      (after : Resume) (b : TripleBuffer) (n : ℕ) {s : Span} {b' : TripleBuffer}
      → prepare_output_buffer m b n ≡ some (s, b')
      → wait_for m read_all_into after b n ≡ (waiting (read_all_into s) after, b')
  wait_for_lem after b n e = rw (e, wait_for) refl

  -- A read that waits gets the bytes that it has asked for.
  pub run-wait_for :
      {b : TripleBuffer} (v : IsValid m b) (rounds : ℕ) (after : Resume) (received rest : List ℕ)
      → b.external_input_size + b.internal_input_size + length received ≤ m
      → (s : Span) × ((b' : TripleBuffer) × (prepare_output_buffer m b (length received)
            ≡ some (s, b'))
          × (run
                (suc rounds)
                (wait_for m read_all_into after b (length received))
                (received ++ rest)
              ≡ run rounds
                  (resume m options read_buffer_size (fill b' s received) after (length received))
                  rest))
  run-wait_for {b} v rounds after received rest fits =
      elim (segments-prepare_output_buffer v (length received) (omega (arith, fits))) [
        | inl (f, (b', e, same)) ↦ (
          _,
          (
            b',
            e,
            ap (λ step. run (suc rounds) step (received ++ rest))
                  (wait_for_lem after b (length received) e)
                ∙ run_waiting rounds _ after b' received rest refl,
          ),
        )
        | inr (over, e) ↦ absurd (omega (arith, over, fits))
      ]

  -- `read_fixed` with the payload still to come, at a window that began behind `x`.
  pub record Shown (before message rest : List ℕ) (step : Step) (stream : List ℕ) (rounds : ℕ)
      : Type 0 where
    pub buffer : TripleBuffer
    pub ran : run rounds step stream ≡ some (buffer, rest)
    pub delivers : Delivers m before message [] (delivered none, buffer)

  run_delivered :
      {before message : List ℕ} (step : Step) (stream : List ℕ) (rounds : ℕ)
      → Delivers m before message [] step
      → Shown before message stream step stream (suc rounds)
  unfolding run
  run_delivered step stream rounds d = record {
    buffer = step.1;
    ran = ap (λ (next : Next). run (suc rounds) (next, step.1) stream) d.called;
    delivers = record {
      called = refl;
      shown = d.shown;
      kept = d.kept;
      all = d.all;
      valid = d.valid;
    };
  }

  pub after_read :
      {before message rest stream stream' : List ℕ} {step step' : Step} {rounds rounds' : ℕ}
      → run rounds step stream ≡ run rounds' step' stream'
      → Shown before message rest step' stream' rounds'
      → Shown before message rest step stream rounds
  after_read e s = record { buffer = s.buffer; ran = e ∙ s.ran; delivers = s.delivers }

  Shown-suc :
      {before message rest stream : List ℕ} {step : Step} {rounds : ℕ}
      → Shown before message rest step stream rounds
      → Shown before message rest step stream (suc rounds)
  Shown-suc {stream = stream} {step = step} {rounds = rounds} s = record {
    buffer = s.buffer;
    ran = run-suc rounds step stream s.ran;
    delivers = s.delivers;
  }

  pub Shown-within :
      {before message rest stream : List ℕ} {step : Step} (k rounds limit : ℕ)
      → rounds + k ≡ limit
      → Shown before message rest step stream rounds
      → Shown before message rest step stream limit
  Shown-within {before} {message} {rest} {stream} {step} zero rounds limit e s =
      let same : rounds ≡ limit = omega (arith, e) in
      subst (λ (n : ℕ). Shown before message rest step stream n) same s
  Shown-within (suc k) rounds limit e s =
      Shown-within k (suc rounds) limit (omega (arith, e)) (Shown-suc s)

  read_fixed_waits :
      (b : TripleBuffer) (n : ℕ)
      → b.internal_input_size ≡ 0
      → 0 < n
      → n < 2 ^ 63
      → read_fixed m b n ≡ wait_for m read_all_into fixed_read b n
  unfolding read_fixed internal_input_buffer
  read_fixed_waits b n e pos small = ground (arith, e)

  pub run-read_fixed :
      {b : TripleBuffer} (v : IsValid m b) (x y payload rest : List ℕ)
      → (segments b).external ≡ x ++ y
      → (segments b).internal ≡ []
      → b.view.size ≡ length x
      → b.external_input_size + length payload ≤ m
      → Shown x (y ++ payload) rest (read_fixed m b (length payload)) (payload ++ rest) 2
  run-read_fixed {b} v x y [] rest ext int view fits =
      run_delivered (read_fixed m b 0) rest 1 (read_fixed-Delivers m v x y [] [] ext int view)
  run-read_fixed {b} v x y (p ∷ payload) rest ext int view fits =
      let none_yet : b.internal_input_size ≡ 0 = (segments-Cut v).int ∙ ap length int in
      let n = length (p ∷ payload) in
      let (s, (b', e, r)) =
        run-wait_for v 1 fixed_read (p ∷ payload) rest (omega (arith, fits, none_yet)) in
      let d =
        resume_fixed-Delivers m options read_buffer_size v x y (p ∷ payload) ext view
          (omega (arith, fits)) e in
      after_read
        (ap (λ step. run 2 step ((p ∷ payload) ++ rest))
            (read_fixed_waits b n none_yet (omega arith) (omega (arith, fits, v.countable)))
          ∙ r)
        (run_delivered (resume m options read_buffer_size (fill b' s (p ∷ payload)) fixed_read n)
          rest 0
          (subst
            (λ (w : List ℕ).
              Delivers m x (y ++ (w ++ (p ∷ payload))) []
                (resume m options read_buffer_size (fill b' s (p ∷ payload)) fixed_read n))
            int d))
