-- ===== src/Reader/Sequence.antt =====
-- A sender that writes payloads behind prefixes of fixed width, and a session that reads them.
use minapp.Base.{
  ℕ, zero, suc, ◌+◌, ◌^◌, ◌≤◌, ◌<◌, ◌≡◌, refl, sym, ap, subst, ◌∙◌, false, Option, none, some, List,
  [], ◌∷◌, ◌++◌, map, arith, length, if◌then◌else◌, drop_all, All,
}
use minapp.Protocol.{
  Protocol, Options, has_options, ignore_protocol_bytes, include_prefix_in_payload,
  use_little_endian, do_not_consume_buffer,
}
use minapp.Buffer.{
  TripleBuffer, IsValid, window, mark_current_external_input, consume_whole_external_input,
}
use minapp.Buffer.Segments.{Segments, segments, segments-Cut}
use minapp.Buffer.Refine.{segments-consume_whole_external_input}
use minapp.Buffer.Laws.{mark_current_external_input-IsValid, consume_whole_external_input-IsValid}
use minapp.Reader.{read_prefix, internal_bytes, start, dispatch}
use minapp.Reader.Number.{encode, length-encode, encode-IsByte, number-encode}
use minapp.Reader.Message.{segments-mark, view-mark}
use minapp.Reader.Stream.{Shown-within, run, Shown, mark_size, after_read}
use minapp.Reader.Prefixed.{run-read_prefix}

-- The protocols with a prefix of fixed width, and its bytes.
pub data Width : Protocol → ℕ → Type 0 where
  one : Width Protocol.prefix_8 1
  two : Width Protocol.prefix_16 2
  four : Width Protocol.prefix_32 4
  eight : Width Protocol.prefix_64 8

Width-bounds : {protocol : Protocol} {n : ℕ} → Width protocol n → (0 < n) × (n ≤ 8)
Width-bounds one = (omega arith, omega arith)
Width-bounds two = (omega arith, omega arith)
Width-bounds four = (omega arith, omega arith)
Width-bounds eight = (omega arith, omega arith)

-- The number that a sender puts before a payload, and the prefix of `n` bytes.
abbrev pub count : Options → ℕ → List ℕ → ℕ
count options n payload =
    if has_options options include_prefix_in_payload then length payload + n else length payload

abbrev pub prefix_of : Options → ℕ → List ℕ → List ℕ
prefix_of options n payload =
    encode (has_options options use_little_endian) n (count options n payload)

-- What the handler is to see of a payload.
abbrev pub message : Options → ℕ → List ℕ → List ℕ
message options n payload =
    if has_options options ignore_protocol_bytes
    then payload
    else prefix_of options n payload ++ payload

-- The bytes that a sender writes, before `rest`.
abbrev pub frames : Options → ℕ → List (List ℕ) → List ℕ → List ℕ
frames options n [] rest = rest
frames options n (payload ∷ payloads) rest =
    prefix_of options n payload ++ (payload ++ frames options n payloads rest)

-- A payload that its prefix can count, and whose frame fits the read buffer.
abbrev pub Fits : Options → ℕ → ℕ → List ℕ → Type 0
Fits options read_buffer_size n payload =
    (n + length payload ≤ read_buffer_size) × (count options n payload < 256 ^ n)

dispatch_prefix :
    (m : ℕ) (options : Options) (read_buffer_size : ℕ) (protocol : Protocol) (delimiter : List ℕ)
    (n : ℕ) (b : TripleBuffer)
    → Width protocol n
    → dispatch m options read_buffer_size protocol delimiter b
      ≡ read_prefix m options read_buffer_size b n
unfolding dispatch
dispatch_prefix m options read_buffer_size protocol delimiter n b one = refl
dispatch_prefix m options read_buffer_size protocol delimiter n b two = refl
dispatch_prefix m options read_buffer_size protocol delimiter n b four = refl
dispatch_prefix m options read_buffer_size protocol delimiter n b eight = refl

module _ (m : ℕ) (options : Options) (read_buffer_size : ℕ) (protocol : Protocol)
    (delimiter : List ℕ) where
  -- `read` for so many messages, with a handler that leaves the session alone: what the handler sees,
  -- and what the socket has left. A message takes ten reads at most, nine for the bytes of the
  -- prefix, and the call of the handler.
  unfoldable pub receive : ℕ → TripleBuffer → List ℕ → Option (List (List ℕ) × List ℕ)
  unfolding run
  receive zero b stream = some ([], stream)
  receive (suc messages) b stream =
      elim (run m options read_buffer_size 11
        (start m options read_buffer_size protocol delimiter b) stream) [
          | none ↦ none
          | some (b', stream') ↦ elim (receive messages b' stream') [
            | none ↦ none
            | some (seen, left) ↦ some (window b' ∷ seen, left)
          ]
        ]

  -- The buffer after the handler's input has been consumed.
  pub record Cleared (c : TripleBuffer) : Type 0 where
    pub valid : IsValid m c
    pub ext : (segments c).external ≡ []
    pub int : internal_bytes c ≡ []
    pub view : c.view.size ≡ c.external_input_size
    pub size : c.external_input_size ≡ 0

  pub cleared :
      {b : TripleBuffer} (v : IsValid m b)
      → internal_bytes b ≡ []
      → Cleared (mark_current_external_input (consume_whole_external_input b))
  cleared {b} v int =
      let vc = mark_current_external_input-IsValid (consume_whole_external_input-IsValid v) in
      let seg =
        segments-mark (consume_whole_external_input b) ∙ segments-consume_whole_external_input v in
      let ext =
        ap (λ (t : Segments). t.external) seg
        ∙ drop_all (length (segments b).external) (segments b).external (omega arith) in
      record {
        valid = vc;
        ext = ext;
        int = ap (λ (t : Segments). t.internal) seg ∙ int;
        view =
            view-mark (consume_whole_external_input b)
            ∙ sym (mark_size (consume_whole_external_input b));
        size = (segments-Cut vc).ext ∙ ap length ext;
      }

  start_prefix :
      (b : TripleBuffer) (n : ℕ)
      → Width protocol n
      → has_options options do_not_consume_buffer ≡ false
      → start m options read_buffer_size protocol delimiter b
        ≡ read_prefix m options read_buffer_size
            (mark_current_external_input (consume_whole_external_input b))
            n
  unfolding start
  start_prefix b n w consumes = rw consumes (
      dispatch_prefix m options read_buffer_size protocol delimiter n
        (mark_current_external_input (consume_whole_external_input b)) w)

  -- One message.
  read_one :
      {b : TripleBuffer} (v : IsValid m b) (n : ℕ) (payload rest : List ℕ)
      → Width protocol n
      → has_options options do_not_consume_buffer ≡ false
      → read_buffer_size ≤ m
      → internal_bytes b ≡ []
      → Fits options read_buffer_size n payload
      → Shown m options read_buffer_size
          (if has_options options ignore_protocol_bytes then prefix_of options n payload else [])
          (message options n payload)
          rest
          (start m options read_buffer_size protocol delimiter b)
          (prefix_of options n payload ++ (payload ++ rest))
          11
  read_one {b} v n payload rest w consumes room int (small, below) =
      let ps = prefix_of options n payload in
      let little = has_options options use_little_endian in
      let len : length ps ≡ n = length-encode little n (count options n payload) in
      let clean = cleared v int in
      let c = mark_current_external_input (consume_whole_external_input b) in
      let bounds = Width-bounds w in
      let shown =
        run-read_prefix m options read_buffer_size clean.valid ps payload rest
          (omega (arith, bounds, len)) (omega (arith, bounds, len))
          (encode-IsByte little n (count options n payload))
          (number-encode little n (count options n payload) below
            ∙ ap
                (λ k.
                  if has_options options include_prefix_in_payload
                  then length payload + k
                  else length payload)
                (sym len))
          (omega (arith, small, len)) clean.int clean.view
          (omega (arith, clean.size, small, room, len)) in
      after_read m options read_buffer_size
        (ap (λ step. run m options read_buffer_size 11 step (ps ++ (payload ++ rest)))
          (start_prefix b n w consumes ∙ ap (read_prefix m options read_buffer_size c) (sym len)))
        (subst
          (λ (x : List ℕ).
            Shown m options read_buffer_size
              (if has_options options ignore_protocol_bytes then x ++ ps else x)
              (message options n payload) rest
              (read_prefix m options read_buffer_size c (length ps)) (ps ++ (payload ++ rest)) 11)
          clean.ext (Shown-within m options read_buffer_size 8 3 11 refl shown))

  pub receive_more :
      (b b' : TripleBuffer) (stream stream' : List ℕ) (messages : ℕ) {seen : List (List ℕ)}
      {left : List ℕ}
      → run m options read_buffer_size 11
          (start m options read_buffer_size protocol delimiter b)
          stream
        ≡ some (b', stream')
      → receive messages b' stream' ≡ some (seen, left)
      → receive (suc messages) b stream ≡ some (window b' ∷ seen, left)
  unfolding receive
  receive_more b b' stream stream' messages e r = rw (e, receive, r) refl

  -- For a protocol with a prefix of one, two, four or eight bytes, a valid buffer without internal
  -- input, options that consume the handler's input before each read, and a read buffer no larger
  -- than the buffer may be: where a sender writes any payloads, each of which its prefix can count
  -- and with it fits the read buffer, behind prefixes as the options say, and each read that the
  -- session starts is completed with the next bytes of the socket, the handler, if it leaves the
  -- session alone, is shown exactly these payloads in their order, with their prefixes unless they
  -- are ignored, and the socket has left what came after them.
  pub receive-frames :
      (payloads : List (List ℕ)) (b : TripleBuffer) (v : IsValid m b) (n : ℕ) (rest : List ℕ)
      → Width protocol n
      → has_options options do_not_consume_buffer ≡ false
      → read_buffer_size ≤ m
      → internal_bytes b ≡ []
      → All (Fits options read_buffer_size n) payloads
      → receive (length payloads) b (frames options n payloads rest)
        ≡ some (map (message options n) payloads, rest)
  unfolding receive
  receive-frames [] b v n rest w consumes room int fits = refl
  receive-frames (payload ∷ payloads) b v n rest w consumes room int fits =
      let one = read_one v n payload (frames options n payloads rest) w consumes room int fits.0 in
      let more =
        receive-frames payloads one.buffer one.delivers.valid n rest w consumes room
          one.delivers.kept fits.1 in
      receive_more b one.buffer _ (frames options n payloads rest) (length payloads) one.ran more
      ∙ ap (λ x. some (x ∷ map (message options n) payloads, rest)) one.delivers.shown
