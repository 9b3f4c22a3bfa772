-- ===== src/Tests/Messages.antt =====
-- Messages of two bytes behind a prefix of one, and a line that ends with a carriage return and a
-- line feed.
use minapp.Base.{◌-◌, ◌<◌, ◌^◌, ◌≡◌, refl, [], ◌∷◌, true, some, arith, length}
use minapp.Buffer.{Span, TripleBuffer, IsValid, window, commit_to_external_input}
use minapp.Protocol.{has_options}
use minapp.Reader.{
  read_prefix, deliver_delim, delivered, internal_bytes, fixed_read, accept, size_msb, waiting,
  read_all_into,
}
use minapp.Reader.Number.{number}
use minapp.Reader.Message.{Frame, Handed, read_prefix_var-Handed}
use minapp.Buffer.Adaptor.{Adaptor}
use minapp.Reader.{extend}
use minapp.Reader.Until.{read_round, read_round_extends}
use minapp.Reader.Delim.{deliver_delim_lem}
use minapp.Reader.Limits.{accept_wraps}

-- One byte of external input that is kept, then a prefix 2, its payload, and one byte more.
abbrev framed : TripleBuffer
framed = record {
  storage = 9 ∷ 2 ∷ 7 ∷ 8 ∷ 5 ∷ [];
  external_input_size = 1;
  internal_input_size = 4;
  view = record { begin = 0; size = 1 };
}

framed-IsValid : IsValid 100 framed
framed-IsValid = record { inside = omega arith; small = omega arith; countable = omega arith }

framed-Frame_var : Frame 100 0 64 true framed (2 ∷ []) (7 ∷ 8 ∷ []) (5 ∷ [])
unfolding number has_options
framed-Frame_var = (refl, refl, (omega arith, tt), refl, omega arith)

read_prefix_var-Handed_example :
    Handed 100 0 framed (2 ∷ []) (7 ∷ 8 ∷ []) (5 ∷ []) (read_prefix 100 0 64 framed size_msb)
read_prefix_var-Handed_example =
    read_prefix_var-Handed 100 0 64 framed-IsValid (2 ∷ []) (7 ∷ 8 ∷ []) (5 ∷ []) framed-Frame_var
      (omega arith) (omega arith)

-- "a" and the delimiter have arrived, the line feed in the output still.
abbrev lined : TripleBuffer
lined = record {
  storage = 97 ∷ 13 ∷ 10 ∷ 98 ∷ [];
  external_input_size = 0;
  internal_input_size = 2;
  view = record { begin = 0; size = 0 };
}

lined-IsValid : IsValid 100 lined
lined-IsValid = record { inside = omega arith; small = omega arith; countable = omega arith }

deliver_delim_lem_example :
    let s = deliver_delim lined 3 2 true in
    (s.0 ≡ delivered (some 2))
    × (window s.1 ≡ 97 ∷ [])
    × (internal_bytes (commit_to_external_input s.1 2) ≡ 98 ∷ [])
deliver_delim_lem_example =
    deliver_delim_lem lined-IsValid (97 ∷ []) (13 ∷ 10 ∷ []) (98 ∷ []) true (refl, refl)

-- A prefix of eight bytes that says 2 ^ 64 - 1.
abbrev huge : TripleBuffer
huge = record {
  storage = 255 ∷ 255 ∷ 255 ∷ 255 ∷ 255 ∷ 255 ∷ 255 ∷ 255 ∷ [];
  external_input_size = 0;
  internal_input_size = 8;
  view = record { begin = 0; size = 0 };
}

huge-IsValid : IsValid 100 huge
huge-IsValid = record { inside = omega arith; small = omega arith; countable = omega arith }

accept_wraps_example :
    (s : Span) × (b : TripleBuffer) × (accept 100 0 65536 huge 8 (2 ^ 64 - 1)
      ≡ (waiting (read_all_into s) fixed_read, b))
    × (s.size ≡ 2 ^ 64 - 1)
    × (length b.storage < s.begin)
accept_wraps_example =
    accept_wraps 100 0 65536 huge 8 (2 ^ 64 - 1) huge-IsValid (unfold has_options in refl) refl
      (omega arith) (omega arith) (omega arith)

abbrev output : Span
output = record { begin = 1; size = 1 }

-- A round of `async_read_until` that asks for four bytes and receives two.
abbrev adaptor : Adaptor
adaptor = record { impl = framed; maximum = 64 }

read_round_extends_example :
    read_round 100 adaptor 4 (6 ∷ 7 ∷ [])
    ≡ some (record adaptor { impl = extend framed (6 ∷ 7 ∷ []) })
read_round_extends_example =
    read_round_extends 100 adaptor framed-IsValid (omega arith) (omega arith) 4 (6 ∷ 7 ∷ [])
      (omega arith) (omega arith) (omega arith)
