-- ===== src/Tests/Streams.antt =====
-- Two messages behind prefixes of two bytes that count themselves, and a byte of a third.
use minapp.Base.{◌≡◌, refl, [], ◌∷◌, some, map, arith}
use minapp.Buffer.{IsValid, empty}
use minapp.Protocol.{Protocol, has_options}
use minapp.Base.{List, All}
use minapp.Reader.Number.{number}
use minapp.Reader.Varints.{Framed, Counts, shown_of, bytes_of, receive-bytes_of}
use minapp.Reader.Sequence.{two, frames, message, receive, receive-frames}

empty-IsValid : IsValid 100 empty
empty-IsValid = record { inside = omega arith; small = omega arith; countable = omega arith }

receive-frames_example :
    receive 100 12 50 Protocol.prefix_16 [] 2 empty (frames 12 2 ((7 ∷ 8 ∷ []) ∷ [] ∷ []) (4 ∷ []))
    ≡ some (map (message 12 2) ((7 ∷ 8 ∷ []) ∷ [] ∷ []), 4 ∷ [])
unfolding has_options
receive-frames_example =
    receive-frames 100 12 50 Protocol.prefix_16 [] ((7 ∷ 8 ∷ []) ∷ [] ∷ []) empty empty-IsValid 2
      (4 ∷ []) two refl (omega arith) refl
      ((omega arith, omega arith), ((omega arith, omega arith), tt))

-- A payload of one byte behind an integer of two bytes, and a payload of two.
abbrev framed : List Framed
framed =
    record { prefix = 128 ∷ 1 ∷ []; payload = 9 ∷ [] }
    ∷ record { prefix = 2 ∷ []; payload = 7 ∷ 8 ∷ [] }
    ∷ []

framed-Counts : All (Counts 0 50) framed
unfolding number has_options
framed-Counts = (
  record {
    varint = (omega arith, omega arith);
    bytes = (omega arith, (omega arith, tt));
    nine = omega arith;
    counts = refl;
    small = omega arith;
  },
  (
    record {
      varint = omega arith;
      bytes = (omega arith, tt);
      nine = omega arith;
      counts = refl;
      small = omega arith;
    },
    tt,
  ),
)

receive-bytes_of_example :
    receive 100 0 50 Protocol.prefix_var [] 2 empty (bytes_of framed (200 ∷ []))
    ≡ some (map (shown_of 0) framed, 200 ∷ [])
unfolding has_options
receive-bytes_of_example =
    receive-bytes_of 100 0 50 [] framed empty empty-IsValid (200 ∷ []) framed-Counts refl
      (omega arith) refl
