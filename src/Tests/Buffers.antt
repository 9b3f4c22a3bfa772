-- ===== src/Tests/Buffers.antt =====
-- A buffer with two bytes of external input, three of internal input and one of output.
use minapp.Base.{◌+◌, ◌≡◌, refl, [], ◌∷◌, inr, arith}
use minapp.Buffer.{TripleBuffer, IsValid, window, consume}
use minapp.Buffer.Window.{window-consume, consume-overrun}

abbrev sample : TripleBuffer
sample = record {
  storage = 1 ∷ 2 ∷ 3 ∷ 4 ∷ 5 ∷ 6 ∷ [];
  external_input_size = 2;
  internal_input_size = 3;
  view = record { begin = 0; size = 2 };
}

-- A window that begins behind two bytes of external input.
abbrev second : TripleBuffer
second = record sample {
  external_input_size = 4;
  internal_input_size = 1;
  view = record { begin = 2; size = 2 };
}

second-IsValid : IsValid 100 second
second-IsValid = record { inside = omega arith; small = omega arith; countable = omega arith }

window-consume_example : window (consume second 3) ≡ 4 ∷ []
window-consume_example = window-consume 3 second-IsValid (omega arith) (inr (omega arith))

consume-overrun_example :
    ((consume second 1).view.size ≡ 3)
    × ((consume second 1).view.begin + (consume second 1).view.size
        ≡ (consume second 1).external_input_size + 1)
consume-overrun_example = consume-overrun 1 second-IsValid refl (omega arith) (omega arith)
