-- ===== src/Buffer/Adaptor.antt =====
-- `struct dynamic_buffer_adaptor` of src/session.cpp, without BOOST_ASIO_NO_DYNAMIC_BUFFER_V1:
-- a `triple_buffer` and a maximum. `max_size` and `capacity` are those of the buffer's vector.
use minapp.Base.{
  ℕ, ◌+◌, ◌-◌, ◌≤◌, ◌<◌, ◌^◌, ◌≡◌, refl, Option, none, some, min, ltb, ◌||◌, if◌then◌else◌, arith,
  sub_size, ◌%◌, ◌∙◌, ap, add_size,
}
use native.Mathlib.Nat.{add-mod_right, mod-eq_of_lt}
use minapp.Buffer.{
  resize, Span, TripleBuffer, internal_input_buffer, external_input_buffer, prepare_output_buffer,
  commit_to_internal_input, IsValid,
}

pub record Adaptor : Type 0 where
  pub impl : TripleBuffer
  pub maximum : ℕ

unfoldable pub input : Adaptor → Span
unfolding internal_input_buffer
input a = internal_input_buffer a.impl

unfoldable pub size : Adaptor → ℕ
unfolding internal_input_buffer
size a = (internal_input_buffer a.impl).size

unfoldable pub adaptor_max_size : ℕ → Adaptor → ℕ
unfolding external_input_buffer
adaptor_max_size max_size a = min (sub_size max_size (external_input_buffer a.impl).size) a.maximum

unfoldable pub adaptor_capacity : ℕ → Adaptor → ℕ
unfolding external_input_buffer
adaptor_capacity capacity a = sub_size capacity (external_input_buffer a.impl).size

-- `none` is the `std::length_error`, of the adaptor or of the vector.
unfoldable pub prepare : ℕ → Adaptor → ℕ → Option (Span × Adaptor)
unfolding size adaptor_max_size prepare_output_buffer
prepare max_size a n =
    let limit = adaptor_max_size max_size a in
    if ltb limit (size a) || ltb (sub_size limit (size a)) n
    then none
    else elim (prepare_output_buffer max_size a.impl n) [
      | none ↦ none
      | some (space, impl) ↦ some (space, record a { impl = impl })
    ]

unfoldable pub commit : Adaptor → ℕ → Adaptor
unfolding commit_to_internal_input
commit a n = record a { impl = commit_to_internal_input a.impl n }

-- The difference of two sizes, the first of them the larger.
sub_size_exact : (a b : ℕ) → b ≤ a → a < 2 ^ 64 → sub_size a b ≡ a - b
sub_size_exact a b h k =
    ap (λ n. n % 2 ^ 64) (omega (arith, h))
    ∙ add-mod_right (a - b) (2 ^ 64)
    ∙ mod-eq_of_lt (omega (arith, h, k))

-- On a valid buffer, where the internal input and `n` more bytes fit the adaptor's maximum, which
-- is below `2 ^ 64`, and both inputs and `n` bytes fit the vector's `max_size`, `prepare` of the
-- adaptor succeeds and gives the `n` bytes that follow the two inputs.
pub prepare_fits :
    (max_size : ℕ) (a : Adaptor) (n : ℕ)
    → IsValid max_size a.impl
    → a.maximum < 2 ^ 64
    → a.impl.internal_input_size + n ≤ a.maximum
    → a.impl.external_input_size + a.impl.internal_input_size + n ≤ max_size
    → (space : Span) × (b : Adaptor) × (prepare max_size a n ≡ some (space, b))
      × (space.begin ≡ a.impl.external_input_size + a.impl.internal_input_size)
      × (space.size ≡ n)
unfolding prepare size adaptor_max_size prepare_output_buffer internal_input_buffer
    external_input_buffer
prepare_fits max_size a n v h i_fits fits =
    let e = a.impl.external_input_size in
    let i = a.impl.internal_input_size in
    let exact = sub_size_exact max_size e (omega (arith, fits)) (omega (arith, v.countable)) in
    let left =
      sub_size_exact (min (max_size - e) a.maximum) i (omega (arith, i_fits, fits))
        (omega (arith, h)) in
    let total : add_size e i ≡ e + i = mod-eq_of_lt (omega (arith, fits, v.countable)) in
    let grown : add_size (e + i) n ≡ e + i + n = mod-eq_of_lt (omega (arith, fits, v.countable)) in
    (
      record { begin = add_size e i; size = n },
      record a {
        impl = record a.impl { storage = resize a.impl.storage (add_size (add_size e i) n) };
      },
      ground (arith, exact, left, total, grown, i_fits, fits, v.countable),
      total,
      refl,
    )
