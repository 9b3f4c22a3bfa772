-- ===== src/Buffer/Growing.antt =====
-- `struct dynamic_buffer_adaptor` of src/session.cpp with BOOST_ASIO_NO_DYNAMIC_BUFFER_V1, the form
-- in which the size of the buffer includes the output.
use minapp.Base.{
  ℕ, ◌+◌, ◌-◌, ◌≤◌, ◌<◌, ◌^◌, ◌≡◌, false, true, refl, ap₂, Option, none, some, List, ◌++◌, min, ltb,
  if◌then◌else◌, arith, sub_size, add_size, length, replicate, take_all,
}
use minapp.Buffer.{
  Span, skip, resize, internal_input_buffer, external_input_buffer, grow_output_buffer,
  shrink_output_buffer, IsValid,
}
use minapp.Buffer.Adaptor.{Adaptor, adaptor_max_size}

-- `max_size` is that of the form without BOOST_ASIO_NO_DYNAMIC_BUFFER_V1.
unfoldable pub growing_size : ℕ → Adaptor → ℕ
unfolding external_input_buffer adaptor_max_size
growing_size max_size a =
    min (sub_size (length a.impl.storage) (external_input_buffer a.impl).size)
      (adaptor_max_size max_size a)

unfoldable pub growing_capacity : ℕ → ℕ → Adaptor → ℕ
unfolding external_input_buffer adaptor_max_size
growing_capacity max_size capacity a =
    min (sub_size capacity (external_input_buffer a.impl).size) (adaptor_max_size max_size a)

-- `data(pos, n)`, in both its forms.
unfoldable pub data_at : ℕ → Adaptor → ℕ → ℕ → Span
unfolding internal_input_buffer growing_size
data_at max_size a pos n =
    let s =
      skip (record { begin = (internal_input_buffer a.impl).begin; size = growing_size max_size a })
        pos in
    record s { size = min s.size n }

-- None is the `std::length_error`, of the adaptor or of the vector.
unfoldable pub grow : ℕ → Adaptor → ℕ → Option Adaptor
unfolding growing_size adaptor_max_size grow_output_buffer
grow max_size a n =
    if ltb (sub_size (adaptor_max_size max_size a) (growing_size max_size a)) n
    then none
    else elim (grow_output_buffer max_size a.impl n) [
      | none ↦ none
      | some impl ↦ some (record a { impl = impl })
    ]

unfoldable pub shrink : Adaptor → ℕ → Adaptor
unfolding shrink_output_buffer
shrink a n = record a { impl = shrink_output_buffer a.impl n }

module _ (m : ℕ) (a : Adaptor) (v : IsValid m a.impl) (word : a.maximum < 2 ^ 64)
    (inside : length a.impl.storage ≤ a.impl.external_input_size + a.maximum) where
  pub sizes :
      (growing_size m a ≡ length a.impl.storage - a.impl.external_input_size)
      × (adaptor_max_size m a ≡ min (m - a.impl.external_input_size) a.maximum)
  unfolding growing_size adaptor_max_size external_input_buffer
  sizes = (ground (arith, v, inside, word), ground (arith, v))

  -- A vector that becomes longer.
  resize_more : (xs : List ℕ) (n : ℕ) → resize xs (length xs + n) ≡ xs ++ replicate n 0
  unfolding resize
  resize_more xs n =
      ap₂ (λ ys k. ys ++ replicate k 0) (take_all (length xs + n) xs (omega arith)) (omega arith)

  pub grow_lem :
      (n : ℕ)
      → length a.impl.storage + n ≤ m
      → length a.impl.storage + n ≤ a.impl.external_input_size + a.maximum
      → grow m a n
        ≡ some (record a { impl = record (a.impl) { storage = a.impl.storage ++ replicate n 0 } })
  unfolding grow grow_output_buffer
  grow_lem n fits fits' =
      let room : ltb (sub_size (adaptor_max_size m a) (growing_size m a)) n ≡ false =
        rw (sizes.0, sizes.1) (ground (arith, v, word)) in
      let total : add_size (length a.impl.storage) n ≡ length a.impl.storage + n =
        omega (arith, fits, v.countable) in
      let few : ltb m (length a.impl.storage + n) ≡ false = ground (arith, fits) in
      rw (room, total, few, resize_more a.impl.storage n) refl

  -- Beyond the maximum it throws.
  pub grow_throws :
      (n : ℕ)
      → a.impl.external_input_size + a.maximum < length a.impl.storage + n
      → grow m a n ≡ none
  unfolding grow
  grow_throws n over =
      let full : ltb (sub_size (adaptor_max_size m a) (growing_size m a)) n ≡ true =
        rw (sizes.0, sizes.1) (ground (arith, v, word)) in
      rw full refl
