-- ===== src/Reader/Until.antt =====
-- A dynamic buffer in use: a client of the adaptor of Buffer/Growing grows it by `n` bytes, has what
-- is received written to their beginning, and shrinks it by the rest, as Boost.Asio documents the
-- use of a DynamicBuffer. It is what leaves the bytes of `async_read_until` in a `triple_buffer`.
use minapp.Base.{
  ℕ, ◌+◌, ◌-◌, ◌≤◌, ◌<◌, ◌^◌, ◌≡◌, refl, sym, ap, ap₂, ◌∙◌, Option, none, some, List, ◌++◌, min,
  arith, sub_size, add_size, length, length-append, take, drop, replicate, length-replicate,
  append_assoc, append-nil, take-append_self, length-drop,
}
use minapp.Buffer.{
  internal_input_buffer, resize, TripleBuffer, output_buffer, shrink_output_buffer, IsValid,
}
use minapp.Buffer.Adaptor.{Adaptor}
use minapp.Buffer.Growing.{sizes, growing_size, data_at, grow, grow_lem, shrink}
use minapp.Reader.{fill, extend}

-- One such round; none is a `std::length_error`.
unfoldable pub read_round : ℕ → Adaptor → ℕ → List ℕ → Option Adaptor
unfolding grow shrink data_at growing_size fill
read_round max_size a n received = elim (grow max_size a n) [
  | none ↦ none
  | some b ↦
      let space = data_at max_size b (growing_size max_size a) n in
      some (shrink (record b { impl = fill b.impl space received }) (sub_size n (length received)))
]

-- Giving back the end of the output.
shrink_lem :
    (c : TripleBuffer) (kept back : List ℕ)
    → c.storage ≡ kept ++ back
    → c.external_input_size + c.internal_input_size ≤ length kept
    → length kept + length back < 2 ^ 63
    → shrink_output_buffer c (length back) ≡ record c { storage = kept }
unfolding shrink_output_buffer output_buffer resize
shrink_lem c kept back e inputs small =
    let total : length c.storage ≡ length kept + length back =
      ap length e ∙ length-append kept back in
    let at : sub_size (length c.storage) (
          min (length back)
            (sub_size (length c.storage) (add_size c.external_input_size c.internal_input_size)))
        ≡ length kept =
      ground (arith, total, inputs, small) in
    let gap : length kept - length (kept ++ back) ≡ 0 = omega (arith, length-append kept back) in
    ap (λ st. record c { storage = st })
      (ap₂ (λ k xs. take k xs ++ replicate (k - length xs) 0) at e
        ∙ ap₂ (λ xs k. xs ++ replicate k 0) (take-append_self (length kept) kept back refl) gap
        ∙ append-nil kept)

module _ (m : ℕ) (a : Adaptor) (v : IsValid m a.impl) (word : a.maximum < 2 ^ 64)
    (inside : length a.impl.storage ≤ a.impl.external_input_size + a.maximum) where
  abbrev grown : ℕ → Adaptor
  grown n = record a { impl = record (a.impl) { storage = a.impl.storage ++ replicate n 0 } }

  space_lem :
      (n : ℕ)
      → length a.impl.storage + n ≤ m
      → length a.impl.storage + n ≤ a.impl.external_input_size + a.maximum
      → (data_at m (grown n) (growing_size m a) n).begin ≡ length a.impl.storage
  unfolding data_at internal_input_buffer
  space_lem n fits fits' =
      let len : length (a.impl.storage ++ replicate n 0) ≡ length a.impl.storage + n =
        omega (arith, length-append a.impl.storage (replicate n 0), length-replicate {A = ℕ} n 0) in
      let before = sizes m a v word inside in
      let after =
        sizes m (grown n)
          (record {
            inside = omega (arith, len, v);
            small = omega (arith, len, fits);
            countable = v.countable;
          })
          word (omega (arith, len, fits')) in
      rw (before.0, after.0) (omega (arith, len, v))

  -- On a valid buffer whose vector ends within the adaptor's maximum, where `n` more bytes fit
  -- that maximum and the vector's `max_size`: growing the adaptor by `n`, writing at most `n`
  -- received bytes to the data from the old size on, and shrinking it by the rest, appends exactly
  -- the received bytes to the vector and changes nothing else.
  pub read_round_extends :
      (n : ℕ) (received : List ℕ)
      → length received ≤ n
      → length a.impl.storage + n ≤ m
      → length a.impl.storage + n ≤ a.impl.external_input_size + a.maximum
      → read_round m a n received ≡ some (record a { impl = extend a.impl received })
  unfolding read_round shrink fill extend
  read_round_extends n received got fits fits' =
      let st = a.impl.storage in
      let t = length received in
      let w = drop (length st + t) (st ++ replicate n 0) in
      let back : sub_size n t ≡ length w = omega (
        arith,
        got,
        length-drop (length st + t) (st ++ replicate n 0),
        length-append st (replicate n 0),
        length-replicate {A = ℕ} n 0,
        fits,
        v.countable,
      ) in
      let filled : take (length st) (st ++ replicate n 0) ++ (received ++ w)
          ≡ (st ++ received) ++ w =
        ap (λ xs. xs ++ (received ++ w)) (take-append_self (length st) st (replicate n 0) refl)
        ∙ sym (append_assoc st received w) in
      rw (grow_lem m a v word inside n fits fits', read_round, space_lem n fits fits', back)
        (ap (λ (c : TripleBuffer). some (record a { impl = c }))
          (shrink_lem
            (record (a.impl) {
              storage = take (length st) (st ++ replicate n 0) ++ (received ++ w);
            })
            (st ++ received) w filled (omega (arith, v, length-append st received))
            (omega (arith, back, got, fits, v.countable, length-append st received))))
