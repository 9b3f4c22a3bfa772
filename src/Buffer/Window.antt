-- ===== src/Buffer/Window.antt =====
-- What a handler sees through the base class `buffer`: the window that `session` moves over the
-- external input, and `buffer::consume`.
use minapp.Base.{
  ℕ, ◌+◌, ◌-◌, ◌≤◌, ◌<◌, min, ◌≡◌, refl, sym, ap, ap₂, ◌∙◌, List, ◌++◌, arith, length, take, drop,
  length-append, length-take, drop-append_self, ◌⊎◌, drop-drop, drop-take, drop_all,
}
use native.Mathlib.Decide.{dec_lt}
use minapp.Buffer.{
  TripleBuffer, IsValid, window, commit_to_external_input, mark_current_external_input,
  move_to_new_external_input_segment, consume,
}
use minapp.Buffer.Segments.{segments, segments-Cut}
use minapp.Buffer.Refine.{segments-commit_to_external_input}
use minapp.Buffer.Laws.{mark_current_external_input-IsValid, commit_to_external_input-IsValid}

window_cong : (xs : List ℕ) (i j k l : ℕ) → i ≡ k → j ≡ l → take i (drop j xs) ≡ take k (drop l xs)
window_cong xs i j k l p q = ap₂ (λ a b. take a (drop b xs)) p q

-- A window whose size was that of the first part of the external input moves to the rest of it.
pub window-move_to_new_external_input_segment :
    {m : ℕ} {b : TripleBuffer} (v : IsValid m b) (x y : List ℕ)
    → (segments b).external ≡ x ++ y
    → b.view.size ≡ length x
    → window (move_to_new_external_input_segment b) ≡ y
unfolding move_to_new_external_input_segment
window-move_to_new_external_input_segment {b = b} v x y e h =
    let c = segments-Cut v in
    let fits : length x + length y ≡ b.external_input_size =
      omega (arith, c.ext, ap length e, length-append x y) in
    window_cong b.storage _ _ (length y) (length x) (omega arith) (omega arith)
    ∙ sym (drop-take (length x) (length y) b.external_input_size b.storage (sym fits))
    ∙ ap (drop (length x)) e
    ∙ drop-append_self (length x) x y refl

-- On a valid buffer, after a mark, a commit of `n` bytes and a move, the handler's window shows
-- the first `n` bytes of the internal input, or all of it, whatever external input was kept before
-- them.
pub window-message :
    {m : ℕ} {b : TripleBuffer} (n : ℕ)
    → IsValid m b
    → window (
        move_to_new_external_input_segment
          (commit_to_external_input (mark_current_external_input b) n))
      ≡ take n (segments b).internal
unfolding mark_current_external_input commit_to_external_input
window-message {m} {b} n v =
    let b' = mark_current_external_input b in
    let v' : IsValid m b' = mark_current_external_input-IsValid v in
    window-move_to_new_external_input_segment (commit_to_external_input-IsValid v' n)
      (segments b).external (take n (segments b).internal)
      (ap (λ s. s.external) (segments-commit_to_external_input v' n)) (segments-Cut v).ext

consume_storage :
    {m : ℕ} (b : TripleBuffer) (n k : ℕ)
    → IsValid m b
    → k ≡ min n b.external_input_size
    → (consume b n).storage ≡ drop k b.storage
unfolding consume
consume_storage b n k v e = ground arith

-- On a valid buffer with its window inside the external input, and `n` zero or at least the
-- window's begin, `buffer::consume(n)` leaves in the window those of its bytes that are not
-- consumed.
pub window-consume :
    {m : ℕ} {b : TripleBuffer} (n : ℕ)
    → IsValid m b
    → b.view.begin + b.view.size ≤ b.external_input_size
    → (n ≡ 0) ⊎ (b.view.begin ≤ n)
    → window (consume b n) ≡ drop (n - b.view.begin) (window b)
unfolding consume
window-consume {b = b} n v h far = elim (dec_lt n (b.view.begin + b.view.size)) [
  | yes inside ↦ elim (dec_lt n b.view.begin) [
    | yes before ↦
        let zero_bytes : n ≡ 0 = ground arith in
        rw zero_bytes (
          window_cong (consume b 0).storage _ _ b.view.size b.view.begin (ground (arith, v))
            (ground (arith, v))
          ∙ ap (λ w. take b.view.size (drop b.view.begin w)) (consume_storage b 0 0 v (omega arith))
          ∙ ap (λ i. drop i (window b)) {x = 0} (omega arith))
    | no after ↦
        window_cong (consume b n).storage _ _ (b.view.begin + b.view.size - n) 0 (ground (arith, v))
          (ground (arith, v))
        ∙ ap (take (b.view.begin + b.view.size - n)) (consume_storage b n n v (omega (arith, v)))
        ∙ ap (take (b.view.begin + b.view.size - n))
            (sym (drop-drop b.view.begin (n - b.view.begin) n b.storage (omega arith)))
        ∙ sym (
            drop-take (n - b.view.begin) (b.view.begin + b.view.size - n) b.view.size
              (drop b.view.begin b.storage) (omega arith))
  ]
  | no beyond ↦
      window_cong (consume b n).storage _ _ 0 0 (ground (arith, v)) (ground (arith, v))
      ∙ sym (
          drop_all (n - b.view.begin) (window b)
            (omega (arith, length-take b.view.size (drop b.view.begin b.storage), far)))
]

-- On a valid buffer whose window ends with the external input, and `n` more than 0 and less than
-- the window's begin, `buffer::consume(n)` makes the window `n` bytes longer, and it then ends `n`
-- bytes behind the external input.
pub consume-overrun :
    {m : ℕ} {b : TripleBuffer} (n : ℕ)
    → IsValid m b
    → b.view.begin + b.view.size ≡ b.external_input_size
    → 0 < n
    → n < b.view.begin
    → ((consume b n).view.size ≡ b.view.size + n)
      × ((consume b n).view.begin + (consume b n).view.size ≡ (consume b n).external_input_size + n)
unfolding consume
consume-overrun {b = b} n v h pos near = ground (arith, v)
