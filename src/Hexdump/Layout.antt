-- ===== src/Hexdump/Layout.antt =====
-- The shape of a dump, include/minapp/hexdump.hpp.
use minapp.Base.{
  ℕ, zero, suc, ◌+◌, ◌-◌, ◌*◌, ◌/◌, ◌%◌, ◌<◌, ◌≤◌, ◌≡◌, refl, List, [], ◌∷◌, ◌++◌, map, length,
  take, drop, replicate, ltb, length-append, length-take, length-drop, length-replicate, arith,
  if◌then◌else◌, Bool-cases, inl, inr,
}
use native.Mathlib.Nat.{div-add-mod', mod-lt}
use minapp.Hexdump.{
  HexOptions, hexer, printable, line, lines, last_line, hexdump, space, bar, newline,
}

length-map : (f : ℕ → ℕ) (xs : List ℕ) → length (map f xs) ≡ length xs
length-map f [] = refl
length-map f (x ∷ xs) = omega (arith, length-map f xs)

length-hexer : (o : HexOptions) (p : List ℕ) → length (hexer o p) ≡ 3 * length p
unfolding hexer
length-hexer o [] = refl
length-hexer o (c ∷ p) = omega (arith, length-hexer o p)

length-line : (o : HexOptions) (p : List ℕ) → length (line o p) ≡ 4 * length p + 5
unfolding line
length-line o p =
    let a = length-append (hexer o p) (bar ∷ (map (printable o) p ++ (bar ∷ newline ∷ []))) in
    let b = length-append (map (printable o) p) (bar ∷ newline ∷ []) in
    omega (arith, a, b, length-hexer o p, length-map (printable o) p)

length-last_line :
    (o : HexOptions) (p : List ℕ)
    → length p ≤ o.bytes_per_line
    → length (last_line o p) ≡ 4 * o.bytes_per_line + 5
unfolding last_line
length-last_line o p h =
    let missing = o.bytes_per_line - length p in
    let tail = replicate missing space ++ (bar ∷ newline ∷ []) in
    let a =
      length-append (hexer o p)
        (replicate (3 * missing) space ++ (bar ∷ (map (printable o) p ++ tail))) in
    let b = length-append (replicate (3 * missing) space) (bar ∷ (map (printable o) p ++ tail)) in
    let c = length-append (map (printable o) p) tail in
    let d = length-append (replicate missing space) (bar ∷ newline ∷ []) in
    omega (
      arith,
      a,
      b,
      c,
      d,
      length-hexer o p,
      length-map (printable o) p,
      length-replicate missing space,
      length-replicate (3 * missing) space,
      h,
    )

length-lines :
    (o : HexOptions) (i : ℕ) (p : List ℕ)
    → i * o.bytes_per_line ≤ length p
    → (length (lines o i p).0 ≡ i * (4 * o.bytes_per_line + 5))
      × (length (lines o i p).1 ≡ length p - i * o.bytes_per_line)
unfolding lines
length-lines o zero p h = (omega arith, omega arith)
length-lines o (suc i) p h =
    let w = o.bytes_per_line in
    let fits : i * w ≤ length (drop w p) = omega (arith, length-drop w p, h) in
    let ih = length-lines o i (drop w p) fits in
    let a = length-append (line o (take w p)) (lines o i (drop w p)).0 in
    let b = length-line o (take w p) in
    (omega (arith, a, b, ih.0, length-take w p, h), omega (arith, ih.1, length-drop w p))

-- A dump, with `bytes_per_line` more than 0, has the length of one line of `4 * bytes_per_line +
-- 5` characters for each group of `bytes_per_line` bytes that is begun.
pub length-hexdump :
    (o : HexOptions) (memory : List ℕ)
    → 0 < o.bytes_per_line
    → length (hexdump o memory)
      ≡ (length memory / o.bytes_per_line
          + (if ltb 0 (length memory % o.bytes_per_line) then 1 else 0))
        * (4 * o.bytes_per_line + 5)
unfolding hexdump
length-hexdump o memory h =
    let w = o.bytes_per_line in
    let n = length memory in
    let whole = div-add-mod' n w in
    let (out, p) = length-lines o (n / w) memory (omega (arith, whole)) in
    let small = mod-lt n h in
    let part : length (lines o (n / w) memory).1 ≡ n % w = omega (arith, whole, p) in
    let rest = (lines o (n / w) memory).1 in
    elim (Bool-cases (ltb 0 (n % w))) [
      | inl e ↦
          let a = length-append (lines o (n / w) memory).0 (last_line o rest) in
          let b = length-last_line o rest (omega (arith, part, small)) in
          rw (e, hexdump) (omega (arith, a, b, out))
      | inr e ↦ rw (e, hexdump) (omega (arith, out))
    ]
