-- ===== src/Hexdump.antt =====
-- `class hexdump` of include/minapp/hexdump.hpp. Its output is the list of the characters that
-- `put` gets, as their codes. `char` is signed; `rank` orders the codes as it does. The counter of
-- lines, an `unsigned`, is taken not to wrap: fewer than 2 ^ 32 whole lines.
pub mod Layout
use minapp.Base.{
  ℕ, zero, suc, ◌+◌, ◌-◌, ◌*◌, ◌/◌, ◌%◌, Bool, List, [], ◌∷◌, ◌++◌, map, length, take, drop,
  replicate, get_or, leb, ltb, ◌&&◌, if◌then◌else◌,
}

pub record HexOptions : Type 0 where
  pub uppercase : Bool
  pub min_printable : ℕ
  pub max_printable : ℕ
  pub placeholder : ℕ
  pub bytes_per_line : ℕ

-- "0123456789ABCDEF" and "0123456789abcdef"
unfoldable pub table : Bool → List ℕ
table uppercase =
    48
    ∷ 49
    ∷ 50
    ∷ 51
    ∷ 52
    ∷ 53
    ∷ 54
    ∷ 55
    ∷ 56
    ∷ 57
    ∷ (if uppercase then 65 ∷ 66 ∷ 67 ∷ 68 ∷ 69 ∷ 70 ∷ [] else 97 ∷ 98 ∷ 99 ∷ 100 ∷ 101 ∷ 102 ∷ [])

abbrev pub space : ℕ
space = 32

abbrev pub bar : ℕ
bar = 124

abbrev pub newline : ℕ
newline = 10

unfoldable pub rank : ℕ → ℕ
rank c = (c + 128) % 256

unfoldable pub printable : HexOptions → ℕ → ℕ
unfolding rank
printable o c =
    if leb (rank o.min_printable) (rank c) && leb (rank c) (rank o.max_printable)
    then c
    else o.placeholder

-- The loop that prints the two digits of each byte and a space.
unfoldable pub hexer : HexOptions → List ℕ → List ℕ
unfolding table
hexer o [] = []
hexer o (c ∷ p) =
    get_or (table o.uppercase) (c / 16) 0
    ∷ get_or (table o.uppercase) (c % 16) 0
    ∷ space
    ∷ hexer o p

-- One round of the first loop.
unfoldable pub line : HexOptions → List ℕ → List ℕ
line o p = bar ∷ space ∷ (hexer o p ++ (bar ∷ (map (printable o) p ++ (bar ∷ newline ∷ []))))

-- The first loop, and where it leaves `p`.
unfoldable pub lines : HexOptions → ℕ → List ℕ → List ℕ × List ℕ
unfolding line
lines o zero p = ([], p)
lines o (suc i) p =
    let (rest, p') = lines o i (drop o.bytes_per_line p) in
    (line o (take o.bytes_per_line p) ++ rest, p')

-- What stands under `if (size > 0)`.
unfoldable pub last_line : HexOptions → List ℕ → List ℕ
last_line o p =
    let missing = o.bytes_per_line - length p in
    bar
    ∷ space
    ∷ (hexer o p
        ++ (replicate (3 * missing) space
            ++ (bar ∷ (map (printable o) p ++ (replicate missing space ++ (bar ∷ newline ∷ []))))))

-- `operator()`
unfoldable pub hexdump : HexOptions → List ℕ → List ℕ
unfolding lines last_line
hexdump o memory =
    let size = length memory in
    let (out, p) = lines o (size / o.bytes_per_line) memory in
    if ltb 0 (size % o.bytes_per_line) then out ++ last_line o p else out
