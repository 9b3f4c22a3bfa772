-- ===== src/Bluetooth/Scanning.antt =====
-- `make_address` of include/boost/asio/bluetooth/detail/impl/address.ipp on text, with what ISO C
-- says of `sscanf` for its format: `%02X` skips white space and takes at most two characters, which
-- may begin with a sign or "0x"; `%*[:-]` takes one or more colons and dashes; what follows the
-- last number is not looked at. Text is its character codes, without the null at its end.
pub mod Printed
use minapp.Base.{
  ℕ, zero, suc, ◌+◌, ◌-◌, ◌*◌, ◌^◌, ◌%◌, Bool, ◌&&◌, ◌||◌, Option, none, some, List, [], ◌∷◌, ◌++◌,
  length, leb, ◌==◌, if◌then◌else◌,
}
use minapp.Bluetooth.{Address, Endpoint, make_address, to_string, address, channel}

abbrev pub hex_digit : ℕ → Option ℕ
hex_digit c =
    if leb 48 c && leb c 57
    then some (c - 48)
    else if leb 65 c && leb c 70
    then some (c - 55)
    else if leb 97 c && leb c 102
    then some (c - 87)
    else none

abbrev pub is_space : ℕ → Bool
is_space c = (c == 32) || (leb 9 c && leb c 13)

abbrev pub is_separator : ℕ → Bool
is_separator c = (c == 58) || (c == 45)

abbrev pub skip : (ℕ → Bool) → List ℕ → List ℕ
skip test [] = []
skip test (c ∷ s) = let rest = skip test s in if test c then rest else c ∷ s

-- A number with the text behind it.
abbrev pub Scanned : Type 0
Scanned = Option (ℕ × List ℕ)

abbrev pub one_digit : List ℕ → Scanned
one_digit [] = none
one_digit (c ∷ s) = elim (hex_digit c) [ none ↦ none | some d ↦ some (d, s) ]

-- "0x" takes the two characters, and no digit is left.
abbrev pub two_digits : List ℕ → Scanned
two_digits [] = none
two_digits (c ∷ []) = one_digit (c ∷ [])
two_digits (c ∷ c' ∷ s) = elim (hex_digit c) [
  | none ↦ none
  | some d ↦
      if (c == 48) && ((c' == 88) || (c' == 120))
      then none
      else elim (hex_digit c') [ none ↦ some (d, c' ∷ s) | some d' ↦ some (d * 16 + d', s) ]
]

-- A number with a minus is stored modulo 2 ^ 32, the range of `unsigned`.
abbrev pub negated : Scanned → Scanned
negated none = none
negated (some (d, s)) = some ((2 ^ 32 - d) % 2 ^ 32, s)

-- `%02X`
abbrev pub signed_number : List ℕ → Scanned
signed_number [] = none
signed_number (c ∷ s) =
    if c == 43 then one_digit s else if c == 45 then negated (one_digit s) else two_digits (c ∷ s)

unfoldable pub scan_number : List ℕ → Scanned
scan_number s = signed_number (skip is_space s)

-- `%*[:-]`
unfoldable pub scan_separator : List ℕ → Option (List ℕ)
scan_separator [] = none
scan_separator (c ∷ s) = if is_separator c then some (skip is_separator s) else none

-- The numbers stored by `n` times `%*[:-]%02X`.
unfoldable pub scan_more : ℕ → List ℕ → List ℕ
scan_more zero s = []
scan_more (suc n) s = elim (scan_separator s) [
  | none ↦ []
  | some s' ↦ elim (scan_number s') [ none ↦ [] | some (d, s'') ↦ d ∷ scan_more n s'' ]
]

abbrev pub backwards : List ℕ → List ℕ → List ℕ
backwards [] d = d
backwards (n ∷ ns) d = backwards ns (n ∷ d)

-- The numbers stored by the call of `sscanf`, the last first, as `d` has them.
unfoldable pub sscanf : List ℕ → List ℕ
unfolding scan_more
sscanf s = elim (scan_number s) [ none ↦ [] | some (d, s') ↦ backwards (scan_more 5 s') (d ∷ []) ]

-- `make_address(str, ec)` of a C string; none for `invalid_argument`, where the other overload
-- throws.
unfoldable pub make_address_of : List ℕ → Option Address
unfolding sscanf make_address
make_address_of str = let d = sscanf str in make_address (length d) d

-- The characters of `c_str()`, as far as a C string reads them.
abbrev pub c_str : List ℕ → List ℕ
c_str [] = []
c_str (c ∷ s) = let rest = c_str s in if c == 0 then [] else c ∷ rest

-- `make_address(const std::string&, ec)`, and of a `string_view`.
unfoldable pub make_address_of_string : List ℕ → Option Address
unfolding make_address_of
make_address_of_string str = make_address_of (c_str str)
