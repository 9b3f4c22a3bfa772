-- ===== src/Reader/Number.antt =====
-- The number that a prefix stands for, and that the loops of `read_prefix` compute it.
use native.Mathlib.Nat.{pow-suc, one-le-pow, mod-eq_of_lt}
use mathlib.Core.List.{reverse, reverse-cons, reverse-reverse}
use minapp.Base.{
  ℕ, zero, suc, ◌+◌, ◌-◌, ◌*◌, ◌/◌, ◌%◌, ◌^◌, ◌≤◌, ◌<◌, ◌≡◌, refl, sym, ap, ap₂, subst, ◌∙◌, Bool,
  true, false, List, [], ◌∷◌, ◌++◌, map, arith, length, length-append, if◌then◌else◌, IsByte, All,
  bit_or, bit_or-shifted, bit_and-low, Bool-cases, inl, inr,
}
use minapp.Protocol.{Options, has_options, use_little_endian}
use minapp.Reader.{gather, decode, low_bits, whole_byte}

-- Digits of base `2 ^ width`, the lowest first.
pub value : ℕ → List ℕ → ℕ
value width [] = 0
value width (d ∷ ds) = d + 2 ^ width * value width ds

pow-add : (a b : ℕ) → 2 ^ (a + b) ≡ 2 ^ a * 2 ^ b
pow-add a zero = ap (λ (t : ℕ). 2 ^ t) {x = a + 0} {y = a} (omega arith) ∙ omega arith
pow-add a (suc b) =
    ap (λ (t : ℕ). 2 ^ t) {x = a + suc b} {y = suc (a + b)} (omega arith)
    ∙ omega (
      arith,
      pow-suc 2 (a + b),
      pow-suc 2 b,
      pow-add a b,
      ap (λ (t : ℕ). 2 ^ a * t) (pow-suc 2 b),
    )

pow-le : (a b : ℕ) → a ≤ b → 2 ^ a ≤ 2 ^ b
pow-le a b h =
    let split : 2 ^ b ≡ 2 ^ a * 2 ^ (b - a) =
      ap (λ (t : ℕ). 2 ^ t) {x = b} {y = a + (b - a)} (omega arith) ∙ pow-add a (b - a) in
    grind (arith, split, one-le-pow (b - a) 2)

-- A digit of `w` bits above a number of `s` bits.
digit_fits : (s w acc d : ℕ) → acc < 2 ^ s → d < 2 ^ w → acc + d * 2 ^ s < 2 ^ (s + w)
digit_fits s w acc d ha hd = rw (pow-add s w) (grind arith)

module _ (mask : ℕ → ℕ) (width : ℕ) where
  -- The loop adds up the digits as long as all of them fit in 64 bits.
  gather-value :
      (cs : List ℕ) (i acc : ℕ)
      → All (λ c. mask c < 2 ^ width) cs
      → width * i + width * length cs ≤ 64
      → acc < 2 ^ (width * i)
      → gather mask width cs i acc ≡ acc + value width (map mask cs) * 2 ^ (width * i)
  unfolding gather value
  gather-value [] i acc h fits small = omega arith
  gather-value (c ∷ cs) i acc h fits small =
      let s : ℕ = width * i in
      let d : ℕ = mask c in
      let next : width * (i + 1) ≡ s + width = omega arith in
      let bound : acc + d * 2 ^ s < 2 ^ (s + width) = digit_fits s width acc d small h.0 in
      let fits64 : 2 ^ (s + width) ≤ 2 ^ 64 = pow-le (s + width) 64 (omega arith) in
      let kept : d * 2 ^ s % 2 ^ 64 ≡ d * 2 ^ s = mod-eq_of_lt (omega arith) in
      let sum : bit_or acc (d * 2 ^ s % 2 ^ 64) ≡ acc + d * 2 ^ s =
        rw kept (bit_or-shifted s d acc small) in
      ap (gather mask width cs (i + 1)) sum
      ∙ gather-value cs (i + 1) (acc + d * 2 ^ s) h.1 (omega arith) (rw next bound)
      ∙ ap (λ (t : ℕ). acc + d * 2 ^ s + value width (map mask cs) * t)
          (ap (λ (t : ℕ). 2 ^ t) next ∙ pow-add s width)
      ∙ omega arith

-- Reversing keeps what holds of every member.
All-append {ℓ κ} :
    {A : Type ℓ} (P : A → Type κ) (xs ys : List A) → All P xs → All P ys → All P (xs ++ ys)
All-append P [] ys hx hy = hy
All-append P (x ∷ xs) ys hx hy = (hx.0, All-append P xs ys hx.1 hy)

pub All-reverse {ℓ κ} : {A : Type ℓ} (P : A → Type κ) (xs : List A) → All P xs → All P (reverse xs)
All-reverse P [] h = tt
All-reverse P (x ∷ xs) h =
    subst (All P) (sym (reverse-cons x xs))
      (All-append P (reverse xs) (x ∷ []) (All-reverse P xs h.1) (h.0, tt))

pub length-reverse {ℓ} : {A : Type ℓ} (xs : List A) → length (reverse xs) ≡ length xs
length-reverse [] = refl
length-reverse (x ∷ xs) =
    omega
      (arith, ap length (reverse-cons x xs), length-append (reverse xs) (x ∷ []), length-reverse xs)

-- The number that the bytes of a prefix stand for: digits of 8 bits, or the low 7 bits of each
-- byte of a variable length integer; the first byte is the lowest digit if `little` is set, and
-- the highest one otherwise.
unfoldable pub number : Bool → Bool → List ℕ → ℕ
unfolding value
number little var ps =
    let cs = if little then ps else reverse ps in
    if var then value 7 (map (λ c. c % 128) cs) else value 8 cs

low_bits_small : (cs : List ℕ) → All IsByte cs → All (λ c. low_bits c < 2 ^ 7) cs
low_bits_small [] h = tt
low_bits_small (c ∷ cs) h = (omega (arith, bit_and-low c h.0), low_bits_small cs h.1)

low_bits_mod : (cs : List ℕ) → All IsByte cs → map low_bits cs ≡ map (λ c. c % 128) cs
low_bits_mod [] h = refl
low_bits_mod (c ∷ cs) h = ap₂ ◌∷◌ (bit_and-low c h.0) (low_bits_mod cs h.1)

map-whole_byte : (cs : List ℕ) → map whole_byte cs ≡ cs
map-whole_byte [] = refl
map-whole_byte (c ∷ cs) = ap (◌∷◌ c) (map-whole_byte cs)

-- The longest prefix that `read_prefix` decodes.
abbrev pub max_prefix : Bool → ℕ
max_prefix var = if var then 9 else 8

gather_fixed :
    (cs : List ℕ) → All IsByte cs → length cs ≤ 8 → gather whole_byte 8 cs 0 0 ≡ value 8 cs
gather_fixed cs h fits =
    gather-value whole_byte 8 cs 0 0 h (omega arith) (omega arith)
    ∙ ap (λ w. 0 + value 8 w * 2 ^ 0) (map-whole_byte cs)
    ∙ omega arith

gather_var :
    (cs : List ℕ)
    → All IsByte cs
    → length cs ≤ 9
    → gather low_bits 7 cs 0 0 ≡ value 7 (map (λ c. c % 128) cs)
gather_var cs h fits =
    gather-value low_bits 7 cs 0 0 (low_bits_small cs h) (omega arith) (omega arith)
    ∙ ap (λ w. 0 + value 7 w * 2 ^ 0) (low_bits_mod cs h)
    ∙ omega arith

-- The four loops of `read_prefix` compute the number of a prefix of at most 8 bytes, or of at most
-- 9 bytes of a variable length integer: no digit is lost in the 64 bits of `data_size`.
pub decode-number :
    (options : Options) (var : Bool) (ps : List ℕ)
    → All IsByte ps
    → length ps ≤ max_prefix var
    → decode options var ps ≡ number (has_options options use_little_endian) var ps
unfolding decode number
decode-number options true ps h fits = elim (Bool-cases (has_options options use_little_endian)) [
  | inl e ↦ rw e (gather_var ps h fits)
  | inr e ↦
      rw e (gather_var (reverse ps) (All-reverse IsByte ps h) (omega (arith, length-reverse ps)))
]
decode-number options false ps h fits = elim (Bool-cases (has_options options use_little_endian)) [
  | inl e ↦ rw e (gather_fixed ps h fits)
  | inr e ↦
      rw e (gather_fixed (reverse ps) (All-reverse IsByte ps h) (omega (arith, length-reverse ps)))
]

-- The bytes of `v` in `n` places, the lowest first.
pub digits_of : ℕ → ℕ → List ℕ
digits_of zero v = []
digits_of (suc n) v = v % 256 ∷ digits_of n (v / 256)

pub length-digits_of : (n v : ℕ) → length (digits_of n v) ≡ n
unfolding digits_of
length-digits_of zero v = refl
length-digits_of (suc n) v = ap suc (length-digits_of n (v / 256))

pub digits_of-IsByte : (n v : ℕ) → All IsByte (digits_of n v)
unfolding digits_of
digits_of-IsByte zero v = tt
digits_of-IsByte (suc n) v = (omega arith, digits_of-IsByte n (v / 256))

pub value-digits_of : (n v : ℕ) → v < 256 ^ n → value 8 (digits_of n v) ≡ v
unfolding digits_of value
value-digits_of zero v h = omega arith
value-digits_of (suc n) v h =
    omega (arith, value-digits_of n (v / 256) (omega (arith, pow-suc 256 n)))

-- A fixed width prefix as a sender writes it, in either byte order.
pub encode : Bool → ℕ → ℕ → List ℕ
unfolding digits_of
encode little n v = if little then digits_of n v else reverse (digits_of n v)

-- Reading back the number that was written.
pub number-encode :
    (little : Bool) (n v : ℕ) → v < 256 ^ n → number little false (encode little n v) ≡ v
unfolding number encode
number-encode true n v h = value-digits_of n v h
number-encode false n v h = ap (value 8) (reverse-reverse (digits_of n v)) ∙ value-digits_of n v h

pub encode-IsByte : (little : Bool) (n v : ℕ) → All IsByte (encode little n v)
unfolding encode
encode-IsByte true n v = digits_of-IsByte n v
encode-IsByte false n v = All-reverse IsByte (digits_of n v) (digits_of-IsByte n v)

pub length-encode : (little : Bool) (n v : ℕ) → length (encode little n v) ≡ n
unfolding encode
length-encode true n v = length-digits_of n v
length-encode false n v = length-reverse (digits_of n v) ∙ length-digits_of n v

-- A number below `256 ^ n`, with `n` at most 8, written in `n` bytes in the byte order that the
-- options ask for, is what the loops of `read_prefix` decode from these bytes.
pub decode-encode :
    (options : Options) (n v : ℕ)
    → n ≤ 8
    → v < 256 ^ n
    → decode options false (encode (has_options options use_little_endian) n v) ≡ v
decode-encode options n v small h =
    let little = has_options options use_little_endian in
    decode-number options false (encode little n v) (encode-IsByte little n v)
      (omega (arith, length-encode little n v))
    ∙ number-encode little n v h
