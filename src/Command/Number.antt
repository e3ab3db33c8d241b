-- ===== src/Command/Number.antt =====
-- Decimal numbers as the standard library writes and reads them for netio/include/cmd_obj.h: `%d`
-- and `<<` on an `int`, and `atoll`.
pub mod RoundTrip
use middlewar_test.Base.{
  ℕ, zero, suc, ◌+◌, ◌-◌, ◌*◌, ◌/◌, ◌%◌, ◌^◌, Bool, ◌&&◌, ◌||◌, [], ◌∷◌, Bytes, ◌==◌, ltb, leb,
  if◌then◌else◌, min, ℤ, pos, negsuc,
}

-- The digits of `n` in front of `out`: a digit for each unit of fuel.
unfoldable pub digits : ℕ → ℕ → Bytes → Bytes
digits zero n out = out
digits (suc f) n out =
    let rest = digits f (n / 10) ((b'0' + n % 10) ∷ out) in
    if ltb n 10 then (b'0' + n) ∷ out else rest

-- An `int` has ten digits at most.
unfoldable pub print_int : ℤ → Bytes
print_int (pos n) = digits 10 n []
print_int (negsuc n) = b'-' ∷ digits 10 (suc n) []

is_digit : ℕ → Bool
is_digit c = leb b'0' c && leb c b'9'

unfoldable pub read_digits : ℕ → Bytes → ℕ
unfolding is_digit
read_digits n [] = n
read_digits n (c ∷ s) =
    let rest = read_digits (n * 10 + (c - b'0')) s in if is_digit c then rest else n

-- Beyond `long long` the result stays at its ends.
abbrev pub clamp_pos : ℕ → ℤ
clamp_pos n = pos (min n (2 ^ 63 - 1))

abbrev pub clamp_neg : ℕ → ℤ
clamp_neg zero = pos 0
clamp_neg (suc n) = negsuc (min n (2 ^ 63 - 1))

unfoldable pub read_signed : Bytes → ℤ
read_signed [] = pos 0
read_signed (c ∷ s) =
    if c == b'-'
    then clamp_neg (read_digits 0 s)
    else if c == b'+'
    then clamp_pos (read_digits 0 s)
    else clamp_pos (read_digits 0 (c ∷ s))

-- Leading blanks are skipped.
unfoldable pub atoll : Bytes → ℤ
atoll [] = pos 0
atoll (c ∷ s) =
    let rest = atoll s in if c == b' ' || leb 9 c && leb c 13 then rest else read_signed (c ∷ s)
