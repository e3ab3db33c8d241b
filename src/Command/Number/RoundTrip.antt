-- ===== src/Command/Number/RoundTrip.antt =====
-- The numbers of a message's text (netio/include/cmd_obj.h) are read back as they were written.
use middlewar_test.Base.{
  ℕ, zero, suc, ◌+◌, ◌-◌, ◌/◌, ◌%◌, ◌^◌, ◌≤◌, ◌<◌, ◌≡◌, refl, ap, ◌∙◌, true, [], ◌∷◌, Bytes, ltb,
  min, ℤ, pos, negsuc, IsInt, int_max, to_int_self, arith, Bool-cases, inl, inr,
}
use middlewar_test.Command.{int_param}
use middlewar_test.Command.Number.{
  digits, print_int, read_digits, clamp_pos, clamp_neg, read_signed, atoll,
}

-- Reading the last digit of `n` behind the digits before it gives `n`.
read_last : (n : ℕ) (out : Bytes) → read_digits (n / 10) ((b'0' + n % 10) ∷ out) ≡ read_digits n out
unfolding read_digits
read_last n out = ground arith

read_one : (n : ℕ) (out : Bytes) → n < 10 → read_digits 0 ((b'0' + n) ∷ out) ≡ read_digits n out
unfolding read_digits
read_one n out h = ground arith

read-digits :
    (f n : ℕ) (out : Bytes) → n < 10 ^ f → read_digits 0 (digits f n out) ≡ read_digits n out
unfolding digits
read-digits zero n out h = ap (λ k. read_digits k out) (omega (arith, h))
read-digits (suc f) n out h = elim (Bool-cases (ltb n 10)) [
  | inl b ↦ rw b (read_one n out (ground (arith, b)))
  | inr b ↦
      rw b (read-digits f (n / 10) ((b'0' + n % 10) ∷ out) (ground (arith, h)) ∙ read_last n out)
]

-- A text that starts with a digit is read as a number without a sign.
data DigitFirst : Bytes → Type 0 where
  digit_first : (c : ℕ) (s : Bytes) → b'0' ≤ c → c ≤ b'9' → DigitFirst (c ∷ s)

ltb-true : (n : ℕ) → n < 10 ^ 1 → ltb n 10 ≡ true
ltb-true n h = ground (arith, h)

digits-DigitFirst : (f n : ℕ) (out : Bytes) → n < 10 ^ suc f → DigitFirst (digits (suc f) n out)
unfolding digits
digits-DigitFirst zero n out h =
    rw (ltb-true n h) (digit_first (b'0' + n) out (omega arith) (omega (arith, h)))
digits-DigitFirst (suc f) n out h = elim (Bool-cases (ltb n 10)) [
  | inl b ↦ rw b (digit_first (b'0' + n) out (omega arith) (ground (arith, b)))
  | inr b ↦ rw b (digits-DigitFirst f (n / 10) ((b'0' + n % 10) ∷ out) (ground (arith, h)))
]

atoll-DigitFirst : (s : Bytes) → DigitFirst s → atoll s ≡ clamp_pos (read_digits 0 s)
unfolding atoll read_signed
atoll-DigitFirst _ (digit_first c s h g) = ground (arith, h, g)

-- The print of a number of at most ten digits is read back.
read-print : (n : ℕ) → n < 10 ^ 10 → read_digits 0 (digits 10 n []) ≡ n
unfolding read_digits
read-print n h = read-digits 10 n [] h

atoll_minus : (s : Bytes) → atoll (b'-' ∷ s) ≡ clamp_neg (read_digits 0 s)
unfolding atoll read_signed
atoll_minus s = refl

clamp_small : (n : ℕ) → n ≤ int_max → min n (2 ^ 63 - 1) ≡ n
clamp_small n h = omega (arith, h)

-- `atoll` and the conversion to `int` give back every `int` that was written in decimal.
pub int_param-print_int : (z : ℤ) → IsInt z → int_param (print_int z) ≡ z
unfolding int_param print_int
int_param-print_int (pos n) h =
    let few : n < 10 ^ 10 = omega (arith, h) in
    rw
      (
        atoll-DigitFirst (digits 10 n []) (digits-DigitFirst 9 n [] few),
        read-print n few,
        clamp_small n h,
      )
      (to_int_self (pos n) h)
int_param-print_int (negsuc n) h =
    rw (atoll_minus (digits 10 (suc n) []), read-print (suc n) (omega (arith, h)), clamp_small n h)
      (to_int_self (negsuc n) h)
