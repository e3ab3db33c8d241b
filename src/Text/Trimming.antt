-- ===== src/Text/Trimming.antt =====
-- `Trim` (netio/include/string_helper.h) of a text with blanks within.
use middlewar_test.Base.{
  ℕ, ◌+◌, ◌-◌, ◌≡◌, refl, false, some, [], ◌∷◌, ◌++◌, Bytes, length, length-append, take, take_all,
  arith,
}
use middlewar_test.Text.{is_space, find_first_not_of, find_last_not_of, trim}
use middlewar_test.Text.Pairs.{
  IsPlain, IsValue, IsFree-zero, IsFree-amp, IsFree-eq, IsFree-append, last_of_plain,
}
use middlewar_test.Text.Splitting.{IsFree}

last-append :
    (s t : Bytes) {n : ℕ}
    → find_last_not_of t ≡ some n
    → find_last_not_of (s ++ t) ≡ some (length s + n)
unfolding find_last_not_of
last-append [] t h = ground arith
last-append (c ∷ s) t h = rw (last-append s t h, find_last_not_of) (ground arith)

-- A text that begins with a byte that is no blank and ends with plain ones is left as it is.
trim_framed :
    (c d : ℕ) (s t : Bytes)
    → is_space c ≡ false
    → IsPlain (d ∷ t)
    → trim (c ∷ s ++ d ∷ t) ≡ c ∷ s ++ d ∷ t
unfolding trim
trim_framed c d s t h g =
    rw (first, trim)
      (rw (last-append (c ∷ s) (d ∷ t) (last_of_plain d t g), trim) (ground (arith, whole)))
  where
    first : find_first_not_of (c ∷ s ++ d ∷ t) ≡ some 0
    first = unfold find_first_not_of in rw h refl

    whole : take (length (c ∷ s) + length t - 0 + 1) (c ∷ s ++ d ∷ t) ≡ c ∷ s ++ d ∷ t
    whole =
        take_all (length (c ∷ s) + length t - 0 + 1) (c ∷ s ++ d ∷ t)
          (omega (arith, length-append s (d ∷ t)))

-- Such a text is a value if it has no separator either.
pub IsValue-framed :
    (c d : ℕ) (s t : Bytes)
    → is_space c ≡ false
    → IsFree 0 (c ∷ s)
    → IsFree b'&' (c ∷ s)
    → IsFree b'=' (c ∷ s)
    → IsPlain (d ∷ t)
    → IsValue (c ∷ s ++ d ∷ t)
IsValue-framed c d s t h z a e g = (
  IsFree-append 0 (c ∷ s) (d ∷ t) z (IsFree-zero (d ∷ t) g),
  IsFree-append b'&' (c ∷ s) (d ∷ t) a (IsFree-amp (d ∷ t) g),
  IsFree-append b'=' (c ∷ s) (d ∷ t) e (IsFree-eq (d ∷ t) g),
  trim_framed c d s t h g,
)
