-- ===== src/Text/Splitting.antt =====
-- `SplitString` (netio/include/string_helper.h) against the joining of parts.
use middlewar_test.Base.{
  ℕ, zero, suc, ◌≤◌, ◌≡◌, ◌≢◌, refl, ap, none, some, List, [], ◌∷◌, ◌++◌, Bytes, length, arith,
}
use middlewar_test.Text.{find_sep, split_loop, split_string}

-- The separator is not among the bytes.
abbrev pub IsFree : ℕ → Bytes → Type 0
IsFree sep [] = Unit
IsFree sep (c ∷ s) = (c ≢ sep) × IsFree sep s

abbrev pub AllFree : ℕ → List Bytes → Type 0
AllFree sep [] = Unit
AllFree sep (p ∷ ps) = IsFree sep p × AllFree sep ps

-- The parts, with a separator behind each but the last, which is `p` if there are no others.
abbrev pub join : ℕ → Bytes → List Bytes → Bytes
join sep p [] = p
join sep p (q ∷ qs) = p ++ sep ∷ join sep q qs

find_sep-free : (sep : ℕ) (p : Bytes) → IsFree sep p → find_sep sep p ≡ none
unfolding find_sep
find_sep-free sep [] h = refl
find_sep-free sep (c ∷ p) (h, hs) = ground (arith, find_sep-free sep p hs)

find_sep-append : (sep : ℕ) (p s : Bytes) → IsFree sep p → find_sep sep (p ++ sep ∷ s) ≡ some (p, s)
unfolding find_sep
find_sep-append sep [] s h = ground arith
find_sep-append sep (c ∷ p) s (h, hs) = ground (arith, find_sep-append sep p s hs)

length-join-le :
    (sep : ℕ) (p q : Bytes) (qs : List Bytes)
    → suc (length (join sep q qs)) ≤ length (p ++ sep ∷ join sep q qs)
length-join-le sep [] q qs = omega arith
length-join-le sep (c ∷ p) q qs = omega (arith, length-join-le sep p q qs)

-- With a round for each byte the loop finds all the parts.
pub split_loop-join :
    (f sep : ℕ) (p : Bytes) (ps : List Bytes)
    → IsFree sep p
    → AllFree sep ps
    → length (join sep p ps) ≤ f
    → split_loop f sep (join sep p ps) ≡ p ∷ ps
unfolding split_loop
split_loop-join zero sep p [] h hs n = refl
split_loop-join (suc f) sep p [] h hs n = rw (find_sep-free sep p h, split_loop) refl
split_loop-join zero sep p (q ∷ qs) h (g, gs) n =
    absurd (omega (arith, n, length-join-le sep p q qs))
split_loop-join (suc f) sep p (q ∷ qs) h (g, gs) n =
    rw (find_sep-append sep p (join sep q qs) h, split_loop)
      (ap (λ rest. p ∷ rest)
        (split_loop-join f sep q qs g gs (omega (arith, n, length-join-le sep p q qs))))

-- Splitting a text at a separator gives the parts that it was joined from, when none of them has
-- the separator in it and the text is not empty: an empty last part and empty parts in the middle
-- are found as well.
pub split_string-join :
    (sep : ℕ) (p : Bytes) (ps : List Bytes)
    → IsFree sep p
    → AllFree sep ps
    → join sep p ps ≢ []
    → split_string (join sep p ps) sep ≡ p ∷ ps
unfolding split_string
split_string-join sep p ps h hs n =
    cons (join sep p ps) n (split_loop-join (length (join sep p ps)) sep p ps h hs (omega arith))
  where
    cons : (s : Bytes) → s ≢ [] → split_loop (length s) sep s ≡ p ∷ ps → split_string s sep ≡ p ∷ ps
    cons [] n e = absurd (n refl)
    cons (c ∷ s) n e = e
