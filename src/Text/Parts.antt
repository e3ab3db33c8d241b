-- ===== src/Text/Parts.antt =====
-- `SplitString` (netio/include/string_helper.h): that its loop ends, and what its parts make up.
use middlewar_test.Base.{
  ℕ, zero, suc, ◌≤◌, ◌≡◌, ◌≢◌, refl, ap, sym, subst, ◌∙◌, Option, none, some, List, [], ◌∷◌, ◌++◌,
  Bytes, length, ◌==◌, if◌then◌else◌, Bool, true, false, arith,
}
use middlewar_test.Text.{find_sep, split_loop, split_string}
use middlewar_test.Text.Splitting.{IsFree, AllFree, join, split_loop-join}

-- What the search says of a text.
data Search (sep : ℕ) (s : Bytes) : Option (Bytes × Bytes) → Type 0 where
  absent : IsFree sep s → Search sep s none
  present :
      {before rest : Bytes}
      → IsFree sep before
      → s ≡ before ++ sep ∷ rest
      → suc (length rest) ≤ length s
      → Search sep s (some (before, rest))

Search-more :
    (sep c : ℕ) (s : Bytes) (b : Bool) (o : Option (Bytes × Bytes))
    → (c == sep) ≡ b
    → Search sep s o
    → Search sep (c ∷ s) (
        if b
        then some ([], s)
        else elim o [ none ↦ none | some (before, rest) ↦ some (c ∷ before, rest) ])
Search-more sep c s true o e h = present tt (ground arith) (omega arith)
Search-more sep c s false none e (absent h) = absent (ground arith, h)
Search-more sep c s false (some (before, rest)) e (present h g n) =
    present (ground arith, h) (ap (λ t. c ∷ t) g) (omega (arith, n))

searched : (sep : ℕ) (s : Bytes) → Search sep s (find_sep sep s)
unfolding find_sep
searched sep [] = absent tt
searched sep (c ∷ s) = Search-more sep c s (c == sep) (find_sep sep s) refl (searched sep s)

-- The parts of a text.
abbrev pub IsSplit : ℕ → Bytes → List Bytes → Type 0
IsSplit sep s [] = ⊥
IsSplit sep s (p ∷ ps) = AllFree sep (p ∷ ps) × (join sep p ps ≡ s)

IsSplit-more :
    (f sep : ℕ) (s : Bytes) (o : Option (Bytes × Bytes))
    → Search sep s o
    → length s ≤ suc f
    → ((t : Bytes) → length t ≤ f → IsSplit sep t (split_loop f sep t))
    → IsSplit sep s
        (elim o [ none ↦ s ∷ [] | some (before, rest) ↦ before ∷ split_loop f sep rest ])
IsSplit-more f sep s none (absent h) n more = ((h, tt), refl)
IsSplit-more f sep s (some (before, rest)) (present h e m) n more =
    behind (split_loop f sep rest) (more rest (omega (arith, n, m)))
  where
    behind : (ps : List Bytes) → IsSplit sep rest ps → IsSplit sep s (before ∷ ps)
    behind [] g = absurd g
    behind (q ∷ qs) (g, joined) = ((h, g), ap (λ t. before ++ sep ∷ t) joined ∙ sym e)

split_loop-IsSplit : (f sep : ℕ) (s : Bytes) → length s ≤ f → IsSplit sep s (split_loop f sep s)
unfolding split_loop
split_loop-IsSplit zero sep [] n = ((tt, tt), refl)
split_loop-IsSplit zero sep (c ∷ s) n = absurd (omega (arith, n))
split_loop-IsSplit (suc f) sep s n =
    IsSplit-more f sep s (find_sep sep s) (searched sep s) n (λ t. split_loop-IsSplit f sep t)

-- A list of parts is what enough rounds find.
split_loop_unique :
    (f sep : ℕ) (s : Bytes) (ps : List Bytes)
    → length s ≤ f
    → IsSplit sep s ps
    → split_loop f sep s ≡ ps
split_loop_unique f sep s [] n h = absurd h
split_loop_unique f sep s (p ∷ ps) n ((h, hs), e) =
    ap (split_loop f sep) (sym e)
    ∙ split_loop-join f sep p ps h hs (subst (λ t. length t ≤ f) (sym e) n)

-- Of a text that is not empty the loop finds the same parts with any number of rounds that is at least
-- the text's length, so it has ended by then; no part has the separator in it, and joined at the
-- separator the parts are the text.
pub split_string_ends :
    (f sep : ℕ) (s : Bytes)
    → s ≢ []
    → length s ≤ f
    → (split_loop f sep s ≡ split_string s sep) × IsSplit sep s (split_string s sep)
unfolding split_string
split_string_ends f sep [] h n = absurd (h refl)
split_string_ends f sep (c ∷ s) h n =
    let parts : IsSplit sep (c ∷ s) (split_loop (suc (length s)) sep (c ∷ s)) =
      split_loop-IsSplit (suc (length s)) sep (c ∷ s) (omega arith) in
    (split_loop_unique f sep (c ∷ s) _ n parts, parts)
