-- ===== src/Text/Trimmed.antt =====
-- `Trim` (netio/include/string_helper.h) of any text: once is enough, and no byte is new.
use middlewar_test.Base.{
  ℕ, suc, ◌+◌, ◌-◌, ◌≤◌, ◌≡◌, refl, sym, ap, ◌∙◌, ◌⊎◌, true, false, Option, none, some, [], ◌∷◌,
  Bytes, length, length-take-le, take, take_all, drop, ltb, if◌then◌else◌, Bool-cases, Option-cases,
  inl, inr, arith, zero,
}
use middlewar_test.Text.{is_space, find_first_not_of, find_last_not_of, trim}
use middlewar_test.Text.Splitting.{IsFree}

-- A text whose first and last byte are no blanks.
abbrev IsTrimmed : Bytes → Type 0
IsTrimmed s =
    (find_first_not_of s ≡ some 0) × (n : ℕ) × (find_last_not_of s ≡ some n) × (length s ≤ n + 1)

trim-IsTrimmed : (s : Bytes) → IsTrimmed s → trim s ≡ s
unfolding trim
trim-IsTrimmed s (h, n, g, le) =
    rw (h, trim) (rw (g, trim) (ground (arith, take_all (n - 0 + 1) s (omega (arith, le)))))

abbrev one_more : Option ℕ → Option ℕ
one_more none = none
one_more (some i) = some (suc i)

first_space :
    (c : ℕ) (s : Bytes)
    → is_space c ≡ true
    → find_first_not_of (c ∷ s) ≡ one_more (find_first_not_of s)
unfolding find_first_not_of
first_space c s e = rw e (next_lem (find_first_not_of s))
  where
    next_lem : (o : Option ℕ) → elim o [ none ↦ none | some i ↦ some (suc i) ] ≡ one_more o
    next_lem none = refl
    next_lem (some i) = refl

first_other : (c : ℕ) (s : Bytes) → is_space c ≡ false → find_first_not_of (c ∷ s) ≡ some 0
unfolding find_first_not_of
first_other c s e = rw e refl

last_here :
    (c : ℕ) (s : Bytes)
    → find_last_not_of s ≡ none
    → find_last_not_of (c ∷ s) ≡ (if is_space c then none else some 0)
unfolding find_last_not_of
last_here c s e = rw (e, find_last_not_of) refl

last_later :
    (c : ℕ) (s : Bytes) {n : ℕ}
    → find_last_not_of s ≡ some n
    → find_last_not_of (c ∷ s) ≡ some (suc n)
unfolding find_last_not_of
last_later c s e = rw (e, find_last_not_of) refl

-- The first byte that is no blank is the first of the text, or one behind it.
first_cons :
    (c : ℕ) (s : Bytes) (i : ℕ)
    → find_first_not_of (c ∷ s) ≡ some i
    → ((is_space c ≡ false) × (i ≡ 0))
      ⊎ ((is_space c ≡ true) × (n : ℕ) × (find_first_not_of s ≡ some n) × (i ≡ suc n))
first_cons c s i h = elim (Bool-cases (is_space c)) [
  | inr e ↦ let g = first_other c s e in inl (e, cc)
  | inl e ↦ elim (Option-cases (find_first_not_of s)) [
    | inl f ↦ let g = first_space c s e ∙ ap one_more f in absurd cc
    | inr (n, f) ↦ let g = first_space c s e ∙ ap one_more f in inr (e, n, f, cc)
  ]
]

last_cons :
    (c : ℕ) (s : Bytes) (j : ℕ)
    → find_last_not_of (c ∷ s) ≡ some j
    → ((find_last_not_of s ≡ none) × (is_space c ≡ false) × (j ≡ 0))
      ⊎ ((n : ℕ) × (find_last_not_of s ≡ some n) × (j ≡ suc n))
last_cons c s j h = elim (Option-cases (find_last_not_of s)) [
  | inr (n, f) ↦ let g = last_later c s f in inr (n, f, cc)
  | inl f ↦ elim (Bool-cases (is_space c)) [
    | inr e ↦
        let g : find_last_not_of (c ∷ s) ≡ some 0 = last_here c s f ∙ rw e refl in inl (f, e, cc)
    | inl e ↦ let g : find_last_not_of (c ∷ s) ≡ none = last_here c s f ∙ rw e refl in absurd cc
  ]
]

-- What stands at the first byte that is no blank.
first_found :
    (s : Bytes) (i : ℕ)
    → find_first_not_of s ≡ some i
    → (c : ℕ) × (t : Bytes) × (drop i s ≡ c ∷ t) × (is_space c ≡ false)
first_found [] i h = absurd (unfold find_first_not_of in cc)
first_found (c ∷ s) i h = elim (first_cons c s i h) [
  | inl (e, z) ↦ (c, s, ap (λ n. drop n (c ∷ s)) z, e)
  | inr (e, n, f, z) ↦
      let (d, t, at, sp) = first_found s n f in (d, t, ap (λ n. drop n (c ∷ s)) z ∙ at, sp)
]

some_suc : {n m : ℕ} → some n ≡ some m → n ≡ m
some_suc h = cc

last_found :
    (s : Bytes) (i : ℕ) → find_first_not_of s ≡ some i → (j : ℕ) × (find_last_not_of s ≡ some j)
last_found [] i h = absurd (unfold find_first_not_of in cc)
last_found (c ∷ s) i h = elim (Option-cases (find_last_not_of s)) [
  | inr (n, f) ↦ (suc n, last_later c s f)
  | inl f ↦ elim (first_cons c s i h) [
    | inl (e, z) ↦ (0, last_here c s f ∙ rw e refl)
    | inr (e, n, g, z) ↦ let (m, l) = last_found s n g in absurd cc
  ]
]

-- The last byte that is no blank is the same one behind the first.
last_behind :
    (s : Bytes) (i j : ℕ)
    → find_first_not_of s ≡ some i
    → find_last_not_of s ≡ some j
    → find_last_not_of (drop i s) ≡ some (j - i)
last_behind [] i j h g = absurd (unfold find_first_not_of in cc)
last_behind (c ∷ s) i j h g = elim (first_cons c s i h) [
  | inl (e, z) ↦ rw z (g ∙ ap some (omega arith))
  | inr (e, n, f, z) ↦
      let (m, l) = last_found s n f in
      let g' = last_later c s l in
      rw z (last_behind s n m f l ∙ ap some (omega (arith, some_suc (sym g' ∙ g))))
]

last_kept :
    (s : Bytes) (j : ℕ) → find_last_not_of s ≡ some j → find_last_not_of (take (suc j) s) ≡ some j
last_kept [] j h = absurd (unfold find_last_not_of in cc)
last_kept (c ∷ s) j h = elim (last_cons c s j h) [
  | inl (l, e, y) ↦ rw y (last_here c [] (unfold find_last_not_of in refl) ∙ rw e refl)
  | inr (m, l, y) ↦ rw y (last_later c (take (suc m) s) (last_kept s m l))
]

more : (n : ℕ) → n + 1 ≡ suc n
more n = omega arith

taken-IsTrimmed :
    (s : Bytes) (i j : ℕ)
    → find_first_not_of s ≡ some i
    → find_last_not_of s ≡ some j
    → IsTrimmed (take (j - i + 1) (drop i s))
taken-IsTrimmed s i j h g =
    let (c, t, at, e) = first_found s i h in
    (
      ap (λ n. find_first_not_of (take n (drop i s))) (more (j - i))
          ∙ ap (λ r. find_first_not_of (take (suc (j - i)) r)) at
          ∙ first_other c (take (j - i) t) e,
      j - i,
      ap (λ n. find_last_not_of (take n (drop i s))) (more (j - i))
          ∙ last_kept (drop i s) (j - i) (last_behind s i j h g),
      length-take-le (j - i + 1) (drop i s),
    )

trim_blank : (s : Bytes) → find_first_not_of s ≡ none → trim s ≡ []
unfolding trim
trim_blank s e = rw (e, trim) refl

trim_found :
    (s : Bytes) (i j : ℕ)
    → find_first_not_of s ≡ some i
    → find_last_not_of s ≡ some j
    → trim s ≡ (if ltb j i then [] else take (j - i + 1) (drop i s))
unfolding trim
trim_found s i j h g = rw (h, trim) (rw (g, trim) refl)

-- What `Trim` leaves.
pub data Trimmed (s : Bytes) : Type 0 where
  nothing : trim s ≡ [] → Trimmed s
  part : (i j : ℕ) → trim s ≡ take j (drop i s) → IsTrimmed (take j (drop i s)) → Trimmed s

pub trimmed : (s : Bytes) → Trimmed s
trimmed s = elim (Option-cases (find_first_not_of s)) [
  | inl e ↦ nothing (trim_blank s e)
  | inr (i, e) ↦
      let (j, l) = last_found s i e in
      elim (Bool-cases (ltb j i)) [
        | inl b ↦ nothing (trim_found s i j e l ∙ rw b refl)
        | inr b ↦ part i (j - i + 1) (trim_found s i j e l ∙ rw b refl) (taken-IsTrimmed s i j e l)
      ]
]

trim_nothing : trim [] ≡ []
unfolding trim find_first_not_of
trim_nothing = refl

Trimmed-again : (s : Bytes) → Trimmed s → trim (trim s) ≡ trim s
Trimmed-again s (nothing e) = ap trim e ∙ trim_nothing ∙ sym e
Trimmed-again s (part i j e h) = ap trim e ∙ trim-IsTrimmed (take j (drop i s)) h ∙ sym e

-- A text that is trimmed stays as it is.
pub trim-trim : (s : Bytes) → trim (trim s) ≡ trim s
trim-trim s = Trimmed-again s (trimmed s)

IsFree-drop : (sep i : ℕ) (s : Bytes) → IsFree sep s → IsFree sep (drop i s)
IsFree-drop sep zero s h = h
IsFree-drop sep (suc i) [] h = h
IsFree-drop sep (suc i) (c ∷ s) (h, hs) = IsFree-drop sep i s hs

IsFree-take : (sep i : ℕ) (s : Bytes) → IsFree sep s → IsFree sep (take i s)
IsFree-take sep zero s h = tt
IsFree-take sep (suc i) [] h = h
IsFree-take sep (suc i) (c ∷ s) (h, hs) = (h, IsFree-take sep i s hs)

Trimmed-IsFree : (sep : ℕ) (s : Bytes) → Trimmed s → IsFree sep s → IsFree sep (trim s)
Trimmed-IsFree sep s (nothing e) h = rw e tt
Trimmed-IsFree sep s (part i j e g) h = rw e (IsFree-take sep j (drop i s) (IsFree-drop sep i s h))

pub trim-IsFree : (sep : ℕ) (s : Bytes) → IsFree sep s → IsFree sep (trim s)
trim-IsFree sep s = Trimmed-IsFree sep s (trimmed s)
