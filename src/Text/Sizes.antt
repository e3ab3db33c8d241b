-- ===== src/Text/Sizes.antt =====
-- How long the pairs are that `strPairAppendToMap` (netio/include/string_helper.h) makes of a text.
use middlewar_test.Base.{
  ℕ, suc, ◌+◌, ◌≤◌, ◌≡◌, subst, List, [], ◌∷◌, Bytes, length, length-append, length-take, drop,
  zero, bytes_eq, Bool-cases, inl, inr, arith,
}
use middlewar_test.Text.{split_string, trim, append_pair, append_parts, str_pair_append_to_map}
use middlewar_test.Text.Dictionary.{Dict, key_lt, insert, erase}
use middlewar_test.Text.Splitting.{join}
use middlewar_test.Text.Parts.{IsSplit}
use middlewar_test.Text.Parsed.{split}
use middlewar_test.Text.Trimmed.{Trimmed, nothing, part, trimmed}

length-drop-le : (i : ℕ) (s : Bytes) → length (drop i s) ≤ length s
length-drop-le zero s = omega arith
length-drop-le (suc i) [] = omega arith
length-drop-le (suc i) (c ∷ s) = omega (arith, length-drop-le i s)

length-Trimmed : (s : Bytes) → Trimmed s → length (trim s) ≤ length s
length-Trimmed s (nothing e) = rw e (omega arith)
length-Trimmed s (part i j e h) = rw e (omega (arith, length-take j (drop i s), length-drop-le i s))

length-trim-le : (s : Bytes) → length (trim s) ≤ length s
length-trim-le s = length-Trimmed s (trimmed s)

-- The bytes of a map as a text, with a separator behind each pair.
abbrev pub size : Dict → ℕ
size [] = 0
size ((k, v) ∷ m) = length k + length v + 2 + size m

size-insert-le : (k v : Bytes) (m : Dict) → size (insert k v m) ≤ size m + length k + length v + 2
unfolding insert
size-insert-le k v [] = omega arith
size-insert-le k v ((j, w) ∷ m) = elim (Bool-cases (bytes_eq j k)) [
  | inl e ↦ rw e (omega arith)
  | inr e ↦ elim (Bool-cases (key_lt k j)) [
    | inl l ↦ rw (e, l) (omega arith)
    | inr l ↦ rw (e, l) (omega (arith, size-insert-le k v m))
  ]
]

pub size-erase-le : (k : Bytes) (m : Dict) → size (erase k m) ≤ size m
unfolding erase
size-erase-le k [] = omega arith
size-erase-le k ((j, w) ∷ m) = elim (Bool-cases (bytes_eq j k)) [
  | inl e ↦ rw e (omega arith)
  | inr e ↦ rw e (omega (arith, size-erase-le k m))
]

-- The parts, with a separator behind each.
abbrev parts_size : List Bytes → ℕ
parts_size [] = 0
parts_size (p ∷ ps) = length p + 1 + parts_size ps

parts-join :
    (sep : ℕ) (p : Bytes) (ps : List Bytes) → parts_size (p ∷ ps) ≡ length (join sep p ps) + 1
parts-join sep p [] = omega arith
parts-join sep p (q ∷ qs) =
    omega (arith, parts-join sep q qs, length-append p (sep ∷ join sep q qs))

parts-IsSplit :
    (sep : ℕ) (s : Bytes) (ps : List Bytes) → IsSplit sep s ps → parts_size ps ≡ length s + 1
parts-IsSplit sep s [] h = absurd h
parts-IsSplit sep s (p ∷ ps) (h, e) =
    subst (λ t. parts_size (p ∷ ps) ≡ length t + 1) e (parts-join sep p ps)

parts-split_string-le : (sep : ℕ) (s : Bytes) → parts_size (split_string s sep) ≤ length s + 1
parts-split_string-le sep [] = unfold split_string in omega arith
parts-split_string-le sep (c ∷ s) = omega (arith, parts-IsSplit sep (c ∷ s) _ (split sep c s))

size-append_pair-le :
    (ps : List Bytes) (m : Dict) → size (append_pair ps m) ≤ size m + parts_size ps
unfolding append_pair
size-append_pair-le [] m = omega arith
size-append_pair-le (k ∷ []) m = omega arith
size-append_pair-le (k ∷ v ∷ []) m =
    omega (arith, size-insert-le (trim k) (trim v) m, length-trim-le k, length-trim-le v)
size-append_pair-le (k ∷ v ∷ w ∷ ps) m = omega arith

size-append_parts-le :
    (ps : List Bytes) (m : Dict) → size (append_parts ps m) ≤ size m + parts_size ps
unfolding append_parts
size-append_parts-le [] m = omega arith
size-append_parts-le (p ∷ ps) m = omega (
  arith,
  size-append_parts-le ps (append_pair (split_string p b'=') m),
  size-append_pair-le (split_string p b'=') m,
  parts-split_string-le b'=' p,
)

pub size-str_pair_append_to_map-le :
    (s : Bytes) (m : Dict) → size (str_pair_append_to_map s m) ≤ size m + length s + 1
unfolding str_pair_append_to_map
size-str_pair_append_to_map-le s m =
    omega (arith, size-append_parts-le (split_string s b'&') m, parts-split_string-le b'&' s)
