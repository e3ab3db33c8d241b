-- ===== src/Text.antt =====
-- netio/include/string_helper.h: splitting, trimming, and the map of a request's parameters.
-- `std::map<string, string>` is the list of its pairs, in the order of the keys.
pub mod Dictionary
pub mod Splitting
pub mod Parts
pub mod Pairs
pub mod Trimming
pub mod Trimmed
pub mod Parsed
pub mod Sizes
pub mod Lookups
use middlewar_test.Base.{
  ℕ, zero, suc, ◌+◌, ◌-◌, Bool, ◌||◌, Option, none, some, List, [], ◌∷◌, Bytes, ◌==◌, ltb,
  if◌then◌else◌, length, take, drop,
}
use Dictionary.{Dict, insert}

-- `sTmp.find(cSep)` with the two parts of the text on its sides.
unfoldable pub find_sep : ℕ → Bytes → Option (Bytes × Bytes)
find_sep sep [] = none
find_sep sep (c ∷ s) =
    let later = find_sep sep s in
    if c == sep
    then some ([], s)
    else elim later [ none ↦ none | some (before, rest) ↦ some (c ∷ before, rest) ]

-- The loop of `SplitString`, a round for each unit of fuel, and the final element.
unfoldable pub split_loop : ℕ → ℕ → Bytes → List Bytes
split_loop zero sep s = s ∷ []
split_loop (suc f) sep s = elim (find_sep sep s) [
  | none ↦ s ∷ []
  | some (before, rest) ↦ before ∷ split_loop f sep rest
]

unfoldable pub split_string : Bytes → ℕ → List Bytes
split_string [] sep = []
split_string (c ∷ s) sep = split_loop (suc (length s)) sep (c ∷ s)

unfoldable pub is_space : ℕ → Bool
is_space c = c == b' ' || c == 12 || c == 10 || c == 13 || c == 9 || c == 11

unfoldable pub find_first_not_of : Bytes → Option ℕ
unfolding is_space
find_first_not_of [] = none
find_first_not_of (c ∷ s) =
    let later = find_first_not_of s in
    if is_space c then elim later [ none ↦ none | some i ↦ some (suc i) ] else some 0

unfoldable pub find_last_not_of : Bytes → Option ℕ
unfolding is_space
find_last_not_of [] = none
find_last_not_of (c ∷ s) = elim (find_last_not_of s) [
  | some i ↦ some (suc i)
  | none ↦ if is_space c then none else some 0
]

unfoldable pub trim : Bytes → Bytes
unfolding find_first_not_of find_last_not_of
trim s = elim (find_first_not_of s) [
  | none ↦ []
  | some first ↦ elim (find_last_not_of s) [
    | none ↦ []
    | some last ↦ if ltb last first then [] else take (last - first + 1) (drop first s)
  ]
]

-- The body of the loop: a part counts if it splits in two.
unfoldable pub append_pair : List Bytes → Dict → Dict
append_pair (k ∷ v ∷ []) m = insert (trim k) (trim v) m
append_pair _ m = m

unfoldable pub append_parts : List Bytes → Dict → Dict
append_parts [] m = m
append_parts (p ∷ ps) m = append_parts ps (append_pair (split_string p b'=') m)

unfoldable pub str_pair_append_to_map : Bytes → Dict → Dict
str_pair_append_to_map s m = append_parts (split_string s b'&') m
