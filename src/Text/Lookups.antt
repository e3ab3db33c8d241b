-- ===== src/Text/Lookups.antt =====
-- What lookups find in the map that `strPairAppendToMap` (netio/include/string_helper.h) makes.
use middlewar_test.Base.{
  ◌≡◌, refl, sym, ap, ◌∙◌, true, false, Option, none, some, List, [], ◌∷◌, ◌++◌, Bytes, bytes_eq,
  bytes_eq_iff, bytes_eq_refl, Bool-cases, inl, inr,
}
use middlewar_test.Text.{split_string, trim, append_pair, append_parts, str_pair_append_to_map}
use middlewar_test.Text.Dictionary.{Dict, key_lt, lookup, insert}
use middlewar_test.Text.Dictionary.Laws.{
  IsSorted, IsBelow-trans, IsAbsent, IsSorted-insert, IsBelow-IsAbsent, lookup-insert,
}

-- The first of two that is there.
abbrev pub or_else : Option Bytes → Option Bytes → Option Bytes
or_else none o = o
or_else (some v) o = some v

abbrev or_first : Option Bytes → Option Bytes → Option Bytes
or_first b a = or_else a b

or_else-none : (a : Option Bytes) → or_else a none ≡ a
or_else-none none = refl
or_else-none (some v) = refl

or_else_assoc : (a b c : Option Bytes) → or_else (or_else a b) c ≡ or_else a (or_else b c)
or_else_assoc none b c = refl
or_else_assoc (some v) b c = refl

-- The pairs of a text as they stand in it: of the parts between `&`, those with one `=`, without
-- blanks on the sides.
pair_of : List Bytes → Dict
pair_of (k ∷ v ∷ []) = (trim k, trim v) ∷ []
pair_of _ = []

pub pairs_of : List Bytes → Dict
pairs_of [] = []
pairs_of (p ∷ ps) = pair_of (split_string p b'=') ++ pairs_of ps

lookup-IsAbsent : (k : Bytes) (m : Dict) → IsAbsent k m → lookup k m ≡ none
unfolding lookup
lookup-IsAbsent k [] h = refl
lookup-IsAbsent k ((j, w) ∷ m) (h, hs) = rw h (lookup-IsAbsent k m hs)

lookup-head : (k v : Bytes) (m : Dict) → lookup k ((k, v) ∷ m) ≡ some v
unfolding lookup
lookup-head k v m = rw (bytes_eq_refl k) refl

lookup-miss : (k j w : Bytes) (m : Dict) → bytes_eq j k ≡ false → lookup k ((j, w) ∷ m) ≡ lookup k m
unfolding lookup
lookup-miss k j w m e = rw e refl

lookup-hit : (k j w : Bytes) (m : Dict) → bytes_eq j k ≡ true → lookup k ((j, w) ∷ m) ≡ some w
unfolding lookup
lookup-hit k j w m e = rw e refl

-- The value of a key that is there stays.
lookup-insert_same :
    (k v : Bytes) (m : Dict) → IsSorted m → lookup k (insert k v m) ≡ or_else (lookup k m) (some v)
unfolding insert
lookup-insert_same k v [] s = lookup-head k v [] ∙ unfold lookup in refl
lookup-insert_same k v ((j, w) ∷ m) (b, s) = elim (Bool-cases (bytes_eq j k)) [
  | inl e ↦ rw e (lookup-hit k j w m e ∙ ap (or_first (some v)) (sym (lookup-hit k j w m e)))
  | inr e ↦ elim (Bool-cases (key_lt k j)) [
    | inl l ↦
        rw (e, l)
          (lookup-head k v ((j, w) ∷ m)
            ∙ ap (or_first (some v)) (
                sym (
                  lookup-IsAbsent k ((j, w) ∷ m)
                    (e, IsBelow-IsAbsent k m (IsBelow-trans k j m l b)))))
    | inr l ↦
        rw (e, l)
          (lookup-miss k j w (insert k v m) e
            ∙ lookup-insert_same k v m s
            ∙ ap (or_first (some v)) (sym (lookup-miss k j w m e)))
  ]
]

lookup-append : (k : Bytes) (m n : Dict) → lookup k (m ++ n) ≡ or_else (lookup k m) (lookup k n)
lookup-append k [] n = unfold lookup in refl
lookup-append k ((j, w) ∷ m) n = elim (Bool-cases (bytes_eq j k)) [
  | inl e ↦ lookup-hit k j w (m ++ n) e ∙ ap (or_first (lookup k n)) (sym (lookup-hit k j w m e))
  | inr e ↦
      lookup-miss k j w (m ++ n) e
      ∙ lookup-append k m n
      ∙ ap (or_first (lookup k n)) (sym (lookup-miss k j w m e))
]

lookup-insert_pair :
    (k j v : Bytes) (m : Dict)
    → IsSorted m
    → lookup k (insert j v m) ≡ or_else (lookup k m) (lookup k ((j, v) ∷ []))
lookup-insert_pair k j v m s = elim (Bool-cases (bytes_eq j k)) [
  | inl e ↦
      ap (λ i. lookup k (insert i v m)) ((bytes_eq_iff j k).0 e)
      ∙ lookup-insert_same k v m s
      ∙ ap (or_else (lookup k m)) (sym (lookup-hit k j v [] e))
  | inr e ↦
      lookup-insert k j v m e
      ∙ sym (or_else-none (lookup k m))
      ∙ ap (or_else (lookup k m)) (sym (lookup-miss k j v [] e ∙ unfold lookup in refl))
]

lookup-append_pair :
    (k : Bytes) (ps : List Bytes) (m : Dict)
    → IsSorted m
    → lookup k (append_pair ps m) ≡ or_else (lookup k m) (lookup k (pair_of ps))
unfolding append_pair pair_of lookup
lookup-append_pair k [] m s = sym (or_else-none (lookup k m))
lookup-append_pair k (j ∷ []) m s = sym (or_else-none (lookup k m))
lookup-append_pair k (j ∷ v ∷ []) m s = lookup-insert_pair k (trim j) (trim v) m s
lookup-append_pair k (j ∷ v ∷ w ∷ ps) m s = sym (or_else-none (lookup k m))

append_pair-IsSorted : (ps : List Bytes) (m : Dict) → IsSorted m → IsSorted (append_pair ps m)
unfolding append_pair
append_pair-IsSorted [] m s = s
append_pair-IsSorted (j ∷ []) m s = s
append_pair-IsSorted (j ∷ v ∷ []) m s = IsSorted-insert (trim j) (trim v) m s
append_pair-IsSorted (j ∷ v ∷ w ∷ ps) m s = s

lookup-append_parts :
    (k : Bytes) (ps : List Bytes) (m : Dict)
    → IsSorted m
    → lookup k (append_parts ps m) ≡ or_else (lookup k m) (lookup k (pairs_of ps))
unfolding append_parts pairs_of
lookup-append_parts k [] m s =
    sym (or_else-none (lookup k m)) ∙ ap (or_else (lookup k m)) (unfold lookup in refl)
lookup-append_parts k (p ∷ ps) m s =
    let parts = split_string p b'=' in
    lookup-append_parts k ps (append_pair parts m) (append_pair-IsSorted parts m s)
    ∙ ap (or_first (lookup k (pairs_of ps))) (lookup-append_pair k parts m s)
    ∙ or_else_assoc (lookup k m) (lookup k (pair_of parts)) (lookup k (pairs_of ps))
    ∙ ap (or_else (lookup k m)) (sym (lookup-append k (pair_of parts) (pairs_of ps)))

-- If the keys of the map are in order, a lookup in it afterwards finds what it held under the key
-- before, or else the value of the first pair of the text with that key: of the parts between `&`, those with one `=` are pairs, and keys and
-- values are taken without blanks on their sides.
pub lookup-str_pair_append_to_map :
    (k s : Bytes) (m : Dict)
    → IsSorted m
    → lookup k (str_pair_append_to_map s m)
      ≡ or_else (lookup k m) (lookup k (pairs_of (split_string s b'&')))
unfolding str_pair_append_to_map
lookup-str_pair_append_to_map k s m h = lookup-append_parts k (split_string s b'&') m h
