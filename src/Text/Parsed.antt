-- ===== src/Text/Parsed.antt =====
-- `strPairAppendToMap` (netio/include/string_helper.h) on any text: the keys of the map are in order,
-- and no key and no value has a separator, or a blank at an end.
use middlewar_test.Base.{
  ℕ, none, some, bytes_eq_iff, ◌≡◌, sym, subst, List, [], ◌∷◌, ◌++◌, Bytes, length, bytes_eq,
  Bool-cases, inl, inr, arith,
}
use middlewar_test.Text.{split_string, trim, append_pair, append_parts, str_pair_append_to_map}
use middlewar_test.Text.Dictionary.{Dict, key_lt, lookup, insert, erase}
use middlewar_test.Text.Dictionary.Laws.{
  IsSorted, IsAbsent, IsSorted-insert, IsSorted-erase, IsBelow-IsAbsent,
}
use middlewar_test.Text.Splitting.{IsFree, AllFree, join}
use middlewar_test.Text.Parts.{IsSplit, split_string_ends}
use middlewar_test.Text.Pairs.{IsValue, AllValues}
use middlewar_test.Text.Trimmed.{trim-trim, trim-IsFree}

IsFree-front : (d : ℕ) (s t : Bytes) → IsFree d (s ++ t) → IsFree d s
IsFree-front d [] t h = tt
IsFree-front d (c ∷ s) t (h, hs) = (h, IsFree-front d s t hs)

IsFree-back : (d : ℕ) (s t : Bytes) → IsFree d (s ++ t) → IsFree d t
IsFree-back d [] t h = h
IsFree-back d (c ∷ s) t (h, hs) = IsFree-back d s t hs

-- The parts of a text have no byte that the text has not.
AllFree-join :
    (d sep : ℕ) (p : Bytes) (ps : List Bytes) → IsFree d (join sep p ps) → AllFree d (p ∷ ps)
AllFree-join d sep p [] h = (h, tt)
AllFree-join d sep p (q ∷ qs) h = (
  IsFree-front d p (sep ∷ join sep q qs) h,
  AllFree-join d sep q qs (IsFree-back d p (sep ∷ join sep q qs) h).1,
)

IsSplit-free :
    (d sep : ℕ) (s : Bytes) (ps : List Bytes) → IsSplit sep s ps → IsFree d s → AllFree d ps
IsSplit-free d sep s [] h g = absurd h
IsSplit-free d sep s (p ∷ ps) (h, e) g = AllFree-join d sep p ps (subst (IsFree d) (sym e) g)

IsSplit-own : (sep : ℕ) (s : Bytes) (ps : List Bytes) → IsSplit sep s ps → AllFree sep ps
IsSplit-own sep s [] h = absurd h
IsSplit-own sep s (p ∷ ps) (h, e) = h

pub split : (sep c : ℕ) (s : Bytes) → IsSplit sep (c ∷ s) (split_string (c ∷ s) sep)
split sep c s = (split_string_ends (length (c ∷ s)) sep (c ∷ s) (λ h. cc) (omega arith)).1

split_string-own : (sep : ℕ) (s : Bytes) → AllFree sep (split_string s sep)
split_string-own sep [] = unfold split_string in tt
split_string-own sep (c ∷ s) = IsSplit-own sep (c ∷ s) _ (split sep c s)

split_string-free : (d sep : ℕ) (s : Bytes) → IsFree d s → AllFree d (split_string s sep)
split_string-free d sep [] h = unfold split_string in tt
split_string-free d sep (c ∷ s) h = IsSplit-free d sep (c ∷ s) _ (split sep c s) h

trim-IsValue : (v : Bytes) → IsFree 0 v → IsFree b'&' v → IsFree b'=' v → IsValue (trim v)
trim-IsValue v z a e = (trim-IsFree 0 v z, trim-IsFree b'&' v a, trim-IsFree b'=' v e, trim-trim v)

insert-AllValues :
    (k v : Bytes) (m : Dict) → IsValue k → IsValue v → AllValues m → AllValues (insert k v m)
unfolding insert
insert-AllValues k v [] h g m = (h, g, tt)
insert-AllValues k v ((j, w) ∷ m) h g (a, b, more) = elim (Bool-cases (bytes_eq j k)) [
  | inl e ↦ rw e (a, b, more)
  | inr e ↦ elim (Bool-cases (key_lt k j)) [
    | inl l ↦ rw (e, l) (h, g, (a, b, more))
    | inr l ↦ rw (e, l) (a, b, insert-AllValues k v m h g more)
  ]
]

-- A map that a text was read into.
pub record IsParsed (m : Dict) : Type 0 where
  pub sorted : IsSorted m
  pub plain : AllValues m

append_pair-IsParsed :
    (ps : List Bytes) (m : Dict)
    → AllFree 0 ps
    → AllFree b'&' ps
    → AllFree b'=' ps
    → IsParsed m
    → IsParsed (append_pair ps m)
unfolding append_pair
append_pair-IsParsed [] m z a e p = p
append_pair-IsParsed (k ∷ []) m z a e p = p
append_pair-IsParsed (k ∷ v ∷ []) m (z, (y, _)) (a, (b, _)) (e, (f, _)) p = record {
  sorted = IsSorted-insert (trim k) (trim v) m p.sorted;
  plain =
      insert-AllValues (trim k) (trim v) m (trim-IsValue k z a e) (trim-IsValue v y b f) p.plain;
}
append_pair-IsParsed (k ∷ v ∷ w ∷ ps) m z a e p = p

append_parts-IsParsed :
    (ps : List Bytes) (m : Dict)
    → AllFree 0 ps
    → AllFree b'&' ps
    → IsParsed m
    → IsParsed (append_parts ps m)
unfolding append_parts
append_parts-IsParsed [] m z a h = h
append_parts-IsParsed (p ∷ ps) m (z, zs) (a, as') h =
    append_parts-IsParsed ps (append_pair (split_string p b'=') m) zs as' (
      append_pair-IsParsed (split_string p b'=') m (split_string-free 0 b'=' p z)
        (split_string-free b'&' b'=' p a) (split_string-own b'=' p) h)

pub str_pair_append_to_map-IsParsed :
    (s : Bytes) (m : Dict) → IsFree 0 s → IsParsed m → IsParsed (str_pair_append_to_map s m)
unfolding str_pair_append_to_map
str_pair_append_to_map-IsParsed s m z h =
    append_parts-IsParsed (split_string s b'&') m (split_string-free 0 b'&' s z)
      (split_string-own b'&' s) h

pub lookup-IsAbsent : (k : Bytes) (m : Dict) → lookup k m ≡ none → IsAbsent k m
unfolding lookup
lookup-IsAbsent k [] h = tt
lookup-IsAbsent k ((j, v) ∷ m) h = elim (Bool-cases (bytes_eq j k)) [
  | inl e ↦ absurd (ground (arith, h, e))
  | inr e ↦ (e, lookup-IsAbsent k m (ground (arith, h, e)))
]

pub lookup-IsValue :
    (k : Bytes) (m : Dict) {v : Bytes} → AllValues m → lookup k m ≡ some v → IsValue v
unfolding lookup
lookup-IsValue k [] h g = cc
lookup-IsValue k ((j, w) ∷ m) (a, b, more) g = elim (Bool-cases (bytes_eq j k)) [
  | inl e ↦ subst IsValue (ground (arith, g, e)) b
  | inr e ↦ lookup-IsValue k m more (ground (arith, g, e))
]

AllValues-erase : (k : Bytes) (m : Dict) → AllValues m → AllValues (erase k m)
unfolding erase
AllValues-erase k [] h = tt
AllValues-erase k ((j, w) ∷ m) (a, b, more) = elim (Bool-cases (bytes_eq j k)) [
  | inl e ↦ rw e more
  | inr e ↦ rw e (a, b, AllValues-erase k m more)
]

pub IsAbsent-erased : (k : Bytes) (m : Dict) → IsSorted m → IsAbsent k (erase k m)
unfolding erase
IsAbsent-erased k [] s = tt
IsAbsent-erased k ((j, w) ∷ m) (b, s) = elim (Bool-cases (bytes_eq j k)) [
  | inl e ↦ rw e (subst (λ i. IsAbsent i m) ((bytes_eq_iff j k).0 e) (IsBelow-IsAbsent j m b))
  | inr e ↦ rw e (e, IsAbsent-erased k m s)
]

pub erase-IsParsed : (k : Bytes) (m : Dict) → IsParsed m → IsParsed (erase k m)
erase-IsParsed k m p = record {
  sorted = IsSorted-erase k m p.sorted;
  plain = AllValues-erase k m p.plain;
}
