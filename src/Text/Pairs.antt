-- ===== src/Text/Pairs.antt =====
-- `strPairAppendToMap` (netio/include/string_helper.h) on a text that was written from pairs.
use middlewar_test.Base.{
  ℕ, ◌+◌, ◌-◌, ◌≡◌, ◌≢◌, refl, sym, ap, ◌∙◌, Bool, true, false, not, ◌&&◌, ◌||◌, some, List, [],
  ◌∷◌, ◌++◌, map, append-nil, Bytes, ◌==◌, leb, length, take_all, arith,
}
use middlewar_test.Text.{
  is_space, find_first_not_of, find_last_not_of, trim, split_string, append_pair, append_parts,
  str_pair_append_to_map,
}
use middlewar_test.Text.Dictionary.{Dict, insert}
use middlewar_test.Text.Dictionary.Laws.{insert_all}
use middlewar_test.Text.Splitting.{IsFree, AllFree, join, split_string-join}

-- A byte that is no blank, no end of a text, and none of the two separators.
abbrev pub is_plain : ℕ → Bool
is_plain c = not (c == 0 || c == b'&' || c == b'=' || c == b' ' || leb 9 c && leb c 13)

abbrev pub IsPlain : Bytes → Type 0
IsPlain [] = Unit
IsPlain (c ∷ s) = (is_plain c ≡ true) × IsPlain s

pub IsFree-amp : (s : Bytes) → IsPlain s → IsFree b'&' s
IsFree-amp [] h = tt
IsFree-amp (c ∷ s) (h, hs) = (ground (arith, h), IsFree-amp s hs)

pub IsFree-eq : (s : Bytes) → IsPlain s → IsFree b'=' s
IsFree-eq [] h = tt
IsFree-eq (c ∷ s) (h, hs) = (ground (arith, h), IsFree-eq s hs)

pub IsFree-zero : (s : Bytes) → IsPlain s → IsFree 0 s
IsFree-zero [] h = tt
IsFree-zero (c ∷ s) (h, hs) = (ground (arith, h), IsFree-zero s hs)

pub not_space : (c : ℕ) → is_plain c ≡ true → is_space c ≡ false
unfolding is_space
not_space c h = ground (arith, h)

pub last_of_plain :
    (c : ℕ) (s : Bytes) → IsPlain (c ∷ s) → find_last_not_of (c ∷ s) ≡ some (length s)
unfolding find_last_not_of
last_of_plain c [] (h, hs) = rw (not_space c h) refl
last_of_plain c (d ∷ s) (h, hs) = rw (last_of_plain d s hs, find_last_not_of) refl

first_of_plain : (c : ℕ) (s : Bytes) → IsPlain (c ∷ s) → find_first_not_of (c ∷ s) ≡ some 0
unfolding find_first_not_of
first_of_plain c s (h, hs) = rw (not_space c h) refl

trim-IsPlain : (s : Bytes) → IsPlain s → trim s ≡ s
unfolding trim
trim-IsPlain [] h = refl
trim-IsPlain (c ∷ s) h =
    rw (first_of_plain c s h, trim)
      (rw (last_of_plain c s h, trim)
        (ground (arith, take_all (length s - 0 + 1) (c ∷ s) (omega arith))))

-- A value may have blanks within.
abbrev pub IsValue : Bytes → Type 0
IsValue v = IsFree 0 v × IsFree b'&' v × IsFree b'=' v × (trim v ≡ v)

pub IsPlain-IsValue : (v : Bytes) → IsPlain v → IsValue v
IsPlain-IsValue v h = (IsFree-zero v h, IsFree-amp v h, IsFree-eq v h, trim-IsPlain v h)

-- A pair as it stands in a text.
abbrev pub pair_text : Bytes × Bytes → Bytes
pair_text (k, v) = k ++ b'=' ∷ v

abbrev pub AllValues : Dict → Type 0
AllValues [] = Unit
AllValues ((k, v) ∷ ps) = IsValue k × IsValue v × AllValues ps

pair_text_some : (k v : Bytes) → k ++ b'=' ∷ v ≢ []
pair_text_some [] v = λ e. cc
pair_text_some (c ∷ k) v = λ e. cc

append_pair_text :
    (k v : Bytes) (m : Dict)
    → IsValue k
    → IsValue v
    → append_pair (split_string (pair_text (k, v)) b'=') m ≡ insert k v m
unfolding append_pair
append_pair_text k v m h g =
    rw (split_string-join b'=' k (v ∷ []) h.2 (g.2, tt) (pair_text_some k v), h.3, g.3) refl

pub append_parts-pairs :
    (ps : Dict) (more : List Bytes) (m : Dict)
    → AllValues ps
    → append_parts (map pair_text ps ++ more) m ≡ append_parts more (insert_all ps m)
unfolding append_parts insert_all
append_parts-pairs [] more m h = refl
append_parts-pairs ((k, v) ∷ ps) more m (h, g, hs) =
    ap (append_parts (map pair_text ps ++ more)) (append_pair_text k v m h g)
    ∙ append_parts-pairs ps more (insert k v m) hs

-- The pairs at the end of a text; none leave an empty part.
abbrev pub last_parts : Dict → List Bytes
last_parts [] = [] ∷ []
last_parts (p ∷ ps) = map pair_text (p ∷ ps)

append_nothing : (m : Dict) → append_parts ([] ∷ []) m ≡ m
unfolding append_parts append_pair split_string
append_nothing m = refl

pub append_parts-last :
    (fs ps m : Dict)
    → AllValues fs
    → AllValues ps
    → append_parts (map pair_text fs ++ last_parts ps) m ≡ insert_all ps (insert_all fs m)
unfolding insert_all append_parts
append_parts-last fs [] m h g =
    append_parts-pairs fs ([] ∷ []) m h ∙ append_nothing (insert_all fs m)
append_parts-last fs (p ∷ ps) m h g =
    append_parts-pairs fs (map pair_text (p ∷ ps)) m h
    ∙ ap (λ parts. append_parts parts (insert_all fs m)) (sym (append-nil (map pair_text (p ∷ ps))))
    ∙ append_parts-pairs (p ∷ ps) [] (insert_all fs m) g

pub IsFree-append : (sep : ℕ) (s t : Bytes) → IsFree sep s → IsFree sep t → IsFree sep (s ++ t)
IsFree-append sep [] t h g = g
IsFree-append sep (c ∷ s) t (h, hs) g = (h, IsFree-append sep s t hs g)

pub AllFree-parts : (fs : Dict) → AllValues fs → AllFree b'&' (map pair_text fs)
AllFree-parts [] h = tt
AllFree-parts ((k, v) ∷ fs) (h, g, hs) =
    (IsFree-append b'&' k (b'=' ∷ v) h.1 (ground arith, g.1), AllFree-parts fs hs)

AllFree-append :
    (sep : ℕ) (ps qs : List Bytes) → AllFree sep ps → AllFree sep qs → AllFree sep (ps ++ qs)
AllFree-append sep [] qs h g = g
AllFree-append sep (p ∷ ps) qs (h, hs) g = (h, AllFree-append sep ps qs hs g)

AllFree-last : (ps : Dict) → AllValues ps → AllFree b'&' (last_parts ps)
AllFree-last [] h = (tt, tt)
AllFree-last (p ∷ ps) h = AllFree-parts (p ∷ ps) h

-- The text of pairs, and of more behind them.
abbrev pub pairs_text : Bytes × Bytes → Dict → Dict → Bytes
pairs_text f fs ps = join b'&' (pair_text f) (map pair_text fs ++ last_parts ps)

join_some : (sep : ℕ) (p : Bytes) (qs : List Bytes) → p ≢ [] → join sep p qs ≢ []
join_some sep [] qs h = absurd (h refl)
join_some sep (c ∷ p) [] h = λ e. cc
join_some sep (c ∷ p) (q ∷ qs) h = λ e. cc

pairs_text_some : (k v : Bytes) (fs ps : Dict) → pairs_text (k, v) fs ps ≢ []
pairs_text_some k v fs ps =
    join_some b'&' (pair_text (k, v)) (map pair_text fs ++ last_parts ps) (pair_text_some k v)

-- The map of a text that was written from plain pairs has these pairs, each inserted behind those
-- before it.
pub str_pair_append_to_map-pairs :
    (k v : Bytes) (fs ps m : Dict)
    → AllValues ((k, v) ∷ fs)
    → AllValues ps
    → str_pair_append_to_map (pairs_text (k, v) fs ps) m
      ≡ insert_all ps (insert_all ((k, v) ∷ fs) m)
unfolding str_pair_append_to_map
str_pair_append_to_map-pairs k v fs ps m h g =
    ap (λ parts. append_parts parts m)
      (split_string-join b'&' (pair_text (k, v)) (map pair_text fs ++ last_parts ps)
        (AllFree-parts ((k, v) ∷ fs) h).0
        (AllFree-append b'&' (map pair_text fs) (last_parts ps) (AllFree-parts ((k, v) ∷ fs) h).1
          (AllFree-last ps g))
        (pairs_text_some k v fs ps))
    ∙ append_parts-last ((k, v) ∷ fs) ps m h g

pub AllFree-zero-parts : (fs : Dict) → AllValues fs → AllFree 0 (map pair_text fs)
AllFree-zero-parts [] h = tt
AllFree-zero-parts ((k, v) ∷ fs) (h, g, hs) =
    (IsFree-append 0 k (b'=' ∷ v) h.0 (ground arith, g.0), AllFree-zero-parts fs hs)

AllFree-zero-last : (ps : Dict) → AllValues ps → AllFree 0 (last_parts ps)
AllFree-zero-last [] h = (tt, tt)
AllFree-zero-last (p ∷ ps) h = AllFree-zero-parts (p ∷ ps) h

pub IsFree-join :
    (p : Bytes) (qs : List Bytes) → IsFree 0 p → AllFree 0 qs → IsFree 0 (join b'&' p qs)
IsFree-join p [] h g = h
IsFree-join p (q ∷ qs) h (g, gs) =
    IsFree-append 0 p (b'&' ∷ join b'&' q qs) h (ground arith, IsFree-join q qs g gs)

-- Plain pairs make a text without a zero.
pub pairs_text-IsFree :
    (k v : Bytes) (fs ps : Dict)
    → AllValues ((k, v) ∷ fs)
    → AllValues ps
    → IsFree 0 (pairs_text (k, v) fs ps)
pairs_text-IsFree k v fs ps h g =
    IsFree-join (pair_text (k, v)) (map pair_text fs ++ last_parts ps)
      (AllFree-zero-parts ((k, v) ∷ fs) h).0
      (AllFree-append 0 (map pair_text fs) (last_parts ps) (AllFree-zero-parts ((k, v) ∷ fs) h).1
        (AllFree-zero-last ps g))
