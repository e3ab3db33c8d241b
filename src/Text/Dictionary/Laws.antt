-- ===== src/Text/Dictionary/Laws.antt =====
-- The laws of the map of netio/include/string_helper.h and netio/include/cmd_obj.h: lookups after
-- insertions and removals, and a map that is rebuilt from its pairs.
use middlewar_test.Base.{
  ◌≡◌, refl, sym, ap, ◌∙◌, true, false, [], ◌∷◌, ◌++◌, append_assoc, append-nil, Bytes, Bool-cases,
  inl, inr, bytes_eq, bytes_eq_iff, arith,
}
use middlewar_test.Text.Dictionary.{Dict, key_lt, lookup, insert, erase}
use middlewar_test.Text.Dictionary.Order.{
  key_lt-asym, key_lt_trans, key_lt-differs, bytes_eq_sym, key_lt-total,
}

-- The key is less than all keys of the map.
abbrev pub IsBelow : Bytes → Dict → Type 0
IsBelow k [] = Unit
IsBelow k ((j, w) ∷ m) = (key_lt k j ≡ true) × IsBelow k m

abbrev pub IsSorted : Dict → Type 0
IsSorted [] = Unit
IsSorted ((k, v) ∷ m) = IsBelow k m × IsSorted m

-- The key is not among those of the map.
abbrev pub IsAbsent : Bytes → Dict → Type 0
IsAbsent k [] = Unit
IsAbsent k ((j, w) ∷ m) = (bytes_eq j k ≡ false) × IsAbsent k m

pub IsBelow-trans : (j k : Bytes) (m : Dict) → key_lt j k ≡ true → IsBelow k m → IsBelow j m
IsBelow-trans j k [] h b = tt
IsBelow-trans j k ((i, w) ∷ m) h (b, bs) = (key_lt_trans j k i h b, IsBelow-trans j k m h bs)

IsBelow-insert :
    (j k v : Bytes) (m : Dict) → key_lt j k ≡ true → IsBelow j m → IsBelow j (insert k v m)
unfolding insert
IsBelow-insert j k v [] h b = (h, tt)
IsBelow-insert j k v ((i, w) ∷ m) h (b, bs) = ground (arith, IsBelow-insert j k v m h bs)

pub IsSorted-insert : (k v : Bytes) (m : Dict) → IsSorted m → IsSorted (insert k v m)
unfolding insert
IsSorted-insert k v [] s = (tt, tt)
IsSorted-insert k v ((i, w) ∷ m) (b, s) = elim (Bool-cases (bytes_eq i k)) [
  | inl e ↦ rw e (b, s)
  | inr e ↦ elim (Bool-cases (key_lt k i)) [
    | inl l ↦ rw (e, l) ((l, IsBelow-trans k i m l b), (b, s))
    | inr l ↦ rw (e, l) (IsBelow-insert i k v m (key_lt-total k i e l) b, IsSorted-insert k v m s)
  ]
]

-- A lookup is not changed by the insertion of another key.
pub lookup-insert :
    (j k v : Bytes) (m : Dict) → bytes_eq k j ≡ false → lookup j (insert k v m) ≡ lookup j m
unfolding lookup insert
lookup-insert j k v [] h = ground (arith, h)
lookup-insert j k v ((i, w) ∷ m) h = ground (arith, h, lookup-insert j k v m h)

erase_below : (k : Bytes) (m : Dict) → IsBelow k m → erase k m ≡ m
unfolding erase
erase_below k [] b = refl
erase_below k ((i, w) ∷ m) (b, bs) =
    ground (arith, key_lt-differs k i b, bytes_eq_sym k i, erase_below k m bs)

insert_below : (k v : Bytes) (m : Dict) → IsBelow k m → insert k v m ≡ (k, v) ∷ m
unfolding insert
insert_below k v [] b = refl
insert_below k v ((i, w) ∷ m) (b, bs) = ground (arith, b, key_lt-differs k i b, bytes_eq_sym k i)

-- Removals pass insertions of other keys.
pub erase-insert :
    (j k v : Bytes) (m : Dict)
    → IsSorted m
    → bytes_eq k j ≡ false
    → erase j (insert k v m) ≡ insert k v (erase j m)
unfolding erase insert
erase-insert j k v [] s h = ground (arith, h)
erase-insert j k v ((i, w) ∷ m) (b, s) h = elim (Bool-cases (bytes_eq i k)) [
  | inl e ↦
      let other : bytes_eq i j ≡ false = ap (λ x. bytes_eq x j) ((bytes_eq_iff i k).0 e) ∙ h in
      rw (e, other) (rw e refl)
  | inr e ↦ elim (Bool-cases (key_lt k i)) [
    | inl l ↦ elim (Bool-cases (bytes_eq i j)) [
      | inl f ↦ rw (e, l, f, h) ((sym (insert_below k v m (IsBelow-trans k i m l b))))
      | inr f ↦ rw (e, l, f, h) (rw (e, l) refl)
    ]
    | inr l ↦ elim (Bool-cases (bytes_eq i j)) [
      | inl f ↦ rw (e, l, f) refl
      | inr f ↦ rw (e, l, f) (rw (e, l) (ap (λ t. (i, w) ∷ t) (erase-insert j k v m s h)))
    ]
  ]
]

pub IsBelow-IsAbsent : (k : Bytes) (m : Dict) → IsBelow k m → IsAbsent k m
IsBelow-IsAbsent k [] b = tt
IsBelow-IsAbsent k ((i, w) ∷ m) (b, bs) =
    (bytes_eq_sym i k ∙ key_lt-differs k i b, IsBelow-IsAbsent k m bs)

pub IsAbsent-erase : (j k : Bytes) (m : Dict) → IsAbsent j m → IsAbsent j (erase k m)
unfolding erase
IsAbsent-erase j k [] b = tt
IsAbsent-erase j k ((i, w) ∷ m) (b, bs) = ground (arith, b, bs, IsAbsent-erase j k m bs)

IsBelow-erase : (j k : Bytes) (m : Dict) → IsBelow j m → IsBelow j (erase k m)
unfolding erase
IsBelow-erase j k [] b = tt
IsBelow-erase j k ((i, w) ∷ m) (b, bs) = ground (arith, b, bs, IsBelow-erase j k m bs)

pub IsSorted-erase : (k : Bytes) (m : Dict) → IsSorted m → IsSorted (erase k m)
unfolding erase
IsSorted-erase k [] s = tt
IsSorted-erase k ((i, w) ∷ m) (b, s) = elim (Bool-cases (bytes_eq i k)) [
  | inl e ↦ rw e s
  | inr e ↦ rw e (IsBelow-erase i k m b, IsSorted-erase k m s)
]

-- The pairs are inserted one after the other.
unfoldable pub insert_all : Dict → Dict → Dict
insert_all [] m = m
insert_all ((k, v) ∷ ps) m = insert_all ps (insert k v m)

pub lookup-insert_all :
    (j : Bytes) (ps m : Dict) → IsAbsent j ps → lookup j (insert_all ps m) ≡ lookup j m
unfolding insert_all
lookup-insert_all j [] m h = refl
lookup-insert_all j ((k, v) ∷ ps) m (h, hs) =
    lookup-insert_all j ps (insert k v m) hs ∙ lookup-insert j k v m h

pub erase-insert_all :
    (j : Bytes) (ps m : Dict)
    → IsSorted m
    → IsAbsent j ps
    → erase j (insert_all ps m) ≡ insert_all ps (erase j m)
unfolding insert_all
erase-insert_all j [] m s h = refl
erase-insert_all j ((k, v) ∷ ps) m s (h, hs) =
    erase-insert_all j ps (insert k v m) (IsSorted-insert k v m s) hs
    ∙ ap (insert_all ps) (erase-insert j k v m s h)

-- All keys of the map are less than the key.
abbrev IsAbove : Bytes → Dict → Type 0
IsAbove k [] = Unit
IsAbove k ((j, w) ∷ m) = (key_lt j k ≡ true) × IsAbove k m

insert_above : (k v : Bytes) (m : Dict) → IsAbove k m → insert k v m ≡ m ++ (k, v) ∷ []
unfolding insert
insert_above k v [] a = refl
insert_above k v ((j, w) ∷ m) (a, as') =
    rw (key_lt-differs j k a, key_lt-asym j k a) (ap (λ t. (j, w) ∷ t) (insert_above k v m as'))

IsAbove-snoc :
    (j k v : Bytes) (m : Dict) → key_lt k j ≡ true → IsAbove j m → IsAbove j (m ++ (k, v) ∷ [])
IsAbove-snoc j k v [] h a = (h, tt)
IsAbove-snoc j k v ((i, w) ∷ m) h (a, more) = (a, IsAbove-snoc j k v m h more)

-- Every key of the first map is less than every key of the second.
abbrev AllAbove : Dict → Dict → Type 0
AllAbove m [] = Unit
AllAbove m ((k, v) ∷ ps) = IsAbove k m × AllAbove m ps

AllAbove-snoc :
    (k v : Bytes) (m ps : Dict) → IsBelow k ps → AllAbove m ps → AllAbove (m ++ (k, v) ∷ []) ps
AllAbove-snoc k v m [] b a = tt
AllAbove-snoc k v m ((j, w) ∷ ps) (b, bs) (a, more) =
    (IsAbove-snoc j k v m b a, AllAbove-snoc k v m ps bs more)

insert_all_above : (m ps : Dict) → IsSorted ps → AllAbove m ps → insert_all ps m ≡ m ++ ps
unfolding insert_all
insert_all_above m [] s a = sym (append-nil m)
insert_all_above m ((k, v) ∷ ps) (b, s) (a, more) =
    ap (insert_all ps) (insert_above k v m a)
    ∙ insert_all_above (m ++ (k, v) ∷ []) ps s (AllAbove-snoc k v m ps b more)
    ∙ append_assoc m ((k, v) ∷ []) ps

AllAbove-nil : (ps : Dict) → AllAbove [] ps
AllAbove-nil [] = tt
AllAbove-nil ((k, v) ∷ ps) = (tt, AllAbove-nil ps)

-- A sorted map is rebuilt from its pairs.
pub insert_all-sorted : (ps : Dict) → IsSorted ps → insert_all ps [] ≡ ps
insert_all-sorted ps s = insert_all_above [] ps s (AllAbove-nil ps)
