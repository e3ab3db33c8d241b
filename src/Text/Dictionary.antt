-- ===== src/Text/Dictionary.antt =====
-- `std::map<string, string>`, as far as netio/include/string_helper.h and netio/include/cmd_obj.h
-- use it: keys are compared byte by byte, and `insert` keeps the value of a key that is there.
pub mod Order
pub mod Laws
use middlewar_test.Base.{
  Bool, true, false, Option, none, some, List, [], ◌∷◌, Bytes, ◌==◌, ltb, if◌then◌else◌, bytes_eq,
}

abbrev pub Dict : Type 0
Dict = List (Bytes × Bytes)

unfoldable pub key_lt : Bytes → Bytes → Bool
key_lt [] [] = false
key_lt [] (y ∷ ys) = true
key_lt (x ∷ xs) [] = false
key_lt (x ∷ xs) (y ∷ ys) = if x == y then key_lt xs ys else ltb x y

unfoldable pub lookup : Bytes → Dict → Option Bytes
unfolding bytes_eq
lookup k [] = none
lookup k ((j, v) ∷ m) = if bytes_eq j k then some v else lookup k m

unfoldable pub insert : Bytes → Bytes → Dict → Dict
unfolding bytes_eq key_lt
insert k v [] = (k, v) ∷ []
insert k v ((j, w) ∷ m) =
    let rest = insert k v m in
    if bytes_eq j k then (j, w) ∷ m else if key_lt k j then (k, v) ∷ (j, w) ∷ m else (j, w) ∷ rest

unfoldable pub erase : Bytes → Dict → Dict
unfolding bytes_eq
erase k [] = []
erase k ((j, v) ∷ m) = if bytes_eq j k then m else (j, v) ∷ erase k m
