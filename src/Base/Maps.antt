-- ===== src/Base/Maps.antt =====
-- `std::map<int, V>` as the list of its pairs in the order of their keys, none of them negative.
use Prim.Native.Nat.{ℕ, suc, ◌-◌}
use mathlib.Core.Path.{◌≡◌}
use mathlib.Core.Option.{Option, none, some}
use mathlib.Core.List.{List, [], ◌∷◌}
use native.Mathlib.Omega.{arith}
use middlewar_test.Base.Tests.{◌==◌, ltb, if◌then◌else◌}

abbrev pub IntMap {ℓ} : Type ℓ → Type ℓ
IntMap V = List (ℕ × V)

module _ {ℓ} {V : Type ℓ} where
  unfoldable pub find_key : ℕ → IntMap V → Option V
  find_key k [] = none
  find_key k ((j, v) ∷ m) = if j == k then some v else find_key k m

  -- `m[k] = v`.
  unfoldable pub assign : ℕ → V → IntMap V → IntMap V
  assign k v [] = (k, v) ∷ []
  assign k v ((j, w) ∷ m) =
      let rest = assign k v m in
      if j == k then (k, v) ∷ m else if ltb k j then (k, v) ∷ (j, w) ∷ m else (j, w) ∷ rest

  unfoldable pub erase_key : ℕ → IntMap V → IntMap V
  erase_key k [] = []
  erase_key k ((j, v) ∷ m) = if j == k then m else (j, v) ∷ erase_key k m

  -- How often a key stands in the map.
  unfoldable pub key_count : ℕ → IntMap V → ℕ
  key_count k [] = 0
  key_count k ((j, v) ∷ m) = if j == k then suc (key_count k m) else key_count k m

  pub key_count-assign :
      (k j : ℕ) (v : V) (m : IntMap V)
      → key_count j m ≡ 0
      → key_count k (assign j v m) ≡ (if j == k then suc (key_count k m) else key_count k m)
  unfolding key_count assign
  key_count-assign k j v [] h = ground arith
  key_count-assign k j v ((i, w) ∷ m) h = ground (arith, key_count-assign k j v m)

  pub key_count-erase :
      (k j : ℕ) (m : IntMap V)
      → key_count k (erase_key j m) ≡ (if j == k then key_count k m - 1 else key_count k m)
  unfolding key_count erase_key
  key_count-erase k j [] = ground arith
  key_count-erase k j ((i, w) ∷ m) = ground (arith, key_count-erase k j m)

  pub find_key-assign :
      (k j : ℕ) (v : V) (m : IntMap V)
      → find_key k (assign j v m) ≡ (if j == k then some v else find_key k m)
  unfolding find_key assign
  find_key-assign k j v [] = ground arith
  find_key-assign k j v ((i, w) ∷ m) = ground (arith, find_key-assign k j v m)

  pub erase_key-assign :
      (k : ℕ) (v : V) (m : IntMap V) → key_count k m ≡ 0 → erase_key k (assign k v m) ≡ m
  unfolding erase_key assign key_count
  erase_key-assign k v [] h = ground arith
  erase_key-assign k v ((j, w) ∷ m) h = ground (arith, erase_key-assign k v m)
