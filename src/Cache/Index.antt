-- ===== src/Cache/Index.antt =====
-- `IChunkedIndex` of netio/include/intf_chunkedindex.h: the operations of an index as a class that
-- implements it provides them, and what its comments ask of the operations on keys, in terms of a
-- view that forgets the representation. `none` is a failed assertion or a division by zero.
pub mod Hashed
pub mod Iterator
use middlewar_test.Base.{
  ℕ, ◌≡◌, ◌≢◌, refl, ap, ◌∙◌, Option, none, some, List, [], ◌∷◌, ◌==◌, if◌then◌else◌, ◌>>=◌, Bytes,
  ℤ, pos,
}
use mathlib.Core.Quot
use mathlib.Core.Quot.{Quot}
use native.Mathlib.Nat.{ℕ_set}

-- `State` is the object with the memory that it manages, `Memory` what a pointer leads to. An
-- iterator is an address. The file of `DumpToFile` is a path, and the last argument of the two
-- functions that set the index up is what `time` answers.
pub record ChunkedIndex (K T : Type 0) : Type 1 where
  pub State : Type 0
  pub Memory : Type 0
  pub find : State → K → T → Option (ℤ × T)
  pub get_free_node_count : State → Option ℤ
  pub get_total_node_count : State → Option ℤ
  pub get_indexed_node_count : State → Option ℤ
  pub get_total_size : State → Option ℤ
  pub get_unit_chunk_size : State → Option ℤ
  pub get_head_reserved_size : State → Option ℤ
  pub reset : State → Option (ℤ × State)
  pub dump_to_file : State → Bytes → Option ℤ
  pub load_from_file : State → Bytes → Option (ℤ × State)
  pub initalize_by_cache_size : State → ℕ → ℕ → ℕ → Option (ℤ × State)
  pub initalize_by_node_count : State → ℕ → ℕ → ℕ → Option (ℤ × State)
  pub add : State → K → T → Option (ℤ × State)
  pub delete : State → K → Option (ℤ × State)
  pub lock_key : State → K → Option (ℤ × State)
  pub un_lock_key : State → K → Option (ℤ × State)
  pub begin : State → Option ℕ
  pub end : State → Option ℕ
  pub set_index_pointer : State → ℕ → Memory → ℤ × State

-- The operations that change what lookups find.
pub data Write (K T : Type 0) : Type 0 where
  adding : K → T → Write K T
  deleting : K → Write K T
  resetting : Write K T

-- An index does not tell two keys with the same number apart. What lookups find is a function of
-- the keys up to that.
module _ {K : Type 0} (number : K → ℕ) where
  abbrev pub Class : Type 0
  Class = Quot (λ (k j : K). number k ≡ number j)

  abbrev pub class_of : K → Class
  class_of = Quot.mk

  unfoldable pub number_of : Class → ℕ
  number_of = Quot.lift ℕ_set number (λ k j h. h)

  abbrev pub View : Type 0 → Type 0
  View T = Class → Option T

  unfoldable pub perform : {T : Type 0} → Write K T → View T → View T
  perform (adding k v) f d = if number k == number_of d then some v else f d
  perform (deleting k) f d = if number k == number_of d then none else f d
  perform resetting f d = none

  unfoldable pub perform_all : {T : Type 0} → List (Write K T) → View T → View T
  perform_all [] f = f
  perform_all (o ∷ os) f = perform_all os (perform o f)

-- The result of `Find` for what the view holds: code 0 and the value, or another code and
-- `indexNode` as it was.
abbrev pub Answers : {T : Type 0} → Option T → T → ℤ × T → Type 0
Answers none node (r, x) = (r ≢ pos 0) × (x ≡ node)
Answers (some v) node (r, x) = (r ≡ pos 0) × (x ≡ v)

module _ {K T : Type 0} (X : ChunkedIndex K T) where
  unfoldable pub write : X.State → Write K T → Option (ℤ × X.State)
  write s (adding k v) = X.add s k v
  write s (deleting k) = X.delete s k
  write s resetting = X.reset s

  unfoldable pub write_all : X.State → List (Write K T) → Option X.State
  write_all s [] = some s
  write_all s (o ∷ os) = do (r, s') ← write s o; write_all s' os

  -- The laws of an index: operations on a valid state succeed, keep it valid, and do to the view what
  -- the interface says.
  pub record IsIndex (number : K → ℕ) : Type 1 where
    pub IsValid : X.State → Type 0
    pub view : X.State → View number T
    pub found :
        (s : X.State) (k : K) (node : T)
        → IsValid s
        → (r : ℤ × T) × (X.find s k node ≡ some r) × Answers (view s (class_of number k)) node r
    pub written :
        (s : X.State) (o : Write K T)
        → IsValid s
        → (s' : X.State) × (write s o ≡ some (pos 0, s'))
          × IsValid s'
          × (view s' ≡ perform number o (view s))

  -- Any history of writes on a valid state succeeds, and does to the view what the history of the
  -- specification does.
  pub history :
      (number : K → ℕ) (I : IsIndex number) (s : X.State) (os : List (Write K T))
      → I.IsValid s
      → (s' : X.State) × (write_all s os ≡ some s')
        × I.IsValid s'
        × (I.view s' ≡ perform_all number os (I.view s))
  unfolding write_all perform_all
  history number I s [] v = (s, refl, v, refl)
  history number I s (o ∷ os) v =
      let (s1, e, v1, p) = I.written s o v in
      let (s', f, v', q) = history number I s1 os v1 in
      (s', rw (e, f) refl, v', q ∙ ap (perform_all number os) p)
