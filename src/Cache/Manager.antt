-- ===== src/Cache/Manager.antt =====
-- `CCacheManager` of netio/include/cache_manager.h and netio/src/cache_manager.cpp: three tables in
-- one shared memory segment, chosen by a prefix of the key.
-- What `ftok`, `shmget`, `shmat` and `time` answer are arguments.
pub mod Laws
pub mod Restart
pub mod Behind
pub mod Printing
use middlewar_test.Base.{
  ℕ, ◌+◌, Bool, true, false, ◌&&◌, Option, none, some, List, [], ◌∷◌, Bytes, codes, ◌==◌,
  if◌then◌else◌, ◌>>=◌, ℤ, pos, negsuc, add_int, ◌==ℤ◌,
}
use middlewar_test.Cache.Hash.{
  Key, text, Area, Table, success, new_table, initalize_by_node_count, get_total_size, find, add,
  delete,
}
use middlewar_test.Cache.Hash.Walk.{print_table}

abbrev pub cache_size : ℕ
cache_size = 40960

abbrev pub failed : ℤ
failed = negsuc 0

-- The tables by name, as `hashObj` points to one.
pub data Section : Type 0 where
  net_io container_one container_two : Section

-- The segment: the mark in its first four bytes, and the memory of the three tables.
pub record Segment : Type 0 where
  pub mark : ℕ
  pub area : Section → Area

pub record Manager : Type 0 where
  pub start : ℕ
  pub mark : ℕ
  pub table : Section → Table

-- `sKey.find(prefix) == 0`.
pub has_prefix : Bytes → Bytes → Bool
has_prefix [] s = true
has_prefix (c ∷ p) [] = false
has_prefix (c ∷ p) (d ∷ s) = c == d && has_prefix p s

unfoldable pub section_of : Bytes → Option Section
unfolding has_prefix
section_of key =
    if has_prefix (codes "c1_") key
    then some container_one
    else if has_prefix (codes "c2_") key
    then some container_two
    else if has_prefix (codes "netio_") key
    then some net_io
    else none

unfoldable pub node_count : Section → ℕ
node_count net_io = 1
node_count container_one = 100
node_count container_two = 100

abbrev pub by_section {ℓ} : {A : Type ℓ} → A → A → A → Section → A
by_section x y z net_io = x
by_section x y z container_one = y
by_section x y z container_two = z

-- The three calls of `InitalizeByNodeCount`, each behind the table before it.
unfoldable pub place_tables : (Section → Area) → ℕ → ℕ → Option (Section → Table)
unfolding node_count
place_tables areas base now = do
  let p = base + 4
  (c, x) ← initalize_by_node_count (new_table (areas net_io)) p (node_count net_io) now
  size_x ← get_total_size x
  let q = p + size_x
  (d, y) ←
      initalize_by_node_count (new_table (areas container_one)) q (node_count container_one) now
  size_y ← get_total_size y
  let r = q + size_y
  (e, z) ←
      initalize_by_node_count (new_table (areas container_two)) r (node_count container_two) now
  some (by_section x y z)

-- The process ends if `ftok` fails. Both branches on the mark place the tables alike; the first
-- sets the mark. `none` in place of a segment: `shmget` failed.
unfoldable pub initalize : Bool → Option Segment → ℕ → ℕ → Option (ℤ × Option Manager)
unfolding place_tables
initalize false m base now = none
initalize true none base now = some (failed, none)
initalize true (some m) base now = do
  tables ← place_tables m.area base now
  some (
    success,
    some (record { start = base; mark = if m.mark == 0 then 1 else m.mark; table = tables }),
  )

-- What stays in the segment when a process ends.
abbrev pub segment : Manager → Segment
segment m = record { mark = m.mark; area = λ s. (m.table s).area }

unfoldable pub section_eq : Section → Section → Bool
section_eq net_io net_io = true
section_eq container_one container_one = true
section_eq container_two container_two = true
section_eq _ _ = false

unfoldable pub put_table : Manager → Section → Table → Manager
put_table m s t = record m { table = λ u. if section_eq s u then t else m.table u }

-- `hashObj->f(…)`: a call on the table of a key, or -1 if no table has the key's prefix.
unfoldable pub on_table : Manager → Bytes → (Table → Option (ℤ × Table)) → Option (ℤ × Manager)
unfolding put_table section_eq
on_table m key f = elim (section_of key) [
  | none ↦ some (failed, m)
  | some s ↦ (do (c, t) ← f (m.table s); some (c, put_table m s t))
]

-- Each call of the table reads the key's text and what stands behind it in memory then.
unfoldable pub set : Manager → Bytes → Bytes → ℤ → Option (ℤ × Manager)
unfolding on_table
set m key behind v = on_table m key (λ t. add t (text key behind) v)

unfoldable pub delete_key : Manager → Bytes → Bytes → Option (ℤ × Manager)
unfolding on_table
delete_key m key behind = on_table m key (λ t. delete t (text key behind))

unfoldable pub get : Manager → Bytes → Bytes → ℤ → Option (ℤ × ℤ)
get m key behind v = elim (section_of key) [
  | none ↦ some (failed, v)
  | some s ↦ find (m.table s) (text key behind) v
]

-- The old value plus `v`, or `v` where no value is found.
unfoldable pub add_to : Table → Key → ℤ → Option (ℤ × Table)
add_to t k v = do (c, old) ← find t k (pos 0); add t k (if c ==ℤ pos 0 then add_int old v else v)

unfoldable pub incr : Manager → Bytes → Bytes → ℤ → Option (ℤ × Manager)
unfolding on_table add_to
incr m key behind v = on_table m key (λ t. add_to t (text key behind) v)

-- The three loops, in the order of their printing.
unfoldable pub print_all : Manager → Option ((Section → List ℤ) × Manager)
print_all m = do
  (xs, x) ← print_table (m.table net_io)
  (ys, y) ← print_table (m.table container_one)
  (zs, z) ← print_table (m.table container_two)
  some (by_section xs ys zs, record m { table = by_section x y z })
