-- ===== src/Cache/Hash/Laws.antt =====
-- What lookups find after writes in the table of netio/include/mod_hash_v1.h.
use middlewar_test.Base.{
  ℕ, ◌+◌, ◌-◌, ◌*◌, ◌%◌, ◌<◌, ◌≡◌, ◌∙◌, true, false, not, ◌&&◌, Option, some, ◌==◌, if◌then◌else◌,
  ◌>>=◌, length, get_elem?, length-set, get_elem?-set, get_elem?-some, ℤ, arith, inl, inr,
  Bool-cases,
}
use middlewar_test.Cache.Hash.{
  Key, Bucket, Table, success, key_not_found, head_size, bucket_size, hash_value, mod_to_uint, find,
  add, delete, write_bucket,
}

-- The table is initialised, its header describes the buckets of the shared memory, and there is one
-- at least.
pub record IsReady (t : Table) : Type 0 where
  pub ready : t.inited ≡ true
  pub counted : length t.buckets ≡ t.buck_nums
  pub nonempty : 0 < t.buck_nums
  pub first : t.buckets_start ≡ t.cache + head_size
  pub last : t.buckets_end ≡ t.buckets_start + t.buck_nums * bucket_size - bucket_size

-- The bucket of a key.
abbrev pub slot : Table → Key → ℕ
slot t k = hash_value k % t.buck_nums

-- What `Find` returns from a bucket.
abbrev pub read_bucket : Bucket → ℤ → ℤ × ℤ
read_bucket b node = if b.has_set && not b.invalid then (success, b.node) else (key_not_found, node)

pub slot_in_range : (t : Table) (k : Key) → IsReady t → slot t k < t.buck_nums
slot_in_range t k v = grind arith

pub slot-lt : (t : Table) (k : Key) → IsReady t → slot t k < length t.buckets
slot-lt t k v = rw v.counted (slot_in_range t k v)

pub mod_to_uint-slot : (t : Table) (k : Key) → IsReady t → mod_to_uint t k ≡ some (slot t k)
unfolding mod_to_uint
mod_to_uint-slot t k v = ground arith

-- The bucket that a key leads to is there.
pub bucket_of :
    (t : Table) (k : Key) → IsReady t → (b : Bucket) × (get_elem? t.buckets (slot t k) ≡ some b)
bucket_of t k v = get_elem?-some t.buckets (slot t k) (slot-lt t k v)

pub find_lem :
    (t : Table) (k : Key) (node : ℤ) (b : Bucket)
    → IsReady t
    → get_elem? t.buckets (slot t k) ≡ some b
    → find t k node ≡ some (read_bucket b node)
unfolding find
find_lem t k node b v e = rw (v.ready, mod_to_uint-slot t k v, e)

pub add_lem :
    (t : Table) (k : Key) (n : ℤ)
    → IsReady t
    → add t k n
      ≡ some (
        success,
        write_bucket t (slot t k) (record { has_set = true; invalid = false; node = n }),
      )
unfolding add
add_lem t k n v = let (b, e) = bucket_of t k v in rw (v.ready, mod_to_uint-slot t k v, e)

pub write_bucket-IsReady :
    (t : Table) (i : ℕ) (b : Bucket) → IsReady t → IsReady (write_bucket t i b)
unfolding write_bucket
write_bucket-IsReady t i b v = record {
  ready = v.ready;
  counted = length-set t.buckets i b ∙ v.counted;
  nonempty = v.nonempty;
  first = v.first;
  last = v.last;
}

-- A write leaves the header, and so every key's bucket, as it was.
find-write :
    (t : Table) (i : ℕ) (b : Bucket) (j : Key) (node : ℤ)
    → IsReady t
    → i < length t.buckets
    → find (write_bucket t i b) j node
      ≡ (if i == slot t j then some (read_bucket b node) else find t j node)
find-write t i b j node v h = elim (Bool-cases (i == slot t j)) [
  | inl e ↦ rw e (
      find_lem (write_bucket t i b) j node b (write_bucket-IsReady t i b v)
        (unfold write_bucket in get_elem?-set t.buckets i (slot t j) b h ∙ rw e))
  | inr e ↦
      let (c, f) = bucket_of t j v in
      rw (e, find_lem t j node c v f)
        (find_lem (write_bucket t i b) j node c (write_bucket-IsReady t i b v)
          (unfold write_bucket in get_elem?-set t.buckets i (slot t j) b h ∙ rw e f))
]

-- After `Add` a lookup finds the new value under every key of the same bucket, and what it found
-- before under every other key.
pub find-add :
    (t : Table) (k j : Key) (n node : ℤ)
    → IsReady t
    → (add t k n >>= λ (c, t'). find t' j node)
      ≡ (if slot t k == slot t j then some (success, n) else find t j node)
find-add t k j n node v = rw (add_lem t k n v) (
    find-write t (slot t k) (record { has_set = true; invalid = false; node = n }) j node v
      (slot-lt t k v))

pub delete_lem :
    (t : Table) (k : Key) (b : Bucket)
    → IsReady t
    → get_elem? t.buckets (slot t k) ≡ some b
    → delete t k ≡ some (success, write_bucket t (slot t k) (record b { invalid = true }))
unfolding delete
delete_lem t k b v e = rw (v.ready, mod_to_uint-slot t k v, e)

read_invalid :
    (b : Bucket) (node : ℤ) → read_bucket (record b { invalid = true }) node ≡ (key_not_found, node)
read_invalid b node = ground arith

-- After `Delete` a lookup fails under every key of the same bucket, and finds what it found before
-- under every other key.
pub find-delete :
    (t : Table) (k j : Key) (node : ℤ)
    → IsReady t
    → (delete t k >>= λ (c, t'). find t' j node)
      ≡ (if slot t k == slot t j then some (key_not_found, node) else find t j node)
find-delete t k j node v =
    let (b, e) = bucket_of t k v in
    rw (delete_lem t k b v e, ← read_invalid b node)
      (find-write t (slot t k) (record b { invalid = true }) j node v (slot-lt t k v))

-- The operation returns the code 0 and a table of which `P` holds.
abbrev pub Succeeds : Option (ℤ × Table) → (Table → Type 0) → Type 0
Succeeds r P = (t : Table) × (r ≡ some (success, t)) × P t

pub add-IsReady : (t : Table) (k : Key) (n : ℤ) → IsReady t → Succeeds (add t k n) IsReady
add-IsReady t k n v = (_, add_lem t k n v, write_bucket-IsReady t _ _ v)

pub delete-IsReady : (t : Table) (k : Key) → IsReady t → Succeeds (delete t k) IsReady
delete-IsReady t k v =
    let (b, e) = bucket_of t k v in (_, delete_lem t k b v e, write_bucket-IsReady t _ _ v)
