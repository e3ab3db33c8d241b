-- ===== src/Cache/Hash.antt =====
-- `CModHashV1<K, int>` of netio/include/mod_hash_v1.h: a header, and an array of buckets behind it
-- in memory that processes share. The object and the shared memory are one record here.
-- Addresses are numbers of bytes. `none` is a failed `MustInit` or a division by zero.
pub mod Laws
pub mod Bulk
pub mod Header
pub mod Walk
pub mod Iterator
pub mod Sized
use middlewar_test.Base.{
  ℕ, ◌+◌, ◌-◌, ◌*◌, ◌%◌, ◌^◌, Bool, true, false, not, ◌&&◌, Option, none, some, List, [], ◌∷◌, ◌++◌,
  Bytes, ◌==◌, ltb, leb, if◌then◌else◌, ◌>>=◌, assert_that, length, get_elem?, set, take, ℤ, pos,
  negsuc, sub_ℕ,
}

abbrev pub success : ℤ
success = pos 0

abbrev pub wrong_pointer : ℤ
wrong_pointer = pos 1000

abbrev pub uninit_area : ℤ
uninit_area = pos 1001

abbrev pub wrong_fullfill_size : ℤ
wrong_fullfill_size = pos 1002

abbrev pub key_not_found : ℤ
key_not_found = pos 1003

abbrev pub specifier_value : ℕ
specifier_value = 17607181

-- `sizeof(m_stHead)` and `sizeof(stModHashV1Bucket)` with pointers of eight bytes.
abbrev pub head_size : ℕ
head_size = 64

abbrev pub bucket_size : ℕ
bucket_size = 36

-- A key by what `typeid` says of its type: a text with the memory behind its end, an `int`, a
-- `long`, or anything else.
pub data Key : Type 0 where
  text : Bytes → Bytes → Key
  int_key long_key : ℤ → Key
  other : Key

pub record Bucket : Type 0 where
  pub has_set : Bool
  pub invalid : Bool
  pub node : ℤ

pub record Head : Type 0 where
  pub specifier : ℕ
  pub inited : Bool
  pub buck_nums : ℕ
  pub global_lock : ℕ
  pub version : ℕ
  pub access_count : ℕ
  pub create_time : ℕ
  pub last_reset_time : ℕ
  pub total_size : ℕ
  pub free_node_count : ℕ
  pub cache : ℕ
  pub buckets_start : ℕ
  pub buckets_end : ℕ

-- The shared memory: the header as it was last stored, and the buckets.
pub record Area : Type 0 where
  pub stored : Head
  pub buckets : List Bucket

-- The object: its own header, and the addresses that its two iterators hold.
pub record Table : Type 0 where
  pub head : Head
  pub open head use *
  pub iterator_start : ℕ
  pub iterator_end : ℕ
  pub area : Area
  pub open area use *

-- The constructor.
unfoldable pub new_head : Head
new_head = record {
  specifier = specifier_value;
  inited = false;
  buck_nums = 0;
  global_lock = 0;
  version = 0;
  access_count = 0;
  create_time = 0;
  last_reset_time = 0;
  total_size = 0;
  free_node_count = 0;
  cache = 0;
  buckets_start = 0;
  buckets_end = 0;
}

unfoldable pub new_table : Area → Table
unfolding new_head
new_table a = record { head = new_head; iterator_start = 0; iterator_end = 0; area = a }

-- A `char` is signed: added to an `unsigned long` it is extended by its sign.
unfoldable pub add_char : ℕ → ℕ → ℕ
add_char h c = (h + (if ltb c 128 then c else 2 ^ 64 - 256 + c)) % 2 ^ 64

unfoldable pub sum_chars : ℕ → Bytes → ℕ
sum_chars h [] = h
sum_chars h (c ∷ cs) = sum_chars (add_char h c) cs

-- `sizeof(nodeKey)` is that of the string object, eight, and the loop's bound is included: nine
-- bytes are read, whatever the length of the text.
abbrev pub hashed_bytes : Bytes → Bytes → Bytes
hashed_bytes s behind = take 9 (s ++ 0 ∷ behind)

unsigned_long : ℤ → ℕ
unsigned_long (pos n) = n % 2 ^ 64
unsigned_long (negsuc n) = 2 ^ 64 - 1 - n % 2 ^ 64

unfoldable pub hash_value : Key → ℕ
unfolding sum_chars add_char unsigned_long
hash_value (text s behind) = sum_chars 0 (hashed_bytes s behind)
hash_value (int_key z) = unsigned_long z
hash_value (long_key z) = unsigned_long z
hash_value other = 0

unfoldable pub mod_to_uint : Table → Key → Option ℕ
mod_to_uint t k = if t.buck_nums == 0 then none else some (hash_value k % t.buck_nums)

-- `StoreHead`: the object's header is copied to the front of the shared memory.
unfoldable pub store_head : Table → Option Table
store_head t = assert_that t.inited (some (record t { area = record t.area { stored = t.head } }))

unfoldable pub initalize_by_node_count : Table → ℕ → ℕ → ℕ → Option (ℤ × Table)
unfolding store_head
initalize_by_node_count t p n now = do
  let first = p + head_size
  let last = p + head_size + n * bucket_size - bucket_size
  let h = record t.head {
    inited = true;
    buck_nums = n;
    access_count = 0;
    global_lock = 0;
    create_time = now;
    last_reset_time = now;
    total_size = n * bucket_size + head_size;
    free_node_count = n;
    cache = p;
    buckets_start = first;
    buckets_end = last;
  }
  t' ← store_head (record t { head = h; iterator_start = first; iterator_end = last })
  some (success, t')

-- `SetIndexPointer`, over the shared memory that the pointer `p` leads to.
unfoldable pub read_and_check_head : Table → ℕ → Area → ℤ × Table
read_and_check_head t p a =
    if p == t.cache && not (p == 0)
    then (success, t)
    else if not (a.stored.specifier == specifier_value)
    then (wrong_pointer, t)
    else if a.stored.inited
    then (uninit_area, t)
    else (success, record t { head = a.stored; area = a })

unfoldable pub is_empty : Table → Option Bool
is_empty t = assert_that t.inited (some (t.free_node_count == t.buck_nums))

unfoldable pub get_indexed_node_count : Table → Option ℤ
get_indexed_node_count t = assert_that t.inited (some (sub_ℕ t.buck_nums t.free_node_count))

unfoldable pub get_total_size : Table → Option ℕ
get_total_size t = assert_that t.inited (some t.total_size)

unfoldable pub get_total_node_count : Table → Option ℕ
get_total_node_count t = assert_that t.inited (some t.buck_nums)

unfoldable pub get_free_node_count : Table → Option ℕ
get_free_node_count t = assert_that t.inited (some t.free_node_count)

unfoldable pub write_bucket : Table → ℕ → Bucket → Table
write_bucket t i b = record t { area = record t.area { buckets = set t.buckets i b } }

-- The result is the code and what `indexNode` holds at the end.
unfoldable pub find : Table → Key → ℤ → Option (ℤ × ℤ)
unfolding mod_to_uint
find t k node = assert_that t.inited do
  i ← mod_to_uint t k
  b ← get_elem? t.buckets i
  some (if b.has_set && not b.invalid then (success, b.node) else (key_not_found, node))

unfoldable pub add : Table → Key → ℤ → Option (ℤ × Table)
unfolding mod_to_uint write_bucket
add t k v = assert_that t.inited do
  i ← mod_to_uint t k
  b ← get_elem? t.buckets i
  some (success, write_bucket t i (record { has_set = true; invalid = false; node = v }))

unfoldable pub delete : Table → Key → Option (ℤ × Table)
unfolding mod_to_uint write_bucket
delete t k = assert_that t.inited do
  i ← mod_to_uint t k
  b ← get_elem? t.buckets i
  some (success, write_bucket t i (record b { invalid = true }))

-- The loop of `Reset` from the bucket at `p`.
reset_from : ℕ → ℕ → List Bucket → List Bucket
reset_from p last [] = []
reset_from p last (b ∷ bs) =
    let rest = reset_from (p + bucket_size) last bs in
    if leb p last then record b { invalid = true } ∷ rest else b ∷ bs

unfoldable pub reset : Table → Option (ℤ × Table)
unfolding reset_from
reset t = assert_that t.inited (
    some (
      success,
      record t {
        area = record t.area { buckets = reset_from t.buckets_start t.buckets_end t.buckets };
      },
    ))

-- The loop of `FullFillValue` over the buckets and the values.
fill_from : List Bucket → List ℤ → List Bucket
fill_from [] vs = []
fill_from (b ∷ bs) [] = b ∷ bs
fill_from (b ∷ bs) (v ∷ vs) = record { has_set = true; invalid = false; node = v } ∷ fill_from bs vs

unfoldable pub full_fill_value : Table → List ℤ → Option (ℤ × Table)
unfolding fill_from
full_fill_value t vs = assert_that t.inited (
    if not (length vs == t.buck_nums)
    then some (wrong_fullfill_size, t)
    else some (success, record t { area = record t.area { buckets = fill_from t.buckets vs } }))
