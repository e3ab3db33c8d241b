-- ===== src/Cache/Hash/Sized.antt =====
-- `CModHashV1::InitalizeByCacheSize` (netio/include/mod_hash_v1.h): as many buckets as fit in an area.
use middlewar_test.Base.{
  ℕ, ◌+◌, ◌-◌, ◌*◌, ◌/◌, ◌≤◌, ◌<◌, ◌≡◌, refl, true, Option, none, some, ltb, if◌then◌else◌, ◌>>=◌,
  ℤ, arith,
}
use middlewar_test.Cache.Hash.{
  Table, success, head_size, bucket_size, store_head, initalize_by_node_count,
}

-- `none`: the header does not fit in the area.
unfoldable pub initalize_by_cache_size : Table → ℕ → ℕ → ℕ → Option (ℤ × Table)
unfolding store_head
initalize_by_cache_size t p len now = if ltb len head_size then none else do
  let room = len - head_size
  let n = room / bucket_size
  let left = room - n * bucket_size
  let first = p + head_size
  let last = p + len - left - bucket_size
  let h = record t.head {
    inited = true;
    buck_nums = n;
    access_count = 0;
    global_lock = 0;
    create_time = now;
    last_reset_time = now;
    total_size = len;
    free_node_count = n;
    cache = p;
    buckets_start = first;
    buckets_end = last;
  }
  t' ← store_head (record t { head = h; iterator_start = first; iterator_end = last })
  some (success, t')

-- The table that `InitalizeByNodeCount` makes, with another total size.
abbrev pub resized : ℕ → Table → Table
resized len t =
    let h = record t.head { total_size = len } in
    record t { head = h; area = record t.area { stored = h } }

-- An area of at least the header's size is filled: the table is the one that `InitalizeByNodeCount`
-- makes for the number of buckets that fit, with the area's size as its total, the buckets end within
-- the area, and what is left behind them is smaller than a bucket. Both return 0, where the interface's
-- comment says that `InitalizeByNodeCount` returns a size.
pub initalize_by_cache_size_fits :
    (t : Table) (p len now : ℕ)
    → head_size ≤ len
    → let n = (len - head_size) / bucket_size in
      (t' : Table) × (initalize_by_node_count t p n now ≡ some (success, t'))
      × (initalize_by_cache_size t p len now ≡ some (success, resized len t'))
      × (t'.buckets_end + bucket_size ≤ p + len)
      × (p + len < t'.buckets_end + bucket_size + bucket_size)
unfolding initalize_by_cache_size initalize_by_node_count
initalize_by_cache_size_fits t p len now h = (_, refl, ground arith, omega arith, omega arith)
