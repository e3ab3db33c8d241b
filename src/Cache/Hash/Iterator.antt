-- ===== src/Cache/Hash/Iterator.antt =====
-- The comparisons of netio/include/mod_hash_v1_iterator.h, of two iterators by their buckets'
-- addresses.
use middlewar_test.Base.{
  ℕ, ◌+◌, ◌-◌, ◌*◌, ◌/◌, ◌≡◌, Bool, ◌==◌, ltb, if◌then◌else◌, pos, negsuc, arith,
}
use middlewar_test.Cache.Hash.{bucket_size}
use middlewar_test.Cache.Hash.Walk.{compare_at}

-- `operator<=`: whether the difference of the pointers is negative.
unfoldable pub op_le : ℕ → ℕ → Bool
op_le p q = ltb 0 ((q - p) / bucket_size)

-- `operator !=`.
unfoldable pub op_ne : ℕ → ℕ → Bool
op_ne p q = p == q

-- Of the iterators at the buckets `i` and `j` of one table, `Compare` tells the order of `i` and `j`;
-- `operator<=` holds only if `i` is less than `j`, not if they are the same; `operator !=` holds
-- exactly if they are the same.
pub operators_at :
    (start i j : ℕ)
    → let p = start + i * bucket_size in
      let q = start + j * bucket_size in
      (compare_at p q ≡ (if ltb j i then pos 1 else if ltb i j then negsuc 0 else pos 0))
      × (op_le p q ≡ ltb i j)
      × (op_ne p q ≡ (i == j))
unfolding compare_at op_le op_ne
operators_at start i j = (ground arith, ground arith, ground arith)
