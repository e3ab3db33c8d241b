-- ===== src/Cache/Hash/Walk.antt =====
-- The iterators of netio/include/mod_hash_v1_iterator.h as an `IChunkedIndexIterator`, and the loop
-- over a table that `CCacheManager::PrintAll` in netio/src/cache_manager.cpp makes three times.
-- An iterator stands at the address of a bucket.
use middlewar_test.Base.{
  ℕ, bind_to, zero, suc, false, ◌+◌, ◌-◌, ◌*◌, ◌/◌, ◌≡◌, refl, sym, ap, ◌∙◌, some, none, Option,
  List, [], ◌∷◌, map, ltb, if◌then◌else◌, ◌>>=◌, length-map, assert_that, assert_that-true, length,
  get_elem?, ℤ, pos, negsuc, arith,
}
use middlewar_test.Cache.Hash.{Bucket, Table, success, bucket_size}
use middlewar_test.Cache.Hash.Laws.{IsReady}
use middlewar_test.Cache.Index.Iterator.{
  ChunkedIndexIterator, Walks, order, visit, visit_all, visit_behind,
}

-- The difference of two bucket pointers, as a sign.
unfoldable pub compare_at : ℕ → ℕ → ℤ
compare_at p q =
    if ltb 0 ((p - q) / bucket_size)
    then pos 1
    else if ltb 0 ((q - p) / bucket_size)
    then negsuc 0
    else pos 0

unfoldable pub next : Table → ℕ → Option (ℤ × ℕ)
next t p = assert_that t.inited (some (success, p + bucket_size))

unfoldable pub prev : Table → ℕ → Option (ℤ × ℕ)
prev t p = assert_that t.inited (some (success, p - bucket_size))

-- A bucket outside the array is a fault.
unfoldable pub get_current_node : Table → ℕ → Option ℤ
get_current_node t p = assert_that t.inited (
    if ltb p t.buckets_start
    then none
    else do b ← get_elem? t.buckets ((p - t.buckets_start) / bucket_size); some b.node)

unfoldable pub copy_current_node : Table → ℕ → ℤ → Option (ℤ × ℤ)
copy_current_node t p node = do v ← get_current_node t p; some (success, v)

abbrev pub mod_hash_iterator : ChunkedIndexIterator ℤ
mod_hash_iterator = record {
  Index = Table;
  Place = ℕ;
  next = next;
  prev = prev;
  get_current_node = get_current_node;
  copy_current_node = copy_current_node;
  compare = compare_at;
}

-- One of the loops, with a round for each bucket and one for the test that ends it. `Begin` hands out
-- the table's own iterator, so the loop moves `iterator_start` itself.
unfoldable pub print_table : Table → Option (List ℤ × Table)
print_table t = assert_that t.inited (do
  (out, p) ← visit mod_hash_iterator (suc (length t.buckets)) t t.iterator_start t.iterator_end []
  some (out, record t { iterator_start = p }))

-- The iterators stand at the first and at the last bucket.
abbrev pub IsRewound : Table → Type 0
IsRewound t = (t.iterator_start ≡ t.buckets_start) × (t.iterator_end ≡ t.buckets_end)

abbrev pub nodes : Table → List ℤ
nodes t = map (λ b. b.node) t.buckets

abbrev place : Table → ℕ → ℕ
place t i = t.buckets_start + i * bucket_size

compare-order :
    (start i j : ℕ) → compare_at (start + i * bucket_size) (start + j * bucket_size) ≡ order i j
unfolding compare_at
compare-order start i j = ground arith

place-index : (start i : ℕ) → (start + i * bucket_size - start) / bucket_size ≡ i
place-index start i = omega arith

-- No bucket of the array stands in front of it.
not_before : (start i : ℕ) → ltb (start + i * bucket_size) start ≡ false
not_before start i = ground arith

node_of :
    (bs : List Bucket) (i : ℕ)
    → (do b ← get_elem? bs i; some b.node) ≡ get_elem? (map (λ b. b.node) bs) i
node_of [] i = refl
node_of (b ∷ bs) zero = refl
node_of (b ∷ bs) (suc i) = node_of bs i

get_current_node-place :
    (t : Table) (i : ℕ) (n : ℤ)
    → IsReady t
    → get_elem? (nodes t) i ≡ some n
    → get_current_node t (place t i) ≡ some n
unfolding get_current_node
get_current_node-place t i n v h =
    rw (v.ready, not_before t.buckets_start i, place-index t.buckets_start i)
      (node_of t.buckets i ∙ h)

-- Over a ready table the iterators walk over the nodes of all buckets, whether any of them is set or
-- not, in order. From the place of any number there is a step to the next and one back, the place of a
-- bucket shows and copies its node with the code 0, also where nothing was added, for which the
-- interface asks for an error code; and `Compare` tells the order of any two places.
pub mod_hash_iterator-Walks :
    (t : Table) → IsReady t → Walks mod_hash_iterator t (nodes t) (place t)
unfolding next prev copy_current_node
mod_hash_iterator-Walks t v = record {
  forth = λ i. ground (arith, v.ready);
  back = λ i. ground (arith, v.ready);
  shown = λ i n h. get_current_node-place t i n v h;
  copied = λ i n node h. rw (get_current_node-place t i n v h) refl;
  compared = λ i j. compare-order t.buckets_start i j;
}

print_table-visit :
    (t : Table) {out : List ℤ} {p : ℕ}
    → IsReady t
    → visit mod_hash_iterator (suc (length t.buckets)) t t.iterator_start t.iterator_end []
      ≡ some (out, p)
    → print_table t ≡ some (out, record t { iterator_start = p })
unfolding print_table
print_table-visit t v h = assert_that-true _ _ v.ready ∙ bind_to _ h refl

-- The table with its own iterator elsewhere.
abbrev moved : Table → ℕ → Table
moved t p = record t { iterator_start = p }

moved-IsReady : (t : Table) (p : ℕ) → IsReady t → IsReady (moved t p)
moved-IsReady t p v = record {
  ready = v.ready;
  counted = v.counted;
  nonempty = v.nonempty;
  first = v.first;
  last = v.last;
}

module _ (t : Table) (v : IsReady t) (h : IsRewound t) where
  last_place : t.iterator_end ≡ place t (t.buck_nums - 1)
  last_place = h.1 ∙ v.last ∙ omega (arith, v.nonempty)

  length-nodes : length (nodes t) ≡ suc (t.buck_nums - 1)
  length-nodes = length-map t.buckets (λ b. b.node) ∙ v.counted ∙ omega (arith, v.nonempty)

  first_place : t.iterator_start ≡ place t 0
  first_place = h.0 ∙ omega arith

  -- Where the table's own iterator stands behind the loop.
  abbrev behind : Table
  behind = moved t (place t (suc (t.buck_nums - 1)))

  printed : print_table t ≡ some (nodes t, behind)
  printed = print_table-visit t v (
      ap (λ n. visit mod_hash_iterator (suc n) t t.iterator_start t.iterator_end [])
        (sym (length-map t.buckets (λ b. b.node)))
      ∙ ap (λ p. visit mod_hash_iterator (suc (length (nodes t))) t p t.iterator_end []) first_place
      ∙ ap (λ p. visit mod_hash_iterator (suc (length (nodes t))) t (place t 0) p []) last_place
      ∙ visit_all mod_hash_iterator t (nodes t) (place t) (mod_hash_iterator-Walks t v)
          (t.buck_nums - 1) length-nodes)

  printed_again : print_table behind ≡ some ([], behind)
  printed_again =
      let w = moved-IsReady t (place t (suc (t.buck_nums - 1))) v in
      print_table-visit behind w (
        ap (λ p. visit mod_hash_iterator (suc (length t.buckets)) behind behind.iterator_start p [])
          last_place
        ∙ visit_behind mod_hash_iterator behind (nodes t) (place t)
            (mod_hash_iterator-Walks behind w) (t.buck_nums - 1) (length t.buckets) [])

-- The first time, the loop prints the node of every bucket, in order. It leaves the table's own
-- iterator behind the last bucket, so the second time it prints nothing and leaves the table as it is.
pub print_table_twice :
    (t : Table)
    → IsReady t
    → IsRewound t
    → (t' : Table) × (print_table t ≡ some (map (λ b. b.node) t.buckets, t'))
      × (t'.area ≡ t.area)
      × (print_table t' ≡ some ([], t'))
print_table_twice t v h = (behind t v h, printed t v h, refl, printed_again t v h)
