-- ===== src/Tests/Tables.antt =====
-- The theorems on netio/include/mod_hash_v1.h and netio/src/cache_manager.cpp, applied to small tables
-- and to a segment of the sizes of the source.
use middlewar_test.Base.{
  ℕ, ◌+◌, ◌-◌, ◌*◌, ◌≤◌, ◌<◌, ◌≡◌, refl, true, false, some, List, [], ◌∷◌, map, Bytes, codes, ◌>>=◌,
  replicate, ℤ, pos, arith,
}
use middlewar_test.Cache.Hash.{
  Key, int_key, Bucket, Head, Area, Table, success, key_not_found, specifier_value, bucket_size,
  hash_value, new_table, initalize_by_node_count, is_empty, get_indexed_node_count, find, add,
}
use middlewar_test.Cache.Index.{adding, deleting, write_all, perform_all, class_of, Answers}
use middlewar_test.Cache.Index.Hashed.{mod_hash, number, view_of, write_all_refines}
use middlewar_test.Cache.Hash.Laws.{IsReady}
use middlewar_test.Cache.Hash.Header.{adds, run, run_counts_nothing}
use middlewar_test.Cache.Hash.Sized.{initalize_by_cache_size, resized, initalize_by_cache_size_fits}
use middlewar_test.Cache.Hash.Walk.{mod_hash_iterator, mod_hash_iterator-Walks, IsRewound, nodes}
use middlewar_test.Cache.Index.Iterator.{Walks}
use middlewar_test.Cache.Manager.{
  net_io, container_one, container_two, Section, Manager, print_all, by_section, node_count,
  segment, section_of, section_eq, initalize, set, get, incr,
}
use middlewar_test.Cache.Manager.Laws.{AllReady, shares, get-set, incr-set}
use middlewar_test.Cache.Manager.Restart.{IsPlaced, restart_keeps}
use middlewar_test.Cache.Manager.Printing.{print_all_twice}
use middlewar_test.Cache.Manager.Behind.{set_not_seen}

abbrev pub unused : Bucket
unused = record { has_set = false; invalid = false; node = pos 0 }

-- A table of `n` buckets at the address `p`, as `InitalizeByNodeCount` sets it up.
abbrev pub table_at : ℕ → ℕ → List Bucket → Table
table_at p n bs =
    let h : Head = record {
      specifier = specifier_value;
      inited = true;
      buck_nums = n;
      global_lock = 0;
      version = 0;
      access_count = 0;
      create_time = 7;
      last_reset_time = 7;
      total_size = n * 36 + 64;
      free_node_count = n;
      cache = p;
      buckets_start = p + 64;
      buckets_end = p + 64 + n * 36 - 36;
    } in
    record {
      head = h;
      iterator_start = p + 64;
      iterator_end = p + 64 + n * 36 - 36;
      area = record { stored = h; buckets = bs };
    }

-- Two buckets, the second of which holds 5.
abbrev small : Table
small = table_at 100 2 (unused ∷ record { has_set = true; invalid = false; node = pos 5 } ∷ [])

small-IsReady : IsReady small
small-IsReady = record {
  ready = refl;
  counted = refl;
  nonempty = omega arith;
  first = refl;
  last = refl;
}

abbrev empty_area : Area
empty_area = record { stored = small.head; buckets = unused ∷ unused ∷ [] }

initalize_by_cache_size_fits_example :
    (t : Table) × (initalize_by_node_count (new_table empty_area) 100 2 7 ≡ some (success, t))
    × (initalize_by_cache_size (new_table empty_area) 100 150 7 ≡ some (success, resized 150 t))
    × (t.buckets_end + bucket_size ≤ 250)
    × (250 < t.buckets_end + bucket_size + bucket_size)
initalize_by_cache_size_fits_example =
    initalize_by_cache_size_fits (new_table empty_area) 100 150 7 (omega arith)

abbrev fresh_table : Table
fresh_table = table_at 100 2 (unused ∷ unused ∷ [])

run_counts_nothing_example :
    (is_empty
        (table_at 100 2 (unused ∷ record { has_set = true; invalid = false; node = pos 9 } ∷ []))
      ≡ some true)
    × (get_indexed_node_count
          (table_at 100 2 (unused ∷ record { has_set = true; invalid = false; node = pos 9 } ∷ []))
        ≡ some (pos 0))
unfolding run hash_value add
run_counts_nothing_example =
    run_counts_nothing fresh_table
      (table_at 100 2 (unused ∷ record { has_set = true; invalid = false; node = pos 9 } ∷ []))
      (adds (int_key (pos 3)) (pos 9) ∷ []) refl refl refl

mod_hash_iterator-Walks_example :
    Walks mod_hash_iterator small
      (map (λ b. b.node) small.buckets)
      (λ i. small.buckets_start + i * 36)
mod_hash_iterator-Walks_example = mod_hash_iterator-Walks small small-IsReady

-- A segment at the address 1000 that has just been set up.
abbrev pub cache : Manager
cache = record {
  start = 1000;
  mark = 1;
  table =
      by_section (table_at 1004 1 (replicate 1 unused)) (table_at 1104 100 (replicate 100 unused))
        (table_at 4768 100 (replicate 100 unused));
}

pub cache-AllReady : AllReady cache
cache-AllReady = elim [
  | net_io ↦ record {
    ready = refl;
    counted = refl;
    nonempty = omega arith;
    first = refl;
    last = refl;
  }
  | container_one ↦ record {
    ready = refl;
    counted = refl;
    nonempty = omega arith;
    first = refl;
    last = refl;
  }
  | container_two ↦ record {
    ready = refl;
    counted = refl;
    nonempty = omega arith;
    first = refl;
    last = refl;
  }
]

cache-IsRewound : (s : Section) → IsRewound (cache.table s)
cache-IsRewound = elim [
  | net_io ↦ (refl, refl)
  | container_one ↦ (refl, refl)
  | container_two ↦ (refl, refl)
]

cache-IsPlaced : IsPlaced cache
unfolding node_count
cache-IsPlaced = record {
  all_ready = cache-AllReady;
  counts = elim [ net_io ↦ refl | container_one ↦ refl | container_two ↦ refl ];
  net_io_at = refl;
  container_one_at = refl;
  container_two_at = refl;
  fits = omega arith;
}

print_all_twice_example :
    (m' : Manager) × (print_all cache
      ≡ some (
        by_section
            (nodes (cache.table net_io))
            (nodes (cache.table container_one))
            (nodes (cache.table container_two)),
        m',
      ))
    × ((s : Section) → (m'.table s).area ≡ (cache.table s).area)
    × (print_all m' ≡ some (by_section [] [] [], m'))
print_all_twice_example = print_all_twice cache cache-AllReady cache-IsRewound

restart_keeps_example :
    (m' : Manager) × (initalize true (some (segment cache)) 5000 8 ≡ some (success, some m'))
    × IsPlaced m'
    × ((k behind : Bytes) (w : ℤ) → get m' k behind w ≡ get cache k behind w)
restart_keeps_example = restart_keeps cache 5000 8 cache-IsPlaced

abbrev key_one : Bytes
key_one = codes "c1_7"

get-set_example :
    (set cache key_one [] (pos 3) >>= λ (c, m). get m key_one [] (pos 0)) ≡ some (success, pos 3)
unfolding section_of section_eq shares hash_value
get-set_example = get-set cache cache-AllReady key_one [] refl (pos 3) key_one [] (pos 0)

incr-set_example : incr cache key_one [] (pos 1) ≡ set cache key_one [] (pos 1)
unfolding section_of get find hash_value
incr-set_example = incr-set cache cache-AllReady key_one [] refl (pos 1) key_not_found (pos 0) refl

set_not_seen_example :
    (set cache key_one (49 ∷ []) (pos 3) >>= λ (c, m). get m key_one (50 ∷ []) (pos 0))
    ≡ get cache key_one (50 ∷ []) (pos 0)
unfolding section_of
set_not_seen_example =
    set_not_seen cache container_one key_one 49 50 (pos 3) (pos 0) cache-AllReady refl refl
      (omega arith) refl (omega arith) (omega arith) (omega arith)

write_all_refines_example :
    (t' : Table) × (write_all mod_hash small
        (adding (int_key (pos 4)) (pos 9) ∷ deleting (int_key (pos 3)) ∷ [])
      ≡ some t')
    × IsReady t'
    × ((k : Key) (node : ℤ)
        → (r : ℤ × ℤ) × (find t' k node ≡ some r)
          × Answers
              (perform_all
                (number 2)
                (adding (int_key (pos 4)) (pos 9) ∷ deleting (int_key (pos 3)) ∷ [])
                (view_of 2 small)
                (class_of (number 2) k))
              node
              r)
write_all_refines_example =
    write_all_refines 2 small (adding (int_key (pos 4)) (pos 9) ∷ deleting (int_key (pos 3)) ∷ [])
      small-IsReady refl
