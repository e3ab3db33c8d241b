-- ===== src/Cache/Hash/Bulk.antt =====
-- `Reset` and `FullFillValue` of netio/include/mod_hash_v1.h, which write every bucket.
use middlewar_test.Base.{
  ℕ, ◌+◌, ◌*◌, ◌≤◌, ◌≡◌, ◌≢◌, refl, ap, ◌∙◌, true, false, some, List, [], ◌∷◌, map, ==_iff, sym,
  ◌>>=◌, length, get_elem?, get_elem?-map, get_elem?-some, length-map, ℤ, arith,
}
use middlewar_test.Cache.Hash.{
  Key, Bucket, Table, success, wrong_fullfill_size, key_not_found, bucket_size, find, reset,
  reset_from, full_fill_value, fill_from,
}
use middlewar_test.Cache.Hash.Laws.{IsReady, slot, bucket_of, find_lem, Succeeds, slot_in_range}

abbrev pub invalidate : Bucket → Bucket
invalidate b = record b { invalid = true }

abbrev holding : ℤ → Bucket
holding v = record { has_set = true; invalid = false; node = v }

-- The loop reaches the last bucket and stops behind it.
reset_from-map :
    (bs : List Bucket) (p last : ℕ)
    → p + length bs * bucket_size ≤ last + bucket_size
    → reset_from p last bs ≡ map invalidate bs
unfolding reset_from
reset_from-map [] p last h = refl
reset_from-map (b ∷ bs) p last h = ground (arith, reset_from-map bs (p + bucket_size) last)

abbrev pub reset_table : Table → Table
reset_table t = record t { area = record t.area { buckets = map invalidate t.buckets } }

pub reset_lem : (t : Table) → IsReady t → reset t ≡ some (success, reset_table t)
unfolding reset
reset_lem t v = rw (
  v.ready,
  reset_from-map t.buckets t.buckets_start t.buckets_end
      (omega (arith, v.counted, v.last, v.nonempty)),
)

-- A table whose buckets are replaced by as many others is still ready.
replaced-IsReady :
    (t : Table) (bs : List Bucket)
    → length bs ≡ t.buck_nums
    → IsReady t
    → IsReady (record t { area = record t.area { buckets = bs } })
replaced-IsReady t bs e v = record {
  ready = v.ready;
  counted = e;
  nonempty = v.nonempty;
  first = v.first;
  last = v.last;
}

pub reset_table-IsReady : (t : Table) → IsReady t → IsReady (reset_table t)
reset_table-IsReady t v = replaced-IsReady t _ (length-map t.buckets invalidate ∙ v.counted) v

pub reset-IsReady : (t : Table) → IsReady t → Succeeds (reset t) IsReady
reset-IsReady t v = (reset_table t, reset_lem t v, reset_table-IsReady t v)

-- After `Reset` every lookup fails.
pub find-reset :
    (t : Table) (j : Key) (node : ℤ)
    → IsReady t
    → (reset t >>= λ (c, t'). find t' j node) ≡ some (key_not_found, node)
find-reset t j node v =
    let (b, e) = bucket_of t j v in
    rw (reset_lem t v) (
      find_lem (reset_table t) j node (invalidate b) (reset_table-IsReady t v)
        (get_elem?-map invalidate t.buckets (slot t j) e)
      ∙ ground arith)

fill_from-map :
    (bs : List Bucket) (vs : List ℤ) → length bs ≡ length vs → fill_from bs vs ≡ map holding vs
unfolding fill_from
fill_from-map [] [] h = refl
fill_from-map [] (v ∷ vs) h = absurd (omega arith)
fill_from-map (b ∷ bs) [] h = absurd (omega arith)
fill_from-map (b ∷ bs) (v ∷ vs) h = ap (◌∷◌ (holding v)) (fill_from-map bs vs (omega arith))

abbrev filled_table : Table → List ℤ → Table
filled_table t vs = record t { area = record t.area { buckets = map holding vs } }

fill_lem :
    (t : Table) (vs : List ℤ)
    → IsReady t
    → length vs ≡ t.buck_nums
    → full_fill_value t vs ≡ some (success, filled_table t vs)
unfolding full_fill_value
fill_lem t vs v e = rw (v.ready, (==_iff _ _).1 e, fill_from-map t.buckets vs (v.counted ∙ sym e))

filled_table-IsReady :
    (t : Table) (vs : List ℤ) → IsReady t → length vs ≡ t.buck_nums → IsReady (filled_table t vs)
filled_table-IsReady t vs v e = replaced-IsReady t _ (length-map vs holding ∙ e) v

pub fill-IsReady :
    (t : Table) (vs : List ℤ)
    → IsReady t
    → length vs ≡ t.buck_nums
    → Succeeds (full_fill_value t vs) IsReady
fill-IsReady t vs v e = (filled_table t vs, fill_lem t vs v e, filled_table-IsReady t vs v e)

pub full_fill_value_refused :
    (t : Table) (vs : List ℤ)
    → IsReady t
    → length vs ≢ t.buck_nums
    → full_fill_value t vs ≡ some (wrong_fullfill_size, t)
unfolding full_fill_value
full_fill_value_refused t vs v h = ground (arith, v.ready)

-- If as many values as buckets are filled in, a lookup finds the value at the number of the key's
-- bucket.
pub find-fill :
    (t : Table) (vs : List ℤ) (j : Key) (node : ℤ)
    → IsReady t
    → length vs ≡ t.buck_nums
    → (n : ℤ) × (get_elem? vs (slot t j) ≡ some n)
      × ((full_fill_value t vs >>= λ (c, t'). find t' j node) ≡ some (success, n))
find-fill t vs j node v e =
    let (n, f) = get_elem?-some vs (slot t j) (rw e (slot_in_range t j v)) in
    (
      n,
      f,
      rw (fill_lem t vs v e) (
          find_lem (filled_table t vs) j node (holding n) (filled_table-IsReady t vs v e)
            (get_elem?-map holding vs (slot t j) f)),
    )
