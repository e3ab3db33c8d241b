-- ===== src/Cache/Hash/Header.antt =====
-- The header of netio/include/mod_hash_v1.h: how it is set up, what is read back from the shared
-- memory, and the counts that it gives.
use middlewar_test.Base.{
  ℕ, ◌+◌, ◌*◌, ◌<◌, ◌≡◌, refl, ap, ◌∙◌, true, some, Option, List, [], ◌∷◌, ◌>>=◌, length, ℤ, pos,
  bind_some, arith,
}
use middlewar_test.Cache.Hash.{
  Key, Head, Area, Table, success, uninit_area, head_size, bucket_size, new_table,
  initalize_by_node_count, store_head, read_and_check_head, is_empty, get_indexed_node_count, add,
  delete, reset, full_fill_value, write_bucket,
}
use middlewar_test.Cache.Hash.Laws.{IsReady}

-- After `InitalizeByNodeCount` over memory with as many buckets: the table is ready, its buckets are
-- those that were there, and its header is the one in the shared memory.
pub initalize-IsReady :
    (a : Area) (p n now : ℕ)
    → 0 < n
    → length a.buckets ≡ n
    → (t : Table) × (initalize_by_node_count (new_table a) p n now ≡ some (success, t))
      × IsReady t
      × (t.buckets ≡ a.buckets)
      × (t.area.stored ≡ t.head)
      × (t.free_node_count ≡ n)
      × (t.total_size ≡ head_size + n * bucket_size)
unfolding initalize_by_node_count new_table store_head
initalize-IsReady a p n now h e = (
  _,
  refl,
  record { ready = refl; counted = e; nonempty = h; first = refl; last = omega arith },
  refl,
  refl,
  refl,
  omega arith,
)

-- A new object cannot be attached to memory that `InitalizeByNodeCount` has set up: the check of the
-- header returns 1001, for it holds the flag against the memory when it is set.
pub attach_refused :
    (a b : Area) (p n now : ℕ) {t : Table}
    → initalize_by_node_count (new_table a) p n now ≡ some (success, t)
    → read_and_check_head (new_table b) p t.area ≡ (uninit_area, new_table b)
unfolding initalize_by_node_count new_table store_head read_and_check_head
attach_refused a b p n now e = ground arith

-- The operations that write buckets.
pub data Op : Type 0 where
  adds : Key → ℤ → Op
  deletes : Key → Op
  resets : Op
  fills : List ℤ → Op

unfoldable pub apply : Table → Op → Option (ℤ × Table)
apply t (adds k v) = add t k v
apply t (deletes k) = delete t k
apply t resets = reset t
apply t (fills vs) = full_fill_value t vs

unfoldable pub run : Table → List Op → Option Table
unfolding apply
run t [] = some t
run t (o ∷ os) = do (c, t') ← apply t o; run t' os

apply-head : (t : Table) (o : Op) {c : ℤ} {t' : Table} → apply t o ≡ some (c, t') → t'.head ≡ t.head
unfolding apply add delete reset full_fill_value write_bucket
apply-head t (adds k v) e = ground arith
apply-head t (deletes k) e = ground arith
apply-head t resets e = ground arith
apply-head t (fills vs) e = ground arith

run-head : (t : Table) (os : List Op) {t' : Table} → run t os ≡ some t' → t'.head ≡ t.head
unfolding run
run-head t [] e = ground arith
run-head t (o ∷ os) e =
    let ((c, u), f, g) = bind_some (apply t o) (λ (c, u). run u os) e in
    run-head u os g ∙ apply-head t o f

-- No history of writes changes the count of free nodes: a table that was set up for `n` nodes
-- reports that it is empty and that no node is in use, whatever was added.
pub run_counts_nothing :
    (t t' : Table) (os : List Op)
    → t.inited ≡ true
    → t.free_node_count ≡ t.buck_nums
    → run t os ≡ some t'
    → (is_empty t' ≡ some true) × (get_indexed_node_count t' ≡ some (pos 0))
unfolding is_empty get_indexed_node_count
run_counts_nothing t t' os i f e =
    let h = run-head t os e in
    (
      ground (
        arith,
        ap (λ (d : Head). d.inited) h,
        ap (λ (d : Head). d.free_node_count) h,
        ap (λ (d : Head). d.buck_nums) h,
      ),
      ground (
        arith,
        ap (λ (d : Head). d.inited) h,
        ap (λ (d : Head). d.free_node_count) h,
        ap (λ (d : Head). d.buck_nums) h,
      ),
    )
