-- ===== src/Cache/Index/Hashed.antt =====
-- `CModHashV1` (netio/include/mod_hash_v1.h) as an `IChunkedIndex`. Keys have the number of their
-- bucket.
use middlewar_test.Base.{
  ℕ, ◌%◌, ◌<◌, ◌≡◌, refl, ap, subst, ◌∙◌, Bool, true, false, not, ◌&&◌, Option, none, some, List,
  ◌==◌, if◌then◌else◌, ◌>>=◌, assert_that, Bytes, get_elem?, get_elem?-set, get_elem?-map, length,
  ℤ, pos, Bool-cases, inl, inr, arith,
}
use mathlib.Core.Path.{fun_ext}
use mathlib.Core.Quot
use middlewar_test.Cache.Hash.{
  Key, Bucket, Area, Table, success, head_size, bucket_size, hash_value, find, add, delete, reset,
  write_bucket, get_free_node_count, get_total_node_count, get_indexed_node_count, get_total_size,
  initalize_by_node_count, read_and_check_head,
}
use middlewar_test.Cache.Hash.Sized.{initalize_by_cache_size}
use middlewar_test.Cache.Hash.Laws.{
  IsReady, slot, slot-lt, bucket_of, find_lem, add_lem, delete_lem, write_bucket-IsReady,
  read_bucket,
}
use middlewar_test.Cache.Hash.Bulk.{reset_table, invalidate, reset_lem, reset_table-IsReady}
use middlewar_test.Cache.Index.{
  ChunkedIndex, Write, adding, deleting, resetting, class_of, number_of, View, perform, Answers,
  write, IsIndex, write_all, perform_all, history,
}

-- `DumpToFile` writes no file.
unfoldable pub dump_to_file : Table → Bytes → Option ℤ
dump_to_file t path = assert_that t.inited (some success)

unfoldable pub load_from_file : Table → Bytes → Option (ℤ × Table)
load_from_file t path = assert_that t.inited (some (success, t))

-- `LockKey` and `UnLockKey` lock nothing.
unfoldable pub lock_key : Table → Key → Option (ℤ × Table)
lock_key t k = assert_that t.inited (some (success, t))

unfoldable pub un_lock_key : Table → Key → Option (ℤ × Table)
un_lock_key t k = assert_that t.inited (some (success, t))

unfoldable pub begin : Table → Option ℕ
begin t = assert_that t.inited (some t.iterator_start)

unfoldable pub end : Table → Option ℕ
end t = assert_that t.inited (some t.iterator_end)

abbrev counted : Option ℕ → Option ℤ
counted r = do n ← r; some (pos n)

abbrev pub mod_hash : ChunkedIndex Key ℤ
mod_hash = record {
  State = Table;
  Memory = Area;
  find = find;
  get_free_node_count = λ t. counted (get_free_node_count t);
  get_total_node_count = λ t. counted (get_total_node_count t);
  get_indexed_node_count = get_indexed_node_count;
  get_total_size = λ t. counted (get_total_size t);
  get_unit_chunk_size = λ t. some (pos bucket_size);
  get_head_reserved_size = λ t. some (pos head_size);
  reset = reset;
  dump_to_file = dump_to_file;
  load_from_file = load_from_file;
  initalize_by_cache_size = initalize_by_cache_size;
  initalize_by_node_count = initalize_by_node_count;
  add = add;
  delete = delete;
  lock_key = lock_key;
  un_lock_key = un_lock_key;
  begin = begin;
  end = end;
  set_index_pointer = read_and_check_head;
}

-- What `Find` gives from a bucket, if it is there and set.
held : Option Bucket → Option ℤ
held none = none
held (some b) = if b.has_set && not b.invalid then some b.node else none

abbrev pub number : ℕ → Key → ℕ
number n k = hash_value k % n

unfoldable pub view_of : (n : ℕ) → Table → View (number n) ℤ
unfolding held
view_of n t =
    Quot.lift (hlevel) (λ k. held (get_elem? t.buckets (number n k)))
      (λ k j h. ap (λ i. held (get_elem? t.buckets i)) h)

-- A ready table of `n` buckets.
abbrev pub IsTable : ℕ → Table → Type 0
IsTable n t = IsReady t × (t.buck_nums ≡ n)

found_in : (b : Bucket) (node : ℤ) → Answers (held (some b)) node (read_bucket b node)
unfolding held
found_in b node = elim (Bool-cases (b.has_set && not b.invalid)) [
  | inl h ↦ rw h (refl, refl)
  | inr h ↦ rw h ((λ e. absurd (ground (arith, e))), refl)
]

find-view_of :
    (n : ℕ) (t : Table) (k : Key) (node : ℤ)
    → IsTable n t
    → (r : ℤ × ℤ) × (find t k node ≡ some r) × Answers (view_of n t (class_of (number n) k)) node r
unfolding view_of
find-view_of n t k node (v, e) =
    let (b, f) = bucket_of t k v in
    let g : get_elem? t.buckets (number n k) ≡ some b = rw (← e) f in
    (read_bucket b node, find_lem t k node b v f, rw g (found_in b node))

-- Two views are the same if they hold the same for every key.
View-ext :
    {K : Type 0} (num : K → ℕ) (f g : View num ℤ)
    → ((k : K) → f (class_of num k) ≡ g (class_of num k))
    → f ≡ g
View-ext num f g h = fun_ext (Quot.ind (λ d. hlevel) h)

held-if :
    (c : Bool) (x y : Option Bucket) → held (if c then x else y) ≡ (if c then held x else held y)
held-if true x y = refl
held-if false x y = refl

-- The view with other contents at one number.
abbrev patched : (n : ℕ) → ℕ → Option ℤ → View (number n) ℤ → View (number n) ℤ
patched n i o f d = if i == number_of (number n) d then o else f d

view_of-write :
    (n : ℕ) (t : Table) (i : ℕ) (b : Bucket)
    → i < length t.buckets
    → view_of n (write_bucket t i b) ≡ patched n i (held (some b)) (view_of n t)
unfolding view_of number_of write_bucket
view_of-write n t i b h = View-ext (number n) _ _ (λ k.
    rw (get_elem?-set t.buckets i (number n k) b h)
      (held-if (i == number n k) (some b) (get_elem? t.buckets (number n k))))

write_bucket-IsTable :
    (n : ℕ) (t : Table) (i : ℕ) (b : Bucket) → IsTable n t → IsTable n (write_bucket t i b)
unfolding write_bucket
write_bucket-IsTable n t i b (v, e) = (unfold write_bucket in write_bucket-IsReady t i b v, e)

held-unset : (b : Bucket) → held (some (record b { invalid = true })) ≡ none
unfolding held
held-unset b = ground arith

-- A write to the slot of a key, by the number of the key.
in_class :
    (n : ℕ) (t : Table) (k : Key) (o : Option ℤ)
    → t.buck_nums ≡ n
    → patched n (slot t k) o (view_of n t) ≡ patched n (number n k) o (view_of n t)
in_class n t k o e = ap (λ m. patched n (hash_value k % m) o (view_of n t)) e

view_of-reset_table :
    (n : ℕ) (t : Table)
    → IsTable n t
    → view_of n (reset_table t) ≡ perform (number n) resetting (view_of n t)
unfolding view_of perform
view_of-reset_table n t (v, e) = View-ext (number n) _ _ λ k.
    let (b, f) = bucket_of t k v in
    let g : get_elem? t.buckets (number n k) ≡ some b = rw (← e) f in
    rw (get_elem?-map invalidate t.buckets (number n k) g) (held-unset b)

written_to :
    (n : ℕ) (t : Table) (o : Write Key ℤ)
    → IsTable n t
    → (t' : Table) × (write mod_hash t o ≡ some (pos 0, t'))
      × IsTable n t'
      × (view_of n t' ≡ perform (number n) o (view_of n t))
unfolding write perform held
written_to n t (adding k x) (v, e) = (
  _,
  add_lem t k x v,
  write_bucket-IsTable n t _ _ (v, e),
  view_of-write n t (slot t k) _ (slot-lt t k v) ∙ in_class n t k (some x) e,
)
written_to n t (deleting k) (v, e) =
    let (b, f) = bucket_of t k v in
    (
      _,
      delete_lem t k b v f,
      write_bucket-IsTable n t _ _ (v, e),
      view_of-write n t (slot t k) _ (slot-lt t k v)
          ∙ ap (λ o. patched n (slot t k) o (view_of n t)) (held-unset b)
          ∙ in_class n t k none e,
    )
written_to n t resetting (v, e) =
    (reset_table t, reset_lem t v, (reset_table-IsReady t v, e), view_of-reset_table n t (v, e))

abbrev IsIndex-mod_hash : (n : ℕ) → IsIndex mod_hash (number n)
IsIndex-mod_hash n = record {
  IsValid = IsTable n;
  view = view_of n;
  found = find-view_of n;
  written = written_to n;
}

-- Any history of `Add`, `Delete` and `Reset` on a ready table succeeds, and lookups find afterwards
-- what the same history leaves in the view: a function of the keys up to their bucket, in which
-- `Add` sets a class of keys, `Delete` removes one and `Reset` removes all. A key found gives code 0
-- and its value, any other key another code and `indexNode` as it was.
pub write_all_refines :
    (n : ℕ) (t : Table) (os : List (Write Key ℤ))
    → IsReady t
    → t.buck_nums ≡ n
    → (t' : Table) × (write_all mod_hash t os ≡ some t')
      × IsReady t'
      × ((k : Key) (node : ℤ)
          → (r : ℤ × ℤ) × (find t' k node ≡ some r)
            × Answers (perform_all (number n) os (view_of n t) (class_of (number n) k)) node r)
write_all_refines n t os v e =
    let (t', f, (v', e'), p) = history mod_hash (number n) (IsIndex-mod_hash n) t os (v, e) in
    (
      t',
      f,
      v',
      λ k node.
          let (r, g, h) = find-view_of n t' k node (v', e') in
          (r, g, subst (λ u. Answers (u (class_of (number n) k)) node r) p h),
    )
