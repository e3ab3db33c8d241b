-- ===== src/Cache/Manager/Restart.antt =====
-- `CCacheManager::Initalize` of netio/src/cache_manager.cpp: where the three tables lie in the
-- segment, and what a process that starts later finds there.
use middlewar_test.Base.{
  ℕ, ◌+◌, ◌≤◌, ◌≡◌, refl, sym, ◌∙◌, true, some, Bytes, length, ℤ, inl, inr, Option-cases, arith,
}
use middlewar_test.Cache.Hash.{
  Key, text, Table, success, bucket_size, find, get_total_size, new_table, initalize_by_node_count,
}
use middlewar_test.Cache.Hash.Laws.{IsReady, bucket_of, find_lem}
use middlewar_test.Cache.Manager.{
  Section, net_io, container_one, container_two, Segment, Manager, cache_size, node_count,
  place_tables, initalize, segment, section_of, get,
}
use middlewar_test.Cache.Manager.Laws.{AllReady}

-- The tables are ready, of the sizes that the source gives them, each behind the one before it.
pub record IsPlaced (m : Manager) : Type 0 where
  pub all_ready : AllReady m
  pub counts : (s : Section) → (m.table s).buck_nums ≡ node_count s
  pub net_io_at : (m.table net_io).cache ≡ m.start + 4
  pub container_one_at : (m.table container_one).cache ≡ (m.table net_io).buckets_end + bucket_size
  pub container_two_at :
      (m.table container_two).cache ≡ (m.table container_one).buckets_end + bucket_size
  pub fits : (m.table container_two).buckets_end + bucket_size ≤ m.start + cache_size

-- The segment has the buckets of each table.
abbrev pub HasRoom : Segment → Type 0
HasRoom g = (s : Section) → length (g.area s).buckets ≡ node_count s

-- `Initalize` over a segment succeeds, whether it was used before or not: the tables lie one behind
-- the other and within the segment's size, and every bucket holds what it held.
pub initalize-IsPlaced :
    (g : Segment) (base now : ℕ)
    → HasRoom g
    → (m : Manager) × (initalize true (some g) base now ≡ some (success, some m))
      × IsPlaced m
      × ((s : Section) → (m.table s).buckets ≡ (g.area s).buckets)
unfolding initalize place_tables node_count initalize_by_node_count get_total_size new_table
initalize-IsPlaced g base now room = (
  _,
  refl,
  record {
    all_ready = elim [
      | net_io ↦ record {
        ready = refl;
        counted = room net_io;
        nonempty = omega arith;
        first = refl;
        last = omega arith;
      }
      | container_one ↦ record {
        ready = refl;
        counted = room container_one;
        nonempty = omega arith;
        first = refl;
        last = omega arith;
      }
      | container_two ↦ record {
        ready = refl;
        counted = room container_two;
        nonempty = omega arith;
        first = refl;
        last = omega arith;
      }
    ];
    counts = elim [ net_io ↦ refl | container_one ↦ refl | container_two ↦ refl ];
    net_io_at = refl;
    container_one_at = omega arith;
    container_two_at = omega arith;
    fits = omega arith;
  },
  elim [ net_io ↦ refl | container_one ↦ refl | container_two ↦ refl ],
)

-- Lookups depend on the number of buckets and on what they hold.
find_same :
    (t u : Table) (k : Key) (w : ℤ)
    → IsReady t
    → IsReady u
    → t.buck_nums ≡ u.buck_nums
    → t.buckets ≡ u.buckets
    → find t k w ≡ find u k w
find_same t u k w vt vu en eb =
    let (b, e) = bucket_of t k vt in
    find_lem t k w b vt e ∙ sym (find_lem u k w b vu (rw (← eb, ← en) e))

pub get_same :
    (m m' : Manager)
    → IsPlaced m
    → IsPlaced m'
    → ((s : Section) → (m'.table s).buckets ≡ (m.table s).buckets)
    → (k behind : Bytes) (w : ℤ) → get m' k behind w ≡ get m k behind w
unfolding get
get_same m m' p q same k behind w = elim (Option-cases (section_of k)) [
  | inl e ↦ rw (e, get)
  | inr (s, e) ↦
      rw (e, get)
        (find_same (m'.table s) (m.table s) (text k behind) w (q.all_ready s) (p.all_ready s)
          (q.counts s ∙ sym (p.counts s)) (same s))
]

-- A process that starts on the segment that another left, at whatever address, reads the value that
-- the other would have read under every key: setting a table up over an area keeps what is stored
-- there, though the interface's comment says that it is lost.
pub restart_keeps :
    (m : Manager) (base now : ℕ)
    → IsPlaced m
    → (m' : Manager) × (initalize true (some (segment m)) base now ≡ some (success, some m'))
      × IsPlaced m'
      × ((k behind : Bytes) (w : ℤ) → get m' k behind w ≡ get m k behind w)
restart_keeps m base now p =
    let (m', e, q, same) =
      initalize-IsPlaced (segment m) base now (λ s. (p.all_ready s).counted ∙ p.counts s) in
    (m', e, q, get_same m m' p q same)
