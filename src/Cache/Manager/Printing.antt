-- ===== src/Cache/Manager/Printing.antt =====
-- `PrintAll` of netio/src/cache_manager.cpp, called twice.
use middlewar_test.Base.{◌≡◌, refl, bind_to, some, List, [], ℤ}
use middlewar_test.Cache.Hash.{Table}
use middlewar_test.Cache.Hash.Walk.{IsRewound, nodes, print_table, print_table_twice}
use middlewar_test.Cache.Manager.{
  net_io, container_one, container_two, Section, Manager, by_section, print_all,
}
use middlewar_test.Cache.Manager.Laws.{AllReady}

-- The three loops make of the tables what each makes of its own.
print_all-three :
    (m : Manager) {xs ys zs : List ℤ} {x y z : Table}
    → print_table (m.table net_io) ≡ some (xs, x)
    → print_table (m.table container_one) ≡ some (ys, y)
    → print_table (m.table container_two) ≡ some (zs, z)
    → print_all m ≡ some (by_section xs ys zs, record m { table = by_section x y z })
unfolding print_all
print_all-three m a b c = bind_to _ a (bind_to _ b (bind_to _ c refl))

-- Over three ready tables whose iterators are rewound, the first `PrintAll` prints the nodes of every
-- table, those of all its buckets in order, and writes to none. It leaves each table's own iterator
-- behind the last bucket, so a second one prints nothing of any table and leaves them as they are.
pub print_all_twice :
    (m : Manager)
    → AllReady m
    → ((s : Section) → IsRewound (m.table s))
    → (m' : Manager) × (print_all m
        ≡ some (
          by_section
              (nodes (m.table net_io))
              (nodes (m.table container_one))
              (nodes (m.table container_two)),
          m',
        ))
      × ((s : Section) → (m'.table s).area ≡ (m.table s).area)
      × (print_all m' ≡ some (by_section [] [] [], m'))
print_all_twice m v h =
    let (x, first, kept, again) = print_table_twice (m.table net_io) (v net_io) (h net_io) in
    let (y, first_y, kept_y, again_y) =
      print_table_twice (m.table container_one) (v container_one) (h container_one) in
    let (z, first_z, kept_z, again_z) =
      print_table_twice (m.table container_two) (v container_two) (h container_two) in
    (
      record m { table = by_section x y z },
      print_all-three m first first_y first_z,
      elim [ net_io ↦ kept | container_one ↦ kept_y | container_two ↦ kept_z ],
      print_all-three (record m { table = by_section x y z }) again again_y again_z,
    )
