-- ===== src/Cache/Manager/Laws.antt =====
-- What `Get` returns after the other calls of netio/src/cache_manager.cpp.
use middlewar_test.Base.{
  ◌≡◌, refl, sym, ap, ◌∙◌, Bool, true, false, ◌&&◌, Option, none, some, Bytes, ◌==◌, if◌then◌else◌,
  ◌>>=◌, ℤ, pos, add_int, ◌==ℤ◌, inl, inr, Bool-cases, Option-cases,
}
use middlewar_test.Cache.Hash.{Key, text, Table, success, key_not_found, find, add, delete}
use middlewar_test.Cache.Hash.Laws.{
  IsReady, slot, bucket_of, find_lem, read_bucket, find-add, find-delete, add-IsReady,
  delete-IsReady,
}
use middlewar_test.Cache.Manager.{
  Section, net_io, container_one, container_two, Manager, failed, section_of, section_eq, put_table,
  on_table, set, delete_key, get, add_to, incr,
}

-- Each of the three tables is ready.
abbrev pub AllReady : Manager → Type 0
AllReady m = (s : Section) → IsReady (m.table s)

-- Whether a key leads to the bucket of the key `k` in the table `s`.
unfoldable pub shares : Manager → Section → Bytes → Bytes → Bytes → Bytes → Bool
shares m s k behind j behind_j = elim (section_of j) [
  | none ↦ false
  | some u ↦
      section_eq s u && slot (m.table s) (text k behind) == slot (m.table s) (text j behind_j)
]

section_eq-true : (s u : Section) → section_eq s u ≡ true → s ≡ u
unfolding section_eq
section_eq-true net_io net_io h = refl
section_eq-true container_one container_one h = refl
section_eq-true container_two container_two h = refl
section_eq-true net_io container_one h = cc
section_eq-true net_io container_two h = cc
section_eq-true container_one net_io h = cc
section_eq-true container_one container_two h = cc
section_eq-true container_two net_io h = cc
section_eq-true container_two container_one h = cc

on_table-none :
    (m : Manager) (k : Bytes) (f : Table → Option (ℤ × Table))
    → section_of k ≡ none
    → on_table m k f ≡ some (failed, m)
unfolding on_table
on_table-none m k f e = rw (e, on_table)

on_table-some :
    (m : Manager) (k : Bytes) (f : Table → Option (ℤ × Table)) {s : Section} {c : ℤ} {t : Table}
    → section_of k ≡ some s
    → f (m.table s) ≡ some (c, t)
    → on_table m k f ≡ some (c, put_table m s t)
unfolding on_table
on_table-some m k f e h = rw (e, h, on_table)

get_found :
    (m : Manager) (j behind : Bytes) (w : ℤ) {s : Section}
    → section_of j ≡ some s
    → get m j behind w ≡ find (m.table s) (text j behind) w
unfolding get
get_found m j behind w e = rw (e, get)

get_unknown :
    (m : Manager) (j behind : Bytes) (w : ℤ)
    → section_of j ≡ none
    → get m j behind w ≡ some (failed, w)
unfolding get
get_unknown m j behind w e = rw (e, get)

shares-none :
    (m : Manager) (s : Section) (k behind j behind_j : Bytes)
    → section_of j ≡ none
    → shares m s k behind j behind_j ≡ false
unfolding shares
shares-none m s k behind j behind_j e = rw (e, shares)

pub shares-some :
    (m : Manager) (s : Section) (k behind j behind_j : Bytes) {u : Section}
    → section_of j ≡ some u
    → shares m s k behind j behind_j
      ≡ (section_eq s u && slot (m.table s) (text k behind) == slot (m.table s) (text j behind_j))
unfolding shares
shares-some m s k behind j behind_j e = rw (e, shares)

-- A lookup after the table of `k` was replaced by one in which lookups give `r` at the bucket of
-- `k`, and are as before elsewhere.
get-put_table :
    (m : Manager) (s : Section) (t : Table) (k behind j behind_j : Bytes) (w : ℤ)
    (r : Option (ℤ × ℤ))
    → ((x : Key)
        → find t x w ≡ (
            if slot (m.table s) (text k behind) == slot (m.table s) x
            then r
            else find (m.table s) x w))
    → get (put_table m s t) j behind_j w
      ≡ (if shares m s k behind j behind_j then r else get m j behind_j w)
get-put_table m s t k behind j behind_j w r h = elim (Option-cases (section_of j)) [
  | inl e ↦
      rw (shares-none m s k behind j behind_j e)
        (get_unknown (put_table m s t) j behind_j w e ∙ sym (get_unknown m j behind_j w e))
  | inr (u, e) ↦
      rw
        (
          shares-some m s k behind j behind_j e,
          get_found (put_table m s t) j behind_j w e,
          get_found m j behind_j w e,
        )
        (in_table u)
]
  where
    in_table :
        (u : Section)
        → find ((put_table m s t).table u) (text j behind_j) w ≡ (
            if section_eq s u
              && slot (m.table s) (text k behind) == slot (m.table s) (text j behind_j)
            then r
            else find (m.table u) (text j behind_j) w)
    in_table u =
        unfold put_table in
        elim (Bool-cases (section_eq s u)) [
          | inl e ↦ rw e (
              h (text j behind_j)
              ∙ ap
                  (λ v.
                    if slot (m.table s) (text k behind) == slot (m.table s) (text j behind_j)
                    then r
                    else find (m.table v) (text j behind_j) w)
                  (section_eq-true s u e))
          | inr e ↦ rw e
        ]

module _ (m : Manager) (v : AllReady m) {s : Section} (k behind : Bytes)
    (e : section_of k ≡ some s) where
  put_table-AllReady : {t : Table} → IsReady t → AllReady (put_table m s t)
  unfolding put_table
  put_table-AllReady h u = elim (Bool-cases (section_eq s u)) [
    | inl f ↦ rw f h
    | inr f ↦ rw f (v u)
  ]

  -- After `Set` every key of the same table and bucket reads the new value, and `Get` of every other
  -- key returns what it did before.
  pub get-set :
      (n : ℤ) (j behind_j : Bytes) (w : ℤ)
      → (set m k behind n >>= λ (c, m'). get m' j behind_j w)
        ≡ (if shares m s k behind j behind_j then some (success, n) else get m j behind_j w)
  unfolding set
  get-set n j behind_j w =
      let (t, f, _) = add-IsReady (m.table s) (text k behind) n (v s) in
      rw (on_table-some m k (λ t. add t (text k behind) n) e f) (
        get-put_table m s t k behind j behind_j w _ (λ x.
          ap (λ r. r >>= λ (c, t'). find t' x w) (sym f)
          ∙ find-add (m.table s) (text k behind) x n w (v s)))

  -- After `Delete` every key of the same table and bucket is not found, and `Get` of every other
  -- key returns what it did before.
  pub get-delete_key :
      (j behind_j : Bytes) (w : ℤ)
      → (delete_key m k behind >>= λ (c, m'). get m' j behind_j w)
        ≡ (if shares m s k behind j behind_j then some (key_not_found, w) else get m j behind_j w)
  unfolding delete_key
  get-delete_key j behind_j w =
      let (t, f, _) = delete-IsReady (m.table s) (text k behind) (v s) in
      rw (on_table-some m k (λ t. delete t (text k behind)) e f) (
        get-put_table m s t k behind j behind_j w _ (λ x.
          ap (λ r. r >>= λ (c, t'). find t' x w) (sym f)
          ∙ find-delete (m.table s) (text k behind) x w (v s)))

  -- `Incr` is `Set` to the value that `Get` returns plus `n`, or to `n` where `Get` finds none.
  pub incr-set :
      (n c old : ℤ)
      → get m k behind (pos 0) ≡ some (c, old)
      → incr m k behind n ≡ set m k behind (if c ==ℤ success then add_int old n else n)
  unfolding incr set add_to
  incr-set n c old f =
      let (t, h, _) =
        add-IsReady (m.table s) (text k behind) (if c ==ℤ success then add_int old n else n)
          (v s) in
      on_table-some m k (λ t. add_to t (text k behind) n) e
        (rw (sym (get_found m k behind (pos 0) e) ∙ f) h)
      ∙ sym (
          on_table-some m k
            (λ t. add t (text k behind) (if c ==ℤ success then add_int old n else n)) e h)

  -- `Incr` of ready tables succeeds and leaves them ready.
  pub incr-AllReady : (n : ℤ) → (r : ℤ × Manager) × (incr m k behind n ≡ some r) × AllReady r.1
  unfolding set
  incr-AllReady n =
      let (b, f) = bucket_of (m.table s) (text k behind) (v s) in
      let (c, old) = read_bucket b (pos 0) in
      let g : get m k behind (pos 0) ≡ some (c, old) =
        get_found m k behind (pos 0) e ∙ find_lem (m.table s) (text k behind) (pos 0) b (v s) f in
      let value = if c ==ℤ success then add_int old n else n in
      let (t, h, w) = add-IsReady (m.table s) (text k behind) value (v s) in
      (
        _,
        incr-set n c old g ∙ on_table-some m k (λ t. add t (text k behind) value) e h,
        put_table-AllReady w,
      )

-- A key with none of the three prefixes: every call returns -1 and changes nothing.
pub unknown_prefix :
    (m : Manager) (k behind : Bytes) (n : ℤ)
    → section_of k ≡ none
    → (set m k behind n ≡ some (failed, m))
      × (delete_key m k behind ≡ some (failed, m))
      × (incr m k behind n ≡ some (failed, m))
      × (get m k behind n ≡ some (failed, n))
unfolding set delete_key incr
unknown_prefix m k behind n e = (
  on_table-none m k (λ t. add t (text k behind) n) e,
  on_table-none m k (λ t. delete t (text k behind)) e,
  on_table-none m k (λ t. add_to t (text k behind) n) e,
  get_unknown m k behind n e,
)
