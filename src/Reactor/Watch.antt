-- ===== src/Reactor/Watch.antt =====
-- The list of watched descriptors in netio/src/reactor.cpp against the set that the kernel keeps.
use middlewar_test.Base.{
  ℕ, suc, ◌+◌, ◌-◌, ◌≡◌, refl, sym, ap, subst, ◌⊎◌, ◌∙◌, Bool, true, false, ◌&&◌, Option, none,
  some, List, [], ◌∷◌, ◌++◌, Bytes, ◌==◌, ltb, if◌then◌else◌, length, length-append, Bool-cases,
  inl, inr, arith,
}
use middlewar_test.Reactor.{
  EventFlag, SockItem, CtlOp, ctl_add, ctl_mod, ctl_del, closed, Ctl, Reactor, max_epoll_event_num,
  watches, erase_fd, take_item, set_sock, watch, sock_valid, add_to_watch_list,
  remove_from_watch_list,
}

-- Whether the kernel watches `fd` after a call, if it did so (`b`) before.
abbrev pub after_op : CtlOp → Bool → Bool → Bool
after_op ctl_add here b = if here then true else b
after_op ctl_mod here b = b
after_op ctl_del here b = if here then false else b
after_op closed here b = if here then false else b

unfoldable pub registered : ℕ → Bool → List Ctl → Bool
registered fd b [] = b
registered fd b (c ∷ cs) = registered fd (after_op c.op (c.ctl_fd == fd) b) cs

pub registered_last :
    (fd : ℕ) (b : Bool) (cs : List Ctl) (c : Ctl)
    → registered fd b (cs ++ c ∷ []) ≡ after_op c.op (c.ctl_fd == fd) (registered fd b cs)
unfolding registered
registered_last fd b [] c = refl
registered_last fd b (d ∷ cs) c = registered_last fd (after_op d.op (d.ctl_fd == fd) b) cs c

-- No descriptor stands twice.
abbrev pub Distinct : List ℕ → Type 0
Distinct [] = Unit
Distinct (x ∷ xs) = (watches x xs ≡ false) × Distinct xs

pub watches-snoc :
    (fd y : ℕ) (xs : List ℕ) → watches fd (xs ++ y ∷ []) ≡ (if y == fd then true else watches fd xs)
unfolding watches
watches-snoc fd y [] = ground arith
watches-snoc fd y (x ∷ xs) = ground (arith, watches-snoc fd y xs)

pub Distinct-snoc :
    (xs : List ℕ) (y : ℕ) → watches y xs ≡ false → Distinct xs → Distinct (xs ++ y ∷ [])
unfolding watches
Distinct-snoc [] y h d = (refl, tt)
Distinct-snoc (x ∷ xs) y h d =
    (ground (arith, watches-snoc x y xs), Distinct-snoc xs y (ground arith) d.1)

pub watches-erase :
    (fd y : ℕ) (xs : List ℕ)
    → Distinct xs
    → watches y (erase_fd fd xs) ≡ (if fd == y then false else watches y xs)
unfolding watches erase_fd
watches-erase fd y [] d = ground arith
watches-erase fd y (x ∷ xs) d = ground (arith, watches-erase fd y xs d.1)

pub Distinct-erase : (fd : ℕ) (xs : List ℕ) → Distinct xs → Distinct (erase_fd fd xs)
unfolding watches erase_fd
Distinct-erase fd [] d = tt
Distinct-erase fd (x ∷ xs) d = ground (arith, watches-erase fd x xs d.1, Distinct-erase fd xs d.1)

pub length-erase :
    (fd : ℕ) (xs : List ℕ) → watches fd xs ≡ true → suc (length (erase_fd fd xs)) ≡ length xs
unfolding watches erase_fd
length-erase fd [] h = cc
length-erase fd (x ∷ xs) h = ground (arith, length-erase fd xs)

-- The list is what the kernel watches, without repetition, and the count is its length.
pub record Mirrors (fds : List ℕ) (events : ℕ) (ctls : List Ctl) : Type 0 where
  pub counted : events ≡ length fds
  pub distinct : Distinct fds
  pub mirrored : (fd : ℕ) → watches fd fds ≡ registered fd false ctls

abbrev pub IsMirrored : Reactor → Type 0
IsMirrored r = Mirrors r.fds r.events r.ctls

module _ {fds : List ℕ} {events : ℕ} {ctls : List Ctl} (v : Mirrors fds events ctls) (fd : ℕ) where
  Mirrors-add :
      (w : Bool)
      → watches fd fds ≡ false
      → Mirrors
          (fds ++ fd ∷ [])
          (events + 1)
          (ctls ++ record { op = ctl_add; ctl_fd = fd; for_write = w } ∷ [])
  Mirrors-add w h = record {
    counted = omega (arith, v.counted, length-append fds (fd ∷ []));
    distinct = Distinct-snoc fds fd h v.distinct;
    mirrored = λ y.
        watches-snoc y fd fds
        ∙ ap (λ b. if fd == y then true else b) (v.mirrored y)
        ∙ sym (registered_last y false ctls (record { op = ctl_add; ctl_fd = fd; for_write = w }));
  }

  Mirrors-mod :
      (w : Bool)
      → Mirrors fds events (ctls ++ record { op = ctl_mod; ctl_fd = fd; for_write = w } ∷ [])
  Mirrors-mod w = record {
    counted = v.counted;
    distinct = v.distinct;
    mirrored = λ y.
        v.mirrored y
        ∙ sym (registered_last y false ctls (record { op = ctl_mod; ctl_fd = fd; for_write = w }));
  }

  Mirrors-del :
      (w : Bool)
      → watches fd fds ≡ true
      → Mirrors
          (erase_fd fd fds)
          (events - 1)
          (ctls ++ record { op = ctl_del; ctl_fd = fd; for_write = w } ∷ [])
  Mirrors-del w h = record {
    counted = omega (arith, v.counted, length-erase fd fds h);
    distinct = Distinct-erase fd fds v.distinct;
    mirrored = λ y.
        watches-erase fd y fds v.distinct
        ∙ ap (λ b. if fd == y then false else b) (v.mirrored y)
        ∙ sym (registered_last y false ctls (record { op = ctl_del; ctl_fd = fd; for_write = w }));
  }

  -- A descriptor that is not watched may be taken out of the kernel's set.
  Mirrors-absent :
      (w : Bool)
      → watches fd fds ≡ false
      → Mirrors fds events (ctls ++ record { op = ctl_del; ctl_fd = fd; for_write = w } ∷ [])
  Mirrors-absent w h = record {
    counted = v.counted;
    distinct = v.distinct;
    mirrored = λ y. ground (
      arith,
      v.mirrored y,
      v.mirrored fd,
      registered_last y false ctls (record { op = ctl_del; ctl_fd = fd; for_write = w }),
    );
  }

  pub Mirrors-closed :
      (w : Bool)
      → watches fd fds ≡ false
      → Mirrors fds events (ctls ++ record { op = closed; ctl_fd = fd; for_write = w } ∷ [])
  Mirrors-closed w h = record {
    counted = v.counted;
    distinct = v.distinct;
    mirrored = λ y. ground (
      arith,
      v.mirrored y,
      v.mirrored fd,
      registered_last y false ctls (record { op = closed; ctl_fd = fd; for_write = w }),
    );
  }

watch-IsMirrored :
    (r : Reactor) (fd : ℕ) (todo : EventFlag) (i : Option SockItem) (ok : Bool)
    → IsMirrored r
    → IsMirrored (watch r fd todo i ok).1
unfolding watch take_item set_sock
watch-IsMirrored r fd todo none false v = v
watch-IsMirrored r fd todo (some i) false v = v
watch-IsMirrored r fd todo none true v = elim (Bool-cases (watches fd r.fds)) [
  | inl h ↦ rw h (Mirrors-mod v fd _)
  | inr h ↦ rw h (Mirrors-add v fd _ h)
]
watch-IsMirrored r fd todo (some i) true v = elim (Bool-cases (watches fd r.fds)) [
  | inl h ↦ rw h (Mirrors-mod v fd _)
  | inr h ↦ rw h (Mirrors-add v fd _ h)
]

-- `AddToWatchList` leaves the reactor alone or goes on to watch the descriptor.
pub add_cases :
    (ntoa : ℕ → Bytes) (r : Reactor) (fd : ℕ) (todo : EventFlag) (i : Option SockItem)
    (check ok : Bool) {c : ℕ} {r' : Reactor}
    → add_to_watch_list ntoa r fd todo i check ok ≡ some (c, r')
    → (r ≡ r') ⊎ ((watch r fd todo i ok).1 ≡ r')
unfolding add_to_watch_list
add_cases ntoa r fd todo i check ok e = elim (Bool-cases (ltb fd max_epoll_event_num)) [
  | inr far ↦ cc
  | inl near ↦ elim (Bool-cases check) [
    | inr free ↦ inr (ground arith)
    | inl checked ↦ elim (Bool-cases (sock_valid ntoa r fd i)) [
      | inl good ↦ inr (ground arith)
      | inr bad ↦ inl (ground arith)
    ]
  ]
]

-- Whatever is asked and whatever epoll answers, `AddToWatchList` keeps the list and the kernel's set
-- the same.
pub add_to_watch_list-IsMirrored :
    (ntoa : ℕ → Bytes) (r : Reactor) (fd : ℕ) (todo : EventFlag) (i : Option SockItem)
    (check ok : Bool) {c : ℕ} {r' : Reactor}
    → IsMirrored r
    → add_to_watch_list ntoa r fd todo i check ok ≡ some (c, r')
    → IsMirrored r'
add_to_watch_list-IsMirrored ntoa r fd todo i check ok v e =
    elim (add_cases ntoa r fd todo i check ok e) [
      | inl same ↦ subst IsMirrored same v
      | inr seen ↦ subst IsMirrored seen (watch-IsMirrored r fd todo i ok v)
    ]

-- `RemoveFromWatchList` does so too; where epoll agrees, the descriptor is not watched afterwards.
pub remove_from_watch_list-IsMirrored :
    (r : Reactor) (fd : ℕ) (ok : Bool)
    → IsMirrored r
    → IsMirrored (remove_from_watch_list r fd ok).1
      × (watches fd (remove_from_watch_list r fd ok).1.fds
          ≡ (if ok then false else watches fd r.fds))
unfolding remove_from_watch_list
remove_from_watch_list-IsMirrored r fd false v = (v, refl)
remove_from_watch_list-IsMirrored r fd true v = elim (Bool-cases (watches fd r.fds)) [
  | inl h ↦ rw h (Mirrors-del v fd false h, ground (arith, watches-erase fd fd r.fds v.distinct))
  | inr h ↦ rw h (Mirrors-absent v fd false h, h)
]

-- What the list holds after it: where epoll agrees, all but the descriptor, and otherwise the same.
pub watches-remove :
    (r : Reactor) (fd y : ℕ) (ok : Bool)
    → IsMirrored r
    → watches y (remove_from_watch_list r fd ok).1.fds
      ≡ (if ok && fd == y then false else watches y r.fds)
unfolding remove_from_watch_list
watches-remove r fd y false v = refl
watches-remove r fd y true v = elim (Bool-cases (watches fd r.fds)) [
  | inl h ↦ rw h (watches-erase fd y r.fds v.distinct)
  | inr h ↦ rw h (ground (arith, h))
]

pub socks-remove :
    (r : Reactor) (fd n : ℕ) (ok : Bool) → (remove_from_watch_list r fd ok).1.socks n ≡ r.socks n
unfolding remove_from_watch_list
socks-remove r fd n ok = ground arith
