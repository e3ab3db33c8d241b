-- ===== src/Reactor/Sane.antt =====
-- What always holds of `CReactor` (netio/src/reactor.cpp), whatever the system calls answer.
use middlewar_test.Base.{
  ℕ, ◌+◌, ◌-◌, ◌<◌, ◌≡◌, refl, sym, subst, ◌∙◌, Bool, true, false, Option, none, some, List, [],
  ◌∷◌, ◌++◌, Bytes, ◌==◌, ltb, length, length-append, Bool-cases, inl, inr, arith,
}
use middlewar_test.Reactor.{
  EventFlag, SockItem, ctl_add, ctl_del, closed, Ctl, Reactor, max_epoll_event_num, new_reactor,
  is_none, watches, erase_fd, take_item, set_sock, watch, add_to_watch_list, remove_from_watch_list,
}
use middlewar_test.Reactor.Watch.{
  Distinct, after_op, registered, registered_last, watches-snoc, Distinct-snoc, watches-erase,
  Distinct-erase, length-erase, add_cases,
}

-- Each descriptor stands once in the list, within the table of sockets, and the count is the length of
-- the list; what the kernel watches stands in the list.
pub record Covers (fds : List ℕ) (events : ℕ) (ctls : List Ctl) : Type 0 where
  pub counted : events ≡ length fds
  pub distinct : Distinct fds
  pub near : (fd : ℕ) → watches fd fds ≡ true → fd < max_epoll_event_num
  pub covered : (fd : ℕ) → registered fd false ctls ≡ true → watches fd fds ≡ true

-- An item that has not been reset has the descriptor of its place.
abbrev pub AreNamed : (ℕ → SockItem) → Type 0
AreNamed socks = (n : ℕ) → is_none (socks n).flag ≡ false → (socks n).fd ≡ n

pub record IsSane (r : Reactor) : Type 0 where
  pub covers : Covers r.fds r.events r.ctls
  pub named : AreNamed r.socks

module _ {fds : List ℕ} {events : ℕ} {ctls : List Ctl} (v : Covers fds events ctls) (fd : ℕ) where
  Covers-add :
      (w : Bool)
      → fd < max_epoll_event_num
      → watches fd fds ≡ false
      → Covers
          (fds ++ fd ∷ [])
          (events + 1)
          (ctls ++ record { op = ctl_add; ctl_fd = fd; for_write = w } ∷ [])
  Covers-add w n h = record {
    counted = omega (arith, v.counted, length-append fds (fd ∷ []));
    distinct = Distinct-snoc fds fd h v.distinct;
    near = λ y e. ground (arith, watches-snoc y fd fds, v.near y);
    covered = λ y e. ground (
      arith,
      watches-snoc y fd fds,
      v.covered y,
      registered_last y false ctls (record { op = ctl_add; ctl_fd = fd; for_write = w }),
    );
  }

  -- Any call that takes no descriptor into the kernel's set, with the list as it is.
  Covers-call :
      (c : Ctl)
      → ((y : ℕ)
          → after_op c.op (c.ctl_fd == y) (registered y false ctls) ≡ true
          → registered y false ctls ≡ true)
      → Covers fds events (ctls ++ c ∷ [])
  Covers-call c h = record {
    counted = v.counted;
    distinct = v.distinct;
    near = v.near;
    covered = λ y e. v.covered y (h y (sym (registered_last y false ctls c) ∙ e));
  }

  Covers-del :
      (w : Bool)
      → watches fd fds ≡ true
      → Covers
          (erase_fd fd fds)
          (events - 1)
          (ctls ++ record { op = ctl_del; ctl_fd = fd; for_write = w } ∷ [])
  Covers-del w h = record {
    counted = omega (arith, v.counted, length-erase fd fds h);
    distinct = Distinct-erase fd fds v.distinct;
    near = λ y e. ground (arith, watches-erase fd y fds v.distinct, v.near y);
    covered = λ y e. ground (
      arith,
      watches-erase fd y fds v.distinct,
      v.covered y,
      registered_last y false ctls (record { op = ctl_del; ctl_fd = fd; for_write = w }),
    );
  }

pub new_reactor-IsSane : (memory : ℕ → Bytes) → IsSane (new_reactor memory)
unfolding new_reactor watches registered is_none
new_reactor-IsSane memory = record {
  covers = record { counted = refl; distinct = tt; near = λ fd e. cc; covered = λ fd e. cc };
  named = λ n e. cc;
}

pub set_sock-IsSane :
    (r : Reactor) (fd : ℕ) (i : SockItem)
    → (is_none i.flag ≡ false → i.fd ≡ fd)
    → IsSane r
    → IsSane (set_sock r fd i)
unfolding set_sock
set_sock-IsSane r fd i h v = record {
  covers = v.covers;
  named = λ n e. elim (Bool-cases (fd == n)) [
    | inl same ↦ ground (arith, h)
    | inr other ↦ ground (arith, v.named n)
  ];
}

take_item-IsSane :
    (r : Reactor) (fd : ℕ) (i : Option SockItem) → IsSane r → IsSane (take_item r fd i)
unfolding take_item
take_item-IsSane r fd none v = v
take_item-IsSane r fd (some i) v = set_sock-IsSane r fd (record i { fd = fd }) (λ e. refl) v

watch-IsSane :
    (r : Reactor) (fd : ℕ) (todo : EventFlag) (i : Option SockItem) (ok : Bool)
    → fd < max_epoll_event_num
    → IsSane r
    → IsSane (watch r fd todo i ok).1
unfolding watch take_item set_sock
watch-IsSane r fd todo i false n v = take_item-IsSane r fd i v
watch-IsSane r fd todo none true n v = elim (Bool-cases (watches fd r.fds)) [
  | inl h ↦ rw h (record { covers = Covers-call v.covers fd _ (λ y e. e); named = v.named })
  | inr h ↦ rw h (record { covers = Covers-add v.covers fd _ n h; named = v.named })
]
watch-IsSane r fd todo (some i) true n v =
    let names = (take_item-IsSane r fd (some i) v).named in
    elim (Bool-cases (watches fd r.fds)) [
      | inl h ↦ rw h (record { covers = Covers-call v.covers fd _ (λ y e. e); named = names })
      | inr h ↦ rw h (record { covers = Covers-add v.covers fd _ n h; named = names })
    ]

near_enough :
    (ntoa : ℕ → Bytes) (r : Reactor) (fd : ℕ) (todo : EventFlag) (i : Option SockItem)
    (check ok : Bool) {c : ℕ} {r' : Reactor}
    → add_to_watch_list ntoa r fd todo i check ok ≡ some (c, r')
    → fd < max_epoll_event_num
unfolding add_to_watch_list
near_enough ntoa r fd todo i check ok e = elim (Bool-cases (ltb fd max_epoll_event_num)) [
  | inl near ↦ ground arith
  | inr far ↦ cc
]

pub add_to_watch_list-IsSane :
    (ntoa : ℕ → Bytes) (r : Reactor) (fd : ℕ) (todo : EventFlag) (i : Option SockItem)
    (check ok : Bool) {c : ℕ} {r' : Reactor}
    → IsSane r
    → add_to_watch_list ntoa r fd todo i check ok ≡ some (c, r')
    → IsSane r'
add_to_watch_list-IsSane ntoa r fd todo i check ok v e =
    elim (add_cases ntoa r fd todo i check ok e) [
      | inl same ↦ subst IsSane same v
      | inr seen ↦
          subst IsSane seen
            (watch-IsSane r fd todo i ok (near_enough ntoa r fd todo i check ok e) v)
    ]

pub remove_from_watch_list-IsSane :
    (r : Reactor) (fd : ℕ) (ok : Bool) → IsSane r → IsSane (remove_from_watch_list r fd ok).1
unfolding remove_from_watch_list
remove_from_watch_list-IsSane r fd false v = v
remove_from_watch_list-IsSane r fd true v = elim (Bool-cases (watches fd r.fds)) [
  | inl h ↦ rw h (record { covers = Covers-del v.covers fd false h; named = v.named })
  | inr h ↦
      rw h (record { covers = Covers-call v.covers fd _ (λ y e. ground arith); named = v.named })
]

-- A call that the list does not follow, such as `close`, takes descriptors out of the kernel's set only.
pub closed-IsSane :
    (r : Reactor) (fd : ℕ) (w : Bool)
    → IsSane r
    → IsSane (record r { ctls = r.ctls ++ record { op = closed; ctl_fd = fd; for_write = w } ∷ [] })
closed-IsSane r fd w v = record {
  covers = Covers-call v.covers fd _ (λ y e. ground arith);
  named = v.named;
}
