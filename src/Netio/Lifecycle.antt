-- ===== src/Netio/Lifecycle.antt =====
-- The life of a connection in the front process (netio/src/tcp_net_handler.cpp,
-- netio/src/reactor.cpp): what is watched after it is accepted, closed, or lost.
use middlewar_test.Base.{
  ℕ, ◌≡◌, refl, sym, ap, subst, ◌∙◌, Bool, true, false, ◌||◌, ◌&&◌, ◌==◌, if◌then◌else◌, none, some,
  List, [], ◌∷◌, Bytes, bind_some, ℤ, arith,
}
use middlewar_test.Queue.{Ipc}
use middlewar_test.Reactor.{
  EventFlag, udp_read, udp_send, tcp_server_read, SockAddr, SockItem, reset_item, closed, Reactor,
  watches, is_none, set_sock, add_to_watch_list,
}
use middlewar_test.Reactor.Watch.{
  IsMirrored, Mirrors-closed, registered, registered_last, add_to_watch_list-IsMirrored,
  remove_from_watch_list-IsMirrored, socks-remove, watches-remove,
}
use middlewar_test.Netio.{
  Netio, Accepted, conn, again, accept_error, Event, close_fd, do_conn, do_close, tcp_handle,
  process_one, not_flag,
}

abbrev unset : Reactor → ℕ → Reactor
unset r fd = set_sock r fd (reset_item (r.socks fd))

unset-IsMirrored : (r : Reactor) (fd : ℕ) → IsMirrored r → IsMirrored (unset r fd)
unfolding set_sock
unset-IsMirrored r fd v = v

close_listed :
    (r : Reactor) (fd y : ℕ) (ok : Bool)
    → IsMirrored r
    → watches y (do_close r fd ok).fds ≡ (if ok && fd == y then false else watches y r.fds)
unfolding do_close close_fd set_sock
close_listed r fd y ok v = watches-remove (unset r fd) fd y ok (unset-IsMirrored r fd v)

close_registered :
    (r : Reactor) (fd y : ℕ) (ok : Bool)
    → IsMirrored r
    → registered y false (do_close r fd ok).ctls ≡ (if fd == y then false else watches y r.fds)
unfolding do_close close_fd set_sock
close_registered r fd y ok v =
    let w = unset-IsMirrored r fd v in
    let (kept, gone) = remove_from_watch_list-IsMirrored (unset r fd) fd ok w in
    let listed = watches-remove (unset r fd) fd y ok w in
    registered_last y false _ (record { op = closed; ctl_fd = fd; for_write = false })
    ∙ ap (λ b. if fd == y then false else b) (sym (kept.mirrored y) ∙ listed)
    ∙ without (fd == y) ok (watches y r.fds)
  where
    without :
        (a b c : Bool)
        → (if a then false else (if b && a then false else c)) ≡ (if a then false else c)
    without true b c = refl
    without false true c = refl
    without false false c = refl

close_reset : (r : Reactor) (fd : ℕ) (ok : Bool) → is_none ((do_close r fd ok).socks fd).flag ≡ true
unfolding do_close close_fd
close_reset r fd ok =
    rw (socks-remove (unset r fd) fd fd ok) (unfold set_sock reset_item is_none in ground arith)

-- `DoClose`, if the list was what the kernel watches: where the call of `epoll_ctl` succeeds it is so
-- afterwards. Whether it succeeds or not, the kernel watches all but the descriptor, for that is closed;
-- the list has all but the descriptor if it succeeds, and is as it was if it fails; and the item of the
-- descriptor is reset, so that a response that comes later is dropped.
pub do_close-IsMirrored :
    (r : Reactor) (fd : ℕ)
    → IsMirrored r
    → IsMirrored (do_close r fd true)
      × ((ok : Bool) (y : ℕ)
          → (registered y false (do_close r fd ok).ctls
              ≡ (if fd == y then false else watches y r.fds))
            × (watches y (do_close r fd ok).fds
                ≡ (if ok && fd == y then false else watches y r.fds)))
      × ((ok : Bool) → is_none ((do_close r fd ok).socks fd).flag ≡ true)
unfolding do_close close_fd
do_close-IsMirrored r fd v =
    let w = unset-IsMirrored r fd v in
    let (kept, gone) = remove_from_watch_list-IsMirrored (unset r fd) fd true w in
    (
      Mirrors-closed kept fd false gone,
      λ ok y. (close_registered r fd y ok v, close_listed r fd y ok v),
      λ ok. close_reset r fd ok,
    )

abbrev new_item : ℕ → SockAddr → SockItem
new_item fd addr = record { fd = fd; flag = tcp_server_read; sock_addr = addr }

-- Each new descriptor is made non-blocking without an error.
abbrev pub AllSettable : List Accepted → Type 0
AllSettable [] = Unit
AllSettable (conn fd addr getfl_ok setfl_ok ctl_ok ∷ more) =
    (getfl_ok ≡ true) × (setfl_ok ≡ true) × AllSettable more
AllSettable (again ∷ more) = Unit
AllSettable (accept_error ∷ more) = Unit

set_sock-IsMirrored :
    (r : Reactor) (fd : ℕ) (i : SockItem) → IsMirrored r → IsMirrored (set_sock r fd i)
unfolding set_sock
set_sock-IsMirrored r fd i v = v

-- Whatever connections are accepted, and whatever epoll answers, `DoConn` keeps the list and the
-- kernel's set the same, provided that `fcntl` does not fail.
pub do_conn-IsMirrored :
    (ntoa : ℕ → Bytes) (r : Reactor) (answers : List Accepted) {c : ℤ} {r' : Reactor}
    → AllSettable answers
    → IsMirrored r
    → do_conn ntoa r answers ≡ some (c, r')
    → IsMirrored r'
unfolding do_conn
do_conn-IsMirrored ntoa r [] {r' = r'} h v e =
    let same : r ≡ r' = ground arith in subst IsMirrored same v
do_conn-IsMirrored ntoa r (again ∷ more) {r' = r'} h v e =
    let same : r ≡ r' = ground arith in subst IsMirrored same v
do_conn-IsMirrored ntoa r (accept_error ∷ more) {r' = r'} h v e =
    let same : r ≡ r' = ground arith in subst IsMirrored same v
do_conn-IsMirrored ntoa r (conn fd addr true true ok ∷ more) (_, _, h) v e =
    let ((c, r1), f, g) =
      bind_some
        (add_to_watch_list ntoa (set_sock r fd (new_item fd addr)) fd tcp_server_read none true ok)
        (λ (c, r1). do_conn ntoa r1 more) e in
    do_conn-IsMirrored ntoa r1 more h
      (add_to_watch_list-IsMirrored ntoa (set_sock r fd (new_item fd addr)) fd tcp_server_read none
        true ok (set_sock-IsMirrored r fd (new_item fd addr) v) f)
      g
do_conn-IsMirrored ntoa r (conn fd addr true false ok ∷ more) (_, h, _) v e = cc
do_conn-IsMirrored ntoa r (conn fd addr false s ok ∷ more) (h, _, _) v e = cc

test_passes : (f : EventFlag) → (not_flag f udp_read || not_flag f udp_send) ≡ true
unfolding not_flag
test_passes udp_read = refl
test_passes _ = ground arith

-- An event with `EPOLLRDHUP` closes the descriptor of its item by the handler of connections,
-- whatever the item is: the test that is meant to spare the datagram socket always passes.
pub rdhup_closes :
    (ipc : Ipc) (ntoa : ℕ → Bytes) (inet_addr : Bytes → ℕ) (s : Netio (ipc.Kernel)) (e : Event)
    → e.rdhup ≡ true
    → process_one ipc ntoa inet_addr s e
      ≡ some (record s { reactor = do_close s.reactor (s.reactor.socks e.sock).fd e.ctl_ok })
unfolding process_one tcp_handle
rdhup_closes ipc ntoa inet_addr s e h = ground (arith, h, test_passes (s.reactor.socks e.sock).flag)
