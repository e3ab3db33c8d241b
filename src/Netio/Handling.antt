-- ===== src/Netio/Handling.antt =====
-- The reactor's invariant over the handlers of a connection (netio/src/tcp_net_handler.cpp).
use middlewar_test.Base.{
  ◌&&◌, ℕ, ◌≡◌, refl, Bool, true, false, Option, none, List, [], ◌∷◌, Bytes, codes, ltb, length,
  Ensures, fault, result, >>=-Ensures, assert_that-Ensures, if-Ensures, Ensures-some, Option-cases,
  inl, inr, ℤ, pos,
}
use middlewar_test.Cache.Manager.{incr}
use middlewar_test.Command.{new_cmd, init_ccmd}
use middlewar_test.Queue.{Ipc, request, get_msg_queue, put_msg}
use middlewar_test.Queue.{is_terminated}
use middlewar_test.Reactor.{
  EventFlag, none_flag, tcp_client, tcp_server_accept, tcp_server_read, tcp_server_send,
  tcp_server_close, udp_read, udp_send, SockItem, reset_item, Reactor, is_none, set_sock,
  add_to_watch_list,
}
use middlewar_test.Reactor.Sane.{
  IsSane, set_sock-IsSane, add_to_watch_list-IsSane, remove_from_watch_list-IsSane, closed-IsSane,
}
use middlewar_test.Netio.{
  Netio, Accepted, conn, again, accept_error, Read, bytes, eof, read_error, Event, close_fd,
  do_conn, route, is_text, request_of, message, do_close, do_send, forward, do_recv, tcp_handle,
  udp_recv, udp_handle,
}

close_fd-IsSane : (r : Reactor) (fd : ℕ) → IsSane r → IsSane (close_fd r fd)
unfolding close_fd
close_fd-IsSane r fd v = closed-IsSane r fd false v

reset-IsSane : (r : Reactor) (fd : ℕ) → IsSane r → IsSane (set_sock r fd (reset_item (r.socks fd)))
reset-IsSane r fd v =
    set_sock-IsSane r fd (reset_item (r.socks fd)) (unfold reset_item is_none in λ e. cc) v

pub do_close-IsSane : (r : Reactor) (fd : ℕ) (ok : Bool) → IsSane r → IsSane (do_close r fd ok)
unfolding do_close
do_close-IsSane r fd ok v =
    close_fd-IsSane _ fd (remove_from_watch_list-IsSane _ fd ok (reset-IsSane r fd v))

-- The reactor of a state is sane.
abbrev pub IsKept : {K : Type 0} → Netio K → Type 0
IsKept s = IsSane s.reactor

add-Ensures :
    (ntoa : ℕ → Bytes) (r : Reactor) (fd : ℕ) (todo : EventFlag) (i : Option SockItem)
    (check ok : Bool)
    → IsSane r
    → Ensures (λ (a : ℕ × Reactor). IsSane a.1) (add_to_watch_list ntoa r fd todo i check ok)
add-Ensures ntoa r fd todo i check ok v =
    elim (Option-cases (add_to_watch_list ntoa r fd todo i check ok)) [
      | inl e ↦ rw e fault
      | inr ((c, r'), e) ↦ rw e (result (add_to_watch_list-IsSane ntoa r fd todo i check ok v e))
    ]

do_conn-IsSane :
    (ntoa : ℕ → Bytes) (r : Reactor) (answers : List Accepted)
    → IsSane r
    → Ensures (λ (a : ℤ × Reactor). IsSane a.1) (do_conn ntoa r answers)
unfolding do_conn
do_conn-IsSane ntoa r [] v = result v
do_conn-IsSane ntoa r (again ∷ more) v = result v
do_conn-IsSane ntoa r (accept_error ∷ more) v = result v
do_conn-IsSane ntoa r (conn fd addr true true ok ∷ more) v =
    let item : SockItem = record { fd = fd; flag = tcp_server_read; sock_addr = addr } in
    >>=-Ensures (add_to_watch_list ntoa (set_sock r fd item) fd tcp_server_read none true ok)
      λ (c, r1) e. do_conn-IsSane ntoa r1 more (
        add_to_watch_list-IsSane ntoa (set_sock r fd item) fd tcp_server_read none true ok
          (set_sock-IsSane r fd item (λ h. refl) v) e)
do_conn-IsSane ntoa r (conn fd addr true false ok ∷ more) v = result (close_fd-IsSane r fd v)
do_conn-IsSane ntoa r (conn fd addr false s ok ∷ more) v = result (close_fd-IsSane r fd v)

do_send-IsSane :
    {K : Type 0} (s : Netio K) (fd : ℕ) (ok : Bool) → IsKept s → Ensures IsKept (do_send s fd ok)
unfolding do_send
do_send-IsSane s fd ok v =
    if-Ensures (ltb fd 1024 && is_terminated (s.reactor.msgs fd))
      (result (do_close-IsSane s.reactor fd ok v)) fault

udp_recv-IsSane :
    {K : Type 0} (s : Netio K) (r : Read)
    → IsKept s
    → Ensures (λ (a : ℤ × Netio K). IsKept a.1) (udp_recv s r)
unfolding udp_recv
udp_recv-IsSane s (bytes text) v = if-Ensures (is_text text) (result v) fault
udp_recv-IsSane s eof v = result v
udp_recv-IsSane s read_error v = result v

pub udp_handle-IsSane :
    {K : Type 0} (s : Netio K) (e : Event)
    → IsKept s
    → Ensures (λ (a : ℤ × Netio K). IsKept a.1) (udp_handle s udp_read e)
unfolding udp_handle
udp_handle-IsSane s e v =
    >>=-Ensures (udp_recv s e.read)
      λ (c, s') f. result (Ensures-some (udp_recv-IsSane s e.read v) f)

module _ (ipc : Ipc) (ntoa : ℕ → Bytes) (inet_addr : Bytes → ℕ) where
  open ipc use {Kernel}

  forward-IsSane :
      (s : Netio Kernel) (fd : ℕ) (text : Bytes)
      → IsKept s
      → (s.reactor.socks fd).fd ≡ fd
      → Ensures (λ (a : ℤ × Netio Kernel). IsKept a.1) (forward ipc ntoa inet_addr s fd text)
  unfolding forward
  forward-IsSane s fd text v n =
      let c = init_ccmd new_cmd text in
      let m = message (request_of ntoa s.reactor fd c) in
      assert_that-Ensures _ (
        >>=-Ensures (route c.cmd) λ key e. >>=-Ensures (get_msg_queue s.queues key).1 λ q f.
          >>=-Ensures (put_msg ipc q request m (length m) s.kernel)
            λ (code, kernel') g. result (set_sock-IsSane s.reactor fd _ (λ h. n) v))

  do_recv-IsSane :
      (s : Netio Kernel) (fd : ℕ) (answer : Read) (behind : Bytes)
      → IsKept s
      → (s.reactor.socks fd).fd ≡ fd
      → Ensures
          (λ (a : ℤ × Netio Kernel). IsKept a.1)
          (do_recv ipc ntoa inet_addr s fd answer behind)
  unfolding do_recv
  do_recv-IsSane s fd eof behind v n =
      >>=-Ensures (incr s.cache (codes "netio_0") behind (pos 1))
        λ (c, cache') e. result (close_fd-IsSane s.reactor fd v)
  do_recv-IsSane s fd read_error behind v n =
      >>=-Ensures (incr s.cache (codes "netio_0") behind (pos 1))
        λ (c, cache') e. result (close_fd-IsSane s.reactor fd v)
  do_recv-IsSane s fd (bytes text) behind v n =
      >>=-Ensures (incr s.cache (codes "netio_0") behind (pos 1)) λ (c, cache') e.
        if-Ensures (is_text text) (forward-IsSane (record s { cache = cache' }) fd text v n) fault

  pub tcp_handle-IsSane :
      (s : Netio Kernel) (fd : ℕ) (flag : EventFlag) (e : Event)
      → IsKept s
      → (is_none flag ≡ false → (s.reactor.socks fd).fd ≡ fd)
      → Ensures IsKept (tcp_handle ipc ntoa inet_addr s fd flag e)
  unfolding tcp_handle is_none
  tcp_handle-IsSane s fd tcp_server_accept e v n =
      >>=-Ensures (do_conn ntoa s.reactor e.accepts)
        λ (c, r) f. result (Ensures-some (do_conn-IsSane ntoa s.reactor e.accepts v) f)
  tcp_handle-IsSane s fd tcp_server_read e v n =
      >>=-Ensures (do_recv ipc ntoa inet_addr s fd e.read e.behind)
        λ (c, s') f. result (Ensures-some (do_recv-IsSane s fd e.read e.behind v (n refl)) f)
  tcp_handle-IsSane s fd tcp_server_send e v n = do_send-IsSane s fd e.ctl_ok v
  tcp_handle-IsSane s fd tcp_server_close e v n = result (do_close-IsSane s.reactor fd e.ctl_ok v)
  tcp_handle-IsSane s fd none_flag e v n = result v
  tcp_handle-IsSane s fd tcp_client e v n = result v
  tcp_handle-IsSane s fd udp_read e v n = result v
  tcp_handle-IsSane s fd udp_send e v n = result v
