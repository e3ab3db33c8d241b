-- ===== src/Netio/Survival/Handlers.antt =====
-- The events on which the handlers of the front process stop (netio/src/reactor.cpp,
-- netio/src/tcp_net_handler.cpp, netio/src/usock_udp_handler.cpp).
use middlewar_test.Base.{
  ℕ, ◌≡◌, refl, Bool, true, false, ◌||◌, Option, none, some, List, [], ◌∷◌, Bytes, codes, ltb, ℤ,
  pos, ◌==ℤ◌, Option-cases, inl, inr, arith, Decided, goes_on, Decided-none, Decided-some,
  and-Decided, map-Decided, when-Decided, either-Decided, if-Decided, >>=-Decided,
}
use middlewar_test.Cache.Manager.{incr, section_of}
use middlewar_test.Cache.Manager
use middlewar_test.Cache.Manager.Laws.{incr-AllReady}
use middlewar_test.Command.{new_cmd, init_ccmd}
use middlewar_test.Queue.{Ipc}
use middlewar_test.Reactor.{
  EventFlag, none_flag, tcp_client, tcp_server_accept, tcp_server_read, tcp_server_send,
  tcp_server_close, udp_read, udp_send, SockAddr, SockItem, Reactor, max_epoll_event_num, set_sock,
  add_to_watch_list,
}
use middlewar_test.Netio.{
  Netio, Accepted, conn, again, accept_error, Read, bytes, eof, read_error, Event, do_conn, is_text,
  route, forward, do_recv, do_send, tcp_handle, udp_recv, udp_handle, by_item, process_one,
  not_flag,
}
use middlewar_test.Netio.Routing.{route_lem, forward-none, request_forwarded}
use middlewar_test.Netio.Survival.{
  request_queue, IsServing, Serves, can_be_sent, is_request, is_datagram, are_in_table, passes,
  item_passes, event_passes,
}

pub add_to_watch_list-Decided :
    (ntoa : ℕ → Bytes) (r : Reactor) (fd : ℕ) (todo : EventFlag) (i : Option SockItem)
    (check ok : Bool)
    → Decided
        (λ (a : ℕ × Reactor). Unit {0})
        (ltb fd max_epoll_event_num)
        (add_to_watch_list ntoa r fd todo i check ok)
unfolding add_to_watch_list
add_to_watch_list-Decided ntoa r fd todo i check ok = when-Decided (ltb fd max_epoll_event_num) _ tt

do_conn-Decided :
    (ntoa : ℕ → Bytes) (r : Reactor) (answers : List Accepted)
    → Decided (λ (a : ℤ × Reactor). Unit {0}) (are_in_table answers) (do_conn ntoa r answers)
unfolding do_conn
do_conn-Decided ntoa r [] = goes_on tt
do_conn-Decided ntoa r (again ∷ more) = goes_on tt
do_conn-Decided ntoa r (accept_error ∷ more) = goes_on tt
do_conn-Decided ntoa r (conn fd addr true true ok ∷ more) =
    let item : SockItem = record { fd = fd; flag = tcp_server_read; sock_addr = addr } in
    >>=-Decided
      (add_to_watch_list-Decided ntoa (set_sock r fd item) fd tcp_server_read none true ok)
      λ (c, r1) u. do_conn-Decided ntoa r1 more
do_conn-Decided ntoa r (conn fd addr true false ok ∷ more) = goes_on tt
do_conn-Decided ntoa r (conn fd addr false s ok ∷ more) = goes_on tt

udp_recv-Decided :
    {K : Type 0} (s : Netio K) (r : Read)
    → Serves s
    → Decided (λ (a : ℤ × Netio K). Serves a.1) (is_datagram r) (udp_recv s r)
unfolding udp_recv
udp_recv-Decided s (bytes text) v = when-Decided (is_text text) _ v
udp_recv-Decided s eof v = goes_on v
udp_recv-Decided s read_error v = goes_on v

module _ (ipc : Ipc) (ntoa : ℕ → Bytes) (inet_addr : Bytes → ℕ) where
  open ipc use {Kernel}

  forward-Decided :
      (s : Netio Kernel) (fd : ℕ) (text : Bytes)
      → Serves s
      → let cmd = (init_ccmd new_cmd text).cmd in
        Decided
          (λ (a : ℤ × Netio Kernel). Serves a.1)
          (cmd ==ℤ pos 1 || cmd ==ℤ pos 2)
          (forward ipc ntoa inet_addr s fd text)
  forward-Decided s fd text v =
      let cmd = (init_ccmd new_cmd text).cmd in
      elim (Option-cases (route cmd)) [
        | inl e ↦
            Decided-none (ground (arith, route_lem cmd, e))
              (forward-none ipc ntoa inet_addr s fd text e)
        | inr (key, e) ↦
            let (q, f) = request_queue s.queues s.cache cmd key v e in
            Decided-some (ground (arith, route_lem cmd, e))
              (request_forwarded ipc ntoa inet_addr s fd text key q e f) v
      ]

  counted :
      (s : Netio Kernel) (behind : Bytes)
      → Serves s
      → (r : ℤ × Manager.Manager) × (incr s.cache (codes "netio_0") behind (pos 1) ≡ some r)
        × IsServing s.queues r.1
  unfolding section_of
  counted s behind v =
      let (r, e, w) = incr-AllReady s.cache v.counts (codes "netio_0") behind refl (pos 1) in
      (r, e, record { counts = w; responses = v.responses; first = v.first; second = v.second })

  do_recv-Decided :
      (s : Netio Kernel) (fd : ℕ) (answer : Read) (behind : Bytes)
      → Serves s
      → Decided
          (λ (a : ℤ × Netio Kernel). Serves a.1)
          (is_request answer)
          (do_recv ipc ntoa inet_addr s fd answer behind)
  unfolding do_recv
  do_recv-Decided s fd eof behind v = let (r, e, w) = counted s behind v in rw e (goes_on w)
  do_recv-Decided s fd read_error behind v = let (r, e, w) = counted s behind v in rw e (goes_on w)
  do_recv-Decided s fd (bytes text) behind v =
      let (r, e, w) = counted s behind v in
      rw e (and-Decided (is_text text) (forward-Decided (record s { cache = r.1 }) fd text w))

  do_send-Decided :
      (s : Netio Kernel) (fd : ℕ) (ok : Bool)
      → Serves s
      → Decided Serves (can_be_sent s.reactor fd) (do_send s fd ok)
  unfolding do_send
  do_send-Decided s fd ok v = when-Decided (can_be_sent s.reactor fd) _ v

  tcp_handle-Decided :
      (s : Netio Kernel) (fd : ℕ) (flag : EventFlag) (e : Event)
      → Serves s
      → Decided Serves (passes s.reactor fd flag e) (tcp_handle ipc ntoa inet_addr s fd flag e)
  unfolding tcp_handle
  tcp_handle-Decided s fd tcp_server_accept e v =
      map-Decided (λ (c, r). record s { reactor = r }) (do_conn-Decided ntoa s.reactor e.accepts)
        λ x u. v
  tcp_handle-Decided s fd tcp_server_read e v =
      map-Decided (λ (c, s'). s') (do_recv-Decided s fd e.read e.behind v) λ x w. w
  tcp_handle-Decided s fd tcp_server_send e v = do_send-Decided s fd e.ctl_ok v
  tcp_handle-Decided s fd tcp_server_close e v = goes_on v
  tcp_handle-Decided s fd none_flag e v = goes_on v
  tcp_handle-Decided s fd tcp_client e v = goes_on v
  tcp_handle-Decided s fd udp_read e v = goes_on v
  tcp_handle-Decided s fd udp_send e v = goes_on v

  udp_handle-Decided :
      (s : Netio Kernel) (e : Event)
      → Serves s
      → Decided
          (λ (a : ℤ × Netio Kernel). Serves a.1)
          (is_datagram e.read)
          (udp_handle s udp_read e)
  unfolding udp_handle
  udp_handle-Decided s e v =
      map-Decided (λ (c, s'). (pos 0, s')) (udp_recv-Decided s e.read v) λ x w. w

  by_item-Decided :
      (s : Netio Kernel) (fd : ℕ) (flag : EventFlag) (addr : SockAddr) (e : Event)
      → Serves s
      → let i : SockItem = record { fd = fd; flag = flag; sock_addr = addr } in
        Decided Serves (item_passes s.reactor i e) (by_item ipc ntoa inet_addr s i e)
  unfolding by_item
  by_item-Decided s fd tcp_server_read addr e v =
      if-Decided (pos fd ==ℤ s.reactor.svr_fd) (tcp_handle-Decided s fd tcp_server_read e v)
        (tcp_handle-Decided s fd tcp_server_read e v)
  by_item-Decided s fd tcp_server_send addr e v =
      if-Decided (pos fd ==ℤ s.reactor.svr_fd) (tcp_handle-Decided s fd tcp_server_send e v)
        (tcp_handle-Decided s fd tcp_server_send e v)
  by_item-Decided s fd udp_read addr e v =
      if-Decided (pos fd ==ℤ s.reactor.svr_fd) (tcp_handle-Decided s fd udp_read e v)
        (map-Decided (λ (c, s'). s') (udp_handle-Decided s e v) λ x w. w)
  by_item-Decided s fd flag addr e v =
      if-Decided (pos fd ==ℤ s.reactor.svr_fd) (tcp_handle-Decided s fd flag e v) (goes_on v)

  closing-Decided :
      (s : Netio Kernel) (fd : ℕ) (e : Event)
      → Serves s
      → Decided Serves true (tcp_handle ipc ntoa inet_addr s fd tcp_server_close e)
  closing-Decided s fd e v = tcp_handle-Decided s fd tcp_server_close e v

  pub process_one-Decided :
      (s : Netio Kernel) (e : Event)
      → Serves s
      → Decided Serves (event_passes s e) (process_one ipc ntoa inet_addr s e)
  unfolding process_one
  process_one-Decided s e v =
      let i = s.reactor.socks e.sock in
      if-Decided e.rdhup
        (either-Decided (not_flag i.flag udp_read || not_flag i.flag udp_send)
          (closing-Decided s i.fd e v) (goes_on v))
        (by_item-Decided s i.fd i.flag i.sock_addr e v)
