-- ===== src/Netio/Invariant.antt =====
-- The reactor's invariant over every run of the front process (netio/src/netio.cpp,
-- netio/src/reactor.cpp, netio/src/tcp_net_handler.cpp, netio/src/netio_user_event_handler.cpp).
use middlewar_test.Base.{
  assert_that-Ensures, ℕ, ◌-◌, ◌≡◌, ap, Bool, true, false, ◌&&◌, ◌||◌, none, some, List, [], ◌∷◌,
  Bytes, ◌==◌, take, Ensures, result, >>=-Ensures, if-Ensures, Ensures-some, ℤ, pos, ◌==ℤ◌,
}
use middlewar_test.Cache.Manager
use middlewar_test.Command.{new_cmd, init_ccmd, c_str}
use middlewar_test.Queue.{
  is_terminated, Ipc, buf_size, response, net_io_back_msq_key, get_msg_queue, get_msg,
}
use middlewar_test.Reactor.{
  EventFlag, tcp_server_accept, tcp_server_read, tcp_server_send, tcp_server_close, udp_read,
  udp_send, SockAddr, SockItem, Reactor, max_epoll_event_num, is_none, add_to_watch_list,
}
use middlewar_test.Reactor.{new_reactor}
use middlewar_test.Reactor.Setup
use middlewar_test.Reactor.Setup.Invariant.{init-Leaves}
use middlewar_test.Reactor.Sane.{new_reactor-IsSane, IsSane, add_to_watch_list-IsSane}
use middlewar_test.Netio.Loop.{
  Round, check_events, watch_channel, watch_channels, event_rounds, run_event_loop, Answers,
  front_main,
}
use middlewar_test.Netio.{
  Netio, Event, index_of, response_item, set_msg, not_flag, tcp_handle, udp_handle, by_item,
  process_one, process_events, on_event_fire, process_event,
}
use middlewar_test.Netio.Handling.{tcp_handle-IsSane, udp_handle-IsSane, do_close-IsSane, IsKept}

module _ (ipc : Ipc) (ntoa : ℕ → Bytes) (inet_addr : Bytes → ℕ) where
  open ipc use {Kernel}

  -- The item of an event that has not been reset names its own place.
  own_item :
      (s : Netio Kernel) (e : Event)
      → IsKept s
      → let i = s.reactor.socks e.sock in is_none i.flag ≡ false → (s.reactor.socks i.fd).fd ≡ i.fd
  own_item s e v h = ap (λ n. (s.reactor.socks n).fd) (v.named e.sock h)

  by_item-IsSane :
      (s : Netio Kernel) (fd : ℕ) (flag : EventFlag) (addr : SockAddr) (e : Event)
      → IsKept s
      → (is_none flag ≡ false → (s.reactor.socks fd).fd ≡ fd)
      → let i : SockItem = record { fd = fd; flag = flag; sock_addr = addr } in
        Ensures IsKept (by_item ipc ntoa inet_addr s i e)
  unfolding by_item
  by_item-IsSane s fd tcp_server_read addr e v n =
      if-Ensures (pos fd ==ℤ s.reactor.svr_fd)
        (tcp_handle-IsSane ipc ntoa inet_addr s fd tcp_server_read e v n)
        (tcp_handle-IsSane ipc ntoa inet_addr s fd tcp_server_read e v n)
  by_item-IsSane s fd tcp_server_send addr e v n =
      if-Ensures (pos fd ==ℤ s.reactor.svr_fd)
        (tcp_handle-IsSane ipc ntoa inet_addr s fd tcp_server_send e v n)
        (tcp_handle-IsSane ipc ntoa inet_addr s fd tcp_server_send e v n)
  by_item-IsSane s fd udp_read addr e v n =
      if-Ensures (pos fd ==ℤ s.reactor.svr_fd)
        (tcp_handle-IsSane ipc ntoa inet_addr s fd udp_read e v n)
        (>>=-Ensures (udp_handle s udp_read e)
          λ (c, s') f. result (Ensures-some (udp_handle-IsSane s e v) f))
  by_item-IsSane s fd flag addr e v n =
      if-Ensures (pos fd ==ℤ s.reactor.svr_fd)
        (tcp_handle-IsSane ipc ntoa inet_addr s fd flag e v n) (result v)

  closing-IsSane :
      (s : Netio Kernel) (fd : ℕ) (e : Event)
      → IsKept s
      → Ensures IsKept (tcp_handle ipc ntoa inet_addr s fd tcp_server_close e)
  unfolding tcp_handle
  closing-IsSane s fd e v = result (do_close-IsSane s.reactor fd e.ctl_ok v)

  process_one-IsSane :
      (s : Netio Kernel) (e : Event)
      → IsKept s
      → Ensures IsKept (process_one ipc ntoa inet_addr s e)
  unfolding process_one
  process_one-IsSane s e v =
      let i = s.reactor.socks e.sock in
      if-Ensures e.rdhup
        (if-Ensures (not_flag i.flag udp_read || not_flag i.flag udp_send)
          (closing-IsSane s i.fd e v) (result v))
        (by_item-IsSane s i.fd i.flag i.sock_addr e v (own_item s e v))

  process_events-IsSane :
      (s : Netio Kernel) (es : List Event)
      → IsKept s
      → Ensures IsKept (process_events ipc ntoa inet_addr s es)
  unfolding process_events
  process_events-IsSane s [] v = result v
  process_events-IsSane s (e ∷ es) v =
      >>=-Ensures (process_one ipc ntoa inet_addr s e)
        λ s' f. process_events-IsSane s' es (Ensures-some (process_one-IsSane s e v) f)

  on_event_fire-IsSane :
      (s : Netio Kernel) (ok : Bool)
      → IsKept s
      → Ensures IsKept (on_event_fire ipc ntoa inet_addr s ok)
  unfolding on_event_fire set_msg
  on_event_fire-IsSane s ok v = >>=-Ensures (get_msg_queue s.queues net_io_back_msq_key).1 λ q e.
      >>=-Ensures (get_msg ipc q response 0 s.kernel) λ (code, len, text, kernel') f.
        if-Ensures (code == 0 && len == 0) (result v) (
          assert_that-Ensures (is_terminated text) (
            let c = init_ccmd new_cmd text in
            >>=-Ensures (index_of 1024 c.fd) λ fd g.
              let r = set_msg s.reactor fd (take (buf_size - 1) (c_str c.payload)) in
              >>=-Ensures
                (add_to_watch_list ntoa r fd tcp_server_send (some (response_item inet_addr fd c))
                  true ok)
                λ (code', r') h. result (
                  add_to_watch_list-IsSane ntoa r fd tcp_server_send
                    (some (response_item inet_addr fd c)) true ok
                    (record { covers = v.covers; named = v.named }) h)))

  pub process_event-IsSane :
      (s : Netio Kernel) (ok : Bool) (es : List Event)
      → IsKept s
      → Ensures IsKept (process_event ipc ntoa inet_addr s ok es)
  unfolding process_event
  process_event-IsSane s ok es v =
      >>=-Ensures (on_event_fire ipc ntoa inet_addr s ok)
        λ s' e. process_events-IsSane s' es (Ensures-some (on_event_fire-IsSane s ok v) e)

  event_rounds-IsSane :
      (s : Netio Kernel) (rounds : List Round)
      → IsKept s
      → Ensures IsKept (event_rounds ipc ntoa inet_addr s rounds)
  unfolding event_rounds
  event_rounds-IsSane s [] v = result v
  event_rounds-IsSane s (x ∷ xs) v =
      >>=-Ensures (process_event ipc ntoa inet_addr s x.user_ok (check_events x.waited)) λ s' e.
        event_rounds-IsSane s' xs
          (Ensures-some (process_event-IsSane s x.user_ok (check_events x.waited) v) e)

watch_channel-IsSane :
    (ntoa : ℕ → Bytes) (r : Reactor) (fd : ℤ) (todo : EventFlag) (ok : Bool)
    → IsSane r
    → Ensures IsSane (watch_channel ntoa r fd todo ok)
unfolding watch_channel
watch_channel-IsSane ntoa r fd todo ok v = if-Ensures (fd ==ℤ pos 0) (result v) (
    >>=-Ensures (index_of max_epoll_event_num fd) λ n e.
      >>=-Ensures (add_to_watch_list ntoa r n todo none false ok)
        λ (c, r') f. result (add_to_watch_list-IsSane ntoa r n todo none false ok v f))

watch_channels-IsSane :
    (ntoa : ℕ → Bytes) (r : Reactor) (svr_ok usock_ok : Bool)
    → IsSane r
    → Ensures IsSane (watch_channels ntoa r svr_ok usock_ok)
unfolding watch_channels
watch_channels-IsSane ntoa r svr_ok usock_ok v =
    >>=-Ensures (watch_channel ntoa r r.svr_fd tcp_server_accept svr_ok) λ r' e.
      watch_channel-IsSane ntoa r' r'.usock_fd udp_read usock_ok
        (Ensures-some (watch_channel-IsSane ntoa r r.svr_fd tcp_server_accept svr_ok v) e)

run_event_loop-IsSane :
    (ipc : Ipc) (ntoa : ℕ → Bytes) (inet_addr : Bytes → ℕ) (s : Netio (ipc.Kernel))
    (svr_ok usock_ok : Bool) (rounds : List Round)
    → IsKept s
    → Ensures IsKept (run_event_loop ipc ntoa inet_addr s svr_ok usock_ok rounds)
unfolding run_event_loop
run_event_loop-IsSane ipc ntoa inet_addr s svr_ok usock_ok rounds v =
    >>=-Ensures (watch_channels ntoa s.reactor svr_ok usock_ok) λ r e.
      event_rounds-IsSane ipc ntoa inet_addr (record s { reactor = r }) rounds
        (Ensures-some (watch_channels-IsSane ntoa s.reactor svr_ok usock_ok v) e)

-- The front process, from `main` on, whatever its clients send, whatever messages come, and whatever
-- the system calls answer: each descriptor stands once in the list, within the table of sockets, and
-- is counted once; what the kernel watches stands in the list; and each item that has not been reset
-- has the descriptor of its place.
pub front_main-IsSane :
    (ipc : Ipc) (ntoa : ℕ → Bytes) (inet_addr : Bytes → ℕ) (cache : Manager.Manager)
    (kernel : ipc.Kernel) (a : Answers) {s : Netio (ipc.Kernel)}
    → front_main ipc ntoa inet_addr cache kernel a ≡ some s
    → IsSane s.reactor
unfolding front_main
front_main-IsSane ipc ntoa inet_addr cache kernel a e =
    Ensures-some {P = IsKept}
      (>>=-Ensures
        (Setup.init true true a.tcp a.udp a.epoll a.own_addr a.unset_addr (new_reactor a.memory))
        λ d f. run_event_loop-IsSane ipc ntoa inet_addr _ a.svr_ok a.usock_ok a.rounds (
          Ensures-some
            (init-Leaves true true a.tcp a.udp a.epoll a.own_addr a.unset_addr
              (new_reactor a.memory) (new_reactor-IsSane a.memory))
            f))
      e
