-- ===== src/Netio.antt =====
-- The front process: `CTcpNetHandler` (netio/src/tcp_net_handler.cpp), `CUSockUdpHandler`
-- (netio/src/usock_udp_handler.cpp), `CNetIOUserEventHandler` (netio/src/netio_user_event_handler.cpp)
-- and `CReactor::ProcessEvent` (netio/src/reactor.cpp), which calls them.
-- What the system calls answer is part of each event. `none` is a failed assertion, an index out of
-- an array, a read behind a buffer, or the use of a pointer that was never set.
mod Process
pub mod Routing
pub mod Lifecycle
pub mod Responses
pub mod Reading
pub mod Loop
pub mod Survival
pub mod Handling
pub mod Invariant
use middlewar_test.Base.{
  ◌>>=◌, ℕ, ◌+◌, ◌-◌, ◌%◌, ◌^◌, Bool, true, false, not, ◌&&◌, ◌||◌, Option, none, some, List, [],
  ◌∷◌, ◌++◌, Bytes, codes, ◌==◌, ltb, if◌then◌else◌, assert_that, length, take, ℤ, pos, negsuc,
  ◌==ℤ◌,
}
use middlewar_test.Cache.Manager.{incr}
use middlewar_test.Cache.Manager
use middlewar_test.Command.{Cmd, new_cmd, init_ccmd, c_str}
use middlewar_test.Queue.{
  is_terminated, Ipc, buf_size, request, response, net_io_back_msq_key, get_msg_queue, put_msg,
  get_msg,
}
use middlewar_test.Queue
use middlewar_test.Reactor.{
  remove_from_watch_list, reset_item, EventFlag, tcp_server_accept, tcp_server_read,
  tcp_server_send, tcp_server_close, udp_read, udp_send, SockItem, Reactor, set_sock,
  add_to_watch_list,
}
unfoldable pub use Process.*

-- `CTcpNetHandler::DoClose`.
unfoldable pub do_close : Reactor → ℕ → Bool → Reactor
unfolding set_sock close_fd
do_close r fd ctl_ok =
    close_fd (remove_from_watch_list (set_sock r fd (reset_item (r.socks fd))) fd ctl_ok).1 fd

-- `CTcpNetHandler::DoSend`. The table of messages has 1024 places; `strlen` reads the one of the
-- descriptor, whatever it holds.
unfoldable pub do_send : {K : Type 0} → Netio K → ℕ → Bool → Option (Netio K)
do_send s fd ctl_ok =
    if ltb fd 1024 && is_terminated (s.reactor.msgs fd)
    then some (record s {
      reactor = do_close s.reactor fd ctl_ok;
      sent = s.sent ++ (fd, c_str (s.reactor.msgs fd)) ∷ [];
    })
    else none

unfoldable pub short_of : ℤ → ℕ
short_of (pos n) = n % 2 ^ 16
short_of (negsuc n) = 2 ^ 16 - 1 - n % 2 ^ 16

-- An `int` as the index of an array of `n` places.
unfoldable pub index_of : ℕ → ℤ → Option ℕ
index_of n (pos i) = if ltb i n then some i else none
index_of n (negsuc i) = none

-- The item that a response is checked by.
unfoldable pub response_item : (Bytes → ℕ) → ℕ → Cmd → SockItem
unfolding short_of
response_item inet_addr fd c = record {
  fd = fd;
  flag = tcp_server_send;
  sock_addr = record {
    sin_family = short_of c.family;
    sin_port = short_of c.port;
    sin_addr = inet_addr c.client_ip;
  };
}

unfoldable pub set_msg : Reactor → ℕ → Bytes → Reactor
set_msg r n text = record r { msgs = λ m. if n == m then text else r.msgs m }

-- `!=` on flags, for the two that the code compares with.
unfoldable pub not_flag : EventFlag → EventFlag → Bool
not_flag udp_read udp_read = false
not_flag udp_send udp_send = false
not_flag _ _ = true

-- `CUSockUdpHandler::DoRecv`: a datagram is read into `char buf[1000] = {0}` and printed as a text.
-- An error of `recvfrom` is only reported.
unfoldable pub udp_recv : {K : Type 0} → Netio K → Read → Option (ℤ × Netio K)
udp_recv s (bytes text) = if is_text text then some (pos 0, s) else none
udp_recv s eof = some (pos 0, s)
udp_recv s read_error = some (pos 0, s)

-- `CUSockUdpHandler::HandleEvent`. `DoSend` sends nothing.
unfoldable pub udp_handle : {K : Type 0} → Netio K → EventFlag → Event → Option (ℤ × Netio K)
udp_handle s udp_read e = do (c, s') ← udp_recv s e.read; some (pos 0, s')
udp_handle s _ e = some (pos 0, s)

-- `inet_ntoa` and `inet_addr` are the library's, for the addresses of clients.
module _ (ipc : Ipc) (ntoa : ℕ → Bytes) (inet_addr : Bytes → ℕ) where
  open ipc use {Kernel}

  -- `DoRecv` once a text has been read. A queue that refuses the message is only reported.
  unfoldable pub forward : Netio Kernel → ℕ → Bytes → Option (ℤ × Netio Kernel)
  forward s fd text = do
    let c = init_ccmd new_cmd text
    assert_that (not (c.cmd ==ℤ pos 0)) do
      key ← route c.cmd
      q ← (get_msg_queue s.queues key).1
      let m = message (request_of ntoa s.reactor fd c)
      (code, kernel') ← put_msg ipc q request m (length m) s.kernel
      let item : SockItem = record (s.reactor.socks fd) { flag = tcp_server_send }
      some (pos 0, record s { kernel = kernel'; reactor = set_sock s.reactor fd item })

  unfoldable pub do_recv : Netio Kernel → ℕ → Read → Bytes → Option (ℤ × Netio Kernel)
  do_recv s fd answer behind = do
    (c, cache') ← incr s.cache (codes "netio_0") behind (pos 1)
    let s' = record s { cache = cache' }
    elim answer [
      | eof ↦ some (negsuc 0, record s' { reactor = close_fd s.reactor fd })
      | read_error ↦ some (negsuc 0, record s' { reactor = close_fd s.reactor fd })
      | bytes text ↦ if is_text text then forward s' fd text else none
    ]

  -- `CTcpNetHandler::HandleEvent`: it returns 0 whatever the handlers return.
  unfoldable pub tcp_handle : Netio Kernel → ℕ → EventFlag → Event → Option (Netio Kernel)
  tcp_handle s fd tcp_server_accept e = do
    (c, r) ← do_conn ntoa s.reactor e.accepts
    some (record s { reactor = r })
  tcp_handle s fd tcp_server_read e = do (c, s') ← do_recv s fd e.read e.behind; some s'
  tcp_handle s fd tcp_server_send e = do_send s fd e.ctl_ok
  tcp_handle s fd tcp_server_close e = some (record s { reactor = do_close s.reactor fd e.ctl_ok })
  tcp_handle s fd _ e = some s

  -- The branches behind the test of `EPOLLRDHUP`.
  unfoldable pub by_item : Netio Kernel → SockItem → Event → Option (Netio Kernel)
  by_item s i e =
      if pos i.fd ==ℤ s.reactor.svr_fd then tcp_handle s i.fd i.flag e else elim i.flag [
        | tcp_server_read ↦ tcp_handle s i.fd tcp_server_read e
        | udp_read ↦ (do (c, s') ← udp_handle s udp_read e; some s')
        | tcp_server_send ↦ tcp_handle s i.fd tcp_server_send e
        | _ ↦ some s
      ]

  unfoldable pub process_one : Netio Kernel → Event → Option (Netio Kernel)
  process_one s e =
      let i = s.reactor.socks e.sock in
      if e.rdhup
      then (if not_flag i.flag udp_read || not_flag i.flag udp_send
          then tcp_handle s i.fd tcp_server_close e
          else some s)
      else by_item s i e

  unfoldable pub process_events : Netio Kernel → List Event → Option (Netio Kernel)
  process_events s [] = some s
  process_events s (e ∷ es) = do s' ← process_one s e; process_events s' es

  -- `CNetIOUserEventHandler::OnEventFire`.
  unfoldable pub on_event_fire : Netio Kernel → Bool → Option (Netio Kernel)
  on_event_fire s ctl_ok = do
    q ← (get_msg_queue s.queues net_io_back_msq_key).1
    (code, len, text, kernel') ← get_msg ipc q response 0 s.kernel
    let s' = record s { kernel = kernel' }
    if code == 0 && len == 0
        then some s'
        else assert_that (is_terminated text) do
          let c = init_ccmd new_cmd text
          fd ← index_of 1024 c.fd
          let r = set_msg s.reactor fd (take (buf_size - 1) (c_str c.payload))
          (code', r') ←
              add_to_watch_list ntoa r fd tcp_server_send (some (response_item inet_addr fd c)) true
                ctl_ok
          some (record s' { reactor = r' })

  -- `ProcessEvent`: the user's handler, then the events in their order.
  unfoldable pub process_event : Netio Kernel → Bool → List Event → Option (Netio Kernel)
  unfolding process_events
  process_event s ctl_ok es = do s' ← on_event_fire s ctl_ok; process_events s' es
