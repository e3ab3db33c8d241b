-- ===== src/Netio/Reading.antt =====
-- An event that lets a connection be read (netio/src/reactor.cpp, netio/src/tcp_net_handler.cpp).
use middlewar_test.Base.{◌≡◌, ℕ, false, some, Bytes, ◌>>=◌, pos, ◌==ℤ◌, arith}
use middlewar_test.Queue.{Ipc}
use middlewar_test.Reactor.{tcp_server_read, SockItem}
use middlewar_test.Netio.{Netio, Event, do_recv, tcp_handle, by_item, process_one}

module _ (ipc : Ipc) (ntoa : ℕ → Bytes) (inet_addr : Bytes → ℕ) where
  open ipc use {Kernel}

  -- An event that lets the socket `fd` be read.
  pub read_item :
      (s : Netio Kernel) (i : SockItem) (e : Event)
      → (pos i.fd ==ℤ s.reactor.svr_fd) ≡ false
      → i.flag ≡ tcp_server_read
      → by_item ipc ntoa inet_addr s i e
        ≡ (do_recv ipc ntoa inet_addr s i.fd e.read e.behind >>= λ (c, s'). some s')
  unfolding by_item tcp_handle
  read_item s i e h f = rw (h, f, by_item)

  pub no_hang_up :
      (s : Netio Kernel) (e : Event)
      → e.rdhup ≡ false
      → process_one ipc ntoa inet_addr s e ≡ by_item ipc ntoa inet_addr s (s.reactor.socks e.sock) e
  unfolding process_one
  no_hang_up s e h = ground (arith, h)
