-- ===== src/Reactor/Setup/Result.antt =====
-- What `InitTcpSvr` of netio/src/reactor.cpp returns, and what it leaves behind.
use middlewar_test.Base.{
  Option, none, List, false, ℤ, negsuc, ltb, ℕ, ◌<◌, ◌≡◌, refl, Bool, true, not, ◌&&◌, ◌||◌, some,
  [], ◌∷◌, ◌==◌, if◌then◌else◌, pos, arith,
}
use middlewar_test.Reactor.{tcp_server_accept, SockAddr, Reactor, max_epoll_event_num}
use middlewar_test.Reactor.Setup.{
  create_socket_failed, set_sockopt_failed, bind_socket_failed, listen_socket_failed,
  fcntl_socket_failed, TcpCalls, Done, keep_item, tcp_steps, init_tcp_svr,
}

-- Each answer lets the set-up go on.
abbrev pub tcp_ok : TcpCalls → Bool
tcp_ok k = k.tcp_reuse && k.tcp_bind && k.tcp_linger && k.tcp_listen && k.tcp_getfl && k.tcp_setfl

-- The code of the first call that fails.
tcp_code : TcpCalls → ℕ
tcp_code k =
    if not k.tcp_reuse
    then set_sockopt_failed
    else if not k.tcp_bind
    then bind_socket_failed
    else if not k.tcp_linger
    then set_sockopt_failed
    else if not k.tcp_listen
    then listen_socket_failed
    else if not k.tcp_getfl || not k.tcp_setfl
    then fcntl_socket_failed
    else 0

-- What is left where `socket` fails.
abbrev unopened : Reactor → Done
unopened r = record {
  code = create_socket_failed;
  closes = [];
  restored = true;
  reactor = record r { svr_fd = negsuc 0 };
}

module _ (k : TcpCalls) (r : Reactor) (addr : SockAddr) (fd : ℕ) where
  abbrev accepting : Reactor
  accepting = record r {
    svr_fd = pos fd;
    socks = λ m.
        if fd == m
        then record { fd = fd; flag = tcp_server_accept; sock_addr = addr }
        else r.socks m;
  }

  abbrev tcp_done : Done
  tcp_done = record {
    code = tcp_code k;
    closes = if tcp_ok k then [] else fd ∷ [];
    restored = true;
    reactor = if tcp_ok k then accepting else record r { svr_fd = pos fd };
  }

  tcp_steps_lem :
      fd < max_epoll_event_num → tcp_steps k (record r { svr_fd = pos fd }) fd addr ≡ some tcp_done
  unfolding tcp_steps keep_item tcp_code
  tcp_steps_lem h = ground arith

  tcp_code-zero : (tcp_code k == 0) ≡ tcp_ok k
  unfolding tcp_code
  tcp_code-zero = ground arith

  opened_result :
      k.tcp_socket ≡ some fd
      → fd < max_epoll_event_num
      → (d : Done) × (init_tcp_svr k r addr ≡ some d)
        × ((d.code == 0) ≡ tcp_ok k)
        × (d.closes ≡ (if tcp_ok k then [] else fd ∷ []))
        × (d.reactor.svr_fd ≡ pos fd)
        × ((m : ℕ)
            → (d.reactor.socks m).flag
              ≡ (if tcp_ok k && fd == m then tcp_server_accept else (r.socks m).flag))
  unfolding init_tcp_svr tcp_code
  opened_result e h = (
    tcp_done,
    rw (e, init_tcp_svr) (tcp_steps_lem h),
    tcp_code-zero,
    refl,
    ground arith,
    λ m. ground arith,
  )

-- A descriptor that `socket` answers with has a place in the table of items.
abbrev pub fits_table : Option ℕ → Bool
fits_table none = true
fits_table (some fd) = ltb fd max_epoll_event_num

abbrev pub is_opened : Option ℕ → Bool
is_opened none = false
is_opened (some fd) = true

abbrev pub opened : Option ℕ → List ℕ
opened none = []
opened (some fd) = fd ∷ []

-- `m_iSvrFd` afterwards: what `socket` returned.
abbrev pub server_fd : Option ℕ → ℤ
server_fd none = negsuc 0
server_fd (some fd) = pos fd

abbrev pub is_fd : Option ℕ → ℕ → Bool
is_fd none m = false
is_fd (some fd) m = fd == m

result_of :
    (k : TcpCalls) (r : Reactor) (addr : SockAddr) (o : Option ℕ)
    → k.tcp_socket ≡ o
    → fits_table o ≡ true
    → (d : Done) × (init_tcp_svr k r addr ≡ some d)
      × ((d.code == 0) ≡ is_opened o && tcp_ok k)
      × (d.closes ≡ (if tcp_ok k then [] else opened o))
      × (d.reactor.svr_fd ≡ server_fd o)
      × ((m : ℕ)
          → (d.reactor.socks m).flag ≡ (
              if is_opened o && tcp_ok k && is_fd o m then tcp_server_accept else (r.socks m).flag))
unfolding init_tcp_svr
result_of k r addr none e h =
    (unopened r, rw (e, init_tcp_svr) refl, refl, ground arith, refl, λ m. refl)
result_of k r addr (some fd) e h = opened_result k r addr fd e (ground (arith, h))

-- Whatever the calls answer, but a descriptor outside of the table of items: `InitTcpSvr` returns 0
-- exactly if `socket` and every call behind it succeed. It then closes nothing and marks the socket as
-- the one that accepts; otherwise it closes the descriptor that it opened, if it did, and leaves the
-- marks of all items as they were. `m_iSvrFd` is what `socket` returned in either case.
pub init_tcp_svr_result :
    (k : TcpCalls) (r : Reactor) (addr : SockAddr)
    → fits_table k.tcp_socket ≡ true
    → (d : Done) × (init_tcp_svr k r addr ≡ some d)
      × ((d.code == 0) ≡ is_opened k.tcp_socket && tcp_ok k)
      × (d.closes ≡ (if tcp_ok k then [] else opened k.tcp_socket))
      × (d.reactor.svr_fd ≡ server_fd k.tcp_socket)
      × ((m : ℕ)
          → (d.reactor.socks m).flag ≡ (
              if is_opened k.tcp_socket && tcp_ok k && is_fd k.tcp_socket m
              then tcp_server_accept
              else (r.socks m).flag))
init_tcp_svr_result k r addr h = result_of k r addr k.tcp_socket refl h
