-- ===== src/Reactor/Setup.antt =====
-- `InitTcpSvr`, `InitUSockUdpSvr` and `Init` of netio/src/reactor.cpp. What the system calls answer
-- is given in a record; what is closed on the way is listed.
pub mod Result
pub mod Invariant
use middlewar_test.Base.{
  ℕ, Bool, true, false, not, Option, none, some, List, [], ◌∷◌, ◌==◌, ltb, if◌then◌else◌, pos,
  negsuc,
}
use middlewar_test.Reactor.{
  EventFlag, tcp_server_accept, udp_read, SockAddr, Reactor, max_epoll_event_num, set_sock,
}

-- `errcode`.
abbrev pub create_socket_failed : ℕ
create_socket_failed = 9

abbrev pub set_sockopt_failed : ℕ
set_sockopt_failed = 10

abbrev pub bind_socket_failed : ℕ
bind_socket_failed = 11

abbrev pub listen_socket_failed : ℕ
listen_socket_failed = 12

abbrev pub fcntl_socket_failed : ℕ
fcntl_socket_failed = 13

abbrev pub epoll_create_failed : ℕ
epoll_create_failed = 14

abbrev pub create_usock_failed : ℕ
create_usock_failed = 17

abbrev pub set_usockopt_failed : ℕ
set_usockopt_failed = 18

abbrev pub bind_usocket_failed : ℕ
bind_usocket_failed = 19

-- The answers: a descriptor if `socket` gives one, and whether each later call succeeds.
pub record TcpCalls : Type 0 where
  pub tcp_socket : Option ℕ
  pub tcp_reuse : Bool
  pub tcp_bind : Bool
  pub tcp_linger : Bool
  pub tcp_listen : Bool
  pub tcp_getfl : Bool
  pub tcp_setfl : Bool

pub record UdpCalls : Type 0 where
  pub udp_socket : Option ℕ
  pub udp_reuse : Bool
  pub udp_bind : Bool
  pub udp_getfl : Bool
  pub udp_setfl : Bool

-- A set-up routine's code, the descriptors that it closed, whether the `umask` that it changed was
-- put back, and the reactor.
pub record Done : Type 0 where
  pub code : ℕ
  pub closes : List ℕ
  pub restored : Bool
  pub reactor : Reactor

-- `none`: the descriptor is no index of `m_arrTcpSock`.
unfoldable pub keep_item : Reactor → ℕ → EventFlag → SockAddr → Option Reactor
unfolding set_sock
keep_item r fd flag addr =
    if ltb fd max_epoll_event_num
    then some (set_sock r fd (record { fd = fd; flag = flag; sock_addr = addr }))
    else none

fail_with : ℕ → ℕ → Bool → Reactor → Option Done
fail_with code fd restored r =
    some (record { code = code; closes = fd ∷ []; restored = restored; reactor = r })

finish : Option Reactor → Option Done
finish none = none
finish (some r) = some (record { code = 0; closes = []; restored = true; reactor = r })

-- The calls behind `socket`, each with the code of its failure.
tcp_steps : TcpCalls → Reactor → ℕ → SockAddr → Option Done
unfolding fail_with finish
tcp_steps k r fd addr =
    if not k.tcp_reuse
    then fail_with set_sockopt_failed fd true r
    else if not k.tcp_bind
    then fail_with bind_socket_failed fd true r
    else if not k.tcp_linger
    then fail_with set_sockopt_failed fd true r
    else if not k.tcp_listen
    then fail_with listen_socket_failed fd true r
    else if not k.tcp_getfl
    then fail_with fcntl_socket_failed fd true r
    else if not k.tcp_setfl
    then fail_with fcntl_socket_failed fd true r
    else finish (keep_item r fd tcp_server_accept addr)

unfoldable pub init_tcp_svr : TcpCalls → Reactor → SockAddr → Option Done
unfolding tcp_steps
init_tcp_svr k r addr = elim k.tcp_socket [
  | none ↦ some (record {
    code = create_socket_failed;
    closes = [];
    restored = true;
    reactor = record r { svr_fd = negsuc 0 };
  })
  | some fd ↦ tcp_steps k (record r { svr_fd = pos fd }) fd addr
]

-- Between the two calls of `umask` a failure returns at once. The item's address is not set.
udp_steps : UdpCalls → Reactor → ℕ → SockAddr → Option Done
unfolding fail_with finish
udp_steps k r fd addr =
    if not k.udp_reuse
    then fail_with set_usockopt_failed fd false r
    else if not k.udp_bind
    then fail_with bind_usocket_failed fd false r
    else if not k.udp_getfl
    then fail_with fcntl_socket_failed fd true r
    else if not k.udp_setfl
    then fail_with fcntl_socket_failed fd true r
    else finish (keep_item r fd udp_read addr)

unfoldable pub init_usock_udp_svr : UdpCalls → Reactor → SockAddr → Option Done
unfolding udp_steps
init_usock_udp_svr k r addr = elim k.udp_socket [
  | none ↦ some (record {
    code = create_usock_failed;
    closes = [];
    restored = true;
    reactor = record r { usock_fd = negsuc 0 };
  })
  | some fd ↦ udp_steps k (record r { usock_fd = pos fd }) fd addr
]

-- What `epoll_create` answers.
pub data EpollCreate : Type 0 where
  created unsupported create_failed : EpollCreate

-- A routine that is not asked for is passed over.
unfoldable pub skip : Reactor → Option Done
skip r = some (record { code = 0; closes = []; restored = true; reactor = r })

after_ok : Option Done → (Reactor → Option Done) → Option Done
after_ok none k = none
after_ok (some d) k = if d.code == 0 then k d.reactor else some d

-- `Init`: the parts are asked for by a port that is not 0 and by a path.
unfoldable pub init :
    Bool → Bool → TcpCalls → UdpCalls → EpollCreate → SockAddr → SockAddr → Reactor → Option Done
unfolding after_ok skip
init with_tcp with_usock tcp udp epoll addr unset r =
    after_ok (if with_tcp then init_tcp_svr tcp r addr else skip r) λ r1.
      after_ok (if with_usock then init_usock_udp_svr udp r1 unset else skip r1) λ r2. elim epoll [
        | created ↦ skip r2
        | unsupported ↦ none
        | create_failed ↦
            some (record { code = epoll_create_failed; closes = []; restored = true; reactor = r2 })
      ]
