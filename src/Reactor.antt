-- ===== src/Reactor.antt =====
-- `CReactor` of netio/include/reactor.h and netio/src/reactor.cpp: the sockets that epoll watches,
-- and the tables of sockets and of messages that its friends share. What the system calls answer is
-- an argument of each operation; the calls of `epoll_ctl` that succeed are recorded.
pub mod Watch
pub mod Guard
pub mod Sane
pub mod Setup
use middlewar_test.Base.{
  ℕ, ◌+◌, ◌-◌, Bool, true, false, ◌&&◌, Option, none, some, List, [], ◌∷◌, ◌++◌, Bytes, ◌==◌, ltb,
  if◌then◌else◌, bytes_eq, ℤ, pos,
}

abbrev pub max_epoll_event_num : ℕ
max_epoll_event_num = 4096

abbrev pub epoll_cntl_failed : ℕ
epoll_cntl_failed = 15

pub data EventFlag : Type 0 where
  none_flag tcp_client tcp_server_accept tcp_server_read tcp_server_send : EventFlag
  tcp_server_close udp_read udp_send : EventFlag

pub record SockAddr : Type 0 where
  pub sin_family : ℕ
  pub sin_port : ℕ
  pub sin_addr : ℕ

-- `stTcpSockItem`.
pub record SockItem : Type 0 where
  pub fd : ℕ
  pub flag : EventFlag
  pub sock_addr : SockAddr

-- `Reset` leaves the address.
unfoldable pub reset_item : SockItem → SockItem
reset_item i = record i { fd = 0; flag = none_flag }

pub data CtlOp : Type 0 where
  ctl_add ctl_mod ctl_del closed : CtlOp

-- A call of `epoll_ctl`, or a `close`, which takes the descriptor out of the kernel's set too; `for_write` says whether `EPOLLOUT` stands in place of `EPOLLIN`.
pub record Ctl : Type 0 where
  pub op : CtlOp
  pub ctl_fd : ℕ
  pub for_write : Bool

pub record Reactor : Type 0 where
  pub fds : List ℕ
  pub svr_fd : ℤ
  pub usock_fd : ℤ
  pub events : ℕ
  pub socks : ℕ → SockItem
  pub msgs : ℕ → Bytes
  pub ctls : List Ctl

-- The constructor. `m_arrTcpSock` is as its elements' constructor leaves it; the messages have none,
-- and are what the memory holds.
unfoldable pub new_reactor : (ℕ → Bytes) → Reactor
new_reactor memory = record {
  fds = [];
  svr_fd = pos 0;
  usock_fd = pos 0;
  events = 0;
  socks = λ n. record {
    fd = 0;
    flag = none_flag;
    sock_addr = record { sin_family = 0; sin_port = 0; sin_addr = 0 };
  };
  msgs = memory;
  ctls = [];
}

unfoldable pub set_sock : Reactor → ℕ → SockItem → Reactor
set_sock r n i = record r { socks = λ m. if n == m then i else r.socks m }

unfoldable pub is_none : EventFlag → Bool
is_none none_flag = true
is_none _ = false

unfoldable pub is_write : EventFlag → Bool
is_write tcp_server_send = true
is_write udp_send = true
is_write _ = false

-- The search of `m_vecFds`.
unfoldable pub watches : ℕ → List ℕ → Bool
watches fd [] = false
watches fd (x ∷ xs) = if fd == x then true else watches fd xs

unfoldable pub erase_fd : ℕ → List ℕ → List ℕ
erase_fd fd [] = []
erase_fd fd (x ∷ xs) = if fd == x then xs else x ∷ erase_fd fd xs

-- `inet_ntoa` writes to one static buffer and returns it, so both arguments of `strcmp` are that
-- buffer, with what the later call left there.
unfoldable pub same_ntoa : (ℕ → Bytes) → ℕ → ℕ → Bool
same_ntoa ntoa a b = let buffer = ntoa b in bytes_eq buffer buffer

unfoldable pub same_peer : (ℕ → Bytes) → SockAddr → SockAddr → Bool
unfolding same_ntoa
same_peer ntoa a b =
    a.sin_port == b.sin_port && a.sin_family == b.sin_family && same_ntoa ntoa a.sin_addr b.sin_addr

-- `iSockValid`. `none` for `pData` is the reactor's own item of the socket.
unfoldable pub sock_valid : (ℕ → Bytes) → Reactor → ℕ → Option SockItem → Bool
unfolding is_none watches same_peer
sock_valid ntoa r fd data_item =
    let own = r.socks fd in
    if is_none own.flag then false else elim data_item [
      | some i ↦ same_peer ntoa i.sock_addr own.sock_addr
      | none ↦ if watches fd r.fds then false else true
    ]

-- The members that another item passes on; the descriptor is the one that is watched.
unfoldable pub take_item : Reactor → ℕ → Option SockItem → Reactor
unfolding set_sock
take_item r fd none = r
take_item r fd (some i) = set_sock r fd (record i { fd = fd })

-- The part behind the check of the socket.
unfoldable pub watch : Reactor → ℕ → EventFlag → Option SockItem → Bool → ℕ × Reactor
unfolding take_item watches is_write
watch r fd todo data_item ctl_ok =
    let r' = take_item r fd data_item in
    let old = watches fd r.fds in
    let call : Ctl = record {
      op = if old then ctl_mod else ctl_add;
      ctl_fd = fd;
      for_write = is_write todo;
    } in
    if ctl_ok
    then (
      0,
      if old then record r' { ctls = r.ctls ++ call ∷ [] } else record r' {
        ctls = r.ctls ++ call ∷ [];
        events = r.events + 1;
        fds = r.fds ++ fd ∷ [];
      },
    )
    else (epoll_cntl_failed, r')

-- `none`: the descriptor is no index of `m_arrTcpSock`.
unfoldable pub add_to_watch_list :
    (ℕ → Bytes) → Reactor → ℕ → EventFlag → Option SockItem → Bool → Bool → Option (ℕ × Reactor)
add_to_watch_list ntoa r fd todo data_item check_sock ctl_ok =
    if ltb fd max_epoll_event_num
    then some (
        if check_sock
        then (if sock_valid ntoa r fd data_item then watch r fd todo data_item ctl_ok else (0, r))
        else watch r fd todo data_item ctl_ok)
    else none

unfoldable pub remove_from_watch_list : Reactor → ℕ → Bool → ℕ × Reactor
unfolding watches erase_fd
remove_from_watch_list r fd ctl_ok =
    let call : Ctl = record { op = ctl_del; ctl_fd = fd; for_write = false } in
    let r' = record r { ctls = r.ctls ++ call ∷ [] } in
    if ctl_ok
    then (
      0,
      if watches fd r.fds then record r' { fds = erase_fd fd r.fds; events = r.events - 1 } else r',
    )
    else (epoll_cntl_failed, r)
