-- ===== src/Netio/Process.antt =====
-- The state of the front process, the events that it handles, and what its handlers of connections
-- (netio/src/tcp_net_handler.cpp) do with a new connection and with a text.
use middlewar_test.Base.{
  ℕ, suc, Bool, true, false, ◌&&◌, ◌||◌, Option, none, some, List, [], ◌∷◌, ◌++◌, Bytes, ltb,
  if◌then◌else◌, ◌>>=◌, length, ℤ, pos, negsuc, ◌==ℤ◌,
}
use middlewar_test.Cache.Manager
use middlewar_test.Command.{Cmd, to_buffer, c_str}
use middlewar_test.Queue.{has_zero, buf_size, request, cmd_dll_keys}
use middlewar_test.Queue
use middlewar_test.Reactor.{
  tcp_server_read, SockAddr, SockItem, Ctl, closed, Reactor, set_sock, add_to_watch_list,
}

-- The process, over the kernel's message queues `K`. `sent` is what was written to each socket.
pub record Netio (K : Type 0) : Type 0 where
  pub reactor : Reactor
  pub queues : Queue.Manager
  pub cache : Manager.Manager
  pub kernel : K
  pub sent : List (ℕ × Bytes)

-- An answer of `accept`, with those of the calls that follow for a new connection.
pub data Accepted : Type 0 where
  conn : ℕ → SockAddr → Bool → Bool → Bool → Accepted
  again accept_error : Accepted

pub data Read : Type 0 where
  bytes : Bytes → Read
  eof read_error : Read

-- An event of epoll: the socket item that it points to, whether `EPOLLRDHUP` is set, and what the
-- calls of its handler will answer.
pub record Event : Type 0 where
  pub sock : ℕ
  pub rdhup : Bool
  pub accepts : List Accepted
  pub read : Read
  pub behind : Bytes
  pub ctl_ok : Bool

-- `close` of a descriptor.
unfoldable pub close_fd : Reactor → ℕ → Reactor
close_fd r fd =
    let call : Ctl = record { op = closed; ctl_fd = fd; for_write = false } in
    record r { ctls = r.ctls ++ call ∷ [] }

-- The loop of `DoConn` over the answers; behind the last one `accept` has nothing more.
unfoldable pub do_conn : (ℕ → Bytes) → Reactor → List Accepted → Option (ℤ × Reactor)
do_conn ntoa r [] = some (pos 0, r)
do_conn ntoa r (again ∷ more) = some (pos 0, r)
do_conn ntoa r (accept_error ∷ more) = some (negsuc 0, r)
do_conn ntoa r (conn fd addr getfl_ok setfl_ok ctl_ok ∷ more) = elim (getfl_ok && setfl_ok) [
  | false ↦ some (pos 13, close_fd r fd)
  | true ↦ (do
    let item : SockItem = record { fd = fd; flag = tcp_server_read; sock_addr = addr }
    (c, r') ← add_to_watch_list ntoa (set_sock r fd item) fd tcp_server_read none true ctl_ok
    do_conn ntoa r' more)
]

-- `iCmd` as a position in `g_mapCmdDLL`, counted from 1.
unfoldable pub route_from : ℕ → ℤ → List ℕ → Option ℕ
route_from count cmd [] = none
route_from count cmd (k ∷ ks) = if cmd ==ℤ pos count then some k else route_from (suc count) cmd ks

unfoldable pub route : ℤ → Option ℕ
unfolding route_from
route cmd = route_from 1 cmd cmd_dll_keys

-- `char buf[1000] = {0}` after a `read` of at most as many bytes is a text if a zero is left.
unfoldable pub is_text : Bytes → Bool
unfolding has_zero
is_text s = ltb (length s) 1000 || has_zero s

-- The request as it is passed on: the sender's fields are replaced.
unfoldable pub request_of : (ℕ → Bytes) → Reactor → ℕ → Cmd → Cmd
request_of ntoa r fd c =
    let a = (r.socks fd).sock_addr in
    record c {
      fd = pos fd;
      family = pos a.sin_family;
      client_ip = ntoa a.sin_addr;
      port = pos a.sin_port;
      type = request;
    }

-- The text of a message, as it stands in the buffer.
unfoldable pub message : Cmd → Bytes
message c = c_str (to_buffer c buf_size)
