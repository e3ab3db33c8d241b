-- ===== src/Netio/Survival.antt =====
-- What the front process can go on with (netio/src/reactor.cpp, netio/src/tcp_net_handler.cpp,
-- netio/src/usock_udp_handler.cpp, netio/src/netio_user_event_handler.cpp): tests of an event and of a
-- message, apart from the code.
pub mod Handlers
pub mod Messages
pub mod Rounds
pub mod Main
use middlewar_test.Base.{
  ℕ, ◌≡◌, subst, Bool, true, false, ◌&&◌, ◌||◌, some, List, [], ◌∷◌, ltb, negsuc, ◌-◌, ◌==◌,
  if◌then◌else◌, length, ℤ, pos, ◌==ℤ◌, Bool-cases, inl, inr, arith,
}
use middlewar_test.Cache.Manager
use middlewar_test.Cache.Manager.Laws.{AllReady}
use middlewar_test.Command.{new_cmd, init_ccmd}
use middlewar_test.Queue.{
  is_terminated, MsgQueue, Received, got, buf_size, net_io_back_msq_key, get_msg_queue,
}
use middlewar_test.Queue
use middlewar_test.Reactor.{
  EventFlag, tcp_server_accept, tcp_server_read, tcp_server_send, udp_read, SockItem, Reactor,
  max_epoll_event_num,
}
use middlewar_test.Netio.{
  Netio, Accepted, conn, again, accept_error, Read, bytes, Event, is_text, route,
}
use middlewar_test.Netio.Routing.{route_lem}

-- The shared tables are ready, and the queues that the process uses are open.
pub record IsServing (queues : Queue.Manager) (cache : Manager.Manager) : Type 0 where
  pub counts : AllReady cache
  pub responses : (q : MsgQueue) × ((get_msg_queue queues net_io_back_msq_key).1 ≡ some q)
  pub first : (q : MsgQueue) × ((get_msg_queue queues 0xccccd).1 ≡ some q)
  pub second : (q : MsgQueue) × ((get_msg_queue queues 0xcccce).1 ≡ some q)

-- The queue of a command.
pub request_queue :
    (queues : Queue.Manager) (cache : Manager.Manager) (cmd : ℤ) (key : ℕ)
    → IsServing queues cache
    → route cmd ≡ some key
    → (q : MsgQueue) × ((get_msg_queue queues key).1 ≡ some q)
request_queue queues cache cmd key v e = elim (Bool-cases (cmd ==ℤ pos 1)) [
  | inl h ↦
      let same : 0xccccd ≡ key = ground (arith, route_lem cmd, e, h) in
      subst (λ k. (q : MsgQueue) × ((get_msg_queue queues k).1 ≡ some q)) same v.first
  | inr h ↦
      let same : 0xcccce ≡ key = ground (arith, route_lem cmd, e, h) in
      subst (λ k. (q : MsgQueue) × ((get_msg_queue queues k).1 ≡ some q)) same v.second
]

abbrev pub Serves : {K : Type 0} → Netio K → Type 0
Serves s = IsServing s.queues s.cache

-- What is read from a client: an end, or a text that ends in the buffer and has command 1 or 2.
abbrev pub is_request : Read → Bool
is_request (bytes text) =
    let cmd = (init_ccmd new_cmd text).cmd in is_text text && (cmd ==ℤ pos 1 || cmd ==ℤ pos 2)
is_request _ = true

-- A datagram: a text that ends in the buffer.
abbrev pub is_datagram : Read → Bool
is_datagram (bytes text) = is_text text
is_datagram _ = true

-- The connections that `accept` answers with are in the table.
abbrev pub are_in_table : List Accepted → Bool
are_in_table [] = true
are_in_table (again ∷ more) = true
are_in_table (accept_error ∷ more) = true
are_in_table (conn fd addr getfl_ok setfl_ok ctl_ok ∷ more) =
    let rest = are_in_table more in
    if getfl_ok && setfl_ok then ltb fd max_epoll_event_num && rest else true

-- The descriptor has a place in the table of messages, and the text there ends within its bytes.
abbrev pub can_be_sent : Reactor → ℕ → Bool
can_be_sent r fd = ltb fd 1024 && is_terminated (r.msgs fd)

-- By the flag of an item, in the handler of connections.
abbrev pub passes : Reactor → ℕ → EventFlag → Event → Bool
passes r fd tcp_server_accept e = are_in_table e.accepts
passes r fd tcp_server_read e = is_request e.read
passes r fd tcp_server_send e = can_be_sent r fd
passes r fd _ e = true

abbrev pub item_passes : Reactor → SockItem → Event → Bool
item_passes r i e = if pos i.fd ==ℤ r.svr_fd then passes r i.fd i.flag e else elim i.flag [
  | tcp_server_read ↦ is_request e.read
  | tcp_server_send ↦ can_be_sent r i.fd
  | udp_read ↦ is_datagram e.read
  | _ ↦ true
]

-- An event, in the state in which it is handled.
abbrev pub event_passes : {K : Type 0} → Netio K → Event → Bool
event_passes s e = if e.rdhup then true else item_passes s.reactor (s.reactor.socks e.sock) e

abbrev pub is_index : ℤ → Bool
is_index (pos n) = ltb n 1024
is_index (negsuc n) = false

-- What `msgrcv` gives the front process: bytes that fit the buffer, and, if there are any, that end in
-- it as a text and name a place of the table of messages.
abbrev pub message_passes : Received → Bool
message_passes (got text) =
    if ltb buf_size (length text)
    then false
    else if length text == 0
    then true
    else is_terminated text && is_index (init_ccmd new_cmd text).fd
message_passes _ = true
