-- ===== src/Netio/Loop.antt =====
-- `CReactor::CheckEvents` and `CReactor::RunEventLoop` (netio/src/reactor.cpp) in the front process,
-- and its `main` (netio/src/netio.cpp). The loop goes on for ever: a run is over a list of the rounds
-- that have passed. `ProcessEvent` returns 0, for the handlers do, so no round ends the loop.
use middlewar_test.Base.{
  ℕ, Bool, true, false, Option, none, some, List, [], ◌∷◌, Bytes, if◌then◌else◌, ◌>>=◌, ℤ, pos,
  ◌==ℤ◌,
}
use middlewar_test.Cache.Manager
use middlewar_test.Queue.{Ipc, net_io_back_msq_key, cmd_dll_keys, add_msg_queue}
use middlewar_test.Queue
use middlewar_test.Reactor.{
  EventFlag, tcp_server_accept, udp_read, Reactor, new_reactor, max_epoll_event_num, SockAddr,
  add_to_watch_list,
}
use middlewar_test.Reactor.Setup.{TcpCalls, UdpCalls, EpollCreate}
use middlewar_test.Reactor.Setup
use middlewar_test.Netio.{Netio, Event, index_of, process_event}

-- A round: what `epoll_wait` answers, nothing for an error, and whether the call of `epoll_ctl` by
-- the user's handler succeeds.
pub record Round : Type 0 where
  pub waited : Option (List Event)
  pub user_ok : Bool

-- `CheckEvents`: an error counts as no event.
unfoldable pub check_events : Option (List Event) → List Event
check_events none = []
check_events (some es) = es

-- One of the two channels, if it was set up. `none`: its item lies outside of the table.
unfoldable pub watch_channel : (ℕ → Bytes) → Reactor → ℤ → EventFlag → Bool → Option Reactor
watch_channel ntoa r fd todo ok = if fd ==ℤ pos 0 then some r else do
  n ← index_of max_epoll_event_num fd
  (c, r') ← add_to_watch_list ntoa r n todo none false ok
  some r'

unfoldable pub watch_channels : (ℕ → Bytes) → Reactor → Bool → Bool → Option Reactor
unfolding watch_channel
watch_channels ntoa r svr_ok usock_ok = do
  r' ← watch_channel ntoa r r.svr_fd tcp_server_accept svr_ok
  watch_channel ntoa r' r'.usock_fd udp_read usock_ok

-- What the memory of the reactor's messages holds before `main`, and what the calls of the set-up and of
-- the loop answer.
pub record Answers : Type 0 where
  pub memory : ℕ → Bytes
  pub tcp : TcpCalls
  pub udp : UdpCalls
  pub epoll : EpollCreate
  pub own_addr : SockAddr
  pub unset_addr : SockAddr
  pub svr_ok : Bool
  pub usock_ok : Bool
  pub rounds : List Round

module _ (ipc : Ipc) where
  open ipc use {Kernel}

  -- The queue of the responses and one for each command.
  unfoldable pub open_queues : Queue.Manager → List ℕ → Kernel → Queue.Manager × Kernel
  open_queues m [] kernel = (m, kernel)
  open_queues m (k ∷ ks) kernel =
      let (code, m', kernel') = add_msg_queue ipc m k kernel in open_queues m' ks kernel'

  unfoldable pub program_queues : Kernel → Queue.Manager × Kernel
  unfolding open_queues
  program_queues kernel = open_queues [] (net_io_back_msq_key ∷ cmd_dll_keys) kernel

module _ (ipc : Ipc) (ntoa : ℕ → Bytes) (inet_addr : Bytes → ℕ) where
  open ipc use {Kernel}

  unfoldable pub event_rounds : Netio Kernel → List Round → Option (Netio Kernel)
  unfolding check_events
  event_rounds s [] = some s
  event_rounds s (x ∷ xs) = do
    s' ← process_event ipc ntoa inet_addr s x.user_ok (check_events x.waited)
    event_rounds s' xs

  unfoldable pub run_event_loop : Netio Kernel → Bool → Bool → List Round → Option (Netio Kernel)
  unfolding event_rounds
  run_event_loop s svr_ok usock_ok rounds = do
    r ← watch_channels ntoa s.reactor svr_ok usock_ok
    event_rounds (record s { reactor = r }) rounds

  -- `main`. The code of `Init` is only printed.
  unfoldable pub front_main : Manager.Manager → Kernel → Answers → Option (Netio Kernel)
  unfolding program_queues run_event_loop
  front_main cache kernel a = do
    let (queues, kernel') = program_queues ipc kernel
    d ← Setup.init true true a.tcp a.udp a.epoll a.own_addr a.unset_addr (new_reactor a.memory)
    let s : Netio Kernel = record {
      reactor = d.reactor;
      queues = queues;
      cache = cache;
      kernel = kernel';
      sent = [];
    }
    run_event_loop s a.svr_ok a.usock_ok a.rounds
