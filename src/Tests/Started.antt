-- ===== src/Tests/Started.antt =====
-- The theorem on the front process from `main` on (netio/src/netio.cpp), with a round that accepts a
-- connection.
use middlewar_test.Base.{
  replicate, List, ◌≡◌, refl, true, false, some, [], ◌∷◌, pos, find_key, assign, ◌==◌,
  if◌then◌else◌,
}
use middlewar_test.Queue.{get_msg_queue}
use middlewar_test.Queue
use middlewar_test.Queue.{net_io_back_msq_key, add_msg_queue, get_msg}
use middlewar_test.Reactor.{
  tcp_server_read, tcp_server_accept, udp_read, ctl_add, Reactor, new_reactor, is_none, watch,
  sock_valid, add_to_watch_list,
}
use middlewar_test.Reactor.Sane.{IsSane}
use middlewar_test.Reactor.Setup
use middlewar_test.Reactor.Setup.{created, keep_item, init_tcp_svr, init_usock_udp_svr}
use middlewar_test.Netio.{
  Netio, eof, conn, again, on_event_fire, process_one, by_item, tcp_handle, do_conn, index_of,
  process_event,
}
use middlewar_test.Netio.Loop.{Answers, watch_channels, front_main}
use middlewar_test.Netio.Invariant.{front_main-IsSane}
use middlewar_test.Tests.Kernel.{Letter, mailbox, take_letter}
use middlewar_test.Tests.Tables.{cache}
use middlewar_test.Tests.Front.{no_addr}
use middlewar_test.Tests.Sockets.{client}

-- All calls succeed, and the first round accepts the connection 17.
abbrev pub all_well : Answers
all_well = record {
  memory = λ n. replicate 1016 255;
  tcp = record {
    tcp_socket = some 3;
    tcp_reuse = true;
    tcp_bind = true;
    tcp_linger = true;
    tcp_listen = true;
    tcp_getfl = true;
    tcp_setfl = true;
  };
  udp = record {
    udp_socket = some 4;
    udp_reuse = true;
    udp_bind = true;
    udp_getfl = true;
    udp_setfl = true;
  };
  epoll = created;
  own_addr = client;
  unset_addr = client;
  svr_ok = true;
  usock_ok = true;
  rounds =
      record {
        waited = some (
            record {
              sock = 3;
              rdhup = false;
              accepts = conn 17 client true true true ∷ again ∷ [];
              read = eof;
              behind = [];
              ctl_ok = true;
            }
            ∷ []);
        user_ok = true;
      }
      ∷ [];
}

abbrev pub after_round : Reactor
after_round = record {
  fds = 3 ∷ 4 ∷ 17 ∷ [];
  svr_fd = pos 3;
  usock_fd = pos 4;
  events = 3;
  socks = λ m.
      if 17 == m
      then record { fd = 17; flag = tcp_server_read; sock_addr = client }
      else if 4 == m
      then record { fd = 4; flag = udp_read; sock_addr = client }
      else if 3 == m
      then record { fd = 3; flag = tcp_server_accept; sock_addr = client }
      else (new_reactor (λ n. [])).socks m;
  msgs = λ n. replicate 1016 255;
  ctls =
      record { op = ctl_add; ctl_fd = 3; for_write = false }
      ∷ record { op = ctl_add; ctl_fd = 4; for_write = false }
      ∷ record { op = ctl_add; ctl_fd = 17; for_write = false }
      ∷ [];
}

abbrev pub front_after : Netio (List Letter)
front_after = record {
  reactor = after_round;
  queues =
      (net_io_back_msq_key, record { id = net_io_back_msq_key; key = net_io_back_msq_key })
      ∷ (0xccccd, record { id = 0xccccd; key = 0xccccd })
      ∷ (0xcccce, record { id = 0xcccce; key = 0xcccce })
      ∷ [];
  cache = cache;
  kernel = [];
  sent = [];
}

pub front_started : front_main mailbox (λ n. []) no_addr cache [] all_well ≡ some front_after
unfolding front_main Setup.init init_tcp_svr init_usock_udp_svr keep_item watch_channels
    process_event add_to_watch_list watch sock_valid is_none new_reactor on_event_fire get_msg_queue
    find_key add_msg_queue assign Queue.init get_msg take_letter process_one by_item tcp_handle
    do_conn index_of
front_started = refl

front_main-IsSane_example : IsSane after_round
front_main-IsSane_example =
    front_main-IsSane mailbox (λ n. []) no_addr cache [] all_well front_started
