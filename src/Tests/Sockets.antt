-- ===== src/Tests/Sockets.antt =====
-- The theorems on netio/src/reactor.cpp, netio/src/tcp_net_handler.cpp and
-- netio/src/netio_user_event_handler.cpp, on a front process with one connection.
use middlewar_test.Base.{
  ℕ, ◌≡◌, refl, Bool, ◌&&◌, true, false, some, [], ◌∷◌, Bytes, ◌==◌, if◌then◌else◌, pos, arith,
}
use middlewar_test.Reactor.{
  tcp_server_read, tcp_server_send, SockAddr, ctl_add, Reactor, new_reactor, watches, is_none,
  watch, add_to_watch_list,
}
use middlewar_test.Reactor.Watch.{IsMirrored, registered}
use middlewar_test.Reactor.Guard.{add_to_watch_list-response}
use middlewar_test.Reactor.Setup.{TcpCalls, Done, init_tcp_svr}
use middlewar_test.Reactor.Setup.Result.{init_tcp_svr_result}
use middlewar_test.Netio.{do_close}
use middlewar_test.Netio.Lifecycle.{do_close-IsMirrored}

abbrev pub client : SockAddr
client = record { sin_family = 2; sin_port = 4711; sin_addr = 16777343 }

-- The connection 17, which is watched.
abbrev pub one_client : Reactor
one_client = record (new_reactor (λ n. [])) {
  fds = 17 ∷ [];
  svr_fd = pos 3;
  events = 1;
  socks = λ n. record { fd = n; flag = tcp_server_send; sock_addr = client };
  ctls = record { op = ctl_add; ctl_fd = 17; for_write = false } ∷ [];
}

one_client-IsMirrored : IsMirrored one_client
unfolding watches registered
one_client-IsMirrored = record {
  counted = refl;
  distinct = (refl, tt);
  mirrored = λ fd. ground arith;
}

abbrev pub no_text : ℕ → Bytes
no_text n = []

abbrev two_clients : Reactor
two_clients = record one_client {
  fds = 17 ∷ 18 ∷ [];
  events = 2;
  ctls =
      record { op = ctl_add; ctl_fd = 17; for_write = false }
      ∷ record { op = ctl_add; ctl_fd = 18; for_write = false }
      ∷ [];
}

add_to_watch_list-response_example :
    add_to_watch_list no_text one_client 17 tcp_server_send
      (some
        (record { fd = 17; flag = tcp_server_send; sock_addr = record client { sin_addr = 1 } }))
      true
      true
    ≡ some (
        watch one_client 17 tcp_server_send
          (some (record {
            fd = 17;
            flag = tcp_server_send;
            sock_addr = record client { sin_addr = 1 };
          }))
          true)
unfolding is_none
add_to_watch_list-response_example =
    add_to_watch_list-response no_text one_client 17 tcp_server_send
      (record { fd = 17; flag = tcp_server_send; sock_addr = record client { sin_addr = 1 } }) true
      (omega arith)

abbrev busy_port : TcpCalls
busy_port = record {
  tcp_socket = some 3;
  tcp_reuse = true;
  tcp_bind = false;
  tcp_linger = true;
  tcp_listen = true;
  tcp_getfl = true;
  tcp_setfl = true;
}

init_tcp_svr_result_example :
    (d : Done) × (init_tcp_svr busy_port one_client client ≡ some d)
    × ((d.code == 0) ≡ false)
    × (d.closes ≡ 3 ∷ [])
    × (d.reactor.svr_fd ≡ pos 3)
    × ((m : ℕ) → (d.reactor.socks m).flag ≡ (one_client.socks m).flag)
init_tcp_svr_result_example = init_tcp_svr_result busy_port one_client client refl

do_close-IsMirrored_example :
    IsMirrored (do_close one_client 17 true)
    × ((ok : Bool) (y : ℕ)
        → (registered y false (do_close one_client 17 ok).ctls
            ≡ (if 17 == y then false else watches y one_client.fds))
          × (watches y (do_close one_client 17 ok).fds
              ≡ (if ok && 17 == y then false else watches y one_client.fds)))
    × ((ok : Bool) → is_none ((do_close one_client 17 ok).socks 17).flag ≡ true)
do_close-IsMirrored_example = do_close-IsMirrored one_client 17 one_client-IsMirrored

abbrev accepted : Reactor
accepted = record two_clients {
  socks = λ m.
      if 18 == m
      then record { fd = 18; flag = tcp_server_read; sock_addr = client }
      else one_client.socks m;
}
