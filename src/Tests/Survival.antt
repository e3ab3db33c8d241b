-- ===== src/Tests/Survival.antt =====
-- The theorems on what the front process survives (netio/src/reactor.cpp), with one connection.
use middlewar_test.Base.{
  List, ◌++◌, ◌==◌, assign, if◌then◌else◌, ◌≡◌, refl, true, false, some, [], ◌∷◌, codes, is_some,
  Ensures, to_int, find_key, pos,
}
use middlewar_test.Command.{
  take_params, take_param, int_param, init_ccmd, c_str, join_pairs, to_buffer,
}
use middlewar_test.Command.Number.{atoll, read_signed, read_digits, print_int, digits}
use middlewar_test.Text.{
  split_loop, find_sep, split_string, trim, append_parts, append_pair, str_pair_append_to_map,
}
use middlewar_test.Text.Dictionary.{lookup, insert, erase}
use middlewar_test.Cache.Manager.{incr, section_of}
use middlewar_test.Cache.Hash.{find, add, hash_value}
use middlewar_test.Queue.{get_msg_queue, get_msg, put_msg, add_msg_queue}
use middlewar_test.Netio.{
  Netio, index_of, Event, bytes, process_event, process_events, by_item, tcp_handle, do_recv,
  do_conn, forward, route, message, request_of, process_one, on_event_fire, is_text,
}
use middlewar_test.Netio.Loop.{Answers, check_events, watch_channels, front_main}
use middlewar_test.Netio.Survival.{Serves}
use middlewar_test.Netio.Survival.Rounds.{rounds_pass, stops_exactly}
use middlewar_test.Netio.Survival.Main.{main_lasts}
use middlewar_test.Tests.Kernel.{Letter, mailbox, take_letter}
use middlewar_test.Tests.Front.{no_addr}
use middlewar_test.Tests.Sockets.{no_text, client}
use middlewar_test.Tests.Tables.{cache, cache-AllReady}
use middlewar_test.Tests.Served.{readable}
use middlewar_test.Tests.Started.{all_well, after_round, front_after}
use middlewar_test.Reactor.{
  tcp_server_accept, udp_read, ctl_add, new_reactor, is_none, watch, sock_valid, add_to_watch_list,
}
use middlewar_test.Reactor.Setup
use middlewar_test.Reactor.Setup.{keep_item, init_tcp_svr, init_usock_udp_svr}
use middlewar_test.Queue
use middlewar_test.Tests.Relayed.{relay_front}
use middlewar_test.Tests.World.{first, process, with_free}
use middlewar_test.Dispatch.{new_service}
use middlewar_test.Container
use middlewar_test.Container.{Container}
use middlewar_test.Container.Services.{NoStack, svc_test}
use middlewar_test.Container.Survival.{Runs}
use middlewar_test.Container.Survival.Rounds.{container_stops_exactly}

relay_front-Serves : Serves relay_front
unfolding get_msg_queue find_key
relay_front-Serves = record {
  counts = cache-AllReady;
  responses = (_, refl);
  first = (_, refl);
  second = (_, refl);
}

-- A request for the command 3.
abbrev unknown : Event
unknown = record readable { read = bytes (codes "cmd=3") }

stops_exactly_example :
    (is_some (process_one mailbox no_text no_addr relay_front unknown) ≡ false)
    × Ensures Serves (process_one mailbox no_text no_addr relay_front unknown)
    × (is_some (on_event_fire mailbox no_text no_addr relay_front true) ≡ true)
    × Ensures Serves (on_event_fire mailbox no_text no_addr relay_front true)
unfolding init_ccmd take_params take_param int_param c_str str_pair_append_to_map split_string trim
    append_parts append_pair lookup insert erase split_loop join_pairs find_sep to_int atoll
    read_signed read_digits is_text get_msg_queue find_key take_letter
stops_exactly_example =
    stops_exactly mailbox no_text no_addr relay_front unknown true relay_front-Serves

-- A round that accepts the connection 17, and one in which it is read.
abbrev well_used : Answers
well_used = record all_well {
  rounds = all_well.rounds ++ record { waited = some (readable ∷ []); user_ok = true } ∷ [];
}

abbrev front_ready : Netio (List Letter)
front_ready = record front_after {
  reactor = record after_round {
    fds = 3 ∷ 4 ∷ [];
    events = 2;
    socks = λ m.
        if 4 == m
        then record { fd = 4; flag = udp_read; sock_addr = client }
        else if 3 == m
        then record { fd = 3; flag = tcp_server_accept; sock_addr = client }
        else (new_reactor (λ n. [])).socks m;
    ctls =
        record { op = ctl_add; ctl_fd = 3; for_write = false }
        ∷ record { op = ctl_add; ctl_fd = 4; for_write = false }
        ∷ [];
  };
}

front_set_up :
    front_main mailbox (λ n. []) no_addr cache [] (record well_used { rounds = [] })
    ≡ some front_ready
unfolding front_main Setup.init init_tcp_svr init_usock_udp_svr keep_item watch_channels
    add_to_watch_list watch sock_valid is_none new_reactor find_key add_msg_queue assign Queue.init
    index_of
front_set_up = refl

-- Every message and event of the two rounds passes.
used_well : rounds_pass mailbox (λ n. []) no_addr front_ready well_used.rounds ≡ true
unfolding init_ccmd take_params take_param int_param c_str str_pair_append_to_map split_string trim
    append_parts append_pair lookup insert erase split_loop join_pairs find_sep to_int atoll
    read_signed read_digits is_text get_msg_queue find_key take_letter on_event_fire get_msg
    process_event process_events process_one by_item tcp_handle do_recv forward incr section_of find
    add hash_value route put_msg check_events message to_buffer print_int request_of digits do_conn
    add_to_watch_list watch sock_valid is_none
used_well = refl

main_lasts_example :
    (s' : Netio (List Letter)) × (front_main mailbox (λ n. []) no_addr cache [] well_used ≡ some s')
    × Serves s'
main_lasts_example =
    main_lasts mailbox (λ n. []) no_addr cache [] well_used cache-AllReady front_set_up used_well

-- The process 40 has a free service, and a command waits that asks for a reply to a service under the
-- command 3.
abbrev asked_wrongly : Container (List Letter) NoStack
asked_wrongly =
    let s = process (with_free ((4001, new_service 4001) ∷ [])) in
    record s {
      world = record s.world {
        kernel = record { queue = 2; type = pos 1; text = codes "cmd=3&serialno=4105" } ∷ [];
      };
    }

asked_wrongly-Runs : Runs asked_wrongly
unfolding get_msg_queue find_key new_service
asked_wrongly-Runs = record {
  serving = record {
    counts = cache-AllReady;
    responses = (_, refl);
    first = (_, refl);
    second = (_, refl);
  };
  free_fresh = (refl, tt);
  busy_ended = tt;
}

container_stops_exactly_example :
    (is_some (Container.on_event_fire mailbox (svc_test mailbox []) asked_wrongly) ≡ false)
    × Ensures Runs (Container.on_event_fire mailbox (svc_test mailbox []) asked_wrongly)
unfolding init_ccmd take_params take_param int_param c_str str_pair_append_to_map split_string trim
    append_parts append_pair lookup insert erase split_loop join_pairs find_sep to_int atoll
    read_signed read_digits get_msg_queue find_key take_letter Queue.is_terminated
container_stops_exactly_example =
    container_stops_exactly mailbox [] asked_wrongly first asked_wrongly-Runs refl
