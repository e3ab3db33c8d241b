-- ===== src/Tests/Served.antt =====
-- The theorem on a request that is served (netio/src/tcp_net_handler.cpp, netio/src/svc_test.cpp).
use middlewar_test.Base.{
  List, ℕ, ◌≡◌, refl, true, false, some, [], ◌∷◌, codes, find_key, key_count, to_int, arith,
}
use middlewar_test.Cache.Hash.{find, add, hash_value}
use middlewar_test.Cache.Manager.{section_of, incr}
use middlewar_test.Command.{
  new_cmd, take_params, take_param, int_param, init_ccmd, c_str, join_pairs, to_string,
}
use middlewar_test.Command.Number.{atoll, read_signed, read_digits, print_int, digits}
use middlewar_test.Text.{
  split_loop, find_sep, split_string, trim, append_parts, append_pair, str_pair_append_to_map,
}
use middlewar_test.Text.Dictionary.{lookup, insert, erase}
use middlewar_test.Queue.{get_msg_queue}
use middlewar_test.Reactor.{tcp_server_read}
use middlewar_test.Netio.{Netio, message, on_event_fire, Event, bytes, eof, request_of, is_text}
use middlewar_test.Dispatch.{new_service}
use middlewar_test.Container.Services.{counter_key}
use middlewar_test.Queue.{get_msg}
use middlewar_test.Serving.Kept.{request_kept}
use middlewar_test.Serving.Front
use middlewar_test.Serving.Front.{Link}
use middlewar_test.Serving.Whole.{
  Scene, serve, AreOpen, HasFree, served_kernel, served_container, served_front, request_served,
}
use middlewar_test.Tests.Kernel.{take_letter, Letter, mailbox, mailbox-Fifo, letters}
use middlewar_test.Tests.Front.{front, asked, no_addr}
use middlewar_test.Tests.Sockets.{client, one_client}
use middlewar_test.Tests.World.{back, first, with_free, process}

abbrev pub readable : Event
readable = record {
  sock = 17;
  rdhup = false;
  accepts = [];
  read = bytes asked;
  behind = [];
  ctl_ok = true;
}

abbrev pub polled_front : Netio (List Letter)
polled_front = record front {
  reactor = record one_client {
    socks = λ n. record { fd = n; flag = tcp_server_read; sock_addr = client };
  };
}

-- The connection 17 has sent `cmd=1&x=y`, and the process 40 has a free `CSvcTest`.
abbrev pub link : Link
link = record {
  ipc = mailbox;
  ntoa = λ n. codes "10.0.0.1";
  inet_addr = no_addr;
  g = polled_front;
  f = polled_front;
  fd = 17;
  text = asked;
  e = readable;
  e' = record readable { read = eof };
}

abbrev pub scene : Scene
scene = record {
  link = link;
  fifo = mailbox-Fifo;
  behind = [];
  s = process (with_free ((4001, new_service 4001) ∷ []));
  q1 = first;
  back = back;
}

scene-Stands : Front.Stands link
scene-Stands = record {
  in_range = omega arith;
  no_server = refl;
  own_fd = refl;
  own_flag = refl;
  port_short = omega arith;
  family_short = omega arith;
  plain_address = ground arith;
  short_address = omega arith;
}

scene-Asks : Front.Asks link 1
unfolding request_of is_text init_ccmd take_params take_param int_param c_str str_pair_append_to_map
    split_string trim append_parts append_pair lookup insert erase split_loop join_pairs find_sep
    to_int atoll read_signed read_digits to_string print_int digits incr section_of find add
    hash_value on_event_fire get_msg get_msg_queue find_key take_letter
scene-Asks = record {
  polled = refl;
  at = refl;
  up = refl;
  reads = refl;
  whole = refl;
  command = refl;
  short = omega arith;
  n = _;
  cache' = _;
  counted = refl;
  at' = refl;
  up' = refl;
}

scene-IsBare : Front.IsBare link
unfolding request_of is_text init_ccmd take_params take_param int_param c_str str_pair_append_to_map
    split_string trim append_parts append_pair lookup insert erase split_loop join_pairs find_sep
    to_int atoll read_signed read_digits to_string print_int digits incr section_of find add
    hash_value on_event_fire get_msg get_msg_queue find_key take_letter
scene-IsBare = record { no_ret = refl; no_serial = refl }

scene-AreOpen : AreOpen scene
unfolding find_key get_msg_queue letters
scene-AreOpen = record {
  sends_on = refl;
  takes_on = refl;
  hears_on = refl;
  replies_on = refl;
  no_requests = refl;
  no_responses = refl;
  request_sent = refl;
  reply_sent = refl;
}

scene-HasFree : HasFree scene 4001
unfolding key_count counter_key print_int digits incr section_of find add hash_value to_int
scene-HasFree = record {
  others = [];
  first_free = refl;
  not_waiting = refl;
  n = _;
  cache' = _;
  counted = refl;
}

request_served_example :
    (serve scene
      ≡ some (
        served_container scene scene-Stands scene-Asks scene-AreOpen scene-IsBare 4001
            scene-HasFree,
        served_front scene scene-Stands scene-Asks scene-AreOpen,
      ))
    × ((jd u : ℕ) → letters jd u (served_kernel scene) ≡ [])
unfolding letters
request_served_example =
    request_served scene scene-Stands scene-Asks scene-AreOpen scene-IsBare 4001 scene-HasFree

request_kept_example : init_ccmd new_cmd (message (Front.passed_on link)) ≡ Front.passed_on link
request_kept_example = request_kept link scene-Stands (omega arith)
