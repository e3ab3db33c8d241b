-- ===== src/Tests/Relayed.antt =====
-- The theorem on a request over three processes: the front process (netio/src/tcp_net_handler.cpp)
-- and the containers of `CSvcTest2` and `CSvcTest` (netio/src/svc_test2.cpp, netio/src/svc_test.cpp).
use middlewar_test.Base.{
  List, Bytes, ℕ, ◌≡◌, refl, some, [], codes, find_key, key_count, to_int, arith,
}
use middlewar_test.Cache.Hash.{find, add, hash_value}
use middlewar_test.Cache.Manager.{section_of, incr}
use middlewar_test.Command.{
  take_params, take_param, int_param, init_ccmd, c_str, join_pairs, to_string,
}
use middlewar_test.Command.Number.{atoll, read_signed, read_digits, print_int, digits}
use middlewar_test.Text.{
  split_loop, find_sep, split_string, trim, append_parts, append_pair, str_pair_append_to_map,
}
use middlewar_test.Text.Dictionary.{lookup, insert, erase}
use middlewar_test.Queue.{get_msg_queue}
use middlewar_test.Reactor.{tcp_server_read}
use middlewar_test.Netio.{Netio, on_event_fire, bytes, eof, request_of, is_text}
use middlewar_test.Container.Services.{counter_key}
use middlewar_test.Queue.{get_msg}
use middlewar_test.Serving.Front
use middlewar_test.Serving.Front.{Link}
use middlewar_test.Tests.Kernel.{take_letter, Letter, mailbox, mailbox-Fifo, letters}
use middlewar_test.Tests.Front.{front, no_addr}
use middlewar_test.Tests.Sockets.{client, one_client}
use middlewar_test.Tests.World.{back, first}
use middlewar_test.Serving.Relay
use middlewar_test.Container.Dialogue.{Meets}
use middlewar_test.Tests.World.{second, world}
use middlewar_test.Tests.Served.{readable}
use middlewar_test.Tests.Dialogues.{asks, answers}

abbrev asked_two : Bytes
asked_two = codes "cmd=2&x=y"

abbrev pub relay_front : Netio (List Letter)
relay_front = record front {
  queues = world.queues;
  reactor = record one_client {
    socks = λ n. record { fd = n; flag = tcp_server_read; sock_addr = client };
  };
}

-- The connection 17 has sent `cmd=2&x=y`.
abbrev relay_link : Link
relay_link = record {
  ipc = mailbox;
  ntoa = λ n. codes "10.0.0.1";
  inet_addr = no_addr;
  g = relay_front;
  f = relay_front;
  fd = 17;
  text = asked_two;
  e = record readable { read = bytes asked_two };
  e' = record readable { read = eof };
}

-- The process 40 has the container of `CSvcTest2`, the process 41 that of `CSvcTest`.
abbrev scene : Relay.Scene
scene = record {
  link = relay_link;
  fifo = mailbox-Fifo;
  behind = [];
  s2 = asks;
  s1 = answers;
  i = 4001;
  j = 4102;
  q1 = first;
  q2 = second;
  back = back;
}

relay-Stands : Front.Stands relay_link
relay-Stands = record {
  in_range = omega arith;
  no_server = refl;
  own_fd = refl;
  own_flag = refl;
  port_short = omega arith;
  family_short = omega arith;
  plain_address = ground arith;
  short_address = omega arith;
}

relay-Asks : Front.Asks relay_link 2
unfolding request_of is_text init_ccmd take_params take_param int_param c_str str_pair_append_to_map
    split_string trim append_parts append_pair lookup insert erase split_loop join_pairs find_sep
    to_int atoll read_signed read_digits to_string print_int digits incr section_of find add
    hash_value on_event_fire get_msg get_msg_queue find_key take_letter
relay-Asks = record {
  polled = refl;
  at = refl;
  up = refl;
  reads = refl;
  whole = refl;
  command = refl;
  short = omega arith;
  n = _;
  cache' = _;
  counted = refl;
  at' = refl;
  up' = refl;
}

scene-AreOpen : Relay.AreOpen scene
unfolding find_key get_msg_queue letters
scene-AreOpen = record {
  sends_on = refl;
  takes_on = refl;
  first_second = refl;
  no_questions = refl;
  no_requests = refl;
  no_answers = refl;
  no_responses = refl;
  request_sent = refl;
  question_sent = refl;
  answer_sent = refl;
  reply_sent = refl;
}

they_meet : Meets mailbox mailbox-Fifo [] first second back (Relay.asked scene) answers 4001 4102
unfolding find_key key_count get_msg_queue counter_key print_int digits incr section_of find add
    hash_value to_int
they_meet = record {
  place = 1;
  number = omega arith;
  few = omega arith;
  process = omega arith;
  is_int = omega arith;
  others = [];
  first_free = refl;
  not_waiting = refl;
  no_zero = refl;
  n2 = _;
  cache2 = _;
  counted2 = refl;
  asks_on = refl;
  hears_on = refl;
  replies_on = refl;
  others1 = [];
  first_free1 = refl;
  not_waiting1 = refl;
  n1 = _;
  cache1 = _;
  counted1 = refl;
  hears1_on = refl;
  answers_on = refl;
}

request_relayed_example :
    (Relay.serve scene
      ≡ some (
        Relay.other_end scene relay-Stands relay-Asks scene-AreOpen they_meet,
        Relay.asked_end scene relay-Stands relay-Asks scene-AreOpen they_meet,
        Relay.served_front scene relay-Stands relay-Asks scene-AreOpen they_meet,
      ))
    × ((jd u : ℕ) → letters jd u (Relay.served_kernel scene) ≡ [])
unfolding letters
request_relayed_example =
    Relay.request_relayed scene relay-Stands relay-Asks scene-AreOpen they_meet
