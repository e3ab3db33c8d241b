-- ===== src/Tests/Front.antt =====
-- The theorems on the front process (netio/src/tcp_net_handler.cpp,
-- netio/src/netio_user_event_handler.cpp), with one connection and the queues of the mailbox.
use middlewar_test.Base.{
  ℕ, ◌≡◌, refl, true, false, some, List, [], ◌∷◌, Bytes, codes, ◌>>=◌, pos, to_int, arith,
}
use middlewar_test.Cache.Manager.{net_io, put_table}
use middlewar_test.Command.{
  take_params, take_param, int_param, new_cmd, init_ccmd, c_str, join_pairs,
}
use middlewar_test.Command.Number.{atoll, read_signed, read_digits}
use middlewar_test.Text.{
  split_loop, find_sep, split_string, trim, append_parts, append_pair, str_pair_append_to_map,
}
use middlewar_test.Text.Dictionary.{lookup, insert, erase}
use middlewar_test.Queue.{MsgQueue, request, response, net_io_back_msq_key, get_msg_queue, get_msg}
use middlewar_test.Queue.Laws.{is_terminated-short}
use middlewar_test.Reactor.{tcp_server_send, Reactor, set_sock, watch, is_none}
use middlewar_test.Netio.{
  Netio, Event, eof, request_of, message, route, forward, do_close, on_event_fire, process_one,
  response_item, set_msg, short_of, close_fd,
}
use middlewar_test.Netio.Routing.{request_forwarded}
use middlewar_test.Netio.Responses.{
  Arrives, answer_text, names_peer, waiting, on_event_fire_response, response_delivered,
}
use middlewar_test.Tests.Kernel.{Letter, mailbox, take_letter}
use middlewar_test.Tests.Sockets.{one_client, no_text}
use middlewar_test.Tests.Tables.{cache, table_at}

abbrev pub no_addr : Bytes → ℕ
no_addr s = 0

abbrev back : MsgQueue
back = record { id = 1; key = net_io_back_msq_key }

abbrev first : MsgQueue
first = record { id = 2; key = 0xccccd }

abbrev pub front : Netio (List Letter)
front = record {
  reactor = one_client;
  queues = (net_io_back_msq_key, back) ∷ (0xccccd, first) ∷ [];
  cache = cache;
  kernel = [];
  sent = [];
}

abbrev pub asked : Bytes
asked = codes "cmd=1&x=y"

request_forwarded_example :
    let m = message (request_of no_text one_client 17 (init_ccmd new_cmd asked)) in
    forward mailbox no_text no_addr front 17 asked
    ≡ some (
      pos 0,
      record front {
        kernel = record { queue = 2; type = request; text = m } ∷ [];
        reactor = set_sock one_client 17 (record (one_client.socks 17) { flag = tcp_server_send });
      },
    )
unfolding init_ccmd take_params take_param int_param c_str str_pair_append_to_map split_string trim
    append_parts append_pair lookup insert erase split_loop join_pairs find_sep to_int atoll
    read_signed read_digits route get_msg_queue
request_forwarded_example =
    request_forwarded mailbox no_text no_addr front 17 asked 0xccccd first refl refl

abbrev answer : Bytes
answer = codes "fd=17&family=2&cliPort=4711&a=b"

abbrev answered : Netio (List Letter)
answered = record front { kernel = record { queue = 1; type = response; text = answer } ∷ [] }

answer-Arrives : Arrives mailbox no_text no_addr answered answer 17 []
unfolding init_ccmd take_params take_param int_param c_str str_pair_append_to_map split_string trim
    append_parts append_pair lookup insert erase split_loop join_pairs find_sep to_int atoll
    read_signed read_digits get_msg_queue get_msg take_letter
answer-Arrives = record {
  queue = back;
  open_queue = refl;
  len = 31;
  some_bytes = refl;
  taken = refl;
  ends = is_terminated-short answer (omega arith);
  names_fd = refl;
  in_range = omega arith;
}

on_event_fire_response_example :
    on_event_fire mailbox no_text no_addr answered true
    ≡ some (record front {
      reactor =
          (watch
            (set_msg one_client 17 (answer_text (init_ccmd new_cmd answer)))
            17
            tcp_server_send
            (some (response_item no_addr 17 (init_ccmd new_cmd answer)))
            true).1;
    })
unfolding is_none names_peer short_of init_ccmd take_params take_param int_param c_str
    str_pair_append_to_map split_string trim append_parts append_pair lookup insert erase split_loop
    join_pairs find_sep to_int atoll read_signed read_digits watch
on_event_fire_response_example =
    on_event_fire_response mailbox no_text no_addr answered true answer 17 [] answer-Arrives

abbrev writable : Event
writable = record { sock = 17; rdhup = false; accepts = []; read = eof; behind = []; ctl_ok = true }

response_delivered_example :
    (on_event_fire mailbox no_text no_addr answered true >>= λ s.
    process_one mailbox no_text no_addr s writable)
    ≡ some (record front {
      reactor =
          do_close
            (waiting mailbox no_text no_addr one_client 17 (init_ccmd new_cmd answer))
            17
            true;
      sent = (17, c_str (answer_text (init_ccmd new_cmd answer))) ∷ [];
    })
unfolding is_none names_peer short_of init_ccmd take_params take_param int_param c_str
    str_pair_append_to_map split_string trim append_parts append_pair lookup insert erase split_loop
    join_pairs find_sep to_int atoll read_signed read_digits
response_delivered_example =
    response_delivered mailbox no_text no_addr answered answer 17 [] writable answer-Arrives refl
      refl refl refl refl

-- The front process once the connection 17 has ended before its request.
abbrev hung_up : Netio (List Letter)
hung_up = record front {
  cache =
      put_table cache net_io
        (table_at 1004 1 (record { has_set = true; invalid = false; node = pos 1 } ∷ []));
  reactor = close_fd one_client 17;
}
