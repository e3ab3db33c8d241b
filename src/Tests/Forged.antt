-- ===== src/Tests/Forged.antt =====
-- The theorem on a client's request with the number of a service (netio/src/tcp_net_handler.cpp,
-- netio/src/service_dispatcher.cpp).
use middlewar_test.Base.{
  List, ◌≡◌, refl, true, some, [], ◌∷◌, bytes_eq, codes, find_key, key_count, to_int, arith,
}
use middlewar_test.Cache.Hash.{find, add, hash_value}
use middlewar_test.Cache.Manager.{section_of, incr}
use middlewar_test.Command.{
  take_params, take_param, int_param, init_ccmd, c_str, join_pairs, to_string,
}
use middlewar_test.Command.Number.{atoll, read_signed, read_digits, print_int, digits}
use middlewar_test.Text.{
  split_loop, find_sep, split_string, trim, append_parts, append_pair, str_pair_append_to_map,
}
use middlewar_test.Text.Dictionary.{lookup, insert, erase, key_lt}
use middlewar_test.Queue.{get_msg_queue}
use middlewar_test.Netio.{on_event_fire, bytes, request_of, is_text}
use middlewar_test.Dispatch.{new_service}
use middlewar_test.Container.Services.{counter_key}
use middlewar_test.Queue.{get_msg}
use middlewar_test.Serving.Front
use middlewar_test.Serving.Front.{Link}
use middlewar_test.Serving.Whole.{HasFree}
use middlewar_test.Tests.Kernel.{take_letter, Letter, mailbox, letters}
use middlewar_test.Tests.Front.{no_addr}
use middlewar_test.Tests.Served.{scene, link, polled_front, readable}
use middlewar_test.Serving.Whole.{Scene}
use middlewar_test.Container.{Container}
use middlewar_test.Container.Services.{NoStack}
use middlewar_test.Serving.Forged.{Forges, misled_container, forged_number_stops}
use middlewar_test.Netio.{process_event}
use middlewar_test.Container
use middlewar_test.Container.Services.{svc_test}
use middlewar_test.Container.Dialogue.{in_kernel}
use middlewar_test.Base.{Bytes, none}
use middlewar_test.Tests.World.{world, first, with_free, process}

abbrev forged_text : Bytes
forged_text = codes "cmd=1&serialno=4105&x=y"

-- The connection 17 has sent `cmd=1&serialno=4105&x=y`.
abbrev forged_link : Link
forged_link = record link { text = forged_text; e = record readable { read = bytes forged_text } }

abbrev forged_scene : Scene
forged_scene = record scene { link = forged_link }

-- The process 41 has a `CSvcTest` that is free.
abbrev victim : Container (List Letter) NoStack
victim = record (process (with_free ((4101, new_service 4101) ∷ []))) { pid = 41 }

forged-Stands : Front.Stands forged_link
forged-Stands = record {
  in_range = omega arith;
  no_server = refl;
  own_fd = refl;
  own_flag = refl;
  port_short = omega arith;
  family_short = omega arith;
  plain_address = ground arith;
  short_address = omega arith;
}

forged-Asks : Front.Asks forged_link 1
unfolding request_of is_text init_ccmd take_params take_param int_param c_str str_pair_append_to_map
    split_string trim append_parts append_pair lookup insert erase split_loop join_pairs find_sep
    to_int atoll read_signed read_digits to_string print_int digits incr section_of find add
    hash_value on_event_fire get_msg get_msg_queue find_key take_letter
forged-Asks = record {
  polled = refl;
  at = refl;
  up = refl;
  reads = refl;
  whole = refl;
  command = refl;
  short = omega arith;
  n = _;
  cache' = _;
  counted = refl;
  at' = refl;
  up' = refl;
}

forged-HasFree : HasFree forged_scene 4001
unfolding key_count counter_key print_int digits incr section_of find add hash_value to_int
forged-HasFree = record {
  others = [];
  first_free = refl;
  not_waiting = refl;
  n = _;
  cache' = _;
  counted = refl;
}

scene-Forges : Forges forged_scene victim 5
unfolding find_key get_msg_queue letters key_count init_ccmd take_params take_param int_param c_str
    str_pair_append_to_map split_string trim append_parts append_pair lookup insert erase split_loop
    join_pairs find_sep to_int atoll read_signed read_digits key_lt bytes_eq
scene-Forges = record {
  no_ret = refl;
  number = refl;
  process = omega arith;
  few = omega arith;
  not_waiting = refl;
  sends_on = refl;
  hears_on = refl;
  answers_on = refl;
  victim_hears_on = refl;
  no_requests = refl;
  no_answers = refl;
  request_sent = refl;
  answer_sent = refl;
}

forged_number_stops_example :
    (process_event mailbox (λ n. codes "10.0.0.1") no_addr polled_front true (forged_link.e ∷ [])
      ≡ some (
          Front.has_read forged_link forged-Stands 1 forged-Asks (Front.sent_on forged_link first)))
    × (Container.on_event_fire mailbox
          (svc_test mailbox [])
          (in_kernel forged_scene.s (Front.sent_on forged_link first))
        ≡ some (
            misled_container forged_scene victim 5 forged-Stands forged-Asks scene-Forges 4001
              forged-HasFree))
    × (world.notices ≡ 0)
    × (Container.on_event_fire mailbox (svc_test mailbox []) (
          in_kernel victim
            (misled_container forged_scene victim 5 forged-Stands forged-Asks scene-Forges 4001
              forged-HasFree).world.kernel)
        ≡ none)
forged_number_stops_example =
    forged_number_stops forged_scene victim 5 forged-Stands forged-Asks scene-Forges 4001
      forged-HasFree
