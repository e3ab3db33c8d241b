-- ===== src/Tests/Containers.antt =====
-- The theorems on netio/src/container_user_event_handler.cpp and on requests to `CSvcTest`
-- (netio/src/svc_test.cpp), with one service.
use middlewar_test.Base.{
  ℤ, ◌≡◌, refl, some, List, [], ◌∷◌, codes, pos, find_key, key_count, assign, to_int, arith,
}
use middlewar_test.Cache.Hash.{find, add, hash_value}
use middlewar_test.Cache.Manager.{section_of, incr}
use middlewar_test.Command.{join_pairs, Cmd}
use middlewar_test.Command.Number.{print_int, digits}
use middlewar_test.Queue.{response, get_msg_queue}
use middlewar_test.Netio.{message, route}
use middlewar_test.Dispatch.{new_service, unfinish_task_ret_flag, no_free_svc_handler}
use middlewar_test.Container.{Container, app_type, process_msg}
use middlewar_test.Container.Replies.{busy_answered}
use middlewar_test.Container.Services.{NoStack, counter_key, count_run, question, svc_test}
use middlewar_test.Container.Answering.{answer_to, question_answered}
use middlewar_test.Text.Pairs.{IsPlain-IsValue}
use middlewar_test.Command.Buffer.{IsReadable}
use middlewar_test.Tests.Kernel.{Letter, mailbox}
use middlewar_test.Tests.World.{asked, back, second, world, with_free, process, counted_one}

abbrev one_free : Container (List Letter) NoStack
one_free = process (with_free ((4001, new_service 4001) ∷ []))

question_answered_example :
    process_msg mailbox (svc_test mailbox []) one_free (question 4105)
    ≡ some (record one_free {
      dispatcher = record one_free.dispatcher { cur_cmd = answer_to mailbox [] (question 4105) };
      world = record counted_one {
        kernel =
            record {
              queue = 3;
              type = pos 413;
              text = message (answer_to mailbox [] (question 4105));
            }
            ∷ [];
      };
    })
unfolding find_key key_count get_msg_queue assign route question app_type count_run counter_key
    print_int digits incr section_of find add hash_value to_int
question_answered_example =
    question_answered mailbox [] one_free 4001 41 5 [] (question 4105) counted_one 0xcccce second
      refl refl (ground arith) refl refl (omega arith) (omega arith) refl refl refl

abbrev odd : Cmd
odd = record asked { ret = unfinish_task_ret_flag }

abbrev none_free : Container (List Letter) NoStack
none_free = process (with_free [])

busy_answered_example :
    process_msg mailbox (svc_test mailbox []) none_free asked
    ≡ some (record none_free {
      dispatcher = record none_free.dispatcher { cur_cmd = asked };
      world = record world {
        kernel =
            record {
              queue = 1;
              type = response;
              text = message (record asked {
                ret = no_free_svc_handler;
                payload = codes "errCode=21&resp=Err happend! by pid:40";
                type = response;
              });
            }
            ∷ [];
        notices = 1;
      };
    })
unfolding find_key get_msg_queue print_int digits
busy_answered_example =
    busy_answered mailbox (svc_test mailbox []) none_free asked back refl (ground arith) refl refl

pub question-IsReadable : IsReadable (question 4105) []
unfolding join_pairs question
question-IsReadable = record {
  ints = record {
    ret_int = omega arith;
    type_int = omega arith;
    cmd_int = omega arith;
    fd_int = omega arith;
    index_int = omega arith;
    serial_int = omega arith;
    family_int = omega arith;
    port_int = omega arith;
  };
  address = IsPlain-IsValue [] tt;
  data_pairs = record {
    sorted = tt;
    plain = tt;
    foreign = (tt, (tt, (tt, (tt, (tt, (tt, (tt, (tt, (tt, tt)))))))));
  };
  data_text = refl;
}

-- The container of `CSvcTest` with a message for it.
abbrev with_letter : ℤ → Container (List Letter) NoStack
with_letter t = record one_free {
  world = record world {
    kernel = record { queue = 2; type = t; text = message (question 4105) } ∷ [];
  };
}
