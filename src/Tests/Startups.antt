-- ===== src/Tests/Startups.antt =====
-- The theorems on netio/src/container.cpp and netio/src/service_loader.cpp, with the one library of
-- `CSvcTest` for every command.
use middlewar_test.Base.{
  length, negsuc, ◌≡◌, refl, some, none, List, [], ◌∷◌, pos, assign, find_key, to_int, arith,
  key_count,
}
use middlewar_test.Command.Number.{print_int, digits}
use middlewar_test.Cache.Hash.{find, add, hash_value}
use middlewar_test.Cache.Manager.{section_of, incr}
use middlewar_test.Command.{to_string}
use middlewar_test.Queue.{request, get_msg_queue, add_msg_queue}
use middlewar_test.Netio.{message, route}
use middlewar_test.Container.{Container, app_type, Program, process_msg, on_event_fire}
use middlewar_test.Container.Services.{NoStack, svc_test, question, count_run, counter_key}
use middlewar_test.Container.Loader.{
  Library, Loader, new_loader, load_service, clean_services, get_service_factory, IsAmong,
  factory_stale,
}
use middlewar_test.Container.Notify.{resp_notifies, resp_notifies-open}
use middlewar_test.Reactor.{erase_fd}
use middlewar_test.Container.Main.{at_start, event_rounds}
use middlewar_test.Container.Main.Invariant.{IsServing, container_main-some, container_run}
use middlewar_test.Container.Answering.{answer_to, question_answered}
use middlewar_test.Container.Exchange.{request_handled}
use middlewar_test.Tests.Containers.{question-IsReadable}
use middlewar_test.Tests.World.{counted_one}
use middlewar_test.Container.Startup.{add_services}
use middlewar_test.Dispatch.{add_svc_handler, new_service}
use middlewar_test.Netio.Loop.{program_queues}
use middlewar_test.Tests.Kernel.{Letter, mailbox, take_letter}
use middlewar_test.Tests.Tables.{cache}

abbrev library : Library Unit
library = record { handle = some 7; factory = some tt }

abbrev no_symbol : Library Unit
no_symbol = record { handle = some 9; factory = none }

abbrev loaded : Loader Unit
loaded = record { handlers = (0xccccd, 7) ∷ []; factories = (0xccccd, tt) ∷ [] }

factory_stale_example :
    IsAmong 7 (clean_services loaded).0
    × ((clean_services loaded).1.handlers ≡ [])
    × (get_service_factory (clean_services loaded).1 0xccccd ≡ (pos 0, some tt))
unfolding load_service assign
factory_stale_example = factory_stale new_loader 0xccccd 7 tt

abbrev pub letter : Letter
letter = record { queue = 0xccccd; type = request; text = message (question 4105) }

abbrev pub made_by : Unit {0} → Program (List Letter)
made_by f = svc_test mailbox []

abbrev pub waiting : Container (List Letter) NoStack
waiting = at_start mailbox 40 0xccccd cache (letter ∷ [])

-- Once the request is answered.
abbrev pub after : Container (List Letter) NoStack
after = record waiting {
  dispatcher = record waiting.dispatcher { cur_cmd = answer_to mailbox [] (question 4105) };
  world = record waiting.world {
    cache = counted_one.cache;
    kernel =
        record {
          queue = 0xcccce;
          type = pos 413;
          text = message (answer_to mailbox [] (question 4105));
        }
        ∷ [];
  };
}

abbrev pub taken : Container (List Letter) NoStack
taken = record waiting { world = record waiting.world { kernel = [] } }

pub letter_taken :
    on_event_fire mailbox (made_by tt) waiting
    ≡ process_msg mailbox (made_by tt) taken (question 4105)
unfolding find_key get_msg_queue take_letter question to_string print_int digits assign
    program_queues add_msg_queue
letter_taken =
    request_handled mailbox (made_by tt) waiting (record { id = 0xccccd; key = 0xccccd })
      (question 4105) [] refl question-IsReadable (omega arith) refl

pub letter_answered : process_msg mailbox (made_by tt) taken (question 4105) ≡ some after
unfolding find_key key_count get_msg_queue assign route question app_type count_run counter_key
    print_int digits incr section_of find add hash_value to_int add_services add_svc_handler
    new_service program_queues add_msg_queue
letter_answered =
    question_answered mailbox [] taken 4000 41 5 _ (question 4105) _ 0xcccce
      (record { id = 0xcccce; key = 0xcccce }) refl refl (ground arith) refl refl (omega arith)
      (omega arith) refl refl refl

ran : event_rounds mailbox (made_by tt) 1 waiting ≡ some after
unfolding event_rounds
ran = rw (letter_taken, letter_answered) refl

container_run_example : IsServing mailbox made_by (λ k. library) 40 1 (tt, after)
unfolding route
container_run_example =
    container_run mailbox made_by 40 1 1 (λ k. library) cache (letter ∷ [])
      (container_main-some mailbox made_by 40 1 (λ k. library) cache (letter ∷ []) refl refl) ran

-- The third call cannot send.
resp_notifies-open_example :
    length
      (resp_notifies
        (record { opened = none; sent = pos 0 }
          ∷ record { opened = some 5; sent = pos 1 }
          ∷ record { opened = some 5; sent = negsuc 0 }
          ∷ [])
        (3 ∷ 4 ∷ [])).1
    ≡ 3
unfolding resp_notifies erase_fd
resp_notifies-open_example =
    resp_notifies-open
      (record { opened = none; sent = pos 0 }
        ∷ record { opened = some 5; sent = pos 1 }
        ∷ record { opened = some 5; sent = negsuc 0 }
        ∷ [])
      (3 ∷ 4 ∷ [])
