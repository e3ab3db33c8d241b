-- ===== src/Tests/Processes.antt =====
-- The theorems on netio/src/service_dispatcher.cpp and on requests to `CSvcTest2`
-- (netio/src/svc_test2.cpp), with one service.
use middlewar_test.Base.{
  ℕ, ◌≡◌, refl, some, [], ◌∷◌, codes, pos, find_key, key_count, assign, erase_key, arith,
}
use middlewar_test.Command.{Cmd, new_cmd}
use middlewar_test.Queue.{response, get_msg_queue}
use middlewar_test.Netio.{message}
use middlewar_test.Dispatch.{
  Dispatcher, new_service, fresh, suspended, dispatch, dispatch_response, wake, switch_to, settle,
  reset_context,
}
use middlewar_test.Dispatch.Pool.{IsSound, places}
use middlewar_test.Dispatch.Conservation.{dispatch-Keeps}
use middlewar_test.Container.{code_of, signed, process_msg}
use middlewar_test.Container.Services.{svc_test2, svc_test2_resume}
use middlewar_test.Container.Conversation.{final_reply, answer_resumed}
use middlewar_test.Tests.Kernel.{mailbox}
use middlewar_test.Tests.World.{asked, back, world, with_free, process}

no_services-IsSound : IsSound (with_free {S = Cmd} [])
unfolding key_count
no_services-IsSound = record {
  once = λ k. omega arith;
  free_keyed = tt;
  busy_keyed = tt;
  free_fresh = tt;
}

-- A request to `CSvcTest2` that waits.
abbrev waiting : Dispatcher Cmd
waiting = record {
  count = 1;
  cur_cmd = asked;
  stateful = (4001, record { index = 4001; context = suspended asked }) ∷ [];
  stateless = [];
}

waiting-IsSound : IsSound waiting
unfolding key_count
waiting-IsSound = record {
  once = λ k. ground arith;
  free_keyed = tt;
  busy_keyed = (refl, tt);
  free_fresh = tt;
}

abbrev answer : Cmd
answer = record new_cmd { svc_serial_no = pos 4001; type = response; payload = codes "resp1=r1" }

abbrev finished : Dispatcher Cmd
finished = record {
  count = 1;
  cur_cmd = final_reply mailbox [] asked answer;
  stateful = [];
  stateless = (4001, record { index = 4001; context = fresh }) ∷ [];
}

dispatch-Keeps_example : IsSound finished × ((k : ℕ) → places k finished ≡ places k waiting)
unfolding dispatch dispatch_response wake switch_to svc_test2_resume settle erase_key assign
    reset_context
dispatch-Keeps_example =
    dispatch-Keeps (code_of (svc_test2 mailbox [])) waiting finished answer
      (final_reply mailbox [] asked answer) world world {r = pos 0} waiting-IsSound refl

answer_resumed_example :
    process_msg mailbox (svc_test2 mailbox []) (process waiting) answer
    ≡ some (record (process waiting) {
      dispatcher = record waiting {
        cur_cmd = final_reply mailbox [] asked answer;
        stateful = [];
        stateless = (4001, new_service 4001) ∷ [];
      };
      world = record world {
        kernel =
            record {
              queue = 1;
              type = response;
              text = message (signed 40 (final_reply mailbox [] asked answer));
            }
            ∷ [];
        notices = 1;
      };
    })
unfolding find_key key_count get_msg_queue assign erase_key
answer_resumed_example =
    answer_resumed mailbox [] (process waiting) 4001 asked answer back refl refl refl refl refl
