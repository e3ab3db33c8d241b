-- ===== src/Tests/Dialogues.antt =====
-- The theorem on a whole exchange of `CSvcTest2` and `CSvcTest` (netio/src/svc_test2.cpp,
-- netio/src/svc_test.cpp), with a container for each in two processes.
use middlewar_test.Base.{
  ℕ, ◌≡◌, refl, some, List, [], ◌∷◌, ◌==◌, ◌&&◌, if◌then◌else◌, find_key, key_count, to_int, arith,
}
use middlewar_test.Cache.Hash.{find, add, hash_value}
use middlewar_test.Cache.Manager.{section_of, incr}
use middlewar_test.Command.{Cmd}
use middlewar_test.Command.Number.{print_int, digits}
use middlewar_test.Queue.{get_msg_queue}
use middlewar_test.Dispatch.{new_service}
use middlewar_test.Container.{Container}
use middlewar_test.Container.Services.{NoStack, counter_key}
use middlewar_test.Container.Mail.{the_reply, AreIdle}
use middlewar_test.Container.Dialogue.{exchange, Meets, has_answered, has_replied, dialogue}
use middlewar_test.Tests.Kernel.{Letter, mailbox, mailbox-Fifo, letters}
use middlewar_test.Tests.World.{asked, back, first, second, with_free, process}

-- The process 40 has the container of `CSvcTest2`, the process 41 that of `CSvcTest`.
abbrev pub asks : Container (List Letter) Cmd
asks = record (process (with_free ((4001, new_service 4001) ∷ []))) { mq_key = 0xcccce }

abbrev pub answers : Container (List Letter) NoStack
answers = record (process (with_free ((4102, new_service 4102) ∷ []))) { pid = 41 }

they_meet : Meets mailbox mailbox-Fifo [] first second back asks answers 4001 4102
unfolding find_key key_count get_msg_queue counter_key print_int digits incr section_of find add
    hash_value to_int
they_meet = record {
  place = 1;
  number = omega arith;
  few = omega arith;
  process = omega arith;
  is_int = omega arith;
  others = [];
  first_free = refl;
  not_waiting = refl;
  no_zero = refl;
  n2 = _;
  cache2 = _;
  counted2 = refl;
  asks_on = refl;
  hears_on = refl;
  replies_on = refl;
  others1 = [];
  first_free1 = refl;
  not_waiting1 = refl;
  n1 = _;
  cache1 = _;
  counted1 = refl;
  hears1_on = refl;
  answers_on = refl;
}

all_idle : AreIdle mailbox mailbox-Fifo [] first second back asks 4001 asked
unfolding letters
all_idle = record {
  first_second = refl;
  no_questions = refl;
  no_requests = refl;
  no_answers = refl;
  question_sent = refl;
  answer_sent = refl;
  reply_sent = refl;
}

dialogue_example :
    (exchange mailbox mailbox-Fifo [] asks answers asked
      ≡ some (
        has_answered mailbox mailbox-Fifo [] first second back asks answers 4001 4102 asked
            they_meet all_idle,
        has_replied mailbox mailbox-Fifo [] first second back asks answers 4001 4102 asked they_meet
            all_idle,
      ))
    × ((jd u : ℕ)
        → letters jd u
            (has_replied mailbox mailbox-Fifo [] first second back asks answers 4001 4102 asked
              they_meet all_idle).world.kernel
          ≡ (if 1 == jd && 2 == u
              then the_reply mailbox mailbox-Fifo [] first second back asks 4001 asked ∷ []
              else []))
unfolding letters
dialogue_example =
    dialogue mailbox mailbox-Fifo [] first second back asks answers 4001 4102 asked they_meet
      all_idle (ground arith)
