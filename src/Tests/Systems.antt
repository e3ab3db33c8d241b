-- ===== src/Tests/Systems.antt =====
-- The theorem on all processes: one round of the container process 40, in which a request of another
-- service waits, behind the start of all.
use middlewar_test.Base.{
  ◌+◌, ◌≡◌, refl, some, [], ◌∷◌, List, ◌==◌, ◌∙◌, find_key, assign, if◌then◌else◌,
}
use middlewar_test.Container.{on_event_fire}
use middlewar_test.Netio.Loop.{program_queues}
use middlewar_test.Queue.{add_msg_queue}
use middlewar_test.Serving.System.{System, found, first_round, run, IsWell, at_begin, system_run}
use middlewar_test.Tests.Kernel.{Letter, mailbox}
use middlewar_test.Tests.Tables.{cache}
use middlewar_test.Tests.Front.{no_addr}
use middlewar_test.Tests.Started.{all_well, front_after, front_started}
use middlewar_test.Tests.Startups.{letter, made_by, after, letter_taken, letter_answered}

abbrev started : System (List Letter)
started =
    at_begin mailbox (λ n. []) no_addr [] (λ n. 40 + n) (λ n. 50 + n) front_after cache
      (letter ∷ [])

abbrev answered : System (List Letter)
answered = record started {
  first = λ n. if n == 0 then after else started.first n;
  kernel = after.world.kernel;
}

first_found :
    on_event_fire mailbox (made_by tt) (found (started.first 0) (letter ∷ []) cache) ≡ some after
unfolding program_queues add_msg_queue find_key assign
first_found = letter_taken ∙ letter_answered

round_run : run mailbox (λ n. []) no_addr [] started (first_round 0 cache ∷ []) ≡ some answered
unfolding run
round_run = rw first_found refl

system_run_example : IsWell (λ n. 40 + n) (λ n. 50 + n) answered
system_run_example =
    system_run mailbox (λ n. []) no_addr [] (λ n. 40 + n) (λ n. 50 + n) all_well cache []
      (letter ∷ []) (first_round 0 cache ∷ []) front_started round_run
