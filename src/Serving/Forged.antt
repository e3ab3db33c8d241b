-- ===== src/Serving/Forged.antt =====
-- A client's request that carries the number of a service (netio/src/tcp_net_handler.cpp): what the
-- container of `CSvcTest` (netio/src/svc_test.cpp) makes of it, and what the process that the number
-- names does with the answer (netio/src/container_user_event_handler.cpp,
-- netio/src/service_dispatcher.cpp).
use middlewar_test.Base.{
  ℕ, ◌+◌, ◌*◌, ◌≤◌, ◌<◌, ◌≡◌, refl, ap, ◌∙◌, true, none, some, ◌==◌, [], ◌∷◌, ◌++◌, codes,
  if◌then◌else◌, ==_refl, pos, ◌==ℤ◌, assign, key_count, arith,
}
use middlewar_test.Command.{Cmd, new_cmd, init_ccmd}
use middlewar_test.Queue.{Received, max_msg_size, request, response, get_msg_queue}
use middlewar_test.Queue.Fifo.{handed_over}
use middlewar_test.Command.Buffer.{IsReadable}
use middlewar_test.Command.Parsed.{left_pairs}
use middlewar_test.Netio.{message, route, request_of, process_event}
use middlewar_test.Netio.Routing.{length-message}
use middlewar_test.Dispatch.{Code, Dispatcher, new_service, dispatch, dispatch_response}
use middlewar_test.Dispatch.Resuming.{wake_idle}
use middlewar_test.Container.{Container, app_type, code_of, on_event_fire, process_msg}
use middlewar_test.Container.Services.{NoStack, svc_test}
use middlewar_test.Container.Answering.{answer_to, question_answered}
use middlewar_test.Container.Messages.{answer_pairs, answer-IsReadable, length-answer}
use middlewar_test.Container.Dialogue.{in_kernel, count_run_lem}
use middlewar_test.Container.Exchange.{request_handled, answer_handled}
use middlewar_test.Serving.Front
use middlewar_test.Serving.Whole.{Scene, HasFree}

-- A response with a number under which no service waits fails the assertion behind the search.
response_stops :
    (code : Code) (d : Dispatcher code.Saved) (c : Cmd) (w : code.World) (n : ℕ)
    → c.type ≡ response
    → c.svc_serial_no ≡ pos n
    → key_count n d.stateful ≡ 0
    → dispatch code d c w ≡ none
unfolding dispatch dispatch_response
response_stops code d c w n t e h =
    let is_response : (c.type ==ℤ response) ≡ true = ap (λ t. t ==ℤ response) t in
    rw (is_response, wake_idle code d.stateful c w none n e h) refl

-- The process `victim` has a container on the same queue, with no service that waits for an answer to
-- the number `pid * 100 + j`.
module _ (x : Scene) (victim : Container (x.link.ipc.Kernel) NoStack) (j : ℕ) where
  open x use {link, fifo, behind, s, q1}
  open link use {ipc, ntoa, inet_addr, g, f, fd, text, e}
  open ipc use {Kernel, msgsnd, msgrcv}
  open fifo use {holds, holds-send, first_taken, none_there, holds-miss}

  abbrev passed_on : Cmd
  passed_on = Front.passed_on link

  abbrev answer : Cmd
  answer = answer_to ipc behind passed_on

  abbrev to : ℕ
  to = victim.pid * 10 + 3

  abbrev sent : Kernel
  sent = Front.sent_on link q1

  abbrev taken : Kernel
  taken = (msgrcv q1.id max_msg_size request sent).1

  abbrev answered : Kernel
  answered = (msgsnd q1.id (pos to) (message answer) taken).1

  pub record Forges : Type 0 where
    pub no_ret : (init_ccmd new_cmd text).ret ≡ pos 0
    pub number : (init_ccmd new_cmd text).svc_serial_no ≡ pos (victim.pid * 100 + j)
    pub process : 1 ≤ victim.pid
    pub few : j < 100
    pub not_waiting : key_count (victim.pid * 100 + j) victim.dispatcher.stateful ≡ 0
    pub sends_on : (get_msg_queue f.queues 0xccccd).1 ≡ some q1
    pub hears_on : (get_msg_queue s.world.queues s.mq_key).1 ≡ some q1
    pub answers_on : (get_msg_queue s.world.queues 0xccccd).1 ≡ some q1
    pub victim_hears_on : (get_msg_queue victim.world.queues victim.mq_key).1 ≡ some q1
    pub no_requests : holds q1.id 1 f.kernel ≡ []
    pub no_answers : holds q1.id to f.kernel ≡ []
    pub request_sent : (msgsnd q1.id request (message passed_on) f.kernel).0 ≡ true
    pub answer_sent : (msgsnd q1.id (pos to) (message answer) taken).0 ≡ true

  module _ (stands : Front.Stands link) (asks : Front.Asks link 1) (forges : Forges) where
    readable : IsReadable passed_on (left_pairs text)
    readable = Front.passed_on-IsReadable link stands

    request_over :
        ((msgrcv q1.id max_msg_size request sent).0 ≡ Received.got (message passed_on))
        × ((jd u : ℕ) → holds jd u taken ≡ holds jd u f.kernel)
    request_over =
        handed_over ipc fifo q1.id 1 (message passed_on) f.kernel (omega arith)
          (omega (arith, length-message passed_on)) forges.no_requests forges.request_sent

    answered_holds :
        (u : ℕ)
        → holds q1.id u answered ≡ (
            if to == u
            then holds q1.id u f.kernel ++ message answer ∷ []
            else holds q1.id u f.kernel)
    answered_holds u =
        holds-send q1.id to q1.id u (message answer) taken (omega arith)
        ∙ rw (forges.answer_sent, ==_refl q1.id, request_over.1 q1.id u) refl

    no_request : holds q1.id 1 answered ≡ []
    no_request = answered_holds 1 ∙ ground (arith, forges.process, forges.no_requests)

    abbrev searched : Kernel
    searched = (msgrcv q1.id max_msg_size request answered).1

    answer_there : holds q1.id to searched ≡ message answer ∷ []
    answer_there =
        holds-miss q1.id 1 q1.id to answered (omega arith) no_request
        ∙ answered_holds to
        ∙ rw (==_refl to, forges.no_answers) refl

    victim_stops : on_event_fire ipc (svc_test ipc behind) (in_kernel victim answered) ≡ none
    unfolding process_msg app_type request_of
    victim_stops =
        answer_handled ipc (svc_test ipc behind) (in_kernel victim answered) q1 answer answer_pairs
          forges.victim_hears_on
          (answer-IsReadable ipc behind passed_on readable.ints readable.address)
          (length-answer ipc behind passed_on stands.short_address)
          (none_there q1.id 1 answered (omega arith) no_request)
          (first_taken q1.id to (message answer) [] searched (omega arith) answer_there
            (omega (arith, length-message answer)))
        ∙ rw
            (response_stops (code_of (svc_test ipc behind)) victim.dispatcher answer
              (record victim.world { kernel = (msgrcv q1.id max_msg_size (pos to) searched).1 })
              (victim.pid * 100 + j) refl forges.number forges.not_waiting)
            refl

    module _ (i : ℕ) (has : HasFree x i) where
      abbrev pub misled_container : Container Kernel NoStack
      misled_container = record s {
        dispatcher = record s.dispatcher {
          cur_cmd = answer;
          stateless = assign i (new_service i) has.others;
        };
        world = record s.world { cache = has.cache'; kernel = answered };
      }

      handled : on_event_fire ipc (svc_test ipc behind) (in_kernel s sent) ≡ some misled_container
      unfolding request_of app_type route
      handled =
          request_handled ipc (svc_test ipc behind) (in_kernel s sent) q1 passed_on
            (left_pairs text) forges.hears_on readable asks.short request_over.0
          ∙ question_answered ipc behind (in_kernel s taken) i victim.pid j has.others passed_on
              (record s.world { cache = has.cache'; kernel = taken }) 0xccccd q1 has.first_free
              has.not_waiting (ground arith) forges.no_ret forges.number forges.process forges.few
              (count_run_lem behind (codes "c1_") i (in_kernel s taken).world has.counted)
              (ap route asks.command) forges.answers_on

      -- A client stops a container process by a request for command 1 in which it sets the number
      -- of a service of that process, `pid * 100 + j`, under which no service waits there, if the
      -- request fits in a message, the queue of `CSvcTest` is open in all three processes, idle and not
      -- full, and a `CSvcTest` is free: the front process passes the number on, the container puts
      -- the answer back on the queue for the process `pid` and sends the front process nothing, so
      -- that the client gets no reply, and the process `pid` fails an assertion when it takes it.
      pub forged_number_stops :
          (process_event ipc ntoa inet_addr g true (e ∷ [])
            ≡ some (Front.has_read link stands 1 asks sent))
          × (on_event_fire ipc (svc_test ipc behind) (in_kernel s sent) ≡ some misled_container)
          × (misled_container.world.notices ≡ s.world.notices)
          × (on_event_fire ipc
                (svc_test ipc behind)
                (in_kernel victim misled_container.world.kernel)
              ≡ none)
      unfolding route
      forged_number_stops = (
        Front.read_round link stands 1 asks 0xccccd q1 refl forges.sends_on,
        handled,
        refl,
        victim_stops,
      )
