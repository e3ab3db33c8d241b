-- ===== src/Serving/Relay.antt =====
-- That a client's request for command 2 is served: the front process (netio/src/tcp_net_handler.cpp,
-- netio/src/netio_user_event_handler.cpp), the container of `CSvcTest2` (netio/src/svc_test2.cpp),
-- and that of `CSvcTest` (netio/src/svc_test.cpp), which it asks.
use middlewar_test.Base.{
  ◌∷◌, ℕ, ◌*◌, ◌+◌, ◌≡◌, refl, ap, ◌∙◌, true, false, Option, some, [], ◌==◌, Bytes, ◌>>=◌, pos,
  arith,
}
use middlewar_test.Command.{Cmd}
use middlewar_test.Queue.{
  MsgQueue, Received, max_msg_size, request, response, net_io_back_msq_key, get_msg_queue,
}
use middlewar_test.Queue.Fifo.{Fifo, handed_over}
use middlewar_test.Command.Buffer.{IsReadable}
use middlewar_test.Command.Parsed.{left_pairs}
use middlewar_test.Netio.{Netio, message, route, request_of, process_event}
use middlewar_test.Netio.Routing.{length-message}
use middlewar_test.Container.{Container, signed, on_event_fire}
use middlewar_test.Container.Services.{NoStack, question, svc_test, svc_test2}
use middlewar_test.Container.Answering.{answer_to}
use middlewar_test.Container.Mail
use middlewar_test.Container.Final.{
  final_text, final_text_kept, final_pairs, final_to, final-IsReadable, length-final,
}
use middlewar_test.Container.Dialogue.{in_kernel, Meets, has_answered, has_replied, dialogue}
use middlewar_test.Container.Exchange.{request_handled}
use middlewar_test.Serving.Front
use middlewar_test.Serving.Written
use middlewar_test.Serving.Front.{Link}

-- A connection of the front process, the container that is asked and the one that it asks, with the
-- numbers of their services, and the queues of the two and of the responses.
pub record Scene : Type 1 where
  pub link : Link
  pub fifo : Fifo (link.ipc)
  pub behind : Bytes
  pub s2 : Container (link.ipc.Kernel) Cmd
  pub s1 : Container (link.ipc.Kernel) NoStack
  pub i : ℕ
  pub j : ℕ
  pub q1 : MsgQueue
  pub q2 : MsgQueue
  pub back : MsgQueue

module _ (x : Scene) where
  open x use {link, fifo, behind, s2, s1, i, j, q1, q2, back}
  open link use {ipc, ntoa, inet_addr, g, f, fd, text, e, e'}
  open ipc use {Kernel, msgsnd, msgrcv}
  open fifo use {holds}

  -- The rounds of the two containers, each with the kernel as the one before left it.
  abbrev rounds :
      Container Kernel Cmd
      → Container Kernel NoStack
      → Option (Container Kernel NoStack × Container Kernel Cmd)
  rounds t2 t1 = do
    a ← on_event_fire ipc (svc_test2 ipc behind) t2
    b ← on_event_fire ipc (svc_test ipc behind) (in_kernel t1 a.world.kernel)
    a' ← on_event_fire ipc (svc_test2 ipc behind) (in_kernel a b.world.kernel)
    some (b, a')

  -- In a round of the front process the request is read, the containers have their rounds, and in the
  -- front process's next one the response is taken and written.
  abbrev pub serve : Option (Container Kernel NoStack × Container Kernel Cmd × Netio Kernel)
  serve = do
    f1 ← process_event ipc ntoa inet_addr g true (e ∷ [])
    (b, a) ← rounds (in_kernel s2 f1.kernel) s1
    f2 ← process_event ipc ntoa inet_addr (record f1 { kernel = a.world.kernel }) true (e' ∷ [])
    some (b, a, f2)

  abbrev passed_on : Cmd
  passed_on = Front.passed_on link

  abbrev sent : Kernel
  sent = Front.sent_on link q2

  -- The container that is asked, once it has taken the request.
  abbrev pub asked : Container Kernel Cmd
  asked = in_kernel s2 (msgrcv q2.id max_msg_size request sent).1

  abbrev reply : Cmd
  reply = final_to ipc behind s2.pid i passed_on

  abbrev replied : Kernel
  replied = Mail.replied ipc fifo behind q1 q2 back asked i passed_on

  abbrev pub served_kernel : Kernel
  served_kernel = Written.taken_off link back replied

  -- The queues are open, idle and not full, and those of the two commands are different.
  pub record AreOpen : Type 0 where
    pub sends_on : (get_msg_queue f.queues 0xcccce).1 ≡ some q2
    pub takes_on : (get_msg_queue f.queues net_io_back_msq_key).1 ≡ some back
    pub first_second : (q1.id == q2.id) ≡ false
    pub no_questions : holds q1.id 1 f.kernel ≡ []
    pub no_requests : holds q2.id 1 f.kernel ≡ []
    pub no_answers : holds q2.id (s2.pid * 10 + 3) f.kernel ≡ []
    pub no_responses : holds back.id 2 f.kernel ≡ []
    pub request_sent : (msgsnd q2.id request (message passed_on) f.kernel).0 ≡ true
    pub question_sent : (msgsnd q1.id request (message (question i)) asked.world.kernel).0 ≡ true
    pub answer_sent :
        (msgsnd q2.id
          (pos (s2.pid * 10 + 3))
          (message (answer_to ipc behind (question i)))
          (Mail.asked_taken ipc fifo behind q1 q2 back asked i passed_on)).0
        ≡ true
    pub reply_sent :
        (msgsnd back.id response
          (message reply)
          (Mail.answer_taken ipc fifo behind q1 q2 back asked i passed_on)).0
        ≡ true

  module _ (stands : Front.Stands link) (asks : Front.Asks link 2) (opened : AreOpen)
      (meets : Meets ipc fifo behind q1 q2 back asked s1 i j) where
    readable : IsReadable passed_on (left_pairs text)
    readable = Front.passed_on-IsReadable link stands

    request_over :
        ((msgrcv q2.id max_msg_size request sent).0 ≡ Received.got (message passed_on))
        × ((jd u : ℕ) → holds jd u asked.world.kernel ≡ holds jd u f.kernel)
    request_over =
        handed_over ipc fifo q2.id 1 (message passed_on) f.kernel (omega arith)
          (omega (arith, length-message passed_on)) opened.no_requests opened.request_sent

    pub idle : Mail.AreIdle ipc fifo behind q1 q2 back asked i passed_on
    idle = record {
      first_second = opened.first_second;
      no_questions = request_over.1 q1.id 1 ∙ opened.no_questions;
      no_requests = request_over.1 q2.id 1 ∙ opened.no_requests;
      no_answers = request_over.1 q2.id (s2.pid * 10 + 3) ∙ opened.no_answers;
      question_sent = opened.question_sent;
      answer_sent = opened.answer_sent;
      reply_sent = opened.reply_sent;
    }

    reply_over :
        ((msgrcv back.id max_msg_size response replied).0 ≡ Received.got (message reply))
        × ((jd u : ℕ) → holds jd u served_kernel ≡ holds jd u asked.world.kernel)
    reply_over =
        let kernel = Mail.answer_taken ipc fifo behind q1 q2 back asked i passed_on in
        let same : (jd u : ℕ) → holds jd u kernel ≡ holds jd u asked.world.kernel =
          Mail.answer_taken_holds ipc fifo behind q1 q2 back asked i passed_on idle in
        let (there, after) =
          handed_over ipc fifo back.id 2 (message reply) kernel (omega arith)
            (omega (arith, length-message reply))
            (same back.id 2 ∙ request_over.1 back.id 2 ∙ opened.no_responses) opened.reply_sent in
        (there, λ jd u. after jd u ∙ same jd u)

    -- The containers once the reply is on its way: their services are free again.
    abbrev pub asked_end : Container Kernel Cmd
    asked_end = has_replied ipc fifo behind q1 q2 back asked s1 i j passed_on meets idle

    abbrev pub other_end : Container Kernel NoStack
    other_end = has_answered ipc fifo behind q1 q2 back asked s1 i j passed_on meets idle

    rounds_done : rounds (in_kernel s2 sent) s1 ≡ some (other_end, asked_end)
    unfolding request_of
    rounds_done =
        ap
          (λ r. r >>= λ a.
            on_event_fire ipc (svc_test ipc behind) (in_kernel s1 a.world.kernel) >>= λ b.
            on_event_fire ipc (svc_test2 ipc behind) (in_kernel a b.world.kernel) >>= λ a'.
            some (b, a'))
          (request_handled ipc (svc_test2 ipc behind) (in_kernel s2 sent) q2 passed_on
            (left_pairs text) meets.hears_on readable asks.short request_over.0)
        ∙ (dialogue ipc fifo behind q1 q2 back asked s1 i j passed_on meets idle (ground arith)).0

    returns : Written.Returns link back reply (final_text s2.pid) replied
    unfolding request_of signed
    returns = record {
      takes_on = opened.takes_on;
      there = reply_over.0;
      pairs = final_pairs s2.pid;
      readable = final-IsReadable ipc behind s2.pid i passed_on readable.ints readable.address;
      short = length-final ipc behind s2.pid i passed_on stands.short_address;
      own_fd = refl;
      own_port = refl;
      own_family = refl;
      kept = final_text_kept s2.pid;
    }

    -- The front process once the response is written: the connection is closed.
    abbrev pub served_front : Netio Kernel
    served_front = Written.served link stands 2 asks back reply (final_text s2.pid) replied

    -- A client's request for command 2 is served over three processes, if its connection stands, it
    -- is the one event of a round whose `OnEventFire` did not fail, it
    -- fits in a message, whatever else its text sets, the queues are open in all of them, idle
    -- and not full, those of the two commands are different, and both containers have a service free
    -- that does not wait: the request goes to the container of `CSvcTest2`, whose question goes to the
    -- one of `CSvcTest`; the answer and the reply come back, and the client's socket is written once,
    -- with the data of both services and the process of the first, and closed. Both services are free
    -- again, and all queues hold what they did.
    pub request_relayed :
        (serve ≡ some (other_end, asked_end, served_front))
        × ((jd u : ℕ) → holds jd u served_kernel ≡ holds jd u f.kernel)
    unfolding route
    request_relayed = (
      rw (Front.read_round link stands 2 asks 0xcccce q2 refl opened.sends_on) (
          rw rounds_done (
            rw
              (Written.deliver_round link stands 2 asks back reply (final_text s2.pid) replied
                returns)
              refl)),
      λ jd u. reply_over.1 jd u ∙ request_over.1 jd u,
    )
