-- ===== src/Serving/Whole.antt =====
-- That a client's request is served: the steps of the front process (netio/src/tcp_net_handler.cpp,
-- netio/src/netio_user_event_handler.cpp) and of the container of `CSvcTest`
-- (netio/src/container_user_event_handler.cpp, netio/src/svc_test.cpp).
use middlewar_test.Base.{
  ℕ, ◌+◌, ◌≡◌, refl, ◌∙◌, true, Option, some, [], ◌∷◌, Bytes, codes, ◌>>=◌, ℤ, pos, IntMap, assign,
  key_count, arith,
}
use middlewar_test.Cache.Manager.{incr}
use middlewar_test.Cache.Manager
use middlewar_test.Command.{Cmd}
use middlewar_test.Queue.{
  MsgQueue, Received, max_msg_size, request, response, net_io_back_msq_key, get_msg_queue,
}
use middlewar_test.Queue.Fifo.{Fifo, handed_over}
use middlewar_test.Command.Buffer.{IsReadable}
use middlewar_test.Command.Parsed.{left_pairs}
use middlewar_test.Netio.{Netio, message, route, request_of, process_event}
use middlewar_test.Netio.Routing.{length-message}
use middlewar_test.Dispatch.{Service, new_service}
use middlewar_test.Container.{Container, signed}
use middlewar_test.Container
use middlewar_test.Container.Services.{NoStack, counter_key, svc_test}
use middlewar_test.Container.Answering.{answer_to}
use middlewar_test.Container.Client.{
  reply_text, reply_text_kept, reply_pairs, reply_to, reply-IsReadable, length-reply,
  client_answered,
}
use middlewar_test.Container.Dialogue.{in_kernel, count_run_lem}
use middlewar_test.Container.Exchange.{request_handled}
use middlewar_test.Serving.Front
use middlewar_test.Serving.Written
use middlewar_test.Serving.Front.{Link}

-- A connection of the front process, the container, and the queues of the requests and of the
-- responses.
pub record Scene : Type 1 where
  pub link : Link
  pub fifo : Fifo (link.ipc)
  pub behind : Bytes
  pub s : Container (link.ipc.Kernel) NoStack
  pub q1 : MsgQueue
  pub back : MsgQueue

module _ (x : Scene) where
  open x use {link, fifo, behind, s, q1, back}
  open link use {ipc, ntoa, inet_addr, g, f, fd, text, e, e'}
  open ipc use {Kernel, msgsnd, msgrcv}
  open fifo use {holds}

  -- Three rounds, each with the kernel as the one before left it: in that of the front process the
  -- request is read, in that of the container it is handled, and in the front process's next one the
  -- response is taken and written.
  abbrev pub serve : Option (Container Kernel NoStack × Netio Kernel)
  serve = do
    f1 ← process_event ipc ntoa inet_addr g true (e ∷ [])
    s1 ← Container.on_event_fire ipc (svc_test ipc behind) (in_kernel s f1.kernel)
    f2 ← process_event ipc ntoa inet_addr (record f1 { kernel = s1.world.kernel }) true (e' ∷ [])
    some (s1, f2)

  abbrev passed_on : Cmd
  passed_on = Front.passed_on link

  abbrev reply : Cmd
  reply = reply_to ipc behind s.pid passed_on

  abbrev sent : Kernel
  sent = Front.sent_on link q1

  abbrev taken : Kernel
  taken = (msgrcv q1.id max_msg_size request sent).1

  abbrev replied : Kernel
  replied = (msgsnd back.id response (message reply) taken).1

  abbrev pub served_kernel : Kernel
  served_kernel = Written.taken_off link back replied

  -- The container has the service `i` free.
  pub record HasFree (i : ℕ) : Type 0 where
    pub others : IntMap (Service NoStack)
    pub first_free : s.dispatcher.stateless ≡ (i, new_service i) ∷ others
    pub not_waiting : key_count i s.dispatcher.stateful ≡ 0
    pub n : ℤ
    pub cache' : Manager.Manager
    pub counted : incr s.world.cache (counter_key (codes "c1_") i) behind (pos 1) ≡ some (n, cache')

  -- The queues are open in both processes, idle, and have room.
  pub record AreOpen : Type 0 where
    pub sends_on : (get_msg_queue f.queues 0xccccd).1 ≡ some q1
    pub takes_on : (get_msg_queue f.queues net_io_back_msq_key).1 ≡ some back
    pub hears_on : (get_msg_queue s.world.queues s.mq_key).1 ≡ some q1
    pub replies_on : (get_msg_queue s.world.queues net_io_back_msq_key).1 ≡ some back
    pub no_requests : holds q1.id 1 f.kernel ≡ []
    pub no_responses : holds back.id 2 f.kernel ≡ []
    pub request_sent : (msgsnd q1.id request (message passed_on) f.kernel).0 ≡ true
    pub reply_sent : (msgsnd back.id response (message reply) taken).0 ≡ true

  module _ (stands : Front.Stands link) (asks : Front.Asks link 1) (opened : AreOpen) where
    readable : IsReadable passed_on (left_pairs text)
    readable = Front.passed_on-IsReadable link stands

    -- The request on the container's queue is its own, and afterwards the queue is idle again.
    request_over :
        ((msgrcv q1.id max_msg_size request sent).0 ≡ Received.got (message passed_on))
        × ((jd u : ℕ) → holds jd u taken ≡ holds jd u f.kernel)
    request_over =
        handed_over ipc fifo q1.id 1 (message passed_on) f.kernel (omega arith)
          (omega (arith, length-message passed_on)) opened.no_requests opened.request_sent

    reply_over :
        ((msgrcv back.id max_msg_size response replied).0 ≡ Received.got (message reply))
        × ((jd u : ℕ) → holds jd u served_kernel ≡ holds jd u taken)
    reply_over =
        handed_over ipc fifo back.id 2 (message reply) taken (omega arith)
          (omega (arith, length-message reply)) (request_over.1 back.id 2 ∙ opened.no_responses)
          opened.reply_sent

    module _ (bare : Front.IsBare link) (i : ℕ) (has : HasFree i) where
      abbrev pub served_container : Container Kernel NoStack
      served_container = record s {
        dispatcher = record s.dispatcher {
          cur_cmd = answer_to ipc behind passed_on;
          stateless = assign i (new_service i) has.others;
        };
        world = record s.world {
          cache = has.cache';
          kernel = replied;
          notices = s.world.notices + 1;
        };
      }

      handled :
          Container.on_event_fire ipc (svc_test ipc behind) (in_kernel s sent)
          ≡ some served_container
      unfolding request_of
      handled =
          request_handled ipc (svc_test ipc behind) (in_kernel s sent) q1 passed_on
            (left_pairs text) opened.hears_on readable asks.short request_over.0
          ∙ client_answered ipc behind (in_kernel s taken) i has.others passed_on
              (record s.world { cache = has.cache'; kernel = taken }) back has.first_free
              has.not_waiting (ground arith) bare.no_ret bare.no_serial
              (count_run_lem behind (codes "c1_") i (in_kernel s taken).world has.counted)
              opened.replies_on

    returns : Written.Returns link back reply (reply_text s.pid) replied
    unfolding request_of signed
    returns = record {
      takes_on = opened.takes_on;
      there = reply_over.0;
      pairs = reply_pairs s.pid;
      readable = reply-IsReadable ipc behind s.pid passed_on readable.ints readable.address;
      short = length-reply ipc behind s.pid passed_on stands.short_address;
      own_fd = refl;
      own_port = refl;
      own_family = refl;
      kept = reply_text_kept s.pid;
    }

    -- The front process once the response is written: the connection is closed.
    abbrev pub served_front : Netio Kernel
    served_front = Written.served link stands 1 asks back reply (reply_text s.pid) replied

    -- A client's request for command 1 is served, if its connection stands, it is the one event of a
    -- round whose `OnEventFire` did not fail, its text, whatever else is in it, fits in a message and
    -- asks for nothing but the command, the queues are open in both processes, idle and not full, and
    -- the container of `CSvcTest` has a service free: the request goes there, the reply comes back,
    -- and the client's socket is written once, with the service's data and the container's process,
    -- and closed. The service is free again, and all queues hold what they did.
    pub request_served :
        (bare : Front.IsBare link) (i : ℕ) (has : HasFree i)
        → (serve ≡ some (served_container bare i has, served_front))
          × ((jd u : ℕ) → holds jd u served_kernel ≡ holds jd u f.kernel)
    unfolding route
    request_served bare i has = (
      rw (Front.read_round link stands 1 asks 0xccccd q1 refl opened.sends_on) (
          rw (handled bare i has) (
            rw
              (Written.deliver_round link stands 1 asks back reply (reply_text s.pid) replied
                returns)
              refl)),
      λ jd u. reply_over.1 jd u ∙ request_over.1 jd u,
    )
