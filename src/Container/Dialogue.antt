-- ===== src/Container/Dialogue.antt =====
-- A whole exchange between two containers: a request to `CSvcTest2` (netio/src/svc_test2.cpp), its
-- question to `CSvcTest` (netio/src/svc_test.cpp), the answer, and the reply to the client
-- (netio/src/container_user_event_handler.cpp).
use middlewar_test.Base.{
  ℕ, ◌+◌, ◌*◌, ◌≤◌, ◌<◌, ◌≡◌, ◌≢◌, refl, ap, ◌∙◌, ◌&&◌, Option, some, [], ◌∷◌, ◌++◌, Bytes, codes,
  ◌==◌, ==_refl, if◌then◌else◌, ◌>>=◌, ℤ, pos, int_max, IntMap, find_key, key_count, assign,
  find_key-assign, key_count-assign, erase_key-assign, arith,
}
use middlewar_test.Cache.Manager
use middlewar_test.Cache.Manager.{incr}
use middlewar_test.Command.{Cmd}
use middlewar_test.Queue.{Ipc, MsgQueue, response, net_io_back_msq_key, get_msg_queue}
use middlewar_test.Queue.Fifo.{Fifo}
use middlewar_test.Netio.{message}
use middlewar_test.Dispatch.{Service, new_service, suspended, unfinish_task_ret_flag}
use middlewar_test.Container.{World, Container, app_type, process_msg, on_event_fire}
use middlewar_test.Container.Services.{
  NoStack, counter_key, count_run, question, svc_test, svc_test2,
}
use middlewar_test.Container.Conversation.{final_reply, answer_resumed, question_asked}
use middlewar_test.Container.Answering.{question_answered}
use middlewar_test.Container.Exchange.{request_handled, answer_handled}
use middlewar_test.Container.Mail.{
  the_answer, type2, the_reply, asked, asked_taken, answered, no_request, answer_taken, replied,
  AreIdle, question_there, fits, no_requests_still, answer_there, replied_holds,
}
use middlewar_test.Container.Messages.{
  question_members, question-IsReadable, length-question, answer_pairs, answer-IsReadable,
  length-answer,
}

-- A container that goes on with the kernel as another process left it.
abbrev pub in_kernel : {K S : Type 0} → Container K S → K → Container K S
in_kernel s k = record s { world = record s.world { kernel = k } }

pub count_run_lem :
    {K : Type 0} (behind prefix : Bytes) (i : ℕ) (w : World K) {n : ℤ} {cache' : Manager.Manager}
    → incr w.cache (counter_key prefix i) behind (pos 1) ≡ some (n, cache')
    → count_run behind prefix i w ≡ some (record w { cache = cache' })
unfolding count_run
count_run_lem behind prefix i w e = rw e refl

-- `CSvcTest2` is asked in the container `s2` and asks in the container `s1`.
module _ (ipc : Ipc) (fifo : Fifo ipc) (behind : Bytes) where
  open ipc use {Kernel, msgsnd, msgrcv}
  open fifo use {holds, first_taken, none_there}

  -- The three rounds of the exchange, each with the kernel as the one before left it: the container
  -- that gets the request, the one that is asked, and the first one again.
  abbrev pub exchange :
      Container Kernel Cmd
      → Container Kernel NoStack
      → Cmd
      → Option (Container Kernel NoStack × Container Kernel Cmd)
  exchange s2 s1 c = do
    a ← process_msg ipc (svc_test2 ipc behind) s2 c
    b ← on_event_fire ipc (svc_test ipc behind) (in_kernel s1 a.world.kernel)
    a' ← on_event_fire ipc (svc_test2 ipc behind) (in_kernel a b.world.kernel)
    some (b, a')

  -- The service `i` of `s2` and the service `j` of `s1` are the first free ones, and the queues are
  -- open in both containers.
  pub record Meets (q1 q2 back : MsgQueue) (s2 : Container Kernel Cmd)
      (s1 : Container Kernel NoStack) (i j : ℕ) : Type 0 where
    pub place : ℕ
    pub number : i ≡ s2.pid * 100 + place
    pub few : place < 100
    pub process : 1 ≤ s2.pid
    pub is_int : i ≤ int_max
    pub others : IntMap (Service Cmd)
    pub first_free : s2.dispatcher.stateless ≡ (i, new_service i) ∷ others
    pub not_waiting : key_count i s2.dispatcher.stateful ≡ 0
    pub no_zero : key_count 0 s2.dispatcher.stateful ≡ 0
    pub n2 : ℤ
    pub cache2 : Manager.Manager
    pub counted2 :
        incr s2.world.cache (counter_key (codes "c2_") i) behind (pos 1) ≡ some (n2, cache2)
    pub asks_on : (get_msg_queue s2.world.queues 0xccccd).1 ≡ some q1
    pub hears_on : (get_msg_queue s2.world.queues s2.mq_key).1 ≡ some q2
    pub replies_on : (get_msg_queue s2.world.queues net_io_back_msq_key).1 ≡ some back
    pub others1 : IntMap (Service NoStack)
    pub first_free1 : s1.dispatcher.stateless ≡ (j, new_service j) ∷ others1
    pub not_waiting1 : key_count j s1.dispatcher.stateful ≡ 0
    pub n1 : ℤ
    pub cache1 : Manager.Manager
    pub counted1 :
        incr s1.world.cache (counter_key (codes "c1_") j) behind (pos 1) ≡ some (n1, cache1)
    pub hears1_on : (get_msg_queue s1.world.queues s1.mq_key).1 ≡ some q1
    pub answers_on : (get_msg_queue s1.world.queues 0xcccce).1 ≡ some q2

  module _ (q1 q2 back : MsgQueue) (s2 : Container Kernel Cmd) (s1 : Container Kernel NoStack)
      (i j : ℕ) (c : Cmd) (m : Meets q1 q2 back s2 s1 i j)
      (idle : AreIdle ipc fifo behind q1 q2 back s2 i c) where
    abbrev waits : Container Kernel Cmd
    waits = record s2 {
      dispatcher = record s2.dispatcher {
        cur_cmd = record c { ret = unfinish_task_ret_flag };
        stateful = assign i (record { index = i; context = suspended c }) s2.dispatcher.stateful;
        stateless = m.others;
      };
      world = record s2.world {
        cache = m.cache2;
        kernel = asked ipc fifo behind q1 q2 back s2 i c;
      };
    }

    -- The container that was asked, once it has answered.
    abbrev pub has_answered : Container Kernel NoStack
    has_answered = record s1 {
      dispatcher = record s1.dispatcher {
        cur_cmd = the_answer ipc fifo behind i;
        stateless = assign j (new_service j) m.others1;
      };
      world = record s1.world {
        cache = m.cache1;
        kernel = answered ipc fifo behind q1 q2 back s2 i c;
      };
    }

    -- The container that asked, once it has replied: its services are as they were.
    abbrev pub has_replied : Container Kernel Cmd
    has_replied = record s2 {
      dispatcher = record s2.dispatcher {
        cur_cmd = final_reply ipc behind c (the_answer ipc fifo behind i);
        stateless = assign i (new_service i) m.others;
      };
      world = record s2.world {
        cache = m.cache2;
        kernel = replied ipc fifo behind q1 q2 back s2 i c;
        notices = s2.world.notices + 1;
      };
    }

    asks : c.type ≢ response → process_msg ipc (svc_test2 ipc behind) s2 c ≡ some waits
    asks t =
        question_asked ipc behind s2 i m.others c (record s2.world { cache = m.cache2 }) q1
          m.first_free t (count_run_lem behind (codes "c2_") i s2.world m.counted2) m.asks_on

    answers :
        on_event_fire ipc
          (svc_test ipc behind)
          (in_kernel s1 (asked ipc fifo behind q1 q2 back s2 i c))
        ≡ some has_answered
    unfolding app_type
    answers =
        let k = asked ipc fifo behind q1 q2 back s2 i c in
        let k' = asked_taken ipc fifo behind q1 q2 back s2 i c in
        let (t, r, n, to) = question_members i in
        request_handled ipc (svc_test ipc behind) (in_kernel s1 k) q1 (question i) [] m.hears1_on
          (question-IsReadable i m.is_int) (length-question i)
          (first_taken q1.id 1 (message (question i)) [] k (omega arith)
            (question_there ipc fifo behind q1 q2 back s2 i c idle)
            (fits ipc fifo behind q1 q2 back s2 i c idle (question i)))
        ∙ question_answered ipc behind (in_kernel s1 k') j s2.pid m.place m.others1 (question i)
            (record s1.world { cache = m.cache1; kernel = k' }) 0xcccce q2 m.first_free1
            m.not_waiting1 t r (n ∙ ap pos m.number) m.process m.few
            (count_run_lem behind (codes "c1_") j (in_kernel s1 k').world m.counted1) to
            m.answers_on

    -- The service that waits is found under its number.
    waiting_found :
        find_key i waits.dispatcher.stateful ≡ some (record { index = i; context = suspended c })
    waiting_found =
        find_key-assign i i (record { index = i; context = suspended c }) s2.dispatcher.stateful
        ∙ rw (==_refl i) refl

    no_zero_waits : key_count 0 waits.dispatcher.stateful ≡ 0
    no_zero_waits =
        key_count-assign 0 i (record { index = i; context = suspended c }) s2.dispatcher.stateful
          m.not_waiting
        ∙ ground (arith, m.no_zero, m.number, m.process)

    replies :
        on_event_fire ipc
          (svc_test2 ipc behind)
          (in_kernel waits (answered ipc fifo behind q1 q2 back s2 i c))
        ≡ some has_replied
    unfolding app_type question
    replies =
        let k = answered ipc fifo behind q1 q2 back s2 i c in
        let k' = no_request ipc fifo behind q1 q2 back s2 i c in
        let a = the_answer ipc fifo behind i in
        let (t, r, n, to) = question_members i in
        answer_handled ipc (svc_test2 ipc behind) (in_kernel waits k) q2 a answer_pairs m.hears_on
          (answer-IsReadable ipc behind (question i) (question-IsReadable i m.is_int).ints
            (question-IsReadable i m.is_int).address)
          (length-answer ipc behind (question i) (omega arith))
          (none_there q2.id 1 k (omega arith)
            (no_requests_still ipc fifo behind q1 q2 back s2 i c idle))
          (first_taken q2.id (type2 ipc fifo behind q1 q2 back s2 i c) (message a) [] k'
            (omega arith) (answer_there ipc fifo behind q1 q2 back s2 i c idle)
            (fits ipc fifo behind q1 q2 back s2 i c idle a))
        ∙ answer_resumed ipc behind
            (in_kernel waits (answer_taken ipc fifo behind q1 q2 back s2 i c)) i c a back
            waiting_found no_zero_waits refl n m.replies_on
        ∙ rw
            (erase_key-assign i (record { index = i; context = suspended c }) s2.dispatcher.stateful
              m.not_waiting)
            refl

    -- A request to `CSvcTest2`, which is no response, goes the whole way if both containers have a
    -- service free that does not wait and the queues are open in both, idle, different and not full:
    -- its container puts the question, the other one answers it, and the first one replies to the
    -- client by way of the front process. Both services are free again, and the reply, which is the
    -- client's request with the data of both services, is all that the exchange adds to the queues.
    pub dialogue :
        c.type ≢ response
        → (exchange s2 s1 c ≡ some (has_answered, has_replied))
          × ((jd u : ℕ)
              → holds jd u has_replied.world.kernel ≡ (
                  if back.id == jd && 2 == u
                  then holds jd u s2.world.kernel
                    ++ the_reply ipc fifo behind q1 q2 back s2 i c ∷ []
                  else holds jd u s2.world.kernel))
    dialogue t = (
      rw (asks t) (rw answers (rw replies refl)),
      replied_holds ipc fifo behind q1 q2 back s2 i c idle,
    )
