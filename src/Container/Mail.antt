-- ===== src/Container/Mail.antt =====
-- The messages on the queues while a `CSvcTest2` (netio/src/svc_test2.cpp) puts its question to a
-- `CSvcTest` (netio/src/svc_test.cpp), gets the answer, and replies to the client.
use middlewar_test.Base.{
  ℕ, ◌+◌, ◌*◌, ◌≤◌, ◌<◌, ◌≡◌, refl, ◌∙◌, true, false, ◌&&◌, [], ◌∷◌, ◌++◌, Bytes, ◌==◌, ==_refl,
  if◌then◌else◌, length, pos, arith,
}
use middlewar_test.Command.{Cmd}
use middlewar_test.Queue.{Ipc, MsgQueue, max_msg_size, request, response}
use middlewar_test.Queue.Fifo.{Fifo}
use middlewar_test.Netio.{message}
use middlewar_test.Netio.Routing.{length-message}
use middlewar_test.Container.{Container, signed}
use middlewar_test.Container.Services.{question}
use middlewar_test.Container.Conversation.{final_reply}
use middlewar_test.Container.Answering.{answer_to}

-- `CSvcTest2` is asked in one container and asks in the other.
module _ (ipc : Ipc) (fifo : Fifo ipc) (behind : Bytes) where
  open ipc use {Kernel, msgsnd, msgrcv}
  open fifo use {holds, holds-send, first_taken, holds-take, none_there, holds-miss}

  abbrev pub the_answer : ℕ → Cmd
  the_answer i = answer_to ipc behind (question i)

  -- The kernel behind the question, behind its receipt, behind the answer, behind the search for a
  -- request, behind the receipt of the answer, and behind the reply.
  module _ (q1 q2 back : MsgQueue) (s2 : Container Kernel Cmd) (i : ℕ) (c : Cmd) where
    abbrev pub type2 : ℕ
    type2 = s2.pid * 10 + 3

    abbrev pub the_reply : Bytes
    the_reply = message (signed s2.pid (final_reply ipc behind c (the_answer i)))

    abbrev pub asked : Kernel
    asked = (msgsnd q1.id request (message (question i)) s2.world.kernel).1

    abbrev pub asked_taken : Kernel
    asked_taken = (msgrcv q1.id max_msg_size request asked).1

    abbrev pub answered : Kernel
    answered = (msgsnd q2.id (pos type2) (message (the_answer i)) asked_taken).1

    abbrev pub no_request : Kernel
    no_request = (msgrcv q2.id max_msg_size request answered).1

    abbrev pub answer_taken : Kernel
    answer_taken = (msgrcv q2.id max_msg_size (pos type2) no_request).1

    abbrev pub replied : Kernel
    replied = (msgsnd back.id response the_reply answer_taken).1

    -- The queues of the two containers are different, idle, and have room.
    pub record AreIdle : Type 0 where
      pub first_second : (q1.id == q2.id) ≡ false
      pub no_questions : holds q1.id 1 s2.world.kernel ≡ []
      pub no_requests : holds q2.id 1 s2.world.kernel ≡ []
      pub no_answers : holds q2.id type2 s2.world.kernel ≡ []
      pub question_sent : (msgsnd q1.id request (message (question i)) s2.world.kernel).0 ≡ true
      pub answer_sent : (msgsnd q2.id (pos type2) (message (the_answer i)) asked_taken).0 ≡ true
      pub reply_sent : (msgsnd back.id response the_reply answer_taken).0 ≡ true

    module _ (idle : AreIdle) where
      sent :
          (id t jd u : ℕ) (m : Bytes) (k : Kernel)
          → 0 < t
          → (msgsnd id (pos t) m k).0 ≡ true
          → holds jd u (msgsnd id (pos t) m k).1
            ≡ (if id == jd && t == u then holds jd u k ++ m ∷ [] else holds jd u k)
      sent id t jd u m k p h = holds-send id t jd u m k p ∙ rw h refl

      asked_holds :
          (jd u : ℕ)
          → holds jd u asked ≡ (
              if q1.id == jd && 1 == u
              then holds jd u s2.world.kernel ++ message (question i) ∷ []
              else holds jd u s2.world.kernel)
      asked_holds jd u =
          sent q1.id 1 jd u (message (question i)) s2.world.kernel (omega arith) idle.question_sent

      pub question_there : holds q1.id 1 asked ≡ message (question i) ∷ []
      question_there = asked_holds q1.id 1 ∙ rw (==_refl q1.id, idle.no_questions) refl

      pub fits : (d : Cmd) → length (message d) ≤ max_msg_size
      fits d = omega (arith, length-message d)

      asked_taken_holds :
          (jd u : ℕ)
          → holds jd u asked_taken
            ≡ (if q1.id == jd && 1 == u then [] else holds jd u s2.world.kernel)
      asked_taken_holds jd u =
          holds-take q1.id 1 jd u (message (question i)) [] asked (omega arith) question_there
            (fits (question i))
          ∙ ground (arith, asked_holds jd u)

      answered_holds :
          (jd u : ℕ)
          → holds jd u answered ≡ (
              if q2.id == jd && type2 == u
              then holds jd u asked_taken ++ message (the_answer i) ∷ []
              else holds jd u asked_taken)
      answered_holds jd u =
          sent q2.id type2 jd u (message (the_answer i)) asked_taken (omega arith) idle.answer_sent

      pub no_requests_still : holds q2.id 1 answered ≡ []
      no_requests_still = ground (
        arith,
        answered_holds q2.id 1,
        asked_taken_holds q2.id 1,
        idle.no_requests,
        idle.first_second,
      )

      no_request_holds : (jd u : ℕ) → holds jd u no_request ≡ holds jd u answered
      no_request_holds jd u = holds-miss q2.id 1 jd u answered (omega arith) no_requests_still

      pub answer_there : holds q2.id type2 no_request ≡ message (the_answer i) ∷ []
      answer_there =
          no_request_holds q2.id type2
          ∙ ground (
            arith,
            answered_holds q2.id type2,
            asked_taken_holds q2.id type2,
            idle.no_answers,
            idle.first_second,
          )

      pub answer_taken_holds : (jd u : ℕ) → holds jd u answer_taken ≡ holds jd u s2.world.kernel
      answer_taken_holds jd u =
          holds-take q2.id type2 jd u (message (the_answer i)) [] no_request (omega arith)
            answer_there (fits (the_answer i))
          ∙ ground (
            arith,
            no_request_holds jd u,
            answered_holds jd u,
            asked_taken_holds jd u,
            idle.no_questions,
            idle.no_answers,
          )

      -- The reply is all that the exchange leaves on the queues.
      pub replied_holds :
          (jd u : ℕ)
          → holds jd u replied ≡ (
              if back.id == jd && 2 == u
              then holds jd u s2.world.kernel ++ the_reply ∷ []
              else holds jd u s2.world.kernel)
      replied_holds jd u =
          sent back.id 2 jd u the_reply answer_taken (omega arith) idle.reply_sent
          ∙ rw (answer_taken_holds jd u) refl
