-- ===== src/Container/Conversation.antt =====
-- A request to `CSvcTest2` (netio/src/svc_test2.cpp), the question that it puts to `CSvcTest`, and
-- what it makes of the answer.
use middlewar_test.Base.{
  ℕ, ◌+◌, ◌≡◌, ◌≢◌, refl, ap, false, none, some, ◌∷◌, ◌++◌, Bytes, codes, pos, ◌==ℤ◌, ==ℤ_iff,
  arith, IntMap, find_key, assign, erase_key, key_count,
}
use middlewar_test.Command.{Cmd}
use middlewar_test.Queue.{Ipc, MsgQueue, request, response, net_io_back_msq_key, get_msg_queue}
use middlewar_test.Dispatch.{
  Dispatcher, Service, new_service, suspended, ended, dispatch, dispatch_request, dispatch_response,
  switch_to, settle, reset_context, unfinish_task_ret_flag,
}
use middlewar_test.Dispatch.Resuming.{wake_one}
use middlewar_test.Container.{
  World, Container, Program, code_of, marked, signed, is_error, process_msg,
}
use middlewar_test.Container.Replies.{after_send, put_cmd_lem, reply-client}
use middlewar_test.Container.Services.{
  count_run, question, svc_test2, svc_test2_start, svc_test2_resume,
}

module _ (ipc : Ipc) (behind : Bytes) where
  open ipc use {Kernel, msgsnd}

  abbrev program : Program Kernel
  program = svc_test2 ipc behind

  -- What is sent to the client: its own request, with the answer's data and more.
  abbrev pub final_reply : Cmd → Cmd → Cmd
  final_reply c a = record c {
    ret = pos 0;
    svc_serial_no = pos 0;
    type = response;
    payload = a.payload ++ codes "&resp2=r2";
  }

  resumed :
      (i : ℕ) (c a : Cmd) (w : World Kernel)
      → switch_to (code_of program) (record { index = i; context = suspended c }) a w
        ≡ some (record { index = i; context = ended }, final_reply c a, w)
  unfolding switch_to svc_test2_resume
  resumed i c a w = refl

  -- The dispatch of an answer.
  answer_dispatched :
      (d : Dispatcher Cmd) (i : ℕ) (c a : Cmd) (w : World Kernel)
      → find_key i d.stateful ≡ some (record { index = i; context = suspended c })
      → key_count 0 d.stateful ≡ 0
      → a.type ≡ response
      → a.svc_serial_no ≡ pos i
      → dispatch (code_of program) d a w
        ≡ some (
          pos 0,
          final_reply c a,
          record d {
            cur_cmd = final_reply c a;
            stateful = erase_key i d.stateful;
            stateless = assign i (new_service i) d.stateless;
          },
          w,
        )
  unfolding dispatch dispatch_response settle reset_context new_service
  answer_dispatched d i c a w e z t n =
      let (m', p, q) =
        wake_one (code_of program) d.stateful a (final_reply c a) w w none i
          (record { index = i; context = suspended c }) (record { index = i; context = ended }) n e
          (resumed i c a w) refl z in
      rw (ap (λ x. x ==ℤ response) t, p, q) refl

  -- The answer to a service that waits: the client gets its reply by way of the front process, with
  -- a notice. The reply is the client's own request, with its descriptor and address, whose data is
  -- the answer's data, `&resp2=r2` and the process. The service is free again, and no other one ran.
  pub answer_resumed :
      (s : Container Kernel Cmd) (i : ℕ) (c a : Cmd) (q : MsgQueue)
      → find_key i s.dispatcher.stateful ≡ some (record { index = i; context = suspended c })
      → key_count 0 s.dispatcher.stateful ≡ 0
      → a.type ≡ response
      → a.svc_serial_no ≡ pos i
      → (get_msg_queue s.world.queues net_io_back_msq_key).1 ≡ some q
      → process_msg ipc (svc_test2 ipc behind) s a
        ≡ some (record s {
          dispatcher = record s.dispatcher {
            cur_cmd = final_reply c a;
            stateful = erase_key i s.dispatcher.stateful;
            stateless = assign i (new_service i) s.dispatcher.stateless;
          };
          world = record (after_send ipc q response (signed s.pid (final_reply c a)) s.world) {
            notices = s.world.notices + 1;
          };
        })
  unfolding process_msg marked is_error
  answer_resumed s i c a q e z t n f =
      rw
        (
          answer_dispatched s.dispatcher i c a s.world e z t n,
          reply-client ipc s.pid (final_reply c a) s.world q refl f,
        )
        refl

  asking :
      (s : Container Kernel Cmd) (i : ℕ) (c : Cmd) (w : World Kernel) (q : MsgQueue)
      → count_run behind (codes "c2_") i s.world ≡ some w
      → (get_msg_queue w.queues 0xccccd).1 ≡ some q
      → switch_to (code_of program) (new_service i) c s.world
        ≡ some (
          record { index = i; context = suspended c },
          record c { ret = unfinish_task_ret_flag },
          after_send ipc q request (question i) w,
        )
  unfolding switch_to svc_test2_start new_service
  asking s i c w q f g = rw (f, g, put_cmd_lem ipc q request (question i) w) refl

  request_dispatched :
      (s : Container Kernel Cmd) (i : ℕ) (free : IntMap (Service Cmd)) (c : Cmd) (w : World Kernel)
      (q : MsgQueue)
      → s.dispatcher.stateless ≡ (i, new_service i) ∷ free
      → c.type ≢ response
      → count_run behind (codes "c2_") i s.world ≡ some w
      → (get_msg_queue w.queues 0xccccd).1 ≡ some q
      → dispatch (code_of program) s.dispatcher c s.world
        ≡ some (
          unfinish_task_ret_flag,
          record c { ret = unfinish_task_ret_flag },
          record s.dispatcher {
            cur_cmd = record c { ret = unfinish_task_ret_flag };
            stateful = assign i (record { index = i; context = suspended c }) s.dispatcher.stateful;
            stateless = free;
          },
          after_send ipc q request (question i) w,
        )
  unfolding dispatch dispatch_request settle
  request_dispatched s i free c w q e t f g =
      let not_response : (c.type ==ℤ response) ≡ false =
        ground (arith, t, ==ℤ_iff c.type response) in
      rw (not_response, e, asking s i c w q f g) refl

  -- A request that finds a free service: the service counts the run, puts its question on the queue
  -- of the other container under its own number, and waits with the request. No reply is sent yet.
  pub question_asked :
      (s : Container Kernel Cmd) (i : ℕ) (free : IntMap (Service Cmd)) (c : Cmd) (w : World Kernel)
      (q : MsgQueue)
      → s.dispatcher.stateless ≡ (i, new_service i) ∷ free
      → c.type ≢ response
      → count_run behind (codes "c2_") i s.world ≡ some w
      → (get_msg_queue w.queues 0xccccd).1 ≡ some q
      → process_msg ipc (svc_test2 ipc behind) s c
        ≡ some (record s {
          dispatcher = record s.dispatcher {
            cur_cmd = record c { ret = unfinish_task_ret_flag };
            stateful = assign i (record { index = i; context = suspended c }) s.dispatcher.stateful;
            stateless = free;
          };
          world = after_send ipc q request (question i) w;
        })
  unfolding process_msg
  question_asked s i free c w q e t f g = rw (request_dispatched s i free c w q e t f g) refl
