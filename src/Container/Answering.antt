-- ===== src/Container/Answering.antt =====
-- A request to `CSvcTest` (netio/src/svc_test.cpp) in its container.
use middlewar_test.Base.{
  ℕ, ◌+◌, ◌*◌, ◌≤◌, ◌<◌, ◌≡◌, ◌≢◌, refl, ap, false, some, ◌∷◌, Bytes, codes, pos, ◌==ℤ◌, ==ℤ_iff,
  arith, IntMap, assign, erase_key-assign, key_count,
}
use middlewar_test.Command.{Cmd}
use middlewar_test.Queue.{Ipc, MsgQueue, response, get_msg_queue}
use middlewar_test.Netio.{route}
use middlewar_test.Dispatch.{
  Dispatcher, Service, new_service, ended, dispatch, dispatch_request, switch_to, settle,
  reset_context, unfinish_task_ret_flag,
}
use middlewar_test.Container.{World, Container, code_of, app_type, marked, is_error, process_msg}
use middlewar_test.Container.Replies.{after_send, reply-app}
use middlewar_test.Container.Services.{NoStack, count_run, svc_test, svc_test_start}

module _ (ipc : Ipc) (behind : Bytes) where
  open ipc use {Kernel}

  -- The command once `CSvcTest` has run.
  abbrev pub answer_to : Cmd → Cmd
  answer_to c = record c { payload = codes "resp1=r1"; type = response }

  pub executed :
      (i : ℕ) (c : Cmd) (w0 w : World Kernel)
      → count_run behind (codes "c1_") i w0 ≡ some w
      → switch_to (code_of (svc_test ipc behind)) (new_service i) c w0
        ≡ some (record { index = i; context = ended }, answer_to c, w)
  unfolding switch_to svc_test_start new_service
  executed i c w0 w f = rw f refl

  -- The dispatcher of a container whose first free service is `i`.
  module _ (d : Dispatcher NoStack) (i : ℕ) (free : IntMap (Service NoStack)) (c : Cmd)
      (w0 w : World Kernel) (e : d.stateless ≡ (i, new_service i) ∷ free) (t : c.type ≢ response)
      (f : count_run behind (codes "c1_") i w0 ≡ some w) where
    abbrev pub after_run : Dispatcher NoStack
    after_run = record d {
      cur_cmd = answer_to c;
      stateful = assign i (record { index = i; context = ended }) d.stateful;
      stateless = free;
    }

    pub run_dispatched :
        dispatch (code_of (svc_test ipc behind)) d c w0
        ≡ some (
          c.ret,
          answer_to c,
          settle (code_of (svc_test ipc behind)) after_run (record { index = i; context = ended }),
          w,
        )
    unfolding dispatch dispatch_request
    run_dispatched =
        let not_response : (c.type ==ℤ response) ≡ false =
          ground (arith, t, ==ℤ_iff c.type response) in
        rw (not_response, e, executed i c w0 w f) refl

  -- A request of another service that finds a free service is answered with `resp1=r1`, on the queue
  -- of the command it asks with and under the type of the process it comes from, its number in it.
  -- The run is counted, and the service is free again.
  pub question_answered :
      (s : Container Kernel NoStack) (i pid j : ℕ) (free : IntMap (Service NoStack)) (c : Cmd)
      (w : World Kernel) (key : ℕ) (q : MsgQueue)
      → s.dispatcher.stateless ≡ (i, new_service i) ∷ free
      → key_count i s.dispatcher.stateful ≡ 0
      → c.type ≢ response
      → c.ret ≡ pos 0
      → c.svc_serial_no ≡ pos (pid * 100 + j)
      → 1 ≤ pid
      → j < 100
      → count_run behind (codes "c1_") i s.world ≡ some w
      → route c.cmd ≡ some key
      → (get_msg_queue w.queues key).1 ≡ some q
      → process_msg ipc (svc_test ipc behind) s c
        ≡ some (record s {
          dispatcher = record s.dispatcher {
            cur_cmd = answer_to c;
            stateless = assign i (new_service i) free;
          };
          world = after_send ipc q (app_type (pos pid)) (answer_to c) w;
        })
  unfolding process_msg settle reset_context marked is_error new_service
  question_answered s i pid j free c w key q e z t r n one few f g h =
      rw
        (
          run_dispatched s.dispatcher i free c s.world w e t f,
          ap (λ x. x ==ℤ unfinish_task_ret_flag) r,
          ap (λ x. x ==ℤ pos 0) r,
          erase_key-assign i (record { index = i; context = ended }) s.dispatcher.stateful z,
          reply-app ipc s.pid pid j (answer_to c) w key q n one few g h,
        )
        refl
