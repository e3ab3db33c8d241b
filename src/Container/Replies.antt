-- ===== src/Container/Replies.antt =====
-- What `CContainerEventHandler::ProcessMsg` sends, and to whom
-- (netio/src/container_user_event_handler.cpp).
use middlewar_test.Base.{
  ℕ, ◌+◌, ◌*◌, ◌/◌, ◌≤◌, ◌<◌, ◌≡◌, ◌≢◌, refl, ap, ◌∙◌, true, false, some, [], ◌++◌, codes, ℤ, pos,
  ◌==ℤ◌, ==ℤ_iff, arith,
}
use middlewar_test.Command.{Cmd}
use middlewar_test.Command.Number.{print_int, digits}
use middlewar_test.Queue.{Ipc, MsgQueue, response, net_io_back_msq_key, get_msg_queue}
use middlewar_test.Queue.Laws.{put_msg_text}
use middlewar_test.Netio.{message, route}
use middlewar_test.Netio.Routing.{length-message}
use middlewar_test.Dispatch.{Code, Dispatcher, dispatch, dispatch_request, no_free_svc_handler}
use middlewar_test.Container.{
  World, Container, Program, code_of, div_int, app_type, error_payload, is_error, marked, signed,
  put_cmd, reply, reply_app, reply_client, process_msg,
}

module _ (ipc : Ipc) where
  open ipc use {Kernel, msgsnd}

  -- The kernel once a command was put on a queue.
  abbrev pub after_send : MsgQueue → ℤ → Cmd → World Kernel → World Kernel
  after_send q type c w = record w { kernel = (msgsnd q.id type (message c) w.kernel).1 }

  pub put_cmd_lem :
      (q : MsgQueue) (type : ℤ) (c : Cmd) (w : World Kernel)
      → put_cmd ipc (some q) type c w ≡ some (after_send q type c w)
  unfolding put_cmd
  put_cmd_lem q type c w =
      rw (put_msg_text ipc q type (message c) w.kernel (length-message c)) (ground arith)

  -- The numbers of the services of a process.
  div_index : (pid i : ℕ) → i < 100 → (pid * 100 + i) / 100 ≡ pid
  div_index pid i h = omega arith

  -- The reply to a service of another process goes to the queue of the command that it asked with,
  -- under the type that this process looks for; the front process gets no notice.
  pub reply-app :
      (own pid i : ℕ) (c : Cmd) (w : World Kernel) (key : ℕ) (q : MsgQueue)
      → c.svc_serial_no ≡ pos (pid * 100 + i)
      → 1 ≤ pid
      → i < 100
      → route c.cmd ≡ some key
      → (get_msg_queue w.queues key).1 ≡ some q
      → reply ipc own c w
        ≡ some (after_send q (app_type (pos pid)) (record c { type = response }) w)
  unfolding reply reply_app div_int
  reply-app own pid i c w key q n one few e f =
      let t : (c.svc_serial_no ==ℤ pos 0) ≡ false = ap (λ n. n ==ℤ pos 0) n ∙ ground arith in
      let to : div_int c.svc_serial_no 100 ≡ pos pid =
        ap (λ n. div_int n 100) n ∙ ap pos (div_index pid i few) in
      rw (t, e, to, f) (put_cmd_lem q (app_type (pos pid)) (record c { type = response }) w)

  pub reply-client :
      (own : ℕ) (c : Cmd) (w : World Kernel) (q : MsgQueue)
      → c.svc_serial_no ≡ pos 0
      → (get_msg_queue w.queues net_io_back_msq_key).1 ≡ some q
      → reply ipc own c w
        ≡ some (record (after_send q response (signed own c) w) { notices = w.notices + 1 })
  unfolding reply reply_client
  reply-client own c w q n f =
      let t : (c.svc_serial_no ==ℤ pos 0) ≡ true = ap (λ n. n ==ℤ pos 0) n in
      rw (t, f, put_cmd_lem q response (signed own c) w) refl

  error_text : error_payload no_free_svc_handler ≡ codes "errCode=21&resp=Err happend!"
  unfolding error_payload print_int digits
  error_text = refl

  answer_lem :
      (pid : ℕ) (c : Cmd)
      → signed pid (marked no_free_svc_handler c) ≡ record c {
        ret = no_free_svc_handler;
        payload = codes "errCode=21&resp=Err happend! by pid:" ++ print_int (pos pid);
        type = response;
      }
  unfolding signed marked is_error
  answer_lem pid c = rw error_text refl

  marked-serial : (r : ℤ) (c : Cmd) → (marked r c).svc_serial_no ≡ c.svc_serial_no
  unfolding marked
  marked-serial r c = ground arith

  dispatch_busy :
      (code : Code) (d : Dispatcher code.Saved) (c : Cmd) (w : code.World)
      → d.stateless ≡ []
      → c.type ≢ response
      → dispatch code d c w ≡ some (no_free_svc_handler, c, record d { cur_cmd = c }, w)
  unfolding dispatch dispatch_request
  dispatch_busy code d c w free t =
      let not_response : (c.type ==ℤ response) ≡ false =
        ground (arith, t, ==ℤ_iff c.type response) in
      rw not_response (ap (λ m. dispatch_request code d m c w) free)

  -- A client's request that finds no free service is answered at once, by way of the front process:
  -- the data is an error text with the code 21 and the process, and the services are as they were.
  pub busy_answered :
      (p : Program Kernel) (s : Container Kernel p.Saved) (c : Cmd) (q : MsgQueue)
      → s.dispatcher.stateless ≡ []
      → c.type ≢ response
      → c.svc_serial_no ≡ pos 0
      → (get_msg_queue s.world.queues net_io_back_msq_key).1 ≡ some q
      → let answer : Cmd = record c {
        ret = no_free_svc_handler;
        payload = codes "errCode=21&resp=Err happend! by pid:" ++ print_int (pos s.pid);
        type = response;
      } in
        process_msg ipc p s c
        ≡ some (record s {
          dispatcher = record s.dispatcher { cur_cmd = c };
          world = record (after_send q response answer s.world) { notices = s.world.notices + 1 };
        })
  unfolding process_msg
  busy_answered p s c q free t n f =
      rw
        (
          dispatch_busy (code_of p) s.dispatcher c s.world free t,
          reply-client s.pid (marked no_free_svc_handler c) s.world q
              (marked-serial no_free_svc_handler c ∙ n) f,
          answer_lem s.pid c,
        )
        refl
