-- ===== src/Container/Survival/Replies.antt =====
-- On which replies a container stops (netio/src/container_user_event_handler.cpp).
use middlewar_test.Base.{
  ℕ, ◌+◌, refl, true, ◌||◌, pos, ◌==ℤ◌, Option-cases, inl, inr, arith, Decided, Decided-none,
  Decided-some, if-Decided,
}
use middlewar_test.Command.{Cmd}
use middlewar_test.Queue.{Ipc, response}
use middlewar_test.Netio.{route}
use middlewar_test.Netio.Routing.{route_lem}
use middlewar_test.Netio.Survival.{request_queue}
use middlewar_test.Dispatch.{Dispatcher}
use middlewar_test.Container.{World, app_type, div_int, signed, reply, reply_app, reply_client}
use middlewar_test.Container.Services.{NoStack}
use middlewar_test.Container.Replies.{after_send, put_cmd_lem}
use middlewar_test.Container.Survival.{IsRunning, is_answerable}

module _ (ipc : Ipc) where
  open ipc use {Kernel}

  reply_app-Decided :
      (d : Dispatcher NoStack) (c : Cmd) (w : World Kernel)
      → IsRunning d w
      → Decided (IsRunning d) (c.cmd ==ℤ pos 1 || c.cmd ==ℤ pos 2) (reply_app ipc c w)
  unfolding reply_app
  reply_app-Decided d c w v = elim (Option-cases (route c.cmd)) [
    | inl e ↦ Decided-none (ground (arith, route_lem c.cmd, e)) (rw e)
    | inr (key, e) ↦
        let (q, f) = request_queue w.queues w.cache c.cmd key v.serving e in
        Decided-some
          {a = after_send ipc q (app_type (div_int c.svc_serial_no 100))
            (record c { type = response }) w}
          (ground (arith, route_lem c.cmd, e)) (rw (e, f) (put_cmd_lem ipc q _ _ w))
          (record { serving = v.serving; free_fresh = v.free_fresh; busy_ended = v.busy_ended })
  ]

  reply_client-Decided :
      (own : ℕ) (d : Dispatcher NoStack) (c : Cmd) (w : World Kernel)
      → IsRunning d w
      → Decided (IsRunning d) true (reply_client ipc own c w)
  unfolding reply_client
  reply_client-Decided own d c w v =
      let (q, f) = v.serving.responses in
      Decided-some
        {a = record (after_send ipc q response (signed own c) w) { notices = w.notices + 1 }} refl
        (rw (f, put_cmd_lem ipc q response _ w) refl)
        (record { serving = v.serving; free_fresh = v.free_fresh; busy_ended = v.busy_ended })

  pub reply-Decided :
      (own : ℕ) (d : Dispatcher NoStack) (c : Cmd) (w : World Kernel)
      → IsRunning d w
      → Decided (IsRunning d) (is_answerable c) (reply ipc own c w)
  unfolding reply
  reply-Decided own d c w v =
      if-Decided (c.svc_serial_no ==ℤ pos 0) (reply_client-Decided own d c w v)
        (reply_app-Decided d c w v)
