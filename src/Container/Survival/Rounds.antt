-- ===== src/Container/Survival/Rounds.antt =====
-- On which messages a container of `CSvcTest` (netio/src/svc_test.cpp) stops
-- (netio/src/container_user_event_handler.cpp).
use middlewar_test.Base.{
  ◌≡◌, refl, Bool, true, false, ◌&&◌, assert_that, Option, none, some, Bytes, ltb, ◌==◌, ◌>>=◌,
  length, ℤ, pos, Bool-cases, inl, inr, Decided, stops, goes_on, is_some, Ensures, Decided-is_some,
  Decided-Ensures,
}
use middlewar_test.Command.{new_cmd, init_ccmd}
use middlewar_test.Queue.{
  is_terminated, Ipc, MsgQueue, Received, got, no_msg, recv_error, buf_size, max_msg_size, request,
  get_msg_queue,
}
use middlewar_test.Queue.Laws.{get_msg_nothing, get_msg_error, get_msg_text}
use middlewar_test.Container.{Container, app_type}
use middlewar_test.Container.Services.{NoStack, svc_test}
use middlewar_test.Container.Survival.{Runs, command_passes}
use middlewar_test.Container.Survival.{text_passes}
use middlewar_test.Container.Survival.Commands.{process_msg-Decided}
use middlewar_test.Container.{receive, on_event_fire}

module _ (ipc : Ipc) (behind : Bytes) where
  open ipc use {Kernel, msgrcv}

  -- The command in a message.
  abbrev pub message_passes : Container Kernel NoStack → Bytes → Bool
  message_passes s text = command_passes s.dispatcher.stateless (init_ccmd new_cmd text)

  -- The message that a container takes in a round: the first request, or else the first answer for its
  -- process.
  abbrev pub round_passes : MsgQueue → Container Kernel NoStack → Bool
  round_passes q s =
      let (first, kernel) = msgrcv q.id max_msg_size request s.world.kernel in
      text_passes first (message_passes s) (
        text_passes (msgrcv q.id max_msg_size (app_type (pos s.pid)) kernel).0 (message_passes s)
          true)

  abbrev taken : MsgQueue → ℤ → Container Kernel NoStack → Container Kernel NoStack
  taken q type s = record s {
    world = record s.world { kernel = (msgrcv q.id max_msg_size type s.world.kernel).1 };
  }

  checked :
      {s : Container Kernel NoStack} {text : Bytes} {b : Bool} (t : Bool)
      (f : Option Bytes × Container Kernel NoStack → Option (Container Kernel NoStack))
      → Decided Runs b (f (some text, s))
      → Decided Runs (t && b) (assert_that t (some (some text, s)) >>= f)
  checked true f h = h
  checked false f h = stops

  received-Decided :
      (s : Container Kernel NoStack) (q : MsgQueue) (type : ℤ) (test : Bytes → Bool)
      (otherwise : Bool)
      (f : Option Bytes × Container Kernel NoStack → Option (Container Kernel NoStack))
      (a : Received)
      → (get_msg_queue s.world.queues s.mq_key).1 ≡ some q
      → (msgrcv q.id max_msg_size type s.world.kernel).0 ≡ a
      → ((text : Bytes) → Decided Runs (test text) (f (some text, taken q type s)))
      → Decided Runs otherwise (f (none, taken q type s))
      → Decided Runs (text_passes a test otherwise) (receive ipc (svc_test ipc behind) s type >>= f)
  unfolding receive
  received-Decided s q type test otherwise f no_msg e g h k =
      rw (e, get_msg_nothing ipc q type 0 s.world.kernel g) k
  received-Decided s q type test otherwise f recv_error e g h k =
      rw (e, get_msg_error ipc q type 0 s.world.kernel g) k
  received-Decided s q type test otherwise f (got text) e g h k =
      rw (e, get_msg_text ipc q type 0 s.world.kernel text g)
        (elim (Bool-cases (ltb buf_size (length text))) [
          | inl b ↦ rw b stops
          | inr b ↦ elim (Bool-cases (length text == 0)) [
            | inl z ↦ rw (b, z) k
            | inr z ↦ rw (b, z) (checked (is_terminated text) f (h text))
          ]
        ])

  on_event_fire-Decided :
      (s : Container Kernel NoStack) (q : MsgQueue)
      → Runs s
      → (get_msg_queue s.world.queues s.mq_key).1 ≡ some q
      → Decided Runs (round_passes q s) (on_event_fire ipc (svc_test ipc behind) s)
  unfolding on_event_fire
  on_event_fire-Decided s q v e =
      let v1 : Runs (taken q request s) = record {
        serving = v.serving;
        free_fresh = v.free_fresh;
        busy_ended = v.busy_ended;
      } in
      received-Decided s q request (message_passes s) _ _ _ e refl
        (λ text. process_msg-Decided ipc behind (taken q request s) (init_ccmd new_cmd text) v1)
        (received-Decided (taken q request s) q (app_type (pos s.pid)) (message_passes s) true _ _ e
          refl
          (λ text.
            process_msg-Decided ipc behind (taken q (app_type (pos s.pid)) (taken q request s))
              (init_ccmd new_cmd text)
              (record {
                serving = v.serving;
                free_fresh = v.free_fresh;
                busy_ended = v.busy_ended;
              }))
          (goes_on
            (record { serving = v.serving; free_fresh = v.free_fresh; busy_ended = v.busy_ended })))

  -- While the tables are ready, the queues open and the services free or at their end, a container of
  -- `CSvcTest` stops in a round exactly if the message that it takes does not fit the buffer or
  -- does not end in it as a text, is a response, or asks for a reply to a service under a command
  -- other than 1 and 2; of the last it is spared where a service is free and the command says itself
  -- that it is not finished. Otherwise the tables, queues and services are so afterwards too.
  pub container_stops_exactly :
      (s : Container Kernel NoStack) (q : MsgQueue)
      → Runs s
      → (get_msg_queue s.world.queues s.mq_key).1 ≡ some q
      → (is_some (on_event_fire ipc (svc_test ipc behind) s) ≡ round_passes q s)
        × Ensures Runs (on_event_fire ipc (svc_test ipc behind) s)
  container_stops_exactly s q v e =
      let d = on_event_fire-Decided s q v e in (Decided-is_some d, Decided-Ensures d)
