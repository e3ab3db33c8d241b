-- ===== src/Container/Exchange.antt =====
-- How a container receives what another process put on its queue
-- (netio/src/container_user_event_handler.cpp).
use middlewar_test.Base.{ℕ, suc, ◌<◌, ◌≡◌, refl, false, none, some, ◌==◌, length, ℤ, pos, arith}
use middlewar_test.Command.{Cmd, new_cmd, to_string, init_ccmd}
use middlewar_test.Command.Buffer.{IsReadable, c_str-to_buffer, init_ccmd-to_buffer}
use middlewar_test.Text.Dictionary.{Dict}
use middlewar_test.Queue.{
  Ipc, MsgQueue, got, no_msg, buf_size, max_msg_size, request, get_msg_queue,
}
use middlewar_test.Queue.Laws.{is_terminated-short, get_msg_got, get_msg_nothing}
use middlewar_test.Netio.{message}
use middlewar_test.Netio.Routing.{length-message}
use middlewar_test.Container.{Container, Program, app_type, process_msg, receive, on_event_fire}

suc_some : (n : ℕ) → (suc n == 0) ≡ false
suc_some n = ground arith

to_string_some : (c : Cmd) → (length (to_string c) == 0) ≡ false
unfolding to_string
to_string_some c = suc_some _

pub message_some :
    (c : Cmd) (ps : Dict)
    → IsReadable c ps
    → length (to_string c) < buf_size
    → (length (message c) == 0) ≡ false
unfolding message
message_some c ps r h = rw (c_str-to_buffer c ps buf_size r h) (to_string_some c)

pub message_read :
    (c : Cmd) (ps : Dict)
    → IsReadable c ps
    → length (to_string c) < buf_size
    → init_ccmd new_cmd (message c) ≡ c
unfolding message
message_read c ps r h = init_ccmd-to_buffer c ps buf_size r h

module _ (ipc : Ipc) (p : Program (ipc.Kernel)) where
  open ipc use {Kernel, msgrcv}

  abbrev pub after_take : Container Kernel p.Saved → Kernel → Container Kernel p.Saved
  after_take s kernel = record s { world = record s.world { kernel = kernel } }

  receive-message :
      (s : Container Kernel p.Saved) (q : MsgQueue) (type : ℤ) (c : Cmd) (ps : Dict)
      → (get_msg_queue s.world.queues s.mq_key).1 ≡ some q
      → IsReadable c ps
      → length (to_string c) < buf_size
      → (msgrcv q.id max_msg_size type s.world.kernel).0 ≡ got (message c)
      → receive ipc p s type
        ≡ some (some (message c), after_take s (msgrcv q.id max_msg_size type s.world.kernel).1)
  unfolding receive
  receive-message s q type c ps e r h g =
      rw
        (
          e,
          get_msg_got ipc q type 0 (message c) s.world.kernel (length-message c) g,
          message_some c ps r h,
          is_terminated-short (message c) (length-message c),
        )
        refl

  receive_nothing :
      (s : Container Kernel p.Saved) (q : MsgQueue) (type : ℤ)
      → (get_msg_queue s.world.queues s.mq_key).1 ≡ some q
      → (msgrcv q.id max_msg_size type s.world.kernel).0 ≡ no_msg
      → receive ipc p s type
        ≡ some (none, after_take s (msgrcv q.id max_msg_size type s.world.kernel).1)
  unfolding receive
  receive_nothing s q type e g = rw (e, get_msg_nothing ipc q type 0 s.world.kernel g) refl

  -- The first request of a container's queue is handled by `ProcessMsg` as the command that its sender
  -- wrote into it, whoever sent it, and no answer is taken from the queue in this round.
  pub request_handled :
      (s : Container Kernel p.Saved) (q : MsgQueue) (c : Cmd) (ps : Dict)
      → (get_msg_queue s.world.queues s.mq_key).1 ≡ some q
      → IsReadable c ps
      → length (to_string c) < buf_size
      → (msgrcv q.id max_msg_size request s.world.kernel).0 ≡ got (message c)
      → on_event_fire ipc p s
        ≡ process_msg ipc p (after_take s (msgrcv q.id max_msg_size request s.world.kernel).1) c
  unfolding on_event_fire
  request_handled s q c ps e r h g =
      rw (receive-message s q request c ps e r h g, message_read c ps r h) refl

  -- Where no request waits, the first answer for this process is handled the same way.
  pub answer_handled :
      (s : Container Kernel p.Saved) (q : MsgQueue) (c : Cmd) (ps : Dict)
      → (get_msg_queue s.world.queues s.mq_key).1 ≡ some q
      → IsReadable c ps
      → length (to_string c) < buf_size
      → (msgrcv q.id max_msg_size request s.world.kernel).0 ≡ no_msg
      → let kernel = (msgrcv q.id max_msg_size request s.world.kernel).1 in
        (msgrcv q.id max_msg_size (app_type (pos s.pid)) kernel).0 ≡ got (message c)
        → on_event_fire ipc p s
          ≡ process_msg ipc p
              (after_take s (msgrcv q.id max_msg_size (app_type (pos s.pid)) kernel).1)
              c
  unfolding on_event_fire
  answer_handled s q c ps e r h f g =
      let kernel = (msgrcv q.id max_msg_size request s.world.kernel).1 in
      rw
        (
          receive_nothing s q request e f,
          receive-message (after_take s kernel) q (app_type (pos s.pid)) c ps e r h g,
          message_read c ps r h,
        )
        refl
