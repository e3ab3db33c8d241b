-- ===== src/Container.antt =====
-- A container process: `CContainerEventHandler` (netio/include/container_user_event_handler.h,
-- netio/src/container_user_event_handler.cpp) with its one dispatcher, over the services of a
-- `Program`. `none` is a failed assertion, a fault of a service, or the use of a queue that was
-- never set.
pub mod Services
pub mod Replies
pub mod Conversation
pub mod Answering
pub mod Startup
pub mod Survival
pub mod Loader
pub mod Main
pub mod Exchange
pub mod Messages
pub mod Mail
pub mod Notify
pub mod Client
pub mod Final
pub mod Dialogue
use middlewar_test.Base.{
  ℕ, suc, ◌+◌, ◌-◌, ◌*◌, ◌/◌, Bool, not, ◌&&◌, Option, none, some, ◌++◌, Bytes, codes, ◌==◌,
  if◌then◌else◌, ◌>>=◌, assert_that, length, take, ℤ, pos, negsuc, ◌==ℤ◌,
}
use middlewar_test.Cache.Manager
use middlewar_test.Command.{Cmd, new_cmd, init_ccmd}
use middlewar_test.Command.Number.{print_int}
use middlewar_test.Queue.{
  is_terminated, Ipc, MsgQueue, request, response, net_io_back_msq_key, get_msg_queue, put_msg,
  get_msg,
}
use middlewar_test.Queue
use middlewar_test.Netio.{message, route}
use middlewar_test.Dispatch.{Code, Dispatcher, dispatch, unfinish_task_ret_flag}

-- What the services of a process share, with the notices that were sent to the front process.
pub record World (K : Type 0) : Type 0 where
  pub queues : Queue.Manager
  pub kernel : K
  pub cache : Manager.Manager
  pub notices : ℕ

pub record Container (K S : Type 0) : Type 0 where
  pub dispatcher : Dispatcher S
  pub world : World K
  pub pid : ℕ
  pub mq_key : ℕ

-- The services of a container, over the queues of the kernel `K`.
pub record Program (K : Type 0) : Type 1 where
  pub Saved : Type 0
  pub start : ℕ → Cmd → World K → Option (Cmd × World K × Option Saved)
  pub resume : ℕ → Saved → Cmd → World K → Option (Cmd × World K × Option Saved)

abbrev pub code_of : {K : Type 0} → Program K → Code
code_of {K = K} p = record { Saved = p.Saved; World = World K; start = p.start; resume = p.resume }

-- Division of an `int` by a positive number.
unfoldable pub div_int : ℤ → ℕ → ℤ
div_int (pos n) k = pos (n / k)
div_int (negsuc n) k = if suc n / k == 0 then pos 0 else negsuc (suc n / k - 1)

-- `iPid * 10 + APP`.
unfoldable pub app_type : ℤ → ℤ
app_type (pos n) = pos (n * 10 + 3)
app_type (negsuc n) = negsuc (suc n * 10 - 4)

-- The data of a reply that reports an error, cut as `snprintf` does in 256 bytes.
unfoldable pub error_payload : ℤ → Bytes
error_payload r = take 255 (codes "errCode=" ++ print_int r ++ codes "&resp=Err happend!")

unfoldable pub is_error : ℤ → Bool
is_error r = not (r ==ℤ pos 0) && not (r ==ℤ unfinish_task_ret_flag)

-- The command of a reply, once the code of the dispatch is known.
unfoldable pub marked : ℤ → Cmd → Cmd
marked r c = if is_error r then record c { ret = r; payload = error_payload r } else c

-- What the front process gets: the data is followed by the process that made it.
unfoldable pub signed : ℕ → Cmd → Cmd
signed pid c = record c {
  payload = c.payload ++ codes " by pid:" ++ print_int (pos pid);
  type = response;
}

module _ (ipc : Ipc) where
  open ipc use {Kernel}

  -- `PutMsg` of a command on a queue, with what the caller does about a refusal: nothing.
  unfoldable pub put_cmd : Option MsgQueue → ℤ → Cmd → World Kernel → Option (World Kernel)
  put_cmd none type c w = none
  put_cmd (some q) type c w = do
    let m = message c
    (code, kernel') ← put_msg ipc q type m (length m) w.kernel
    some (record w { kernel = kernel' })

  -- The reply to another service: `iCmd` is the command of the one that asked.
  unfoldable pub reply_app : Cmd → World Kernel → Option (World Kernel)
  reply_app c w = do
    key ← route c.cmd
    put_cmd (get_msg_queue w.queues key).1 (app_type (div_int c.svc_serial_no 100))
        (record c { type = response }) w

  -- The reply to a client, by way of the front process, with its notice.
  unfoldable pub reply_client : ℕ → Cmd → World Kernel → Option (World Kernel)
  reply_client pid c w = do
    w' ← put_cmd (get_msg_queue w.queues net_io_back_msq_key).1 response (signed pid c) w
    some (record w' { notices = w'.notices + 1 })

  unfoldable pub reply : ℕ → Cmd → World Kernel → Option (World Kernel)
  reply pid c w = if c.svc_serial_no ==ℤ pos 0 then reply_client pid c w else reply_app c w

  module _ (p : Program Kernel) where
    -- `ProcessMsg`.
    unfoldable pub process_msg : Container Kernel p.Saved → Cmd → Option (Container Kernel p.Saved)
    process_msg s c = do
      (r, c', d, w) ← dispatch (code_of p) s.dispatcher c s.world
      let s' = record s { dispatcher = d; world = w }
      if r ==ℤ unfinish_task_ret_flag
          then some s'
          else do w' ← reply s.pid (marked r c') w; some (record s' { world = w' })

    -- A message of the given type for this process, if there is one; it is read as a text.
    unfoldable pub receive :
        Container Kernel p.Saved → ℤ → Option (Option Bytes × Container Kernel p.Saved)
    receive s type = do
      q ← (get_msg_queue s.world.queues s.mq_key).1
      (code, len, text, kernel') ← get_msg ipc q type 0 s.world.kernel
      let w : World Kernel = record s.world { kernel = kernel' }
      if len == 0
          then some (none, record s { world = w })
          else assert_that (is_terminated text) (some (some text, record s { world = w }))

    -- `OnEventFire`: a request, or else a response to a service of this process.
    unfoldable pub on_event_fire : Container Kernel p.Saved → Option (Container Kernel p.Saved)
    on_event_fire s = do
      (first, s1) ← receive s request
      elim first [
        | some text ↦ process_msg s1 (init_ccmd new_cmd text)
        | none ↦ (do
          (second, s2) ← receive s1 (app_type (pos s.pid))
          elim second [ some text ↦ process_msg s2 (init_ccmd new_cmd text) | none ↦ some s2 ])
      ]
