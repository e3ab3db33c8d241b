-- ===== src/Queue.antt =====
-- netio/include/msgq_manager.h, netio/src/msgq_manager.cpp and the constants of
-- netio/include/global_define.h: System V message queues, and the map of the queues that a process
-- has opened. The kernel is a parameter. What `m_sLastErrMsg` holds is not modelled: it is only
-- printed.
pub mod Laws
pub mod Fifo
use middlewar_test.Base.{
  ℕ, ◌-◌, ◌*◌, ◌||◌, Bool, true, false, Option, none, some, List, [], ◌∷◌, ◌++◌, Bytes, ◌==◌, ltb,
  if◌then◌else◌, length, take, replicate, ℤ, pos, IntMap, find_key, assign,
}

abbrev pub max_msg_size : ℕ
max_msg_size = 1024

-- `sizeof(sBuf)`.
abbrev pub buf_size : ℕ
buf_size = max_msg_size - 8

abbrev pub max_qbytes : ℕ
max_qbytes = 1024 * 100

-- `errcode`, in its order from 1.
abbrev pub create_msgq_failed : ℕ
create_msgq_failed = 1

abbrev pub cntl_msgq_bytes_failed : ℕ
cntl_msgq_bytes_failed = 2

abbrev pub msgq_no_exist : ℕ
msgq_no_exist = 3

abbrev pub msg_too_long : ℕ
msg_too_long = 4

abbrev pub send_msg_failed : ℕ
send_msg_failed = 5

abbrev pub recv_msg_failed : ℕ
recv_msg_failed = 6

abbrev pub delete_msgq_failed : ℕ
delete_msgq_failed = 7

-- `MSGTYPE_t`.
abbrev pub request : ℤ
request = pos 1

abbrev pub response : ℤ
response = pos 2

abbrev pub app : ℤ
app = pos 3

abbrev pub net_io_back_msq_key : ℕ
net_io_back_msq_key = 0xccccc

-- The keys of `g_mapCmdDLL`, in order.
abbrev pub cmd_dll_keys : List ℕ
cmd_dll_keys = 0xccccd ∷ 0xcccce ∷ []

-- What `msgrcv` answers: a message's text, `ENOMSG`, or another error.
pub data Received : Type 0 where
  got : Bytes → Received
  no_msg recv_error : Received

-- The calls of the kernel that the program makes; queues go by the number that `msgget` gave.
pub record Ipc : Type 1 where
  pub Kernel : Type 0
  pub msgget : ℕ → Kernel → Option ℕ × Kernel
  pub msgctl_set : ℕ → ℕ → Kernel → Bool × Kernel
  pub msgctl_rmid : ℕ → Kernel → Bool × Kernel
  pub msgsnd : ℕ → ℤ → Bytes → Kernel → Bool × Kernel
  pub msgrcv : ℕ → ℕ → ℤ → Kernel → Received × Kernel

pub record MsgQueue : Type 0 where
  pub id : ℕ
  pub key : ℕ

-- The constructor.
abbrev pub new_queue : MsgQueue
new_queue = record { id = 0; key = 0 }

-- `m_mapGroupMsgqs`.
abbrev pub Manager : Type 0
Manager = IntMap MsgQueue

-- `GetMsgQueue`: the code, and what `rpMsgq` is set to.
unfoldable pub get_msg_queue : Manager → ℕ → ℕ × Option MsgQueue
unfolding find_key
get_msg_queue m k = elim (find_key k m) [ none ↦ (msgq_no_exist, none) | some q ↦ (0, some q) ]

-- The buffer of a message whose text is `s`: the text, and zeros up to its size.
abbrev pub buffer : Bytes → Bytes
buffer s = take buf_size (s ++ replicate buf_size 0)

unfoldable pub has_zero : Bytes → Bool
has_zero [] = false
has_zero (c ∷ s) = if c == 0 then true else has_zero s

-- Whether `sBuf`, once a message was written over its zeros, ends as a text within its bytes.
unfoldable pub is_terminated : Bytes → Bool
unfolding has_zero
is_terminated s = ltb (length s) buf_size || has_zero s

module _ (ipc : Ipc) where
  open ipc use {Kernel, msgget, msgctl_set, msgctl_rmid, msgsnd, msgrcv}

  -- `CMsgQueue::Init`. The answer to `IPC_STAT` is not looked at.
  unfoldable pub init : MsgQueue → ℕ → Kernel → ℕ × MsgQueue × Kernel
  init q k kernel =
      let (answer, kernel') = msgget k kernel in
      elim answer [
        | none ↦ (create_msgq_failed, q, kernel')
        | some id ↦
            let (done, kernel'') = msgctl_set id max_qbytes kernel' in
            if done
            then (0, record { id = id; key = k }, kernel'')
            else (cntl_msgq_bytes_failed, q, kernel'')
      ]

  unfoldable pub fini : MsgQueue → Kernel → ℕ × Kernel
  fini q kernel =
      let (done, kernel') = msgctl_rmid q.id kernel in
      if done then (0, kernel') else (delete_msgq_failed, kernel')

  -- `none`: more bytes are sent than the buffer holds.
  unfoldable pub put_msg : MsgQueue → ℤ → Bytes → ℕ → Kernel → Option (ℕ × Kernel)
  put_msg q type text len kernel =
      if ltb max_msg_size len
      then some (msg_too_long, kernel)
      else if ltb buf_size len
      then none
      else let (done, kernel') = msgsnd q.id type (take len (buffer text)) kernel in
        some (if done then (0, kernel') else (send_msg_failed, kernel'))

  -- The code, `dwBufLen` (`len0` before the call), and the text that is in the buffer.
  -- `none`: more bytes arrive than the buffer holds.
  unfoldable pub get_msg : MsgQueue → ℤ → ℕ → Kernel → Option (ℕ × ℕ × Bytes × Kernel)
  get_msg q type len0 kernel =
      let (answer, kernel') = msgrcv q.id max_msg_size type kernel in
      elim answer [
        | recv_error ↦ some (recv_msg_failed, len0, [], kernel')
        | no_msg ↦ some (0, 0, [], kernel')
        | got text ↦
            if ltb buf_size (length text) then none else some (0, length text, text, kernel')
      ]

  -- A queue whose `Init` failed is kept in the map too.
  unfoldable pub add_msg_queue : Manager → ℕ → Kernel → ℕ × Manager × Kernel
  unfolding find_key assign init
  add_msg_queue m k kernel = elim (find_key k m) [
    | some q ↦ (0, m, kernel)
    | none ↦ let (code, q, kernel') = init new_queue k kernel in (0, assign k q m, kernel')
  ]

  -- The queue stays in the map.
  unfoldable pub del_msg_queue : Manager → ℕ → Kernel → ℕ × Kernel
  unfolding fini
  del_msg_queue [] k kernel = (0, kernel)
  del_msg_queue ((j, q) ∷ m) k kernel =
      let (code, kernel') = fini q kernel in del_msg_queue m k (if j == k then kernel' else kernel)
