-- ===== src/Queue/Laws.antt =====
-- What reaches the kernel from `CMsgQueue::PutMsg` and what comes back from it through
-- `CMsgQueue::GetMsg` (netio/src/msgq_manager.cpp).
use middlewar_test.Base.{
  true, ltb, [], ℕ, ◌<◌, ◌≡◌, none, some, Bytes, if◌then◌else◌, ◌>>=◌, length, replicate, take-take,
  ℤ, arith, find_key, find_key-assign,
}
use middlewar_test.Queue.{
  no_msg, recv_error, recv_msg_failed, Ipc, MsgQueue, got, buf_size, max_msg_size, send_msg_failed,
  is_terminated, put_msg, get_msg, add_msg_queue, get_msg_queue, Manager,
}

-- A text of less than 1016 bytes ends in the buffer.
pub is_terminated-short : (text : Bytes) → length text < buf_size → is_terminated text ≡ true
unfolding is_terminated
is_terminated-short text h = ground (arith, h)

-- What `PutMsg` hands to the kernel is the whole text of the message.
pub put_msg_text :
    (ipc : Ipc) (q : MsgQueue) (type : ℤ) (m : Bytes) (kernel : ipc.Kernel)
    → length m < buf_size
    → put_msg ipc q type m (length m) kernel ≡ (
        let (done, kernel') = ipc.msgsnd q.id type m kernel in
        some (if done then (0, kernel') else (send_msg_failed, kernel')))
unfolding put_msg
put_msg_text ipc q type m kernel h = ground (arith, take-take m (replicate buf_size 0) buf_size)

-- The queue answers a `msgrcv` with what a `msgsnd` put on it.
abbrev pub HandsOver : (ipc : Ipc) → MsgQueue → ℤ → Bytes → ipc.Kernel → Type 0
HandsOver ipc q type m kernel =
    let sent = (ipc.msgsnd q.id type m kernel).1 in
    (ipc.msgrcv q.id max_msg_size type sent).0 ≡ got m

-- A message with a text of less than 1016 bytes that `PutMsg` puts on a queue is what `GetMsg` of
-- the same type then takes from it, with its length, where the queue hands over what it is given.
pub get_msg-put_msg :
    (ipc : Ipc) (q : MsgQueue) (type : ℤ) (m : Bytes) (kernel : ipc.Kernel)
    → length m < buf_size
    → HandsOver ipc q type m kernel
    → (put_msg ipc q type m (length m) kernel >>= λ (code, kernel'). get_msg ipc q type 0 kernel')
      ≡ some
          (0, length m, m, (ipc.msgrcv q.id max_msg_size type (ipc.msgsnd q.id type m kernel).1).1)
unfolding get_msg
get_msg-put_msg ipc q type m kernel h e = rw (put_msg_text ipc q type m kernel h) (ground (arith))

-- A queue that the kernel did not open is in the map afterwards all the same, and is found there
-- with the number 0: what is put on it goes to the queue that has this number.
pub failed_queue_kept :
    (ipc : Ipc) (m : Manager) (k : ℕ) (kernel : ipc.Kernel)
    → find_key k m ≡ none
    → (ipc.msgget k kernel).0 ≡ none
    → (add_msg_queue ipc m k kernel).0 ≡ 0
      × get_msg_queue (add_msg_queue ipc m k kernel).1 k ≡ (0, some (record { id = 0; key = 0 }))
unfolding add_msg_queue get_msg_queue
failed_queue_kept ipc m k kernel e f =
    ground (arith, e, f, find_key-assign k k (record { id = 0; key = 0 }) m)

pub get_msg_got :
    (ipc : Ipc) (q : MsgQueue) (type : ℤ) (len0 : ℕ) (text : Bytes) (kernel : ipc.Kernel)
    → length text < buf_size
    → (ipc.msgrcv q.id max_msg_size type kernel).0 ≡ got text
    → get_msg ipc q type len0 kernel
      ≡ some (0, length text, text, (ipc.msgrcv q.id max_msg_size type kernel).1)
unfolding get_msg
get_msg_got ipc q type len0 text kernel h g = ground (arith, g)

pub get_msg_nothing :
    (ipc : Ipc) (q : MsgQueue) (type : ℤ) (len0 : ℕ) (kernel : ipc.Kernel)
    → (ipc.msgrcv q.id max_msg_size type kernel).0 ≡ no_msg
    → get_msg ipc q type len0 kernel ≡ some (0, 0, [], (ipc.msgrcv q.id max_msg_size type kernel).1)
unfolding get_msg
get_msg_nothing ipc q type len0 kernel g = ground (arith, g)

pub get_msg_error :
    (ipc : Ipc) (q : MsgQueue) (type : ℤ) (len0 : ℕ) (kernel : ipc.Kernel)
    → (ipc.msgrcv q.id max_msg_size type kernel).0 ≡ recv_error
    → get_msg ipc q type len0 kernel
      ≡ some (recv_msg_failed, len0, [], (ipc.msgrcv q.id max_msg_size type kernel).1)
unfolding get_msg
get_msg_error ipc q type len0 kernel e = ground (arith, e)

-- A message of any length.
pub get_msg_text :
    (ipc : Ipc) (q : MsgQueue) (type : ℤ) (len0 : ℕ) (kernel : ipc.Kernel) (text : Bytes)
    → (ipc.msgrcv q.id max_msg_size type kernel).0 ≡ got text
    → get_msg ipc q type len0 kernel ≡ (
        if ltb buf_size (length text)
        then none
        else some (0, length text, text, (ipc.msgrcv q.id max_msg_size type kernel).1))
unfolding get_msg
get_msg_text ipc q type len0 kernel text e = ground (arith, e)
