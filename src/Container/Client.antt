-- ===== src/Container/Client.antt =====
-- A client's own request to `CSvcTest` (netio/src/svc_test.cpp) in its container
-- (netio/src/container_user_event_handler.cpp).
use middlewar_test.Base.{
  take, take_all, length-append, ◌-◌, ℕ, zero, suc, ◌+◌, ◌/◌, ◌%◌, ◌≤◌, ◌<◌, ◌≡◌, ◌≢◌, refl, ap,
  ◌∙◌, some, [], ◌∷◌, ◌++◌, Bytes, codes, length, pos, ◌==ℤ◌, IntMap, assign, erase_key-assign,
  key_count, bytes_eq, arith,
}
use middlewar_test.Text.{is_space}
use middlewar_test.Text.Dictionary.{Dict, key_lt}
use middlewar_test.Text.Pairs.{IsPlain, IsPlain-IsValue, IsValue, IsFree-append, IsFree-zero}
use middlewar_test.Text.Trimming.{IsValue-framed}
use middlewar_test.Text.Splitting.{IsFree}
use middlewar_test.Command.{Cmd, c_str, to_string, join_pairs}
use middlewar_test.Command.Number.{print_int, digits}
use middlewar_test.Command.Written.{print_int-IsPlain, c_str-IsFree}
use middlewar_test.Command.RoundTrip.{AreInts}
use middlewar_test.Command.Buffer.{IsReadable, length-to_string-le, length-print_int-le}
use middlewar_test.Queue.{Ipc, MsgQueue, buf_size, response, net_io_back_msq_key, get_msg_queue}
use middlewar_test.Dispatch.{
  Service, new_service, ended, settle, reset_context, unfinish_task_ret_flag,
}
use middlewar_test.Container.{World, Container, marked, is_error, signed, process_msg}
use middlewar_test.Container.Replies.{after_send, reply-client}
use middlewar_test.Container.Services.{NoStack, count_run, svc_test}
use middlewar_test.Container.Answering.{answer_to, run_dispatched}

-- The data of the reply: the service's, and the process.
abbrev pub reply_text : ℕ → Bytes
reply_text pid = codes "resp1=r1 by pid:" ++ print_int (pos pid)

abbrev pub reply_pairs : ℕ → Dict
reply_pairs pid = (codes "resp1", codes "r1 by pid:" ++ print_int (pos pid)) ∷ []

digits_some : (f n d : ℕ) (out : Bytes) → digits f n (d ∷ out) ≢ []
unfolding digits
digits_some zero n d out = λ e. cc
digits_some (suc f) n d out = ground (arith, digits_some f (n / 10) (b'0' + n % 10) (d ∷ out))

print_some : (n : ℕ) → print_int (pos n) ≢ []
unfolding print_int digits
print_some n = ground (arith, digits_some 9 (n / 10) (b'0' + n % 10) [])

behind_words :
    (s t : Bytes)
    → IsFree 0 (b'r' ∷ s)
    → IsFree b'&' (b'r' ∷ s)
    → IsFree b'=' (b'r' ∷ s)
    → t ≢ []
    → IsPlain t
    → IsValue (b'r' ∷ s ++ t)
unfolding is_space
behind_words s [] z a e n h = absurd (n refl)
behind_words s (d ∷ t) z a e n h = IsValue-framed b'r' d s t refl z a e h

-- A value that ends in the number of a process.
pub IsValue-process :
    (s : Bytes) (pid : ℕ)
    → IsFree 0 (b'r' ∷ s)
    → IsFree b'&' (b'r' ∷ s)
    → IsFree b'=' (b'r' ∷ s)
    → IsValue (b'r' ∷ s ++ print_int (pos pid))
IsValue-process s pid z a e =
    behind_words s (print_int (pos pid)) z a e (print_some pid) (print_int-IsPlain (pos pid))

reply-IsValue : (pid : ℕ) → IsValue (codes "r1 by pid:" ++ print_int (pos pid))
reply-IsValue pid =
    IsValue-process (codes "1 by pid:") pid (ground arith) (ground arith) (ground arith)

-- A text of at most 100 bytes is kept whole in the buffer of the front process.
pub kept_whole :
    (s : Bytes) → IsFree 0 s → length s ≤ 100 → c_str (take (buf_size - 1) (c_str s)) ≡ s
kept_whole s f n =
    let free = c_str-IsFree s f in
    ap (λ t. c_str (take (buf_size - 1) t)) free
    ∙ ap c_str (take_all (buf_size - 1) s (omega (arith, n)))
    ∙ free

reply_text-IsFree : (pid : ℕ) → IsFree 0 (reply_text pid)
reply_text-IsFree pid =
    IsFree-append 0 (codes "resp1=r1 by pid:") (print_int (pos pid)) (ground arith)
      (IsFree-zero (print_int (pos pid)) (print_int-IsPlain (pos pid)))

length-reply_text : (pid : ℕ) → length (reply_text pid) ≤ 30
length-reply_text pid = omega (
  arith,
  length-append (codes "resp1=r1 by pid:") (print_int (pos pid)),
  length-print_int-le (pos pid),
)

-- The data fits the buffer in which the front process keeps it.
pub reply_text_kept :
    (pid : ℕ) → c_str (take (buf_size - 1) (c_str (reply_text pid))) ≡ reply_text pid
reply_text_kept pid =
    kept_whole (reply_text pid) (reply_text-IsFree pid) (omega (arith, length-reply_text pid))

module _ (ipc : Ipc) (behind : Bytes) where
  open ipc use {Kernel}

  -- What the front process gets for the request `c`.
  abbrev pub reply_to : ℕ → Cmd → Cmd
  reply_to pid c = signed pid (answer_to ipc behind c)

  pub reply-IsReadable :
      (pid : ℕ) (c : Cmd)
      → AreInts c
      → IsValue c.client_ip
      → IsReadable (reply_to pid c) (reply_pairs pid)
  unfolding signed join_pairs key_lt bytes_eq
  reply-IsReadable pid c i h = record {
    ints = record {
      ret_int = i.ret_int;
      type_int = omega arith;
      cmd_int = i.cmd_int;
      fd_int = i.fd_int;
      index_int = i.index_int;
      serial_int = i.serial_int;
      family_int = i.family_int;
      port_int = i.port_int;
    };
    address = h;
    data_pairs = record {
      sorted = (tt, tt);
      plain = (IsPlain-IsValue (codes "resp1") (ground arith), reply-IsValue pid, tt);
      foreign = ground arith;
    };
    data_text = refl;
  }

  pub length-reply :
      (pid : ℕ) (c : Cmd) → length c.client_ip ≤ 15 → length (to_string (reply_to pid c)) < buf_size
  unfolding signed
  length-reply pid c h =
      omega (arith, length-to_string-le (reply_to pid c), length-print_int-le (pos pid))

  -- A client's request that finds a free `CSvcTest` is answered by way of the front process, with a
  -- notice: the reply is the request with the service's data and the process. The run is counted, and
  -- the service is free again.
  pub client_answered :
      (s : Container Kernel NoStack) (i : ℕ) (free : IntMap (Service NoStack)) (c : Cmd)
      (w : World Kernel) (q : MsgQueue)
      → s.dispatcher.stateless ≡ (i, new_service i) ∷ free
      → key_count i s.dispatcher.stateful ≡ 0
      → c.type ≢ response
      → c.ret ≡ pos 0
      → c.svc_serial_no ≡ pos 0
      → count_run behind (codes "c1_") i s.world ≡ some w
      → (get_msg_queue w.queues net_io_back_msq_key).1 ≡ some q
      → process_msg ipc (svc_test ipc behind) s c
        ≡ some (record s {
          dispatcher = record s.dispatcher {
            cur_cmd = answer_to ipc behind c;
            stateless = assign i (new_service i) free;
          };
          world = record (after_send ipc q response (reply_to s.pid c) w) {
            notices = w.notices + 1;
          };
        })
  unfolding process_msg settle reset_context marked is_error new_service
  client_answered s i free c w q e z t r n f g =
      rw
        (
          run_dispatched ipc behind s.dispatcher i free c s.world w e t f,
          ap (λ x. x ==ℤ unfinish_task_ret_flag) r,
          ap (λ x. x ==ℤ pos 0) r,
          erase_key-assign i (record { index = i; context = ended }) s.dispatcher.stateful z,
          reply-client ipc s.pid (answer_to ipc behind c) w q n g,
        )
        refl
