-- ===== src/Netio/Routing.antt =====
-- How a request goes from a client to the queue of its service (netio/src/tcp_net_handler.cpp).
use middlewar_test.Base.{
  ℕ, ◌-◌, ◌≤◌, ◌<◌, ◌≡◌, ◌≢◌, refl, false, not, none, some, [], ◌∷◌, Bytes, codes, if◌then◌else◌,
  length, length-take-le, Bool-cases, inl, inr, ℤ, pos, negsuc, ◌==ℤ◌, ==ℤ_iff, bind_none, arith,
}
use middlewar_test.Cache.Manager.{incr}
use middlewar_test.Command.{Cmd, new_cmd, init_ccmd, to_buffer, c_str}
use middlewar_test.Queue.{Ipc, MsgQueue, buf_size, request, get_msg_queue}
use middlewar_test.Queue.Laws.{put_msg_text}
use middlewar_test.Reactor.{tcp_server_send, set_sock}
use middlewar_test.Netio.{Netio, bytes, route, is_text, request_of, message, forward, do_recv}

length-c_str : (s : Bytes) → length (c_str s) ≤ length s
unfolding c_str
length-c_str [] = omega arith
length-c_str (c ∷ s) = ground (arith, length-c_str s)

length-to_buffer : (c : Cmd) (n : ℕ) → length (to_buffer c n) ≤ n - 1
unfolding to_buffer
length-to_buffer c n = length-take-le (n - 1) _

-- A message leaves room for the zero behind it.
pub length-message : (c : Cmd) → length (message c) < buf_size
unfolding message
length-message c = omega (arith, length-c_str (to_buffer c buf_size), length-to_buffer c buf_size)

pub route_lem :
    (cmd : ℤ)
    → route cmd
      ≡ (if cmd ==ℤ pos 1 then some 0xccccd else if cmd ==ℤ pos 2 then some 0xcccce else none)
unfolding route
route_lem cmd = refl

route_zero : (cmd : ℤ) {key : ℕ} → route cmd ≡ some key → (cmd ==ℤ pos 0) ≡ false
route_zero (negsuc n) e = refl
route_zero (pos n) e = ground (arith, route_lem (pos n))

module _ (ipc : Ipc) (ntoa : ℕ → Bytes) (inet_addr : Bytes → ℕ) where
  open ipc use {Kernel, msgsnd}

  -- A request with a command that has an open queue: the front process does not fail, it hands the
  -- request to the kernel, with the sender's descriptor and address in it and of the type of
  -- requests, and it marks the connection as one to be answered. It does so too if the kernel
  -- refuses the message.
  pub request_forwarded :
      (s : Netio Kernel) (fd : ℕ) (text : Bytes) (key : ℕ) (q : MsgQueue)
      → route (init_ccmd new_cmd text).cmd ≡ some key
      → (get_msg_queue s.queues key).1 ≡ some q
      → let m = message (request_of ntoa s.reactor fd (init_ccmd new_cmd text)) in
        forward ipc ntoa inet_addr s fd text
        ≡ some (
          pos 0,
          record s {
            kernel = (msgsnd q.id request m s.kernel).1;
            reactor =
                set_sock s.reactor fd (record (s.reactor.socks fd) { flag = tcp_server_send });
          },
        )
  unfolding forward
  request_forwarded s fd text key q e f =
      let c = init_ccmd new_cmd text in
      let m = message (request_of ntoa s.reactor fd c) in
      rw
        (
          route_zero c.cmd e,
          e,
          f,
          put_msg_text ipc q request m s.kernel (length-message (request_of ntoa s.reactor fd c)),
        )
        (ground arith)

  pub forward-none :
      (s : Netio Kernel) (fd : ℕ) (text : Bytes)
      → route (init_ccmd new_cmd text).cmd ≡ none
      → forward ipc ntoa inet_addr s fd text ≡ none
  unfolding forward
  forward-none s fd text e = elim (Bool-cases (not ((init_ccmd new_cmd text).cmd ==ℤ pos 0))) [
    | inl b ↦ rw (b, e)
    | inr b ↦ rw b
  ]

  -- A client that sends a command other than 1 and 2, or none, stops the front process: an assertion
  -- fails, or a queue that was never set is used.
  pub request_stops :
      (s : Netio Kernel) (fd : ℕ) (text behind : Bytes)
      → (init_ccmd new_cmd text).cmd ≢ pos 1
      → (init_ccmd new_cmd text).cmd ≢ pos 2
      → do_recv ipc ntoa inet_addr s fd (bytes text) behind ≡ none
  unfolding do_recv
  request_stops s fd text behind h g =
      bind_none (incr s.cache (codes "netio_0") behind (pos 1)) _ λ (c, cache').
        elim (Bool-cases (is_text text)) [
          | inl t ↦ rw t (forward-none (record s { cache = cache' }) fd text no_route)
          | inr t ↦ rw t
        ]
    where
      no_route : route (init_ccmd new_cmd text).cmd ≡ none
      no_route =
          let cmd = (init_ccmd new_cmd text).cmd in
          ground (arith, route_lem cmd, ==ℤ_iff cmd (pos 1), ==ℤ_iff cmd (pos 2))
