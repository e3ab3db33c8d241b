-- ===== src/Netio/Responses.antt =====
-- What the front process does with a response (netio/src/netio_user_event_handler.cpp), up to the
-- write to the client (netio/src/tcp_net_handler.cpp).
use middlewar_test.Base.{
  length-take-le, ℕ, ◌-◌, ◌<◌, ◌≡◌, refl, ap, ◌∙◌, Bool, true, false, ◌&&◌, some, [], ◌∷◌, ◌++◌,
  Bytes, ◌==◌, ==_refl, if◌then◌else◌, ◌>>=◌, take, pos, ◌==ℤ◌, arith,
}
use middlewar_test.Command.{Cmd, new_cmd, init_ccmd, c_str}
use middlewar_test.Queue.Laws.{is_terminated-short}
use middlewar_test.Queue.{
  is_terminated, Ipc, MsgQueue, buf_size, response, net_io_back_msq_key, get_msg_queue, get_msg,
}
use middlewar_test.Reactor.{tcp_server_send, SockItem, Reactor, is_none, watch, set_sock, take_item}
use middlewar_test.Reactor.Guard.{add_to_watch_list-response}
use middlewar_test.Netio.{
  Netio, Event, do_close, do_send, tcp_handle, process_one, by_item, on_event_fire, response_item,
  short_of, set_msg, index_of,
}

-- The text of a response as it is put by for its connection.
abbrev pub answer_text : Cmd → Bytes
answer_text c = take (buf_size - 1) (c_str c.payload)

-- Whether a response names the port and the family of the connection `fd`.
unfoldable pub names_peer : Reactor → ℕ → Cmd → Bool
names_peer r fd c =
    short_of c.port == (r.socks fd).sock_addr.sin_port
    && short_of c.family == (r.socks fd).sock_addr.sin_family

index_of_lem : (n i : ℕ) → i < n → index_of n (pos i) ≡ some i
unfolding index_of
index_of_lem n i h = ground arith

answer_ends : (c : Cmd) → is_terminated (answer_text c) ≡ true
answer_ends c =
    is_terminated-short (answer_text c)
      (omega (arith, length-take-le (buf_size - 1) (c_str c.payload)))

module _ (ipc : Ipc) (ntoa : ℕ → Bytes) (inet_addr : Bytes → ℕ) where
  open ipc use {Kernel}

  -- A response arrives at the front process: the message `text`, which names the descriptor `fd`.
  pub record Arrives (s : Netio Kernel) (text : Bytes) (fd : ℕ) (kernel : Kernel) : Type 0 where
    pub queue : MsgQueue
    pub open_queue : (get_msg_queue s.queues net_io_back_msq_key).1 ≡ some queue
    pub len : ℕ
    pub some_bytes : (len == 0) ≡ false
    pub taken : get_msg ipc queue response 0 s.kernel ≡ some (0, len, text, kernel)
    pub ends : is_terminated text ≡ true
    pub names_fd : (init_ccmd new_cmd text).fd ≡ pos fd
    pub in_range : fd < 1024

  choose :
      (s : Netio Kernel) (kernel : Kernel) (r : Reactor) (w : ℕ × Reactor) (b d : Bool)
      → (some (if b then (0, r) else if d then w else (0, r)) >>= λ (c, r').
          some (record s { kernel = kernel; reactor = r' }))
        ≡ some (record s { kernel = kernel; reactor = if b then r else if d then w.1 else r })
  choose s kernel r w true d = refl
  choose s kernel r w false true = refl
  choose s kernel r w false false = refl

  -- What `OnEventFire` does with a response, on every branch: its text is put by, and its connection
  -- is watched for writing unless it was reset or has another port or family.
  pub on_event_fire_response :
      (s : Netio Kernel) (ok : Bool) (text : Bytes) (fd : ℕ) (kernel : Kernel)
      → Arrives s text fd kernel
      → let c = init_ccmd new_cmd text in
        let r = set_msg s.reactor fd (answer_text c) in
        on_event_fire ipc ntoa inet_addr s ok
        ≡ some (record s {
          kernel = kernel;
          reactor =
              (if is_none (s.reactor.socks fd).flag
                then r
                else if names_peer s.reactor fd c
                then (watch r fd tcp_server_send (some (response_item inet_addr fd c)) ok).1
                else r);
        })
  unfolding on_event_fire set_msg names_peer response_item
  on_event_fire_response s ok text fd kernel a =
      let c = init_ccmd new_cmd text in
      rw
        (
          a.open_queue,
          a.taken,
          a.some_bytes,
          a.ends,
          ap (index_of 1024) a.names_fd ∙ index_of_lem 1024 fd a.in_range,
          add_to_watch_list-response ntoa (set_msg s.reactor fd (answer_text c)) fd tcp_server_send
              (response_item inet_addr fd c) ok (omega (arith, a.in_range)),
        )
        (choose s kernel (set_msg s.reactor fd (answer_text c))
          (watch (set_msg s.reactor fd (answer_text c)) fd tcp_server_send
            (some (response_item inet_addr fd c)) ok)
          (is_none (s.reactor.socks fd).flag) (names_peer s.reactor fd c))

  -- The reactor that waits to write a response.
  abbrev pub waiting : Reactor → ℕ → Cmd → Reactor
  waiting r fd c =
      (watch (set_msg r fd (answer_text c)) fd tcp_server_send (some (response_item inet_addr fd c))
        true).1

  waiting_item :
      (r : Reactor) (fd : ℕ) (c : Cmd)
      → ((waiting r fd c).socks fd ≡ response_item inet_addr fd c)
        × ((waiting r fd c).msgs fd ≡ answer_text c)
        × ((waiting r fd c).svr_fd ≡ r.svr_fd)
  unfolding watch set_msg set_sock take_item response_item
  waiting_item r fd c = (ground (arith, ==_refl fd), ground (arith, ==_refl fd), ground arith)

  send_item :
      (s : Netio Kernel) (i : SockItem) (e : Event)
      → (pos i.fd ==ℤ s.reactor.svr_fd) ≡ false
      → i.flag ≡ tcp_server_send
      → by_item ipc ntoa inet_addr s i e ≡ do_send s i.fd e.ctl_ok
  unfolding by_item tcp_handle
  send_item s i e h f = rw (h, f, by_item)

  -- An event that lets the socket `fd` be written.
  write_event :
      (s : Netio Kernel) (fd : ℕ) (e : Event)
      → fd < 1024
      → (s.reactor.socks e.sock).fd ≡ fd
      → (s.reactor.socks e.sock).flag ≡ tcp_server_send
      → (pos fd ==ℤ s.reactor.svr_fd) ≡ false
      → e.rdhup ≡ false
      → is_terminated (s.reactor.msgs fd) ≡ true
      → process_one ipc ntoa inet_addr s e
        ≡ some (record s {
          reactor = do_close s.reactor fd e.ctl_ok;
          sent = s.sent ++ (fd, c_str (s.reactor.msgs fd)) ∷ [];
        })
  unfolding process_one do_send
  write_event s fd e h i f other up ends = ground (
    arith,
    ends,
    send_item s (s.reactor.socks e.sock) e (ap (λ n. pos n ==ℤ s.reactor.svr_fd) i ∙ other) f,
  )

  -- A response reaches its client: if its connection still stands and has the port and the family
  -- that it names, the next event that lets the socket be written sends the text of the response to
  -- it, once, and closes the connection.
  pub response_delivered :
      (s : Netio Kernel) (text : Bytes) (fd : ℕ) (kernel : Kernel) (e : Event)
      → Arrives s text fd kernel
      → is_none (s.reactor.socks fd).flag ≡ false
      → names_peer s.reactor fd (init_ccmd new_cmd text) ≡ true
      → (pos fd ==ℤ s.reactor.svr_fd) ≡ false
      → e.sock ≡ fd
      → e.rdhup ≡ false
      → let c = init_ccmd new_cmd text in
        (on_event_fire ipc ntoa inet_addr s true >>= λ s'. process_one ipc ntoa inet_addr s' e)
        ≡ some (record s {
          kernel = kernel;
          reactor = do_close (waiting s.reactor fd c) fd e.ctl_ok;
          sent = s.sent ++ (fd, c_str (answer_text c)) ∷ [];
        })
  unfolding response_item
  response_delivered s text fd kernel e a live peer other at up =
      let c = init_ccmd new_cmd text in
      let (item, msg, svr) = waiting_item s.reactor fd c in
      let s1 : Netio Kernel = record s { kernel = kernel; reactor = waiting s.reactor fd c } in
      let fired : on_event_fire ipc ntoa inet_addr s true ≡ some s1 =
        on_event_fire_response s true text fd kernel a ∙ rw (live, peer) in
      let found : (waiting s.reactor fd c).socks e.sock ≡ response_item inet_addr fd c =
        ap (waiting s.reactor fd c).socks at ∙ item in
      ap (λ r. r >>= λ s'. process_one ipc ntoa inet_addr s' e) fired
      ∙ write_event s1 fd e a.in_range (ap (λ (x : SockItem). x.fd) found)
          (ap (λ (x : SockItem). x.flag) found) (ap (λ z. pos fd ==ℤ z) svr ∙ other) up
          (ap is_terminated msg ∙ answer_ends c)
      ∙ ap
          (λ m. some (record s1 {
            reactor = do_close s1.reactor fd e.ctl_ok;
            sent = s1.sent ++ (fd, c_str m) ∷ [];
          }))
          msg
