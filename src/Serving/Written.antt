-- ===== src/Serving/Written.antt =====
-- The end of a request in the front process: its response is taken and written
-- (netio/src/tcp_net_handler.cpp, netio/src/netio_user_event_handler.cpp).
use middlewar_test.Base.{
  bind_some, ℕ, ◌<◌, ◌≡◌, refl, ap, ◌∙◌, true, false, some, [], ◌∷◌, ◌++◌, Bytes, ==_refl, ◌>>=◌,
  length, pos, ◌==ℤ◌, arith,
}
use middlewar_test.Text.Dictionary.{Dict}
use middlewar_test.Command.{Cmd, new_cmd, init_ccmd, to_string, c_str}
use middlewar_test.Command.Buffer.{IsReadable}
use middlewar_test.Queue.{
  MsgQueue, Received, buf_size, max_msg_size, response, net_io_back_msq_key, get_msg_queue,
}
use middlewar_test.Queue.Laws.{is_terminated-short, get_msg_got}
use middlewar_test.Reactor.{set_sock, is_none}
use middlewar_test.Netio.{Netio, message, do_close, process_one, process_events, process_event}
use middlewar_test.Netio
use middlewar_test.Netio.Routing.{length-message}
use middlewar_test.Netio.Responses.{Arrives, names_peer, response_delivered, waiting, answer_text}
use middlewar_test.Container.Exchange.{message_some, message_read}
use middlewar_test.Serving.Front.{Link, Stands, Asks, has_read}

module _ (l : Link) where
  open l use {ipc, ntoa, inet_addr, g, f, fd, text, e, e'}
  open ipc use {Kernel, msgsnd, msgrcv}

  -- The kernel once the front process has taken a response.
  abbrev pub taken_off : MsgQueue → Kernel → Kernel
  taken_off back k = (msgrcv back.id max_msg_size response k).1

  -- The first message for the front process is the command `reply` to this connection, with the data
  -- `shown`.
  pub record Returns (back : MsgQueue) (reply : Cmd) (shown : Bytes) (replied : Kernel)
      : Type 0 where
    pub takes_on : (get_msg_queue f.queues net_io_back_msq_key).1 ≡ some back
    pub there : (msgrcv back.id max_msg_size response replied).0 ≡ Received.got (message reply)
    pub pairs : Dict
    pub readable : IsReadable reply pairs
    pub short : length (to_string reply) < buf_size
    pub own_fd : reply.fd ≡ pos fd
    pub own_port : reply.port ≡ pos (f.reactor.socks fd).sock_addr.sin_port
    pub own_family : reply.family ≡ pos (f.reactor.socks fd).sock_addr.sin_family
    pub kept : c_str (answer_text reply) ≡ shown

  module _ (stands : Stands l) (k : ℕ) (asks : Asks l k) (back : MsgQueue) (reply : Cmd)
      (shown : Bytes) (replied : Kernel) where
    abbrev kernel : Kernel
    kernel = taken_off back replied

    abbrev front : Netio Kernel
    front = has_read l stands k asks replied

    -- The front process once the response is written: the connection is closed.
    abbrev pub served : Netio Kernel
    served = record (has_read l stands k asks kernel) {
      reactor = do_close (waiting ipc ntoa inet_addr front.reactor fd reply) fd e'.ctl_ok;
      sent = f.sent ++ (fd, shown) ∷ [];
    }

    module _ (r : Returns back reply shown replied) where
      reply_read : init_ccmd new_cmd (message reply) ≡ reply
      reply_read = message_read reply r.pairs r.readable r.short

      arrives : Arrives ipc ntoa inet_addr front (message reply) fd kernel
      arrives = record {
        queue = back;
        open_queue = r.takes_on;
        len = length (message reply);
        some_bytes = message_some reply r.pairs r.readable r.short;
        taken =
            get_msg_got ipc back response 0 (message reply) replied (length-message reply) r.there;
        ends = is_terminated-short (message reply) (length-message reply);
        names_fd = ap (λ (c : Cmd). c.fd) reply_read ∙ r.own_fd;
        in_range = stands.in_range;
      }

      still_open : is_none (front.reactor.socks fd).flag ≡ false
      unfolding set_sock is_none
      still_open = ground (arith, ==_refl fd)

      same_peer : names_peer front.reactor fd (init_ccmd new_cmd (message reply)) ≡ true
      unfolding names_peer set_sock Netio.short_of
      same_peer =
          rw (reply_read, r.own_port, r.own_family)
            (ground (arith, ==_refl fd, stands.port_short, stands.family_short))

      text_written : c_str (answer_text (init_ccmd new_cmd (message reply))) ≡ shown
      text_written = ap (λ c. c_str (answer_text c)) reply_read ∙ r.kept

      no_server : (pos fd ==ℤ front.reactor.svr_fd) ≡ false
      unfolding set_sock
      no_server = stands.no_server

      delivered :
          (Netio.on_event_fire ipc ntoa inet_addr front true >>= λ f2.
          process_one ipc ntoa inet_addr f2 e')
          ≡ some served
      delivered =
          response_delivered ipc ntoa inet_addr front (message reply) fd kernel e' arrives
            still_open same_peer no_server asks.at' asks.up'
          ∙ rw (text_written, reply_read) refl

      -- In a round the response is taken, and written when the socket can be.
      pub deliver_round : process_event ipc ntoa inet_addr front true (e' ∷ []) ≡ some served
      unfolding process_event process_events
      deliver_round =
          let (f2, p, q) =
            bind_some (Netio.on_event_fire ipc ntoa inet_addr front true)
              (λ f2. process_one ipc ntoa inet_addr f2 e') delivered in
          rw p (rw q refl)
