-- ===== src/Serving/Front.antt =====
-- The start of a request in the front process: it is read and forwarded
-- (netio/src/tcp_net_handler.cpp).
use middlewar_test.Base.{
  ℕ, ◌^◌, ◌≤◌, ◌<◌, ◌≡◌, refl, ap, ◌∙◌, true, false, some, [], ◌∷◌, Bytes, codes, ◌>>=◌, length, ℤ,
  pos, ◌==ℤ◌, arith,
}
use middlewar_test.Cache.Manager.{incr}
use middlewar_test.Cache.Manager
use middlewar_test.Text.Pairs.{IsPlain, IsPlain-IsValue}
use middlewar_test.Command.{Cmd, new_cmd, init_ccmd, to_string}
use middlewar_test.Command.Buffer.{IsReadable}
use middlewar_test.Command.Parsed.{left_pairs, read-IsReadable}
use middlewar_test.Queue.{Ipc, MsgQueue, buf_size, request, get_msg_queue}
use middlewar_test.Reactor.{tcp_server_read, tcp_server_send, set_sock}
use middlewar_test.Netio.{
  Netio, Event, bytes, message, route, is_text, request_of, do_recv, by_item, process_one,
  process_events, process_event,
}
use middlewar_test.Netio
use middlewar_test.Netio.Reading.{read_item, no_hang_up}
use middlewar_test.Netio.Routing.{request_forwarded}

-- The front process before a round and behind its `OnEventFire`, a connection, the text that its
-- client sends, and the events of its socket when it can be read and when it can be written, over a
-- kernel and the library's functions on addresses.
pub record Link : Type 1 where
  pub ipc : Ipc
  pub ntoa : ℕ → Bytes
  pub inet_addr : Bytes → ℕ
  pub g : Netio (ipc.Kernel)
  pub f : Netio (ipc.Kernel)
  pub fd : ℕ
  pub text : Bytes
  pub e : Event
  pub e' : Event

module _ (l : Link) where
  open l use {ipc, ntoa, inet_addr, g, f, fd, text, e, e'}
  open ipc use {Kernel, msgsnd, msgrcv}

  -- The request as it is passed on.
  abbrev pub passed_on : Cmd
  passed_on = request_of ntoa f.reactor fd (init_ccmd new_cmd text)

  -- The connection `fd` stands, in the front process.
  pub record Stands : Type 0 where
    pub in_range : fd < 1024
    pub no_server : (pos fd ==ℤ f.reactor.svr_fd) ≡ false
    pub own_fd : (f.reactor.socks fd).fd ≡ fd
    pub own_flag : (f.reactor.socks fd).flag ≡ tcp_server_read
    pub port_short : (f.reactor.socks fd).sock_addr.sin_port < 2 ^ 16
    pub family_short : (f.reactor.socks fd).sock_addr.sin_family < 2 ^ 16
    pub plain_address : IsPlain (ntoa (f.reactor.socks fd).sock_addr.sin_addr)
    pub short_address : length (ntoa (f.reactor.socks fd).sock_addr.sin_addr) ≤ 15

  -- Its client sends a request for the command `k` that fits in a message, and can be written to later.
  pub record Asks (k : ℕ) : Type 0 where
    pub polled : Netio.on_event_fire ipc ntoa inet_addr g true ≡ some f
    pub at : e.sock ≡ fd
    pub up : e.rdhup ≡ false
    pub reads : e.read ≡ bytes text
    pub whole : is_text text ≡ true
    pub command : (init_ccmd new_cmd text).cmd ≡ pos k
    pub short : length (to_string passed_on) < buf_size
    pub n : ℤ
    pub cache' : Manager.Manager
    pub counted : incr f.cache (codes "netio_0") e.behind (pos 1) ≡ some (n, cache')
    pub at' : e'.sock ≡ fd
    pub up' : e'.rdhup ≡ false

  -- Whatever the client wrote, the request can be read where it is passed on to.
  pub passed_on-IsReadable : Stands → IsReadable passed_on (left_pairs text)
  unfolding request_of
  passed_on-IsReadable stands =
      let r = read-IsReadable text in
      record {
        ints = record {
          ret_int = r.ints.ret_int;
          type_int = omega arith;
          cmd_int = r.ints.cmd_int;
          fd_int = omega (arith, stands.in_range);
          index_int = r.ints.index_int;
          serial_int = r.ints.serial_int;
          family_int = omega (arith, stands.family_short);
          port_int = omega (arith, stands.port_short);
        };
        address = IsPlain-IsValue _ stands.plain_address;
        data_pairs = r.data_pairs;
        data_text = r.data_text;
      }

  -- It asks for nothing but the command.
  pub record IsBare : Type 0 where
    pub no_ret : (init_ccmd new_cmd text).ret ≡ pos 0
    pub no_serial : (init_ccmd new_cmd text).svc_serial_no ≡ pos 0

  -- The kernel once the request is put on the queue `q`.
  abbrev pub sent_on : MsgQueue → Kernel
  sent_on q = (msgsnd q.id request (message passed_on) f.kernel).1

  module _ (stands : Stands) (k : ℕ) (asks : Asks k) where
    -- The front process once the request is read, with the kernel as it is.
    abbrev pub has_read : Kernel → Netio Kernel
    has_read kernel = record f {
      cache = asks.cache';
      kernel = kernel;
      reactor = set_sock f.reactor fd (record (f.reactor.socks fd) { flag = tcp_server_send });
    }

    received :
        (key : ℕ) (q : MsgQueue)
        → route (pos k) ≡ some key
        → (get_msg_queue f.queues key).1 ≡ some q
        → do_recv ipc ntoa inet_addr f fd (bytes text) e.behind ≡ some (pos 0, has_read (sent_on q))
    unfolding do_recv
    received key q r g =
        rw (asks.counted, asks.whole)
          (request_forwarded ipc ntoa inet_addr (record f { cache = asks.cache' }) fd text key q
            (ap route asks.command ∙ r) g)

    read_event :
        (key : ℕ) (q : MsgQueue)
        → route (pos k) ≡ some key
        → (get_msg_queue f.queues key).1 ≡ some q
        → process_one ipc ntoa inet_addr f e ≡ some (has_read (sent_on q))
    read_event key q r g =
        no_hang_up ipc ntoa inet_addr f e asks.up
        ∙ ap (λ n. by_item ipc ntoa inet_addr f (f.reactor.socks n) e) asks.at
        ∙ read_item ipc ntoa inet_addr f (f.reactor.socks fd) e
            (ap (λ n. pos n ==ℤ f.reactor.svr_fd) stands.own_fd ∙ stands.no_server) stands.own_flag
        ∙ ap (λ n. do_recv ipc ntoa inet_addr f n e.read e.behind >>= λ (c, s'). some s')
            stands.own_fd
        ∙ ap (λ r. do_recv ipc ntoa inet_addr f fd r e.behind >>= λ (c, s'). some s') asks.reads
        ∙ rw (received key q r g) refl

    -- In the round the request goes to the queue of its command.
    pub read_round :
        (key : ℕ) (q : MsgQueue)
        → route (pos k) ≡ some key
        → (get_msg_queue f.queues key).1 ≡ some q
        → process_event ipc ntoa inet_addr g true (e ∷ []) ≡ some (has_read (sent_on q))
    unfolding process_event process_events
    read_round key q r h = rw asks.polled (rw (read_event key q r h) refl)
