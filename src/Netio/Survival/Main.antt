-- ===== src/Netio/Survival/Main.antt =====
-- The front process from `main` on (netio/src/netio.cpp): its queues, and its rounds.
use middlewar_test.Base.{
  ℕ, ◌≡◌, refl, sym, subst, ◌∙◌, true, none, some, [], Bytes, ◌>>=◌, bind_some, bind_to, find_key,
  find_key-assign, assign, arith, ==_refl, Option-cases, inl, inr, if◌then◌else◌, ◌==◌,
}
use middlewar_test.Cache.Manager
use middlewar_test.Cache.Manager.Laws.{AllReady}
use mathlib.Core.Option.{some-injective}
use middlewar_test.Queue.{Ipc, MsgQueue, net_io_back_msq_key, get_msg_queue, add_msg_queue}
use middlewar_test.Queue
use middlewar_test.Reactor.{Reactor, new_reactor}
use middlewar_test.Reactor.Setup
use middlewar_test.Netio.{Netio}
use middlewar_test.Netio.Loop.{
  Answers, program_queues, open_queues, front_main, run_event_loop, watch_channels, event_rounds,
}
use middlewar_test.Netio.Survival.{IsServing, Serves}
use middlewar_test.Netio.Survival.Rounds.{rounds_pass, front_lasts}

-- A queue stands in the map, open or not.
abbrev Has : Queue.Manager → ℕ → Type 0
Has m k = (q : MsgQueue) × (find_key k m ≡ some q)

Has-get : (m : Queue.Manager) (k : ℕ) → Has m k → (q : MsgQueue) × ((get_msg_queue m k).1 ≡ some q)
unfolding get_msg_queue
Has-get m k (q, e) = (q, rw (e, get_msg_queue) refl)

module _ (ipc : Ipc) where
  open ipc use {Kernel}

  added :
      (m : Queue.Manager) (k : ℕ) (kernel : Kernel)
      → find_key k m ≡ none
      → (q : MsgQueue) × ((add_msg_queue ipc m k kernel).1 ≡ assign k q m)
  unfolding add_msg_queue
  added m k kernel e = ((Queue.init ipc Queue.new_queue k kernel).1, rw (e, add_msg_queue) refl)

  there_already :
      (m : Queue.Manager) (k : ℕ) (kernel : Kernel) {q : MsgQueue}
      → find_key k m ≡ some q
      → (add_msg_queue ipc m k kernel).1 ≡ m
  unfolding add_msg_queue
  there_already m k kernel e = rw (e, add_msg_queue) refl

  add_msg_queue-Has :
      (m : Queue.Manager) (k : ℕ) (kernel : Kernel) → Has (add_msg_queue ipc m k kernel).1 k
  add_msg_queue-Has m k kernel = elim (Option-cases (find_key k m)) [
    | inl e ↦
        let (q, p) = added m k kernel e in
        subst (λ n. Has n k) (sym p) (q, find_key-assign k k q m ∙ rw (==_refl k) refl)
    | inr (q, e) ↦ subst (λ n. Has n k) (sym (there_already m k kernel e)) (q, e)
  ]

  -- What was there before is there still.
  still_there :
      (m : Queue.Manager) (k j : ℕ) (kernel : Kernel)
      → Has m j
      → Has (add_msg_queue ipc m k kernel).1 j
  still_there m k j kernel (q, h) = elim (Option-cases (find_key k m)) [
    | inl e ↦
        let (r, p) = added m k kernel e in
        subst (λ n. Has n j) (sym p)
          (if k == j then r else q, find_key-assign j k r m ∙ ground (arith, h))
    | inr (r, e) ↦ subst (λ n. Has n j) (sym (there_already m k kernel e)) (q, h)
  ]

  program_queues-IsServing :
      (cache : Manager.Manager) (kernel : Kernel)
      → AllReady cache
      → IsServing (program_queues ipc kernel).0 cache
  unfolding program_queues open_queues
  program_queues-IsServing cache kernel v =
      let (c0, m0, k0) = add_msg_queue ipc [] net_io_back_msq_key kernel in
      let (c1, m1, k1) = add_msg_queue ipc m0 0xccccd k0 in
      let (c2, m2, k2) = add_msg_queue ipc m1 0xcccce k1 in
      let there : Has m0 net_io_back_msq_key = add_msg_queue-Has [] net_io_back_msq_key kernel in
      let first : Has m1 0xccccd = add_msg_queue-Has m0 0xccccd k0 in
      record {
        counts = v;
        responses = Has-get m2 net_io_back_msq_key (
            still_there m1 0xcccce net_io_back_msq_key k1
              (still_there m0 0xccccd net_io_back_msq_key k0 there));
        first = Has-get m2 0xccccd (still_there m1 0xcccce 0xccccd k1 first);
        second = Has-get m2 0xcccce (add_msg_queue-Has m1 0xcccce k1);
      }

-- The front process goes on for ever: from `main` on, once its set-up has succeeded, any number
-- of rounds ends, with the tables ready and the queues set, if the tables are ready at the start and
-- every message and every event of the rounds passes its test in the state in which it comes.
pub main_lasts :
    (ipc : Ipc) (ntoa : ℕ → Bytes) (inet_addr : Bytes → ℕ) (cache : Manager.Manager)
    (kernel : ipc.Kernel) (a : Answers) {s : Netio (ipc.Kernel)}
    → AllReady cache
    → front_main ipc ntoa inet_addr cache kernel (record a { rounds = [] }) ≡ some s
    → rounds_pass ipc ntoa inet_addr s a.rounds ≡ true
    → (s' : Netio (ipc.Kernel)) × (front_main ipc ntoa inet_addr cache kernel a ≡ some s')
      × Serves s'
unfolding front_main run_event_loop event_rounds
main_lasts ipc ntoa inet_addr cache kernel a {s = s} v e p =
    let (d, f, g) =
      bind_some
        (Setup.init true true a.tcp a.udp a.epoll a.own_addr a.unset_addr (new_reactor a.memory))
        (λ d. watch_channels ntoa d.reactor a.svr_ok a.usock_ok >>= λ r. some (started r)) e in
    let (r, h, i) =
      bind_some (watch_channels ntoa d.reactor a.svr_ok a.usock_ok) (λ r. some (started r)) g in
    let same : started r ≡ s = some-injective _ _ i in
    let (s', k, w) =
      front_lasts ipc ntoa inet_addr (started r) a.rounds
        (program_queues-IsServing ipc cache kernel v)
        (subst (λ t. rounds_pass ipc ntoa inet_addr t a.rounds ≡ true) (sym same) p) in
    (
      s',
      bind_to
          (λ d. watch_channels ntoa d.reactor a.svr_ok a.usock_ok >>= λ r.
            event_rounds ipc ntoa inet_addr (started r) a.rounds)
          f (bind_to (λ r. event_rounds ipc ntoa inet_addr (started r) a.rounds) h k),
      w,
    )
  where
    started : Reactor → Netio (ipc.Kernel)
    started r = record {
      reactor = r;
      queues = (program_queues ipc kernel).0;
      cache = cache;
      kernel = (program_queues ipc kernel).1;
      sent = [];
    }
