-- ===== src/Netio/Survival/Rounds.antt =====
-- That the front process stops on no other event or message, over any number of rounds
-- (netio/src/reactor.cpp).
use middlewar_test.Base.{
  ℕ, ◌≡◌, refl, Bool, true, false, ◌&&◌, none, some, List, [], ◌∷◌, Bytes, Decided, bind_to,
  for_result, for_result-some, and_true, is_some, Ensures, Decided-true, Decided-is_some,
  Decided-Ensures, Decided-by,
}
use middlewar_test.Queue.{Ipc, max_msg_size, response, net_io_back_msq_key, get_msg_queue}
use middlewar_test.Netio.{Netio, Event, process_one, process_events, process_event, on_event_fire}
use middlewar_test.Netio.Survival.{Serves, event_passes, message_passes}
use middlewar_test.Netio.Survival.Handlers.{process_one-Decided}
use middlewar_test.Netio.Survival.Messages.{on_event_fire-Decided}
use middlewar_test.Netio.Loop.{Round, check_events, event_rounds}

module _ (ipc : Ipc) (ntoa : ℕ → Bytes) (inet_addr : Bytes → ℕ) where
  open ipc use {Kernel}

  -- The message for the front process, if its queue is there.
  abbrev pub takes : Netio Kernel → Bool
  takes s = elim (get_msg_queue s.queues net_io_back_msq_key).1 [
    | none ↦ false
    | some q ↦ message_passes (ipc.msgrcv q.id max_msg_size response s.kernel).0
  ]

  takes_from :
      (s : Netio Kernel) (v : Serves s)
      → message_passes (ipc.msgrcv v.responses.0.id max_msg_size response s.kernel).0 ≡ takes s
  takes_from s v = rw (v.responses.1, takes)

  takes-Decided :
      (s : Netio Kernel) (ok : Bool)
      → Serves s
      → Decided Serves (takes s) (on_event_fire ipc ntoa inet_addr s ok)
  takes-Decided s ok v =
      Decided-by (takes_from s v) (on_event_fire-Decided ipc ntoa inet_addr s ok v)

  -- While the tables are ready and the queues open, the front process stops on an event exactly if
  -- the event fails the test `event_passes`, and on a message exactly if the message fails
  -- `takes`; where it does not stop, the tables are ready and the queues open afterwards too. An
  -- event passes if its socket is closed by the client, if the connections that are accepted are in
  -- the table, if what is read is a text with command 1 or 2 that ends in the buffer, or an end, if what
  -- is written has a descriptor below 1024 and a text put by for it that ends in its buffer, and if a
  -- datagram ends in the buffer. A message passes if it fits the buffer, ends in it as a text and names
  -- a descriptor below 1024.
  pub stops_exactly :
      (s : Netio Kernel) (e : Event) (ok : Bool)
      → Serves s
      → (is_some (process_one ipc ntoa inet_addr s e) ≡ event_passes s e)
        × Ensures Serves (process_one ipc ntoa inet_addr s e)
        × (is_some (on_event_fire ipc ntoa inet_addr s ok) ≡ takes s)
        × Ensures Serves (on_event_fire ipc ntoa inet_addr s ok)
  stops_exactly s e ok v =
      let d = process_one-Decided ipc ntoa inet_addr s e v in
      let m = takes-Decided s ok v in
      (Decided-is_some d, Decided-Ensures d, Decided-is_some m, Decided-Ensures m)

  -- The events of a round pass, each in the state that the ones before it leave.
  abbrev pub all_pass : Netio Kernel → List Event → Bool
  all_pass s [] = true
  all_pass s (e ∷ es) =
      event_passes s e && for_result (process_one ipc ntoa inet_addr s e) (λ s'. all_pass s' es)

  -- Messages and events of several rounds.
  abbrev pub rounds_pass : Netio Kernel → List Round → Bool
  rounds_pass s [] = true
  rounds_pass s (x ∷ xs) =
      takes s
      && for_result (on_event_fire ipc ntoa inet_addr s x.user_ok)
          (λ f. all_pass f (check_events x.waited))
      && for_result (process_event ipc ntoa inet_addr s x.user_ok (check_events x.waited))
          (λ s'. rounds_pass s' xs)

  events_pass :
      (s : Netio Kernel) (es : List Event)
      → Serves s
      → all_pass s es ≡ true
      → (s' : Netio Kernel) × (process_events ipc ntoa inet_addr s es ≡ some s') × Serves s'
  unfolding process_events
  events_pass s [] v h = (s, refl, v)
  events_pass s (e ∷ es) v b =
      let (p, h) = and_true (event_passes s e) _ b in
      let (s1, f, w) = Decided-true (Decided-by p (process_one-Decided ipc ntoa inet_addr s e v)) in
      let (s', g, w') = events_pass s1 es w (for_result-some (λ s'. all_pass s' es) f h) in
      (s', bind_to (λ t. process_events ipc ntoa inet_addr t es) f g, w')

  round_passes :
      (s f s' : Netio Kernel) (x : Round)
      → on_event_fire ipc ntoa inet_addr s x.user_ok ≡ some f
      → process_events ipc ntoa inet_addr f (check_events x.waited) ≡ some s'
      → process_event ipc ntoa inet_addr s x.user_ok (check_events x.waited) ≡ some s'
  unfolding process_event
  round_passes s f s' x e g =
      bind_to (λ t. process_events ipc ntoa inet_addr t (check_events x.waited)) e g

  -- The front process goes on for ever: any number of rounds ends with the tables ready and the queues
  -- open, if they are at the start, and if every message and every event of the rounds passes its
  -- test in the state in which it comes.
  pub front_lasts :
      (s : Netio Kernel) (rounds : List Round)
      → Serves s
      → rounds_pass s rounds ≡ true
      → (s' : Netio Kernel) × (event_rounds ipc ntoa inet_addr s rounds ≡ some s') × Serves s'
  unfolding event_rounds
  front_lasts s [] v h = (s, refl, v)
  front_lasts s (x ∷ xs) v b =
      let (c, k) = and_true _ _ b in
      let (p, h) = and_true (takes s) _ c in
      let (f, e, w) = Decided-true (Decided-by p (takes-Decided s x.user_ok v)) in
      let (s1, g, w1) =
        events_pass f (check_events x.waited) w
          (for_result-some (λ f. all_pass f (check_events x.waited)) e h) in
      let round = round_passes s f s1 x e g in
      let (s', i, w') = front_lasts s1 xs w1 (for_result-some (λ s'. rounds_pass s' xs) round k) in
      (s', bind_to (λ t. event_rounds ipc ntoa inet_addr t xs) round i, w')
