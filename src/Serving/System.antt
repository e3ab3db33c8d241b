-- ===== src/Serving/System.antt =====
-- All processes over one kernel, in any order of their rounds: the front process (netio/src/netio.cpp)
-- and the processes of the two containers (netio/src/container.cpp). A round finds the shared counters
-- as the others left them, whatever that is. Processes of a container go by a number.
use middlewar_test.Base.{
  subst, Ensures-map, ℕ, ◌+◌, ◌*◌, ◌/◌, ◌≡◌, ◌≢◌, refl, sym, ap, ◌∙◌, Bool, true, false, ◌&&◌,
  Option, some, List, [], ◌∷◌, Bytes, ◌==◌, ltb, leb, if◌then◌else◌, ◌>>=◌, pos, Ensures, result,
  Ensures-some, >>=-Ensures, arith,
}
use middlewar_test.Cache.Manager
use middlewar_test.Command.{Cmd}
use middlewar_test.Queue.{Ipc}
use middlewar_test.Reactor.Sane.{IsSane}
use middlewar_test.Netio.{Netio, process_event}
use middlewar_test.Netio.Loop.{Round, Answers, check_events, front_main}
use middlewar_test.Netio.Invariant.{process_event-IsSane, front_main-IsSane}
use middlewar_test.Dispatch.Pool.{places, IsSound}
use middlewar_test.Container.{Container, Program, on_event_fire, app_type, div_int}
use middlewar_test.Container.Services.{NoStack, svc_test, svc_test2}
use middlewar_test.Container.Startup.{service_num, filled_pool-IsSound}
use middlewar_test.Container.Main.{at_start}
use middlewar_test.Container.Main.Rounds.{on_event_fire-IsKept}

pub record System (K : Type 0) : Type 0 where
  pub front : Netio K
  pub first : ℕ → Container K NoStack
  pub second : ℕ → Container K Cmd
  pub kernel : K

-- A round of one process, with the counters that it finds.
pub data Step : Type 0 where
  front_round : Round → Manager.Manager → Step
  first_round : ℕ → Manager.Manager → Step
  second_round : ℕ → Manager.Manager → Step

abbrev set_at : {A : Type 0} → ℕ → A → (ℕ → A) → ℕ → A
set_at i x f n = if n == i then x else f n

-- A container with what it shares as it finds it.
abbrev pub found : {K S : Type 0} → Container K S → K → Manager.Manager → Container K S
found s k m = record s { world = record s.world { kernel = k; cache = m } }

module _ (ipc : Ipc) (ntoa : ℕ → Bytes) (inet_addr : Bytes → ℕ) (behind : Bytes) where
  open ipc use {Kernel}

  unfoldable pub step : System Kernel → Step → Option (System Kernel)
  step s (front_round r m) = do
    f ←
        process_event ipc ntoa inet_addr (record s.front { kernel = s.kernel; cache = m }) r.user_ok
          (check_events r.waited)
    some (record s { front = f; kernel = f.kernel })
  step s (first_round i m) = do
    c ← on_event_fire ipc (svc_test ipc behind) (found (s.first i) s.kernel m)
    some (record s { first = set_at i c s.first; kernel = c.world.kernel })
  step s (second_round i m) = do
    c ← on_event_fire ipc (svc_test2 ipc behind) (found (s.second i) s.kernel m)
    some (record s { second = set_at i c s.second; kernel = c.world.kernel })

  unfoldable pub run : System Kernel → List Step → Option (System Kernel)
  unfolding step
  run s [] = some s
  run s (x ∷ xs) = do s' ← step s x; run s' xs

-- A container process with the number `pid`, on the queue `key`: the answers to any service that it
-- holds have the message type that it asks for.
pub record Serves {K S : Type 0} (pid key : ℕ) (c : Container K S) : Type 0 where
  pub sound : IsSound c.dispatcher
  pub each_once :
      (k : ℕ)
      → places k c.dispatcher
        ≡ (if leb (pid * 100) k && ltb k (pid * 100 + service_num) then 1 else 0)
  pub own_pid : c.pid ≡ pid
  pub own_queue : c.mq_key ≡ key
  pub addressed :
      (k : ℕ) → places k c.dispatcher ≢ 0 → app_type (div_int (pos k) 100) ≡ app_type (pos c.pid)

pub record IsWell {K : Type 0} (pid1 pid2 : ℕ → ℕ) (s : System K) : Type 0 where
  pub front_sane : IsSane s.front.reactor
  pub firsts : (n : ℕ) → Serves (pid1 n) 0xccccd (s.first n)
  pub seconds : (n : ℕ) → Serves (pid2 n) 0xcccce (s.second n)

number_of :
    (pid k : ℕ) (n : ℕ)
    → n ≡ (if leb (pid * 100) k && ltb k (pid * 100 + service_num) then 1 else 0)
    → n ≢ 0
    → k / 100 ≡ pid
number_of pid k n e h = ground (arith, e, h)

module _ {K S : Type 0} (pid key : ℕ) where
  Serves-new :
      (c : Container K S)
      → IsSound c.dispatcher
      → ((k : ℕ)
          → places k c.dispatcher
            ≡ (if leb (pid * 100) k && ltb k (pid * 100 + service_num) then 1 else 0))
      → c.pid ≡ pid
      → c.mq_key ≡ key
      → Serves pid key c
  unfolding app_type div_int
  Serves-new c v e p q = record {
    sound = v;
    each_once = e;
    own_pid = p;
    own_queue = q;
    addressed =
        λ k h. ap (λ n. pos (n * 10 + 3)) (number_of pid k (places k c.dispatcher) (e k) h ∙ sym p);
  }

set_at-Serves :
    {K S : Type 0} (pid : ℕ → ℕ) (key i : ℕ) (c : Container K S) (cs : ℕ → Container K S)
    → Serves (pid i) key c
    → ((n : ℕ) → Serves (pid n) key (cs n))
    → (n : ℕ) → Serves (pid n) key (set_at i c cs n)
set_at-Serves pid key i c cs v h n = at_number (n == i) refl
  where
    at_number : (b : Bool) → (n == i) ≡ b → Serves (pid n) key (if b then c else cs n)
    at_number true e =
        let same : n ≡ i = ground arith in subst (λ j. Serves (pid j) key c) (sym same) v
    at_number false e = h n

module _ (ipc : Ipc) where
  open ipc use {Kernel}

  round-Serves :
      (p : Program Kernel) (pid key : ℕ) (c : Container Kernel p.Saved) (k : Kernel)
      (m : Manager.Manager)
      → Serves pid key c
      → Ensures (Serves pid key) (on_event_fire ipc p (found c k m))
  round-Serves p pid key c k m v =
      Ensures-map
        (λ c' h.
          Serves-new pid key c' h.sound (λ j. h.same_places j ∙ v.each_once j)
            (h.same_pid ∙ v.own_pid) (h.same_key ∙ v.own_queue))
        (on_event_fire-IsKept ipc p (found c k m) v.sound)

  at_start-Serves :
      (S : Type 0) (pid key : ℕ) (cache : Manager.Manager) (k : Kernel)
      → Serves pid key (at_start ipc {S = S} pid key cache k)
  at_start-Serves S pid key cache k =
      let (v, e) = filled_pool-IsSound S pid in
      Serves-new pid key (at_start ipc {S = S} pid key cache k) v e refl refl

module _ (ipc : Ipc) (ntoa : ℕ → Bytes) (inet_addr : Bytes → ℕ) (behind : Bytes) where
  open ipc use {Kernel}

  module _ (pid1 pid2 : ℕ → ℕ) where
    step-IsWell :
        (s : System Kernel) (x : Step)
        → IsWell pid1 pid2 s
        → Ensures (IsWell pid1 pid2) (step ipc ntoa inet_addr behind s x)
    unfolding step
    step-IsWell s (front_round r m) v =
        let f0 : Netio Kernel = record s.front { kernel = s.kernel; cache = m } in
        >>=-Ensures (process_event ipc ntoa inet_addr f0 r.user_ok (check_events r.waited)) λ f e.
          result (record {
            front_sane =
                Ensures-some
                  (process_event-IsSane ipc ntoa inet_addr f0 r.user_ok (check_events r.waited)
                    v.front_sane)
                  e;
            firsts = v.firsts;
            seconds = v.seconds;
          })
    step-IsWell s (first_round i m) v =
        let p = svc_test ipc behind in
        >>=-Ensures (on_event_fire ipc p (found (s.first i) s.kernel m)) λ c e. result (record {
          front_sane = v.front_sane;
          firsts =
              set_at-Serves pid1 0xccccd i c s.first
                (Ensures-some
                  (round-Serves ipc p (pid1 i) 0xccccd (s.first i) s.kernel m (v.firsts i)) e)
                v.firsts;
          seconds = v.seconds;
        })
    step-IsWell s (second_round i m) v =
        let p = svc_test2 ipc behind in
        >>=-Ensures (on_event_fire ipc p (found (s.second i) s.kernel m)) λ c e. result (record {
          front_sane = v.front_sane;
          firsts = v.firsts;
          seconds =
              set_at-Serves pid2 0xcccce i c s.second
                (Ensures-some
                  (round-Serves ipc p (pid2 i) 0xcccce (s.second i) s.kernel m (v.seconds i)) e)
                v.seconds;
        })

    run-IsWell :
        (s : System Kernel) (xs : List Step)
        → IsWell pid1 pid2 s
        → Ensures (IsWell pid1 pid2) (run ipc ntoa inet_addr behind s xs)
    unfolding run
    run-IsWell s [] v = result v
    run-IsWell s (x ∷ xs) v =
        >>=-Ensures (step ipc ntoa inet_addr behind s x)
          λ s' e. run-IsWell s' xs (Ensures-some (step-IsWell s x v) e)

    -- All processes before their loops, but for the front process, which comes from its `main`.
    abbrev pub at_begin : Netio Kernel → Manager.Manager → Kernel → System Kernel
    at_begin front cache k = record {
      front = front;
      first = λ n. at_start ipc (pid1 n) 0xccccd cache k;
      second = λ n. at_start ipc (pid2 n) 0xcccce cache k;
      kernel = k;
    }

    -- Once the front process and all containers are started, and after any rounds of theirs in any
    -- order, whatever the system calls answer and whatever counters they find: the list of the watched
    -- descriptors is sane in the front process, each container process has its 25 services in one
    -- place each and no others, on the queue of its command, and an answer to any of them is sent
    -- under the message type that this process asks for.
    pub system_run :
        (a : Answers) (cache : Manager.Manager) (kernel k : Kernel) (xs : List Step)
        {front : Netio Kernel} {s : System Kernel}
        → front_main ipc ntoa inet_addr cache kernel a ≡ some front
        → run ipc ntoa inet_addr behind (at_begin front cache k) xs ≡ some s
        → IsWell pid1 pid2 s
    system_run a cache kernel k xs {front = front} started ran =
        let v : IsWell pid1 pid2 (at_begin front cache k) = record {
          front_sane = front_main-IsSane ipc ntoa inet_addr cache kernel a started;
          firsts = λ n. at_start-Serves ipc NoStack (pid1 n) 0xccccd cache k;
          seconds = λ n. at_start-Serves ipc Cmd (pid2 n) 0xcccce cache k;
        } in
        Ensures-some (run-IsWell (at_begin front cache k) xs v) ran
