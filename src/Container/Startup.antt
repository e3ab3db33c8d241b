-- ===== src/Container/Startup.antt =====
-- How a container process fills its pool of services (netio/src/container.cpp).
use middlewar_test.Base.{
  ℕ, zero, suc, ◌+◌, ◌*◌, ◌≡◌, ap, ◌∙◌, ◌&&◌, [], ◌==◌, ltb, leb, if◌then◌else◌, key_count,
  key_count-assign, arith,
}
use middlewar_test.Command.{new_cmd}
use middlewar_test.Dispatch.{Dispatcher, new_service, fresh, add_svc_handler}
use middlewar_test.Dispatch.Pool.{places, IsSound, add_svc_handler-IsSound}

-- The constructor of `CServiceDispatcher`.
abbrev pub new_dispatcher : {S : Type 0} → Dispatcher S
new_dispatcher = record { count = 0; cur_cmd = new_cmd; stateful = []; stateless = [] }

-- The loop that makes `n` services and numbers them by the process and a counter.
unfoldable pub add_services : {S : Type 0} → ℕ → ℕ → Dispatcher S → Dispatcher S
add_services pid zero d = d
add_services pid (suc i) d = add_svc_handler (add_services pid i d) (new_service (pid * 100 + i))

abbrev pub service_num : ℕ
service_num = 25

-- The pool of the process `pid`.
abbrev pub filled_pool : {S : Type 0} → ℕ → Dispatcher S
filled_pool pid = add_services pid service_num new_dispatcher

module _ (S : Type 0) where
  new_dispatcher-IsSound : IsSound (new_dispatcher {S = S})
  unfolding key_count
  new_dispatcher-IsSound = record {
    once = λ k. omega arith;
    free_keyed = tt;
    busy_keyed = tt;
    free_fresh = tt;
  }

  -- A new service stands in one place more.
  add_svc_handler-places :
      (d : Dispatcher S) (i k : ℕ)
      → places i d ≡ 0
      → places k (add_svc_handler d (new_service i))
        ≡ (if i == k then suc (places k d) else places k d)
  unfolding add_svc_handler new_service
  add_svc_handler-places d i k h =
      ground (arith, h, key_count-assign k i (record { index = i; context = fresh }) d.stateless)

  -- Whether the number is one of the first `n` of a process.
  abbrev pub numbered : ℕ → ℕ → ℕ → ℕ
  numbered pid n k = if leb (pid * 100) k && ltb k (pid * 100 + n) then 1 else 0

  next_number :
      (pid n k : ℕ)
      → (if pid * 100 + n == k then suc (numbered pid n k) else numbered pid n k)
        ≡ numbered pid (suc n) k
  next_number pid n k = ground arith

  add_services-places :
      (pid n k : ℕ) → places k (add_services {S = S} pid n new_dispatcher) ≡ numbered pid n k
  unfolding add_services
  add_services-places pid zero k = unfold key_count in ground arith
  add_services-places pid (suc i) k =
      add_svc_handler-places (add_services pid i new_dispatcher) (pid * 100 + i) k
        (add_services-places pid i (pid * 100 + i) ∙ ground arith)
      ∙ ap (λ n. if pid * 100 + i == k then suc n else n) (add_services-places pid i k)
      ∙ next_number pid i k

  add_services-IsSound : (pid n : ℕ) → IsSound (add_services {S = S} pid n new_dispatcher)
  unfolding add_services
  add_services-IsSound pid zero = new_dispatcher-IsSound
  add_services-IsSound pid (suc i) =
      add_svc_handler-IsSound (add_services pid i new_dispatcher) (pid * 100 + i)
        (add_services-IsSound pid i) (add_services-places pid i (pid * 100 + i) ∙ ground arith)

  -- A container starts with a sound pool: each of its 25 services stands in it once, under the
  -- numbers from a hundred times the process on, and nothing else does.
  pub filled_pool-IsSound :
      (pid : ℕ)
      → IsSound (filled_pool {S = S} pid)
        × ((k : ℕ)
            → places k (filled_pool {S = S} pid)
              ≡ (if leb (pid * 100) k && ltb k (pid * 100 + service_num) then 1 else 0))
  filled_pool-IsSound pid =
      (add_services-IsSound pid service_num, add_services-places pid service_num)
