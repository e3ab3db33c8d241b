-- ===== src/Container/Main/Invariant.antt =====
-- What every container process keeps, from `main` on (netio/src/container.cpp).
use middlewar_test.Base.{
  ℕ, suc, ◌+◌, ◌*◌, ◌≡◌, refl, ap, sym, ◌∙◌, Bool, true, false, ◌&&◌, Option, none, some, List, [],
  ◌∷◌, map, ◌==◌, ltb, leb, if◌then◌else◌, pos, Ensures, result, Ensures-some, >>=-Ensures, arith,
  find_key, find_key-assign, ==_refl,
}
use middlewar_test.Cache.Manager
use middlewar_test.Queue.{Ipc, cmd_dll_keys}
use middlewar_test.Netio.{route, route_from}
use middlewar_test.Dispatch.Pool.{places, IsSound}
use middlewar_test.Container.{Container, Program}
use middlewar_test.Container.Loader.{
  Library, new_loader, load_service, get_service_factory, provided,
}
use middlewar_test.Container.Startup.{service_num, filled_pool-IsSound}
use middlewar_test.Container.Main.{
  at_start, register, Started, asserted, register, container_main, event_rounds,
}
use middlewar_test.Container.Main.Rounds.{IsKept, event_rounds-IsKept}

module _ {F : Type 0} where
  abbrev registered_as : ℕ → Option F → Option (Option (ℕ × F))
  registered_as k none = none
  registered_as k (some f) = some (some (k, f))

  -- The factory of a command's library, if it is provided.
  abbrev registered : (ℕ → Library F) → Option ℕ → Option (Option (ℕ × F))
  registered libs none = some none
  registered libs (some k) = registered_as k (provided (libs k))

  load-get :
      (k : ℕ) (lib : Library F)
      → asserted k (get_service_factory (load_service new_loader k lib).1 k)
        ≡ registered (λ _. lib) (some k)
  load-get k lib = by_answers lib.handle lib.factory
    where
      by_answers :
          (handle : Option ℕ) (factory : Option F)
          → let lib' : Library F = record { handle = handle; factory = factory } in
            asserted k (get_service_factory (load_service new_loader k lib').1 k)
            ≡ registered (λ _. lib') (some k)
      by_answers none factory = unfold load_service get_service_factory find_key in refl
      by_answers (some h) none = unfold load_service get_service_factory find_key in refl
      by_answers (some h) (some f) =
          unfold load_service get_service_factory in
          rw (find_key-assign k k f [], ==_refl k, get_service_factory) refl

  if-registered :
      (libs : ℕ → Library F) (b c : Bool) (k : ℕ) (m : Option ℕ) {x y : Option (Option (ℕ × F))}
      → b ≡ c
      → x ≡ registered libs (some k)
      → y ≡ registered libs m
      → (if b then x else y) ≡ registered libs (if c then some k else m)
  if-registered libs true true k m e h g = h
  if-registered libs false false k m e h g = g
  if-registered libs true false k m e h g = cc
  if-registered libs false true k m e h g = cc

  register-route :
      (libs : ℕ → Library F) (count input : ℕ) (ks : List ℕ)
      → register count input (map (λ k. (k, libs k)) ks)
        ≡ registered libs (route_from count (pos input) ks)
  unfolding register route_from
  register-route libs count input [] = refl
  register-route libs count input (k ∷ ks) =
      if-registered libs (count == input) (input == count) k _ (ground arith) (load-get k (libs k))
        (register-route libs (suc count) input ks)

  registered_as-some :
      (j : ℕ) (o : Option F) {k : ℕ} {f : F}
      → registered_as j o ≡ some (some (k, f))
      → (j ≡ k) × (o ≡ some f)
  registered_as-some j none h = cc
  registered_as-some j (some f) h = (cc, cc)

  registered-some :
      (libs : ℕ → Library F) (m : Option ℕ) {k : ℕ} {f : F}
      → registered libs m ≡ some (some (k, f))
      → (m ≡ some k) × (provided (libs k) ≡ some f)
  registered-some libs none h = cc
  registered-some libs (some j) h =
      let (same, e) = registered_as-some j (provided (libs j)) h in
      (ap some same, ap (λ i. provided (libs i)) (sym same) ∙ e)

module _ (ipc : Ipc) where
  open ipc use {Kernel}

  module _ {F : Type 0} (program : F → Program Kernel) where
    -- A process as `main` leaves it to its loop, and as it stays.
    pub record IsServing (libs : ℕ → Library F) (pid input : ℕ) (x : Started ipc program)
        : Type 0 where
      pub sound : IsSound x.1.dispatcher
      pub each_once :
          (k : ℕ)
          → places k x.1.dispatcher
            ≡ (if leb (pid * 100) k && ltb k (pid * 100 + service_num) then 1 else 0)
      pub own_queue : route (pos input) ≡ some x.1.mq_key
      pub own_library : provided (libs x.1.mq_key) ≡ some x.0

    container_main-IsServing :
        (pid input : ℕ) (libs : ℕ → Library F) (cache : Manager.Manager) (kernel : Kernel)
        → Ensures
            (IsServing libs pid input)
            (container_main ipc program pid input libs cache kernel)
    unfolding container_main route
    container_main-IsServing pid input libs cache kernel =
        >>=-Ensures (register 1 input (map (λ k. (k, libs k)) cmd_dll_keys)) λ chosen e.
          >>=-Ensures chosen λ (key, f) e'.
            let (queue, library) =
              registered-some libs (route (pos input))
                (sym (register-route libs 1 input cmd_dll_keys) ∙ e ∙ ap some e') in
            let (sound, once) = filled_pool-IsSound (program f).Saved pid in
            result
              (record { sound = sound; each_once = once; own_queue = queue; own_library = library })

    -- The process comes to its loop if the library of its command is there.
    pub container_main-some :
        (pid input : ℕ) (libs : ℕ → Library F) (cache : Manager.Manager) (kernel : Kernel) {k : ℕ}
        {f : F}
        → route (pos input) ≡ some k
        → provided (libs k) ≡ some f
        → container_main ipc program pid input libs cache kernel
          ≡ some (f, at_start ipc pid k cache kernel)
    unfolding container_main route
    container_main-some pid input libs cache kernel {k = k} {f = f} h g =
        rw (register-route libs 1 input cmd_dll_keys, h, g) refl

    -- A container process for the command `input` that came through `main` and any number of rounds of
    -- its loop has the services that the library of that command makes: each of the 25 numbers of
    -- the process stands in one place of the dispatcher, busy or free, and no other number does. Its
    -- queue is the one that the front process puts the requests of that command on.
    pub container_run :
        (pid input n : ℕ) (libs : ℕ → Library F) (cache : Manager.Manager) (kernel : Kernel) {f : F}
        {s s' : Container Kernel (program f).Saved}
        → container_main ipc program pid input libs cache kernel ≡ some (f, s)
        → event_rounds ipc (program f) n s ≡ some s'
        → IsServing libs pid input (f, s')
    container_run pid input n libs cache kernel {f = f} {s = s} {s' = s'} started run =
        let at_start : IsServing libs pid input (f, s) =
          Ensures-some (container_main-IsServing pid input libs cache kernel) started in
        let kept : IsKept ipc (program f) s s' =
          Ensures-some (event_rounds-IsKept ipc (program f) n s at_start.sound) run in
        record {
          sound = kept.sound;
          each_once = λ k. kept.same_places k ∙ at_start.each_once k;
          own_queue = at_start.own_queue ∙ ap some (sym kept.same_key);
          own_library = ap (λ i. provided (libs i)) kept.same_key ∙ at_start.own_library;
        }
