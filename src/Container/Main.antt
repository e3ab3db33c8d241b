-- ===== src/Container/Main.antt =====
-- `main` of netio/src/container.cpp: a process with the services of one command, and its loop. The
-- process's own number is an argument: each process that `fork` makes runs the same code with another.
-- No socket is watched, so a round of the event loop is a call of the handler. Rounds that have passed
-- are counted.
pub mod Rounds
pub mod Invariant
use middlewar_test.Base.{
  ℕ, zero, suc, Option, none, some, List, [], ◌∷◌, map, Bytes, ◌==◌, if◌then◌else◌, ◌>>=◌,
  assert_that, ℤ, pos, ◌==ℤ◌, to_int,
}
use middlewar_test.Cache.Manager
use middlewar_test.Command.Number.{atoll}
use middlewar_test.Queue.{Ipc, cmd_dll_keys}
use middlewar_test.Netio.Loop.{program_queues}
use middlewar_test.Container.{World, Container, Program, on_event_fire}
use middlewar_test.Container.Loader.{Library, new_loader, load_service, get_service_factory}
use middlewar_test.Container.Startup.{filled_pool}

-- The command line behind the program's name: the container's number, 1 or 2.
unfoldable pub input_index : List Bytes → Option ℕ
input_index [] = none
input_index (a ∷ more) =
    let z = to_int (atoll a) in if z ==ℤ pos 1 then some 1 else if z ==ℤ pos 2 then some 2 else none

module _ {F : Type 0} where
  -- The factory, which is asserted to be there.
  abbrev pub asserted : ℕ → ℤ × Option F → Option (Option (ℕ × F))
  asserted k (code, factory) = do f ← assert_that (code ==ℤ pos 0) factory; some (some (k, f))

  -- The loop over `g_mapCmdDLL` with its counter: the key and the factory of the container's number.
  -- `none` in all is the failed assertion.
  unfoldable pub register : ℕ → ℕ → List (ℕ × Library F) → Option (Option (ℕ × F))
  unfolding load_service get_service_factory
  register count input [] = some none
  register count input ((k, lib) ∷ libs) =
      let rest = register (suc count) input libs in
      if count == input
      then asserted k (get_service_factory (load_service new_loader k lib).1 k)
      else rest

module _ (ipc : Ipc) where
  open ipc use {Kernel}

  -- The process with its queues, its services and its handler, before the loop.
  abbrev pub at_start : {S : Type 0} → ℕ → ℕ → Manager.Manager → Kernel → Container Kernel S
  at_start pid key cache kernel =
      let (queues, kernel') = program_queues ipc kernel in
      let world : World Kernel = record {
        queues = queues;
        kernel = kernel';
        cache = cache;
        notices = 0;
      } in
      record { dispatcher = filled_pool pid; world = world; pid = pid; mq_key = key }

  module _ {F : Type 0} (program : F → Program Kernel) where
    -- The factory, and the process with its services.
    abbrev pub Started : Type 0
    Started = (f : F) × Container Kernel (program f).Saved

    -- `main` for the container's number `input`, 1 or 2, in the process `pid`.
    unfoldable pub container_main :
        ℕ → ℕ → (ℕ → Library F) → Manager.Manager → Kernel → Option Started
    unfolding register
    container_main pid input libs cache kernel = do
      chosen ← register 1 input (map (λ k. (k, libs k)) cmd_dll_keys)
      (key, f) ← chosen
      some (f, at_start pid key cache kernel)

  -- `RunEventLoop` over the number of the rounds that have passed.
  unfoldable pub event_rounds :
      (p : Program Kernel) → ℕ → Container Kernel p.Saved → Option (Container Kernel p.Saved)
  event_rounds p zero s = some s
  event_rounds p (suc n) s = do s' ← on_event_fire ipc p s; event_rounds p n s'
