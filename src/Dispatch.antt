-- ===== src/Dispatch.antt =====
-- `IService` (netio/include/intf_service.h, netio/src/intf_service.cpp) and `CServiceDispatcher`
-- (netio/include/service_dispatcher.h, netio/src/service_dispatcher.cpp). The contexts are those of
-- GNU Pth: a switch runs a service from where it stands until it calls `Schedule` or returns. What
-- services do is a parameter. `none` is a failed assertion, or a switch to a context that has ended.
pub mod Pool
pub mod Waking
pub mod Conservation
pub mod Resuming
use middlewar_test.Base.{
  ℕ, ◌+◌, true, false, Option, none, some, [], ◌∷◌, if◌then◌else◌, ◌>>=◌, ℤ, pos, ◌==ℤ◌, IntMap,
  assign, erase_key,
}
use middlewar_test.Command.{Cmd}
use middlewar_test.Queue.{response}

abbrev pub unfinish_task_ret_flag : ℤ
unfinish_task_ret_flag = pos 2_000_000_000

abbrev pub no_free_svc_handler : ℤ
no_free_svc_handler = pos 21

-- The code of the services of one container. `Saved` is what the stack of a service holds while it
-- waits, `World` what services share besides the command object. Both functions run the service with
-- a given index up to its next switch: the command object as it is then, and what the service saved
-- if it called `Schedule`, or nothing if `Execute` returned; `none` in all is a fault of the service.
pub record Code : Type 1 where
  pub Saved : Type 0
  pub World : Type 0
  pub start : ℕ → Cmd → World → Option (Cmd × World × Option Saved)
  pub resume : ℕ → Saved → Cmd → World → Option (Cmd × World × Option Saved)

pub data Context (S : Type 0) : Type 0 where
  fresh : Context S
  suspended : S → Context S
  ended : Context S

pub record Service (S : Type 0) : Type 0 where
  pub index : ℕ
  pub context : Context S

-- `SetIndex` on a new service.
unfoldable pub new_service : {S : Type 0} → ℕ → Service S
new_service i = record { index = i; context = fresh }

pub record Dispatcher (S : Type 0) : Type 0 where
  pub count : ℕ
  pub cur_cmd : Cmd
  pub stateful : IntMap (Service S)
  pub stateless : IntMap (Service S)

unfoldable pub add_svc_handler : {S : Type 0} → Dispatcher S → Service S → Dispatcher S
add_svc_handler d s = record d { stateless = assign s.index s d.stateless; count = d.count + 1 }

-- `ResetUCTX`.
unfoldable pub reset_context : {S : Type 0} → Service S → Service S
reset_context s = record s { context = fresh }

module _ (code : Code) where
  open code use {Saved, World, start, resume}

  -- The service after a switch back, with the command object and the world.
  abbrev pub Switched : Type 0
  Switched = Service Saved × Cmd × World

  left : Service Saved → Cmd × World × Option Saved → Switched
  left s (c, w, none) = (record s { context = ended }, c, w)
  left s (c, w, some v) = (record s { context = suspended v }, c, w)

  run_from : Context Saved → Service Saved → Cmd → World → Option Switched
  unfolding left
  run_from fresh s c w = do r ← start s.index c w; some (left s r)
  run_from (suspended v) s c w = do r ← resume s.index v c w; some (left s r)
  run_from ended s c w = none

  -- `pth_uctx_switch` to the service.
  unfoldable pub switch_to : Service Saved → Cmd → World → Option Switched
  unfolding run_from
  switch_to s c w = run_from s.context s c w

  -- The search of `m_mapStatefulSvcQueue`, which goes on behind a service that was found: the map
  -- with the services' contexts, and the service found last.
  unfoldable pub wake :
      IntMap (Service Saved)
      → Cmd
      → World
      → Option (Service Saved)
      → Option (IntMap (Service Saved) × Cmd × World × Option (Service Saved))
  wake [] c w found = some ([], c, w, found)
  wake ((k, s) ∷ m) c w found = elim (c.svc_serial_no ==ℤ pos k) [
    | true ↦ (do
      (s', c', w') ← switch_to s c w
      (m', c'', w'', found') ← wake m c' w' (some s')
      some ((k, s') ∷ m', c'', w'', found'))
    | false ↦ (do (m', c', w', found') ← wake m c w found; some ((k, s) ∷ m', c', w', found'))
  ]

  -- The part behind the switch, for the service that ran: unless its task is unfinished it is reset
  -- and free again.
  unfoldable pub settle : Dispatcher Saved → Service Saved → Dispatcher Saved
  settle d s = if d.cur_cmd.ret ==ℤ unfinish_task_ret_flag then d else record d {
    stateful = erase_key s.index d.stateful;
    stateless = assign s.index (reset_context s) d.stateless;
  }

  -- A response goes on with the service that waits for it.
  unfoldable pub dispatch_response :
      Dispatcher Saved → Cmd → World → Option (ℤ × Cmd × Dispatcher Saved × World)
  dispatch_response d c w = do
    (m, c', w', found) ← wake d.stateful c w none
    s ← found
    let d' : Dispatcher Saved = record d { cur_cmd = c'; stateful = m }
    some (c'.ret, c', settle d' s, w')

  -- Anything else starts the first free service; the code is 21 if there is none.
  unfoldable pub dispatch_request :
      Dispatcher Saved
      → IntMap (Service Saved)
      → Cmd
      → World
      → Option (ℤ × Cmd × Dispatcher Saved × World)
  dispatch_request d [] c w = some (no_free_svc_handler, c, record d { cur_cmd = c }, w)
  dispatch_request d ((k, s) ∷ free) c w = do
    (s', c', w') ← switch_to s c w
    let d' : Dispatcher Saved = record d {
      cur_cmd = c';
      stateful = assign s'.index s' d.stateful;
      stateless = free;
    }
    some (c'.ret, c', settle d' s', w')

  -- `Dispatch`: the code, and the command as the caller has it afterwards.
  unfoldable pub dispatch :
      Dispatcher Saved → Cmd → World → Option (ℤ × Cmd × Dispatcher Saved × World)
  dispatch d c w =
      if c.type ==ℤ response then dispatch_response d c w else dispatch_request d d.stateless c w
