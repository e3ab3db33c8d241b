-- ===== src/Container/Services.antt =====
-- The two services of the repository: `CSvcTest` (netio/src/svc_test.cpp) and `CSvcTest2`
-- (netio/src/svc_test2.cpp).
use middlewar_test.Base.{ℕ, ◌/◌, ◌%◌, Option, none, some, ◌++◌, Bytes, codes, ◌>>=◌, pos}
use middlewar_test.Cache.Manager.{incr}
use middlewar_test.Command.{Cmd, new_cmd}
use middlewar_test.Command.Number.{print_int}
use middlewar_test.Queue.{Ipc, request, response, get_msg_queue}
use middlewar_test.Dispatch.{unfinish_task_ret_flag}
use middlewar_test.Container.{World, Program, put_cmd}

-- The key of a service's counter: it ends in the last digits of the process.
unfoldable pub counter_key : Bytes → ℕ → Bytes
counter_key prefix index = prefix ++ print_int (pos (index / 100 % 100))

-- `CSvcTest` never waits, and saves nothing.
abbrev pub NoStack : Type 0
NoStack = Unit

-- `Incr` by a service; `behind` is the memory behind the key.
unfoldable pub count_run : {K : Type 0} → Bytes → Bytes → ℕ → World K → Option (World K)
count_run behind prefix index w = do
  (n, cache') ← incr w.cache (counter_key prefix index) behind (pos 1)
  some (record w { cache = cache' })

-- `SendRequest`: `CSvcTest2` serves command 2.
unfoldable pub question : ℕ → Cmd
question index = record new_cmd { svc_serial_no = pos index; cmd = pos 2 }

module _ (ipc : Ipc) (behind : Bytes) where
  open ipc use {Kernel}

  -- `CSvcTest::Execute`.
  unfoldable pub svc_test_start :
      ℕ → Cmd → World Kernel → Option (Cmd × World Kernel × Option NoStack)
  svc_test_start index c w = do
    w' ← count_run behind (codes "c1_") index w
    some (record c { payload = codes "resp1=r1"; type = response }, w', none)

  abbrev pub svc_test : Program Kernel
  svc_test = record { Saved = NoStack; start = svc_test_start; resume = λ i v c w. none }

  -- `CSvcTest2::Execute` up to its `Schedule`, with the copy `obj3` on its stack.
  unfoldable pub svc_test2_start : ℕ → Cmd → World Kernel → Option (Cmd × World Kernel × Option Cmd)
  svc_test2_start index c w = do
    w1 ← count_run behind (codes "c2_") index w
    w2 ← put_cmd ipc (get_msg_queue w1.queues 0xccccd).1 request (question index) w1
    some (record c { ret = unfinish_task_ret_flag }, w2, some c)

  -- `CSvcTest2::Execute` behind its `Schedule`.
  unfoldable pub svc_test2_resume :
      ℕ → Cmd → Cmd → World Kernel → Option (Cmd × World Kernel × Option Cmd)
  svc_test2_resume index obj3 c w = some (
    record obj3 {
      ret = pos 0;
      svc_serial_no = pos 0;
      type = response;
      payload = c.payload ++ codes "&resp2=r2";
    },
    w,
    none,
  )

  abbrev pub svc_test2 : Program Kernel
  svc_test2 = record { Saved = Cmd; start = svc_test2_start; resume = svc_test2_resume }
