-- ===== src/Tests/World.antt =====
-- A process of containers with the queues of the mailbox.
use middlewar_test.Base.{true, false, List, [], ◌∷◌, pos, IntMap, replicate, set}
use middlewar_test.Cache.Hash.{Bucket}
use middlewar_test.Cache.Manager.{container_one, container_two, put_table}
use middlewar_test.Command.{Cmd, new_cmd}
use middlewar_test.Queue.{MsgQueue, net_io_back_msq_key}
use middlewar_test.Dispatch.{Dispatcher, Service}
use middlewar_test.Container.{World, Container}
use middlewar_test.Tests.Kernel.{Letter}
use middlewar_test.Tests.Tables.{cache, table_at, unused}

abbrev pub back : MsgQueue
back = record { id = 1; key = net_io_back_msq_key }

abbrev pub first : MsgQueue
first = record { id = 2; key = 0xccccd }

abbrev pub second : MsgQueue
second = record { id = 3; key = 0xcccce }

abbrev pub world : World (List Letter)
world = record {
  queues = (net_io_back_msq_key, back) ∷ (0xccccd, first) ∷ (0xcccce, second) ∷ [];
  kernel = [];
  cache = cache;
  notices = 0;
}

-- A dispatcher whose only service is `s`, free or waiting.
abbrev pub with_free : {S : Type 0} → IntMap (Service S) → Dispatcher S
with_free free = record { count = 1; cur_cmd = new_cmd; stateful = []; stateless = free }

abbrev pub process : {S : Type 0} → Dispatcher S → Container (List Letter) S
process d = record { dispatcher = d; world = world; pid = 40; mq_key = 0xccccd }

abbrev pub run_once : Bucket
run_once = record { has_set = true; invalid = false; node = pos 1 }

-- The shared counters once a service of the process 40 has run.
abbrev pub counted_one : World (List Letter)
counted_one = record world {
  cache =
      put_table cache container_one (table_at 1104 100 (set (replicate 100 unused) 43 run_once));
}

abbrev pub counted_two : World (List Letter)
counted_two = record world {
  cache =
      put_table cache container_two (table_at 4768 100 (set (replicate 100 unused) 44 run_once));
}

abbrev pub asked : Cmd
asked = record new_cmd { cmd = pos 2; fd = pos 17; family = pos 2; port = pos 4711 }
