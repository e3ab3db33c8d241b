-- ===== src/Container/Survival.antt =====
-- What a container of `CSvcTest` (netio/src/svc_test.cpp) can go on with
-- (netio/src/container_user_event_handler.cpp): tests of a command and of a message, apart from the
-- code.
pub mod Commands
pub mod Replies
pub mod Rounds
use middlewar_test.Base.{
  ◌≡◌, Bool, true, false, ◌||◌, ◌&&◌, [], ◌∷◌, Bytes, ltb, ◌==◌, if◌then◌else◌, length, ℤ, pos,
  ◌==ℤ◌, IntMap,
}
use middlewar_test.Command.{Cmd}
use middlewar_test.Queue.{is_terminated, Received, got, buf_size, response}
use middlewar_test.Netio.Survival.{IsServing}
use middlewar_test.Dispatch.{ended, Service, Dispatcher, unfinish_task_ret_flag}
use middlewar_test.Dispatch.Pool.{AllFresh}
use middlewar_test.Container.{World, Container}
use middlewar_test.Container.Services.{NoStack}

-- A service that waits has ended: `CSvcTest` never waits for an answer.
abbrev pub AllEnded : IntMap (Service NoStack) → Type 0
AllEnded [] = Unit
AllEnded ((k, s) ∷ m) = (s.context ≡ ended) × AllEnded m

-- The container's tables are ready and its queues open, its free services have not run, and those that
-- wait have ended.
pub record IsRunning (d : Dispatcher NoStack) {K : Type 0} (w : World K) : Type 0 where
  pub serving : IsServing w.queues w.cache
  pub free_fresh : AllFresh d.stateless
  pub busy_ended : AllEnded d.stateful

abbrev pub Runs : {K : Type 0} → Container K NoStack → Type 0
Runs s = IsRunning s.dispatcher s.world

-- The reply to a command has a queue: that of the responses, or that of the command.
abbrev pub is_answerable : Cmd → Bool
is_answerable c = if c.svc_serial_no ==ℤ pos 0 then true else (c.cmd ==ℤ pos 1 || c.cmd ==ℤ pos 2)

-- A free service is found, and the command says that it is not finished.
abbrev pub says_unfinished : IntMap (Service NoStack) → Cmd → Bool
says_unfinished [] c = false
says_unfinished (_ ∷ _) c = c.ret ==ℤ unfinish_task_ret_flag

-- A command that is handled: no response, and one that can be answered, unless it says itself that it is
-- not finished and finds a free service.
abbrev pub command_passes : IntMap (Service NoStack) → Cmd → Bool
command_passes free c =
    if c.type ==ℤ response then false else if says_unfinished free c then true else is_answerable c

-- What `msgrcv` gives: bytes that fit the buffer, and, if there are any, that end in it as a text.
abbrev pub text_passes : Received → (Bytes → Bool) → Bool → Bool
text_passes (got text) test otherwise =
    if ltb buf_size (length text)
    then false
    else if length text == 0
    then otherwise
    else is_terminated text && test text
text_passes _ test otherwise = otherwise
