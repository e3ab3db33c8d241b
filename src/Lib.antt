-- ===== src/Lib.antt =====
-- middlewar_test: a small application server. A front process takes requests from TCP clients and
-- passes them by System V message queues to container processes, in which services run as
-- user-level threads; the responses go back the same way. Services may put requests to those of
-- other containers and wait for the answer. All processes count in hash tables in shared memory.
--
-- The parts and their files:
-- - Cache.Hash: `CModHashV1` (netio/include/mod_hash_v1.h), one record for the object's header,
--   its two iterators and the shared memory, with a function for each operation (Cache.Hash.Sized:
--   `InitalizeByCacheSize`); Cache.Hash.Walk and Cache.Hash.Iterator have its iterators
--   (netio/include/mod_hash_v1_iterator.h). Laws, Bulk and Header have its theorems. Cache.Index:
--   the interface `IChunkedIndex` (netio/include/intf_chunkedindex.h) as a record of operations,
--   and the laws of an index in terms of a view of the keys; Cache.Index.Hashed: the table as such
--   an index. Cache.Index.Iterator: `IChunkedIndexIterator`
--   (netio/include/intf_chunkedindexIterator.h) in the same way, with the loop over an index.
-- - Cache.Manager: `CCacheManager` (netio/src/cache_manager.cpp), three tables in one segment;
--   Cache.Manager.Printing: `PrintAll` called twice.
-- - Text: `SplitString`, `Trim`, `strPairAppendToMap` (netio/include/string_helper.h).
-- - Command: `CCmd` (netio/include/cmd_obj.h), the message of all processes, and its text;
--   Command.Number: decimal numbers as `snprintf`, `<<` and `atoll` write and read them.
-- - Queue: `CMsgQueue`, `CMsgQManager` (netio/src/msgq_manager.cpp), with the constants of
--   netio/include/global_define.h. Queue.Fifo: what the program relies on a kernel for, namely
--   queues that hold their messages in order; the theorems on whole exchanges take it as a
--   parameter.
-- - Reactor: `CReactor` (netio/src/reactor.cpp), the list of watched descriptors and the socket
--   table; Reactor.Setup: its `Init`. Netio: the front process's handlers
--   (netio/src/tcp_net_handler.cpp, netio/src/netio_user_event_handler.cpp,
--   netio/src/usock_udp_handler.cpp) and `ProcessEvent`; Netio.Process: the state and the events.
--   Netio.Loop: `CheckEvents`, `RunEventLoop` and `main` of netio/src/netio.cpp.
-- - Dispatch: `IService`, `CServiceDispatcher` (netio/src/intf_service.cpp,
--   netio/src/service_dispatcher.cpp). A context is fresh, suspended with what is on its stack, or
--   ended; a switch runs a service up to its next switch.
-- - Container: `CContainerEventHandler` (netio/src/container_user_event_handler.cpp);
--   Container.Services: `CSvcTest`, `CSvcTest2` (netio/src/svc_test.cpp, netio/src/svc_test2.cpp);
--   Container.Notify: `RespNotify`; Container.Startup, Container.Main: the pool of services and
--   `main` of netio/src/container.cpp; Container.Loader: `CServiceLoader`
--   (netio/src/service_loader.cpp).
-- - Container.Dialogue: two containers that exchange a question and its answer. Serving: the front
--   process and the containers over one kernel, from a client's request to the write of its
--   response (Serving.Front, Serving.Written: both ends in the front process; Serving.Whole:
--   command 1; Serving.Relay: command 2). Serving.Forged: a request with the number of a service;
--   Serving.Kept: what of a client's text the container reads. Serving.System: all processes over
--   one kernel, whose rounds come in any order.
-- - Modules for proofs. Command.Written and Command.Fields: the text of a message as pairs, and
--   how the pairs become members; Command.RoundTrip, Command.Buffer: a message written and read;
--   Command.Parsed, Command.Sizes: a message read from any text. Dispatch.Pool,
--   Dispatch.Conservation: the places of the services; Dispatch.Waking, Dispatch.Resuming: which
--   service runs. Container.Replies, Container.Answering, Container.Conversation,
--   Container.Exchange: a message from the queue to the reply. Container.Messages, Container.Mail,
--   Container.Client, Container.Final: the texts and the queues of whole exchanges.
--   Container.Survival: what a container can go on with. Container.Main.Rounds,
--   Container.Main.Invariant: the rounds of a container. Netio.Survival: what the front process
--   can go on with. Netio.Routing, Netio.Responses: the ways to a container and back to the
--   client; Netio.Reading: the reading of a request. Reactor.Watch, Reactor.Sane: the watched
--   descriptors over every operation; Reactor.Setup.Invariant, Netio.Handling, Netio.Invariant:
--   the same over the set-up, the handlers and every round. Text.Pairs, Text.Trimming,
--   Text.Splitting, Text.Parts: texts of pairs and of parts; Text.Parsed, Text.Trimmed,
--   Text.Sizes, Text.Lookups: what is read of any text.
-- - Base: Boolean tests, results that may be missing, lists, integers and maps with `int` keys.
--   Tests: each theorem on concrete inputs.
--
-- State and failure: an operation takes its object's state and returns it with the code.
-- `Option`'s `none` stands for what ends the process or has no defined result: a failed assertion,
-- an index out of an array, a text that is read behind the end of its buffer, the use of a pointer
-- that was never set, a switch to a context that has ended.
--
-- Parameters: the kernel's message queues (`Ipc`), the answers of the socket calls and of epoll,
-- which are arguments of each operation, `inet_ntoa` and `inet_addr`, the memory behind a key's
-- text, what the memory of the reactor's messages holds before they are set, the time, and, for
-- the dispatcher, the code of the services (`Code`). A theorem that assumes anything of an answer
-- says so as a hypothesis.
--
-- Bounds and fuel: numbers are those of ℕ and ℤ; conversions to `int`, the sum of `Incr`, the hash
-- in `unsigned long` and the members of `sockaddr_in` are reduced as the machine does.
-- `split_loop` has a round for each byte of its text (Text.Parts is about more), `digits` ten
-- rounds, which an `int` needs at most, `visit` one for each bucket and one for its end. The loops
-- of the two `main` programs never end by themselves; their runs are over the rounds that have
-- passed.
--
-- Not modelled: netio/src/main_control.cpp, whose `main` is a comment and whose other functions
-- only call the operating system; output and waiting; the interleaving of processes within an
-- operation; the reactor of a container, which watches no socket; the third-party
-- netio/include/pth.h; and netio/testClient.
mod Base
pub mod Cache
pub mod Text
pub mod Command
pub mod Queue
pub mod Reactor
pub mod Netio
pub mod Dispatch
pub mod Container
pub mod Serving
mod Tests
