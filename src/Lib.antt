-- ===== src/Lib.antt =====
-- netxy, a C and C++ library of TCP servers and of the data structures under them.
--
-- This development models the C utilities of src/utils, and the connections and formats over them, each
-- in a module of its own:
--
-- `Buffer` (src/utils/buffer.c): the receive buffer of a connection; a record with the storage, its
-- size and the two positions, one function for each ox_buffer_ function.
-- `RwList` (src/utils/rwlist.c): the list between a writing and a reading thread; one function for
-- each ox_rwlist_ function, and a step relation for the interleavings of the two threads.
-- `FdSet` (src/utils/fdset.c): the descriptors to poll; one function for each ox_fdset_ function.
-- `ThreadPool` (src/utils/threadpool.c): worker threads over one list of messages; an execution is a
-- list of actions of the threads.
-- `TypePool` (src/utils/typepool.c): a pool of equal blocks; one function for each ox_type_pool_
-- function, and executions of its clients.
-- `MultiPool` (src/utils/multipool.c): type pools of several block lengths; one function for each
-- ox_multi_pool_ function, over `TypePool`.
-- `Coroutine` (src/utils/coroutine.c): coroutines and their scheduler; `Coroutine.Unix` is the variant
-- for `ucontext`, one function for each coroutine_ function, and executions of them.
-- `TimeAction` (src/utils/timeaction.c): timers; one function for each ox_timer_mgr_ function, one
-- for a round of the schedule, and executions of them.
-- `Timers` (src/timer/Timer.cpp): the timers of an event loop, over `Heap`; one function for each operation,
-- and runs of their owner and of the callbacks.
-- `MsgNet` (src/utils/msgnet.c): modules, and the dispatch of messages to those that registered; one
-- function for each msgnet_ function, and for each callback that is built in.
-- `Array` (src/utils/array.c): elements of one size in one block; one function for each ox_array_
-- function.
-- `DataSocket` (src/net/DataSocket.cpp): a connection; one function for each operation on its send list
-- and its state, `DataSocket.Flush` for the two flushes, `DataSocket.Life` for executions of its event
-- loop and its owner, `DataSocket.Receive` for the receive loop over `Buffer`, and `DataSocket.Ping` for
-- the check that it receives.
-- `MsgQueue` (src/utils/MsgQueue.h): the queue between two threads; one function for each operation,
-- and runs of the turns of both threads.
-- `TypeIds` (src/utils/Typeids.h): numbers given out for values; one function for each operation, and
-- runs of clients that claim and give back numbers.
-- `EventLoop` (src/net/EventLoop.cpp): the loop of one thread, with other threads that give it procedures
-- and wake it up; one function for each operation, and executions of all threads.
-- `TcpService` (src/net/TCPService.cpp): the session ids of one loop over `TypeIds`, and the lists of
-- cached packets; `TcpService.Listen` for the way of descriptors to the loops, and `TcpService.Worker` for the
-- time-out of a loop over `Timers`; one function for each operation, and runs of them.
-- `Connector` (src/net/Connector.cpp): a thread that makes connections for others, over `MsgQueue` and an
-- interface of the poll set, which `Connector.OverFdSet` meets with `FdSet`; one function for each operation,
-- and runs of rounds and requests.
-- `Packet` (src/utils/packet.h): packets of numbers and byte strings; one function for each write and
-- read, the types of numbers by their widths.
-- `WebSocket` (src/net/http/WebSocketFormat.h): frames; one function that builds them and one that
-- extracts them.
-- `HttpServer` (src/net/http/HttpServer.cpp): the data callback of a session that speaks WebSocket, over
-- the frames, with chunks of bytes, and with reads into a buffer that has a limit.
-- `HttpFormat` (src/net/http/HttpFormat.h): the text of requests and responses; one function for each
-- method. `HttpFormat.ReadBack` is a reader of requests that stands on its own.
-- `Stack` and `Heap`: the interfaces of "stack.h" and "heap.h", which the utilities include and the
-- repository lacks; `Heap` also stands for the priority queue of the standard library. Their laws are what
-- the callers rely on; `Stack.Model` and `Heap.Model` meet them with plain and with sorted lists.
-- `Base`: tests on numbers, and lists measured by native numbers.
--
-- How the parts work together: the listening thread of a `TcpService`, or a `Connector`, gets a descriptor;
-- the service gives it to an `EventLoop`, in whose thread its `DataSocket` enters, gets a session id, receives
-- into a `Buffer` and sends its list of packets. Other threads reach a connection by its id, through a
-- procedure that they give to the loop. Between two waits the loop runs its `Timers`, whose next time bounds
-- the wait. An `HttpServer` session takes the bytes of a connection as `WebSocket` frames.
--
-- Numbers: `size_t` has 64 bits and wraps by `% 2 ^ 64`. `malloc`, `poll` and the platform's flags are
-- arguments, and so are the answers of `writev`, `send` and the callbacks. A failed assert, a write
-- through NULL and a write outside the storage are `none`.
-- Fuel: `Coroutine.Unix.find_free` counts `cap` rounds, as the loop does; `Buffer.write` runs
-- `write_steps` with 2, one for the call and one for its only call of itself; `TimeAction.schedule`
-- needs one round more than there are pending timers, if the callbacks add none, and `TimeAction.move_ids` with one round
-- more than there are free ids; `DataSocket.Flush.flush` has one round more than there are packets, and
-- `DataSocket.Receive.recv` one more than the system has bytes; `HttpServer.serve` has a round for each
-- byte; `Timers.schedule` and `Timers.clear` run as many rounds as they are given; `RwList.merge` runs
-- `drain` with one round more than there are elements.
--
-- Not modelled: the variants for Windows, the vendored HTTP parser and digests and what wraps them, the
-- wrappers of system calls, TLS, the objects that only keep callbacks, the RPC templates, and the
-- functions that only free memory.
pub mod Base
pub mod Buffer
pub mod Stack
pub mod RwList
pub mod FdSet
pub mod ThreadPool
pub mod TypePool
pub mod MultiPool
pub mod Coroutine
pub mod Heap
pub mod TimeAction
pub mod Timers
pub mod MsgNet
pub mod Array
pub mod WebSocket
pub mod DataSocket
pub mod Packet
pub mod MsgQueue
pub mod TypeIds
pub mod EventLoop
pub mod TcpService
pub mod HttpServer
pub mod HttpFormat
pub mod Connector
