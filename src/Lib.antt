-- ===== src/Lib.antt =====
-- A verification library for the network scanner: the `core` library of the repository, which
-- finds devices by pinging them and asks them by SNMP, and the program `app` that uses it.
--
-- The parts of the program, bottom up:
--   * core/core/util: `Util.ByteOrder` (ByteOrder.h), `Util.WrapAround` (type/WrapAround.h),
--     `Util.Sequence` (Sequence.h, ranges), `Util.Logger` (logger, its macros in the child
--     `Debugging`), `Util.Enum` (Enum.h), `Util.Uuid` (Uuid.h), `Util.Defer` (Defer.h),
--     `Util.Assertion` (Assertion.h) and `Util.Printable` (core/core/traits/Printable.h).
--     `Prelude.Results` holds the errors and results of Result.h, and `Models.Time` the times
--     of Time.h.
--   * core/core/net: `Net.IPv4Address` and `Net.MacAddress` (the files of these names), with
--     their bytes in `Net.Bytes`, their texts in `Net.Text` and the reading of texts by
--     `sscanf` in `Net.Scan`; `Net.Packet` (packet/PacketBuilder.h and packet/layer);
--     `Net.NetworkInterface` (NetworkInterface.cpp).
--   * core/core/net/socket: `Net.Socket`, with the listener that every socket is
--     (v2/ReceivingSocket) in `Net.Socket.Listener`, the packet filter (filter) in
--     `Net.Socket.Filter`, and both kinds of sockets and the pool that makes them
--     (v2/RawSocket, v2/IcmpSocket, SocketPool) in `Net.Socket.Pool`, the thread of the pool
--     in `Net.Socket.Service`; `Net.Socket.Polling` is the polling task of the scanner on a
--     listener.
--   * core/core/net/scanner: `Net.Scanner` (IcmpScanner, and the polling task of IScanner.h).
--     A ping enters a request with a promise in a table, a packet answers and erases it, and a
--     timeout answers it with an error. `Net.Scanner.Settling` follows one request through the
--     packets, the runs and the other pings that come after it. `Net.Scanner.Lifetime` puts
--     the polling task into the task runner: how it is started, stopped and awaited, how it
--     answers a ping (`Answering`), and what becomes of it when the scanner is destroyed.
--     `Util.Promises` models the promises and futures of the C++ library.
--   * core/core/models and core/core/repo: `Models.Device` (its JSON in the child
--     `Serializing`), `Repo.DeviceRepository` (with the contract of repo/Repository.h in its
--     child `Contract`, and the calls of many threads in `Interleaving`) and
--     `Repo.RepositoryRegistry`.
--   * core/core/util/async: `Async.Task` and `Async.Runner` (Task.h, Task.cpp),
--     `Async.FutureResolver` (FutureResolver.h), `Async.Thread` (core/core/util/Thread.h), and
--     `Async.Context` and `Async.Registry` (TaskContext.h). A runner and a context each have a
--     thread that serves an `io_context`; `Async.Context.Ending` is about its end.
--   * core/core/services/device_discovery: `Discovery.Task`, `Discovery.Icmp` and
--     `Discovery.Service`, with what its tasks see in the child `Recording` (and
--     `Discovery.Arp`, core/core/services/ArpScanner);
--     `Discovery.App` models app/MyIcmpDeviceDiscoveryTask.cpp and the callback of
--     app/main.cpp, its child `SetUp` what main makes, `Demonstration` what it logs, `Input`
--     its loop over the characters that are typed, `Main` the whole of it, `Recording` the way
--     of a host from its discovery to the repository, and `Ending` the end of a discovery. A
--     discovered host is pinged; a resolver polls the future of the ping and adds its result.
--   * core/core/net/snmp: `Snmp.Values` (Oid.h, VarBind.h), `Snmp.Target` (SnmpTarget.h),
--     `Snmp.Client` (SnmpClient.h, SnmpClient.cpp; any sequence of its calls in the child
--     `History`, the replies to one walk in `Replies` and what is asked for after them in
--     `Conversation`), `Snmp.Oids` (the identifiers and texts of Oid.h and VarBind.h, the users
--     of SnmpClient.cpp); `Snmp.Service` models
--     core/core/services/snmp_service, which walks a table for the program, and `Snmp.Factory` models app/SnmpTargetFactory.h.
--   * `Tests` holds concrete inputs and the theorems applied to them, and in `Suites` the
--     repository's own unit tests (tests/core).
--
-- State and operations. An object is a record of its members, and an operation a function with
-- the name of the method in this library's spelling, which takes the state and returns the new
-- one. A `std::map` is a list of entries whose keys rise (`Prelude.Map`), by an order that is an
-- instance argument where the keys are hardware addresses. A promise is a number, and the store
-- of futures says for each number whether its future waits, is broken or is ready. A shared
-- pointer to a device is a number too. Exceptions, null pointers and uses of erased objects are
-- `none`, and so is the exception of a promise that is set twice where that can come about. The
-- repository's theorems are about a comparison of hardware addresses that is a strict weak order; that
-- of MacAddress.cpp is one if the two bytes that it leaves uninitialised hold the same each time.
-- `Util.WrapAround` takes a step over the end of a machine type to be modular, which for `int` and
-- wider signed types is undefined in C++.
--
-- Bounds and fuel. Numbers are natural numbers with the machine's wrap-around written out: 2 ^ 32
-- for addresses and 2 ^ 48 for the six bytes of a hardware address. Five functions take fuel: the
-- loop over a range (`Util.Sequence.visit`; one round more than the range has values is enough),
-- the consecutive runs of the polling task (`Net.Scanner.Polling.drain`; one more than packets
-- wait), the loop over the input (`Discovery.App.Input.input_loop`; one more than there are
-- characters before the one that ends it), the program as a whole (`Discovery.App.Main.main`,
-- which gives fuel to both of these loops) and `isBetween`, which calls itself at most once, so
-- that two calls are enough.
--
-- What is a parameter: the network library's `io_context` (`Async.Runner.IoContext`, and
-- `Async.Context.RunLoop` for its `run`), stream buffer, queue and sockets
-- (`Net.Socket.StreamBuffer`, `Net.Socket.SpscQueue`, `Net.Socket.Pool.SocketCalls`) and its
-- parser of addresses, the machine that runs packet filters (`Net.Socket.Filter.FilterMachine`),
-- the reflection library and that of identifiers (`Util.Enum.EnumLibrary`,
-- `Util.Uuid.UuidLibrary`), each an interface with the laws that the code relies on; the packet
-- library's parser and its devices, the formatting of numbers, the SNMP library's identifiers and
-- texts, the system calls, the time, the identifiers of threads and requests, and what
-- uninitialised memory holds.
--
-- What is not modelled: callbacks of the library's thread between the sending of an SNMP request and
-- the taking of its future, but in `Snmp.Client.Racing` (elsewhere both are one step); callbacks of a
-- discovery task that throw; the locks of the standard library (but for the two halves of the
-- repository's methods), the library that reads the command line, the JSON library's text, and the
-- work of the network, packet, SNMP, reflection and logging libraries themselves.
pub mod Prelude
pub mod Util
pub mod Net
pub mod Models
pub mod Repo
pub mod Async
pub mod Discovery
pub mod Snmp
mod Tests
