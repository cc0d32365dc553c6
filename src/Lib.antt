-- ===== src/Lib.antt =====
-- A model of the Quobyte framework for Apache Mesos: a scheduler that deploys the services of a
-- Quobyte storage cluster as Docker containers, and a prober, the executor, that looks for storage
-- devices on each host.
--
-- The parts and their files:
--   Base                what the other modules share: tests, options, integers, texts, maps
--   Proto               common/quobyte.proto, the messages and the state that is kept
--   Flags               the command-line flags of scheduler/scheduler.cpp
--   Mesos               what the program uses of the Mesos library: its messages as records, its
--                       `Resources` class as a record of operations, the driver's calls as events
--   Scheduler/Names     constants of scheduler/scheduler.cpp
--   Scheduler/Policy    IsTerminal, ShouldServiceBeStarted, DoStartService, KillServiceIfRunning
--   Scheduler/Memory    memMbFromResourceString
--   Scheduler/Command   constructDockerExecuteCommand, buildResourceString
--   Scheduler/Task      createProberTaskInfo, createClientTaskInfo, makeTask
--   Scheduler/State     the fields of QuobyteScheduler, its constructor, createHost, getService
--   Scheduler/Offers    resourceOffers, reconcileHost; Scheduler/Services is its inner block, which
--                       starts or kills services
--   Scheduler/Status    statusUpdate
--   Scheduler/Probe     frameworkMessage, countRunningServices
--   Scheduler/Runs      the order of the calls: `Step` and `Reachable`; Scheduler/Tracking and
--                       Scheduler/Keeping follow properties of the state through every handler
--   Scheduler/Proxy     SchedulerStateProxy, registered, reregistered
--   Scheduler/Page      renderService and the status page; Scheduler/Http is handleHTTP
--   HttpServer          HttpServer::HandleRequest of scheduler/http_server.cpp
--   Executor            executor/executor.cpp
--   Requests            the HTTP server with handleHTTP as its dispatcher, as
--                       scheduler/quobyte-mesos.cpp binds it
--   Probing             the prober's report, from the executor to the scheduler
--   HttpServer/Daemon   HttpServer::Start and Stop; Scheduler/Callbacks the callbacks that only log
--   System              the callbacks of scheduler/scheduler.hpp and handleHTTP as events on the state
--                       that they share, and sequences of events; Scheduler/Progress is about single
--                       events that System/Watching, Serving and Shutdown put in a row
--   Main                main of scheduler/quobyte-mesos.cpp and executor/quobyte-mesos-executor.cpp
-- A child of one of these modules is about what its own first lines say; Tests holds runs at
-- concrete inputs.
--
-- How they interact: the Mesos driver hands offers to `resource_offers`, status updates to
-- `status_update` and the prober's messages to `framework_message`; each takes the scheduler's
-- state and gives the next one, with the calls of the driver in the order in which they are made.
-- The version to deploy is the state of the proxy, which only a request over HTTP changes.
-- `System.handle` puts these calls side by side, and `main` gives the state that the first of them
-- finds.
--
-- Conventions. A `LOG(FATAL)`, or an exception that nothing catches, ends the process: such a
-- function gives an `Option`, and `none` is the abort. A pointer into the scheduler's state is the
-- name of what it points to, with a read and a write. A node that `resourceOffers` holds by
-- reference is written back when the handler is done with it. A map is a list of its keys and
-- values in the order of the keys. A `uint16_t` keeps its wrap-around (`% 65536`).
--
-- Fuel. The one function on fuel is the printing of a number in decimal, whose fuel is the number
-- itself: it has at most that many digits behind the first. All other loops run over a list or
-- over the characters of a text.
--
-- Parameters, which stand for code outside of this repository: the Mesos resources
-- (`ResourceOps`), the replicated state (`StateOps`), the text format and the debug texts of
-- protocol buffers (`TextFormat`, `DebugText`), their binary encoding, the files of a host
-- (`FileOps`), the executor's archive (`Archive`), the name of the host and its environment
-- (`Environment`).
--
-- Not modelled: log output; how gflags reads the command line, how the host's name is found, and
-- what the Mesos drivers do with the messages that they are given; the callbacks of the executor
-- that only log or do nothing; the code that the build leaves out (BRIDGE_NETWORKING, `#if 0`).
-- The clock is read once for each offer, update or message. The elapsed time is compared without a
-- subtraction. Sizes, ports and intervals among the flags are taken as not negative. The HTTP
-- daemon and the driver run in threads of their own, and the program does not lock the state that
-- they share: the handlers are modelled as if each ran alone.
pub mod Base
pub mod Proto
pub mod Mesos
pub mod Flags
pub mod Scheduler
pub mod HttpServer
pub mod Executor
pub mod Requests
pub mod Probing
pub mod System
pub mod Main
pub mod Tests
