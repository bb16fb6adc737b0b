-- ===== src/Lib.antt =====
-- The elastic GPU telemetry pipeline: streamers read telemetry records and publish them as messages, a
-- message queue hands each message to one of its consumers, collectors store the records, and an API
-- reads them back.
--
-- Common.antt and its children hold what the parts share: Boolean tests, lists over the native numbers,
-- byte strings, maps as association lists with one entry for a key, and the contract of `sort.Slice`
-- (Common/Sorting.antt) with insertion sort as an implementation of it (Common/Insertion.antt).
--
-- Domain.antt (pkg/domain): records, messages, queries and metric types. A time is the number of
-- nanoseconds since the zero time; a string is the list of its bytes.
--
-- Memory.antt (pkg/storage/memory): the in-memory store. `Store` has the fields of the Go struct, and
-- each method is one function, since each runs under the store's lock. The order in which `range`
-- visits a map is an argument. Memory/Invariant.antt has the consistency of the index,
-- Memory/Eviction.antt the saves, Memory/Queries.antt and Memory/Listing.antt the reads.
--
-- Queue.antt (pkg/mq/inmemory.go): the in-memory message queue. `Queue` has the fields of the Go
-- struct; the channels are lists with a flag that says they are closed, and subscribers are objects at
-- addresses. The sections that run without interruption are functions on the queue (Queue.antt for
-- callers, Queue/Steps.antt for the internal goroutines), a schedule is a list of them, and the
-- goroutines (Queue/Goroutines.antt) run an arbitrary schedule before each delivery, wherever its steps
-- hold no lock, and before each receive from the closed channel. The clock, the choice a `select` makes
-- between ready cases, and the order of a map's range are arguments.
-- `deliver_loop` makes at most 100 attempts, as the source does; `drain` is given as many rounds as
-- the closed channel holds messages. Queue/Ledger.antt runs the same sections with the history of the
-- messages: a goroutine handles only messages that it has taken, and the logs say which messages were
-- published, handed on by the redelivery loop, sent to a channel and received from it. Queue/Flushing.antt
-- is about the backlog of a queue with a single subscriber.
--
-- Storage.antt (pkg/storage/interface.go, pkg/mq/queue.go): the interfaces `Repository` and
-- `MessageQueue` as records over the state behind them, filled by the in-memory store and queue.
--
-- Collector.antt (internal/collector/collector.go): the collector over any repository and queue. A nil
-- pointer is `none`, and a panic is an error value. Collector/Loop.antt has the batching loop, which
-- runs over the events that its select takes, and Collector/Lifecycle.antt `Start` and `Stop`.
--
-- Parser.antt (pkg/telemetry/parser.go): the CSV parser, given the results of the reads of
-- `csv.Reader`. An index out of range is an error value of its own.
--
-- Api.antt (pkg/api): the handlers of the API gateway over any repository. `time.Parse` and the texts
-- of errors are parameters; Api/Validation.antt has the check of a GPU's UUID, and Api/Middleware.antt
-- the chain of the middlewares.
--
-- Config.antt (pkg/config): the configurations as functions of the environment, with `strconv.Atoi`
-- over 64-bit integers.
--
-- Http.antt: what the HTTP clients use of net/http: a request, and a network that answers it or fails,
-- over the state of everything behind it.
--
-- HttpQueue.antt (pkg/mq/httpclient.go): the HTTP client of the queue, with the attempts of a request
-- bounded by `max_attempts` as in the source, and in HttpQueue/Stream.antt the parser of the event
-- stream. Server.antt (pkg/mq/server.go): the handlers of the queue service over the in-memory queue.
-- HttpQueue/Subscribing.antt is the loop of `Subscribe`, given what its connections meet.
-- Server/RoundTrip.antt and Server/Connections.antt join the two ends of a stream,
-- Server/Publishing.antt those of a publish.
--
-- Streamer.antt (internal/streamer/streamer.go): the streamer over any queue, clock and context, and in
-- Streamer/Starting.antt its `Start`, with the select and the call of `Stop`, whose goroutine runs
-- between the steps of the loop. The loop over the attempts and the one over the passes have no limit in
-- the source; here they are given a number of attempts and of passes: Streamer/Backpressure.antt says
-- which number of attempts is enough while the queue is relieved, Streamer/Timing.antt and
-- Streamer/Stopping.antt which numbers are enough once there is going to be a cause to stop.
-- Streamer/OverMemory.antt is the streamer over the in-memory queue,
-- Streamer/OverHttp.antt the one over the HTTP client and the queue service; Streamer/Command.antt is the
-- process of cmd/streamer/main.go.
--
-- StorageService.antt (cmd/storage-service/main.go) and StorageClient.antt (pkg/storage/httpclient.go):
-- the handlers of the storage service over any repository, and its HTTP client over any network, joined
-- in StorageClient/Remote.antt. The JSON encoding, the router and the format of times are parameters.
--
-- Postgres.antt (pkg/storage/postgres/store.go): the PostgreSQL store over any database, with statements
-- given by their tables, columns and conditions (Postgres/Statements.antt). Factory.antt
-- (pkg/storage/factory.go and the commands): the choice of a repository.
--
-- Commands.antt (cmd): the processes of the services, given what the operating system, the listener and
-- the signals do: Commands/QueueService.antt, Commands/Services.antt (the API gateway and the storage
-- service) and Commands/CollectorService.antt. Server/Running.antt has the start and the stop of the
-- queue's server.
--
-- Pipeline.antt, Pipeline/Batches.antt and Pipeline/EndToEnd.antt: the way of the records from the
-- streamer through the batches of the collector's loop to a query of the in-memory store. Pipeline/ReadPath.antt: the way of a query from the gateway
-- over the HTTP client and the storage service to the store. Pipeline/WritePath.antt: the way of the
-- messages from a collector over the same parts to the repository; Collector/Agreeing.antt compares the
-- collector over two repositories.
--
-- Routes.antt (pkg/api/routes.go, pkg/mq/server.go, cmd/api-gateway/main.go and
-- cmd/storage-service/main.go): the route tables of the servers, and the URLs of the clients.
--
-- Not modelled: logging, timers and their durations, listeners and the delivery of signals, and generated
-- documentation.
pub mod Api
pub mod Collector
pub mod Commands
pub mod Common
pub mod Config
pub mod Domain
pub mod Http
pub mod HttpQueue
pub mod Memory
pub mod Parser
pub mod Queue
pub mod Server
pub mod Storage
pub mod Streamer
pub mod StorageService
pub mod StorageClient
pub mod Factory
pub mod Postgres
pub mod Pipeline
pub mod Routes
