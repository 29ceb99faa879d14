-- ===== src/Lib.antt =====
-- MeDB: an embedded document store that keeps its collections in memory, logs every change to
-- `wal.log`, and from time to time writes each changed collection to a JSON file.
--
-- The program's parts and where they are modelled:
--   Name      collection names and file paths: `validName` and `collPath` (medb.go), the file filter of
--             `load` (snapshot.go), `validCollectionName` and `reservedCollection` (cmd/medb/protocol.go)
--   Store     the collections in memory, `record` and `apply` (wal.go); Store/Cells is the abstract
--             view of a reader, Store/History what a sequence of records makes of it
--   Codec     encoding/json as a parameter with the laws that the program relies on; Codec/Sample is an
--             instance of it for the examples
--   Wal       the bytes of the log: the batch of `writeLog` and the loop of `replayLog` (wal.go)
--   Disk      the directory and the calls on it: `MkdirAll`, `WriteFileAtomic`, `SyncDir`
--             (internal/fsutil/fsutil.go); Disk/Calls is the monad of calls that may fail
--   Snapshot  the parts of `writeSnapshot`, `removeColl` and `load` (snapshot.go)
--   Db        `DB` with `enqueue`, `writeLog`, `replayLog`, `writeSnapshot`, `write`, `read`, `Open` and
--             the cases of `run` (medb.go, wal.go, snapshot.go); Db/Run has whole runs and `Close`,
--             Db/Opening the options, the lock (internal/lock/lock_unix.go) and the start of `Open`
--   Collection  the typed collections (collection.go), `Collections` and `Drop` (medb.go)
--   Server    the server of cmd/medb. Roles, Auth, Fresh and Records: the checks of ids, labels, tokens and
--             stored users, `authenticate`, and what rand.Read gives (auth.go). Init and Recover:
--             `initializeAuth` and `recoverAuth` (auth.go). Fields, Unicode, Body and Response: the
--             bodies of requests and what is written back (protocol.go, server.go). Dispatch, Failures
--             and Serve: `ServeHTTP`, the flags that stop the server, and `serve` (server.go). Handlers,
--             Reserved, Scan and Accounts: the endpoints (handlers.go). Requests: `ServeHTTP` together
--             with them. Config: the command line (config.go, main.go). Go's packages on UTF-8, time,
--             base64, hashing and JSON are the record `Host`, with `HostLaws` and `RecordLaws` for what
--             their documentation says; Server/Sample is an instance of both
--
-- How they interact. A client's `write` applies its record in memory and enqueues it under the lock.
-- The worker writes the queue to the log as one batch and settles the commit on which the clients
-- wait; when the log is long, or at a tick, it writes the dirty collections to their files and then
-- cuts the log. `Open` loads the files, replays the log over them and cuts a torn tail. The server
-- keeps its users and tokens in reserved collections of the same database: a request's token is looked
-- up there before its route is, and the endpoints write there through the same typed collections. A
-- write that fails makes the server unavailable, and `serve` then closes the database.
--
-- Failures. Every system call takes its outcome from the schedule `faults` of the disk, so that a
-- theorem over all schedules covers each failure at each call; a write that fails may leave any
-- prefix. Since the worker does nothing more after a failure, the schedules also cover each point at
-- which the process may be killed. What a power loss does to data that was not yet synced is not
-- modelled: a call that succeeded has its effect.
--
-- The invariant (Db/Invariant): the memory is the acknowledged state with the records in flight
-- applied, and the disk recovers the acknowledged value of every cell that no record in flight
-- touches. A failed batch may leave some of its records in the log, and a stop between the snapshot
-- files and the cut of the log may leave some of them in the files, so that nothing is said of cells
-- that unacknowledged records touch.
--
-- Records. What is proved of the log and of the disk is about records that come back from the log
-- (`IsWire` of Codec): their collection has a valid name, their id is valid UTF-8, and a document that
-- is set is compact. The names are checked by the program and the documents come from json.Marshal; the
-- ids are checked by the server (`documentTarget`) and not by `Set`, `Delete` and `Update` themselves,
-- which accept an id that is another one after a restart.
--
-- Bounds. Native numbers stand for Go's int and int64: the lengths and sizes of the program are
-- those of data in memory. The loop of `replayLog` runs on fuel, one more than the bytes of the
-- log, each turn taking at least the byte of a newline (Wal/Tail). The loops that draw a fresh id or
-- token run over the list of what rand.Read gives them, and say so when it is used up.
--
-- A run takes the work of one case of the worker's `select` as one step; Db/Run/Overlap treats the
-- writes, updates and reads, and the start of a `Close`, that come while a snapshot is at its file
-- calls. A handler's reads and its write are taken on one state of the database, up to the wait for
-- the commit; what follows the wait is a function of its own. At the start of the server nothing else
-- uses the database, and `worker` stands for what the database's worker does until a commit is
-- settled.
--
-- Not modelled: failures of reads; timers and channels, of which every order of events is considered;
-- the HTTP server, the tokens of the JSON decoder and the flag package, which are parameters;
-- logging, and the benchmarks.
pub mod Base
pub mod Name
pub mod Result
pub mod Store
pub mod Codec
pub mod Wal
pub mod Disk
pub mod Snapshot
pub mod Db
pub mod Collection
pub mod Server
pub mod PartTests
