-- ===== src/Lib.antt =====
-- A model of Hamstergres, a proxy that makes a fleet of PostgreSQL servers ("Burrows") look like
-- one server, and of the catalogs by which it does so.
--
-- Parts
--   Base        shared helpers: tests, lists, results of fallible code, integers, Go maps, sorting.
--   Topology    internal/topology/catalog.go. `Catalog` holds the data; `Validate`, `Placement`
--               and `Transition` hold the methods, each loop a function over the rest of its slice
--               and the maps that it fills. `WellFormed` and `Transition.Allowed` hold the
--               conditions that they test, without loops; `Transition.History` is the
--               reachability of catalogs by accepted transitions. `Bootstrap` holds the
--               placement that a new catalog takes over (LegacyModuloOwners).
--   Schema      internal/schema/registry.go. `Registry` with its methods; `Search` and `RoundTrip` hold
--               what its lookups find and what a stored snapshot keeps.
--   Router      internal/router/router.go. `Tree` holds what the source reads of a syntax tree,
--               `Statement` the preparation of a statement (Prepare), `Predicate` the values that
--               a WHERE clause or an INSERT gives to the shard key, `Scalar` and `Decimal` their
--               canonical texts, `Target` the Burrow of a key (TargetForTableShardKey) and
--               `Analyze` the plan of an execution (Prepared.Analyze). It reads a `Registry` whose
--               placements come from `Topology.Placement`.
--   Nest        internal/nest. `Etcd` is the interface of the server: a record of the
--               documented laws of one key. `Sequence` (sequence.go) holds `Next` as a loop of
--               rounds over a `Connection`, whose world changes with each request;
--               `Sequence.Unique` is the system of all proxies and the server, as a step relation,
--               and `Sequence.Rounds` places the loop in it. `TopologyStore` (topology.go) holds
--               the store of the catalog in the same way; `TopologyStore.Published` is the system
--               of its writers. `Maintenance` holds the key range that maintenance.go deletes.
--   Proxy       internal/proxy/server.go. `TwoPhase` holds the transactions over several Burrows as
--               functions of a `Fleet`, whose world changes with each command; `Session` is the
--               state of a session (extendedState) with its transaction and savepoints,
--               `Temporary` the temporary relations that it remembers, and `Route` the Burrow that
--               a plan of `Router` is sent to.
--   CopyRouter  internal/copyrouter/copy.go. `Plan` holds the data, `Records` the scanner for
--               record ends (delimitedRecordEnd), `Fields` the parsers of text and CSV records,
--               `Binary` the binary format (consumeBinary) and `Keys` its shard keys
--               (decodeBinaryKey), `State` the state of an input stream and `Stream` its
--               methods. `Output` holds OutputStream, which merges the output of the Burrows. An
--               input stream passes records to the Burrow that the router names; the router is a
--               parameter `route`, and so is `float_text`, strconv.FormatFloat.
--   Statistics  internal/statistics/statistics.go. `Words` is the int64 of the counters, `Counts` the
--               counters of queries, `Windows` the ring of one-second buckets (recordWindow,
--               summarizeBuckets) with the arithmetic of its `Seconds`, `Labels` the cache of
--               statement labels (summaryLabel), `Summaries` the query summaries
--               (recordSummary, evictSummary), and `Collector` puts them together (Record, and
--               the windows of Snapshot). A panic is `none`.
--   Backend     internal/backend/backend.go. `RuntimeParams` holds the settings of a session on a
--               pooled connection (applyRuntimeParams) as functions of a world, the map of the
--               manager and the connection, which changes with each statement; `Postgres` is the
--               interface of the server: a record of what its documentation says of the settings
--               of parameters that do not affect each other.
--   Tests       runs at concrete inputs.
--
-- Conventions. A Go `map[string]V` is an association list, iterated in the order of the list
-- (Go leaves that order open); the empty list is the nil map too, but where a type tells
-- them apart. A string type with named constants is a data type with one
-- more constructor for every other text. Unsigned integers are natural numbers, and `uint64`
-- sums wrap; an `int64` counter of Statistics is its bits. `time.Time` is a number of ticks since
-- the zero time, and in Statistics a Unix second with its nanosecond. A byte slice is a list of
-- numbers. An `error` is a constructor of a data type of errors. A loop that looks at the bytes
-- ahead is a function over the bytes and a mode.
--
-- Fuel. `consume` gets one unit more than there are bytes in the buffer, and each turn of the loop
-- takes a byte at least; `binary_rows` and `output_rows` get the same and take two bytes.
-- `next_loop` counts the 64 attempts of the source, `reconcile_loop` its 3 attempts.
--
-- Not modelled: the parsing of a COPY statement into its plan; the rewriting of an INSERT with a
-- generated key (RewriteGeneratedInsert); the store of the registry; the assembly of the first
-- catalog; the pools of pgx, the messages and prepared statements of a backend session and the
-- inspection of a schema; the handlers of the wire protocol, the classification of DDL and the
-- merge of results; the normalisation of SQL for statistics (a chain of regular expressions) and
-- the order of the lists of a snapshot; configuration; network and process code (cmd,
-- internal/status, internal/observability, tools). The PostgreSQL parser is third-party: the models
-- start from its trees, and what the source finds by a walk through all of a tree (relations,
-- writes, aggregates, parameters) is a field of the parsed text. SHA-256, JSON, base64, HTTP
-- and floating-point numbers are parameters or left to the requests of a connection.
pub mod Base
pub mod Schema
pub mod Topology
pub mod Router
pub mod Nest
pub mod Proxy
pub mod CopyRouter
pub mod Statistics
pub mod Backend
mod Tests
