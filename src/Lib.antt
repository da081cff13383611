-- ===== src/Lib.antt =====
-- The verification library of typeorm-procedure-kit: a kit that calls stored procedures of
-- PostgreSQL and Oracle through a TypeORM data source.
--
-- A call runs in src/core/execute-base.ts: it takes an entity manager from
-- src/core/connection-base.ts, hands the statement to an adapter, checks the response for an error
-- envelope, and gives the manager back. The adapter may surround the call with setup commands
-- (src/utils/database-options-executor.ts), checks names that go into SQL
-- (src/utils/sql-identifier.ts, src/adapters/postgres/postgre-portal-name.ts), counts rows and
-- bytes while it reads results (src/adapters/abstract/procedure-resource-tracker.ts) and passes
-- native values to the serializers (src/adapters/abstract/database-serializer.ts). Of PostgreSQL,
-- src/adapters/postgres/postgre-bindings.ts builds the CALL statement with its bindings from a
-- payload, and src/adapters/postgres/postgre-result-materializer.ts reads what the call returned:
-- scalars, composites and the rows behind cursor portals. Which arguments a procedure has comes
-- from metadata rows: src/core/procedure-list-base.ts queries and decodes the rows of a package,
-- whenever a caller, a timer or a notification (src/core/notify-base.ts) asks, and
-- src/adapters/abstract/procedure-metadata-normalizer.ts groups them by procedure; the result is
-- the snapshot of the package, from which the bindings are built.
--
-- Parts and files, with paths from the repository's root:
--   Common             lists, sorting, options, results, maps, texts (UTF-16 code units), integers
--   Value              JavaScript values and the heap of objects
--   Regex              regular expressions as the code's patterns use them, with a matcher
--   Tracker            src/adapters/abstract/procedure-resource-tracker.ts: addRow, addValue, measuring
--   Queue              src/utils/queue-manager.ts: enqueue, dequeue, clear; the event bus is a trace
--   Identifier         src/utils/sql-identifier.ts: validation and quoting
--   Portal             src/adapters/postgres/postgre-portal-name.ts: portal names
--   DateFormatter      src/utils/date-formatter.ts: parseInput and its checks; Luxon is a record of its calls
--   Serializer         src/adapters/abstract/database-serializer.ts: registry, native values, strategies
--   PostgresSerializer src/adapters/postgres/postgre-serializer.ts: the parsers of the driver
--   ResultRows         the same file: transformRows
--   ErrorHandler       src/utils/server-error.ts and src/utils/database-error-handler.ts
--   Connection         src/core/connection-base.ts: getEntityManager
--   Execute            src/core/execute-base.ts: execute and executeProcedure
--   Retry              src/utils/async-utils.ts: retry
--   Options            src/utils/database-options-executor.ts: setup commands and the Oracle session
--   Metadata           src/core/procedure-list-base.ts: the decoding of metadata rows
--   NameParser         src/utils/procedure-name-parser.ts and src/utils/database-naming-cache.ts: names, with the
--                      package lru-cache as a record of its calls and their laws
--   Normalizer         src/adapters/abstract/procedure-metadata-normalizer.ts: normalize, with the
--                      options of both adapters
--   Fetching           src/core/procedure-list-base.ts: the registry of snapshots, fetches and retry
--                      timers: fetchProcedureListWithArguments, runPackageFetch, scheduleRetry, destroy
--   Snapshot           src/core/procedure-list-base.ts: fetchPackageSnapshot, checkExistingProcedures
--   Notifier           src/core/notify-base.ts: packageNotifyCallback and the refreshes it starts
--   PortalFetch        src/adapters/postgres/postgre-result-materializer.ts: fetchAndClosePortal
--   Materializer       src/adapters/postgres/postgre-result-materializer.ts: scalar outputs and
--                      cursor portals: materialize, closePendingPortals
--   Outputs            the same file: composite outputs: loadCompositeOutputs and what it calls, and
--                      materialize behind it
--   Composite          src/adapters/postgres/postgre-composite.ts: supported types, quoted names
--   Payload            src/adapters/postgres/postgre-bindings.ts: readPayloadValue and composite inputs
--   Bindings           the same file: build
--
-- Conventions. A function that throws returns a Result; a class is a record that its methods pass
-- on; an awaited call is a step of the same function, and what a driver, the pool or a callback
-- answers is an argument. A trace lists the events of a run in order. Where calls overlap, in
-- Fetching, one step is what runs between two awaits, in whatever order the steps come; a timer fires
-- only when no promise waits to go on, since microtasks run before timers. Messages of errors and of the
-- log are left out.
--
-- Fuel. The walk over an object graph (measureValue) runs on fuel of two more than the number of
-- properties in the heap: every round takes one object off the stack, and each object and property
-- is pushed at most once (see Tracker.Termination). The loop that fetches from a portal runs on fuel
-- of one more than maxProcedureRows: each round but the last gives a row, and the tracker refuses the
-- row beyond its limit (see PortalFetch.Contents). All other loops are structural.
--
-- Limits of the models. Case mapping is that of ASCII. A number that is no integer below 10 ^ 21
-- carries its String(). `Number` of a text, in Metadata, is an argument. A thrown value is never
-- undefined, and an operation throws nothing that a nested call has marked for invalidation of the
-- connection. Cache entries that a measurement adds before it throws are dropped. `JSON.parse`,
-- `JSON.stringify` and `randomUUID` are arguments. The query for the composite outputs is no event
-- of a materializer's trace.
--
-- Not modelled: the TypeORM fork in src/typeorm (a copy of another project), the drivers, the
-- notification classes of the adapters, the Oracle adapter but its metadata options, the adapters' own
-- statements, the life cycle of the kit, the NestJS module, logging.
pub mod Common
pub mod Value
pub mod Tracker
pub mod Queue
pub mod Regex
pub mod Identifier
pub mod Portal
pub mod DateFormatter
pub mod Serializer
pub mod PostgresSerializer
pub mod ErrorHandler
pub mod Connection
pub mod Execute
pub mod Retry
pub mod Options
pub mod Metadata
pub mod NameParser
pub mod Normalizer
pub mod Fetching
pub mod Snapshot
pub mod PortalFetch
pub mod Materializer
pub mod Composite
pub mod Payload
pub mod Bindings
pub mod Outputs
pub mod Notifier
pub mod ResultRows
