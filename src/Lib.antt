-- ===== src/Lib.antt =====
-- A model of kvdb, an embedded key-value and document store for Node.js with a cache, a task queue,
-- locks, rate limits and further services built on its tables, and theorems about it.
--
-- How the program is put together. A driver (src/drivers) stores rows under physical keys. A table
-- (src/core/table.ts) maps the keys of a user to physical keys (src/core/key.ts) and offers get, set,
-- update, delete and increment; a buffer (src/core/batcher.ts) collects writes for a while, folds
-- those of one key and hands them over as one batch. The lock manager, the rate limiter and the other
-- services are clients of tables and keep no state of their own but handles. The queue keeps jobs in
-- a table with columns, where workers claim them under a lease, and pushes the next run of a schedule
-- when a run is done; the cron parser says when that is. An idempotent call claims a record of a table
-- and leaves its result there. A table with a schema keeps columns (src/core/table-schema.ts) and is
-- searched by documents, which become a tree (src/query) that is evaluated on values or compiled to
-- SQL. A cache (src/cache) asks its stores in turn and fills those before the one that answers. On
-- redis the atomic update is a loop of compare-and-set scripts.
--
-- Which file models what:
--   Prelude            Boolean tests, lists, texts as lists of UTF-16 code units, association lists
--                      as tables with a primary key, decimal numerals.
--   Core.Failure       src/core/errors.ts and results of functions that throw.
--   Core.Expiry        src/core/expiry.ts and ttlFromExpiry of src/core/table.ts.
--   Core.Key           src/core/key.ts.
--   Core.AutoIndex     src/core/auto-index.ts.
--   Core.TableSchema   src/core/table-schema.ts: the forms of a schema, validateMultiKeySchema,
--                      normalizeTableSchema; Input has validateKeyValues, Evolve has
--                      evolveSchemaAddKey and evolveSchemaAddIndex.
--   Drivers.Sqlite     the key-value table of src/drivers/sqlite/sqlite-driver.ts: get, set, delete,
--                      update (a transaction that an exception rolls back), has, setMany, deleteMany,
--                      getByPrefix, deleteByPrefix and purgeExpired.
--   Drivers.Redis      get, set, delete, has, setMany and update of src/drivers/redis/redis-driver.ts
--                      over the commands of a server, which are a parameter.
--   Query.Value        JSON values and isEqual of src/query/evaluator.ts.
--   Query.Ast          src/query/ast.ts, evaluateQuery with the parts it calls, and the fields that a
--                      query mentions.
--   Query.Parser       src/query/parser.ts: parseWhere, parseSchemaWhere, sorts and find options.
--   Query.Compiler     src/query/compiler.ts over a dialect, which is a parameter.
--   Table              src/core/table.ts over the sqlite driver: get, set, delete, exists, clear,
--                      update and increment, for a table without write buffer, schema, cache, hooks
--                      and soft delete. The services open their tables so.
--   Table.SoftDelete   get, delete, restore, hardDelete, isDeleted and exists of src/core/table.ts with
--                      the option softDelete, for JSON values.
--   Table.Buffered     get and exists of src/core/table.ts with a write buffer: they look into the
--                      buffer before they ask the driver. Rows have no lifetimes.
--   Batcher            src/core/batcher.ts: the buffered calls and how they are folded; Flush has
--                      enqueue, enqueueDelete, flush, executeFlush, clear and the lookups, Payload
--                      what executeFlushBatch of src/core/table.ts asks of the driver for a payload
--                      (entries with their expiry, under the user's keys), Reach the states that
--                      calls reach.
--   Lock               src/lock/lock.ts: acquireLock with its waiting loop, extend, release, withLock.
--   Limiter            src/limiter/rate-limiter.ts: consume, check and reset.
--   Queue              src/queue/queue.ts with src/queue/types.ts and src/schedule/types.ts. Job has
--                      the rows; Push has push and pushMany, Pop has pop, Schedule has schedule,
--                      unschedule, listScheduled and triggerNextSchedule, Settle has ack, nack and
--                      heartbeat, Admin has getJob, getStats, retryFailed and clean. Here
--                      getNextCronTime is a parameter.
--   Queue.Worker       src/queue/worker.ts: the calls of a worker, the turns of dispatchLoop with what
--                      `pop` answers, spawnJob, and the waits of close, as steps on the state of the
--                      worker.
--   Cron               src/schedule/cron-parser.ts: parseCronExpression; Search has getNextCronTime
--                      over the calendar of Date, which is a parameter.
--   Cache              src/cache/cache.ts over stores that are a parameter, and the memory store of
--                      src/cache/stores/memory-store.ts over the package that keeps its entries: get,
--                      set, delete, clear and wrap for a key that no other call computes.
--   PubSub             src/pubsub/pubsub.ts: subscribe, unsubscribe, publish, close and pollEvents over
--                      what the find of its table answers.
--   Idempotency        src/idempotency/idempotent.ts: the claim, the waiting and the settling.
--
-- Conventions. Times are milliseconds and natural numbers; the readings of the clock inside one call
-- are one reading, the argument `now`. A random UUID is a number, and theorems that need it assume
-- that it is fresh. JSON text is not modelled: a row holds the value that the text encodes, or, where
-- a function works on JSON, a data type of JSON values, whose numbers are whole. Numbers that the
-- source computes in floating point are exact here. SQL statements are operations on lists of rows.
-- The waiting loop of a lock runs over a given list of rounds, each with the clock and the rows that
-- it meets; rounds that last until the timeout are as many as the code can make. The loop of `clean`
-- runs on fuel: every round but the last deletes a row, so one more than there are jobs will do.
-- A flush of the buffer is two steps, up to the call of the flush handler and after it; a caller's
-- promise is a number, and a flush brings the answers of its callers. The loop of flush runs over the
-- results of the handler: the one of a flight under way, and the one of the flight with the rest.
-- The two halves of ack and nack, the read and the write, are definitions of their own: the calls of
-- other workers can be put between them. A query of the job table gives rows in table order.
-- The update on redis runs over a given list of meetings, each with the server as an attempt finds it,
-- and makes 50 attempts at most, as the source does. An idempotent call runs over a given list of
-- rounds in the same way. The search for the next run of a schedule goes over whole minutes and stops
-- where the source stops, after 5 * 366 days of minutes. A range with a step counts from its first
-- number on fuel: it makes no more turns than its last number and one.
--
-- Not modelled: sortDocuments (it compares texts by the locale), schemasEqual, SQL text and the
-- engines behind it, connection pools, timers (a timer that fires is a call of the function that it
-- runs), module loading, and the adapters and decorators that only forward calls; also the database
-- object (src/core/kvdb.ts), the serializer, blobs, metrics and plugins, the drivers for mysql,
-- postgres and mongodb, and the cache stores over redis and sqlite.
pub mod Prelude
pub mod Core
pub mod Drivers
pub mod Table
pub mod Lock
pub mod Limiter
pub mod Queue
pub mod Batcher
pub mod Query
pub mod Idempotency
pub mod Cron
pub mod Cache
pub mod PubSub
