-- ===== src/Lib.antt =====
-- The tierer of MinIO objects: a Redis updater counts the accesses to each object by the hour, and the
-- tierer reads the counts, marks objects that are seldom read for transition to remote storage, and
-- restores transitioned objects that are often read again.
--
-- How the parts interact. The updater's HTTP handler submits batches of increments to a batcher
-- (internal/updater/batcher.go); its goroutine merges them by key and gives them to the counter store
-- (internal/redisstore/store.go), which runs a Lua script in Redis. The tierer's scanner
-- (internal/tierer/scanner.go) lists every object, reads its hourly counts, asks the evaluator
-- (internal/tierer/evaluator.go) what to do, and before it changes an object it looks at it again and
-- reserves an attempt of the daily budget, which is another Lua script (internal/tierer/redis.go). A
-- cursor in Redis remembers how far the scan has come.
--
-- Which module models what:
--   Prelude    shared names, lists over the native numbers, signed integers with the wrap-around of
--              int64, and results: `err` and `ok` for Go's pair of a value and an error.
--   Text, Clock  strings as lists of bytes with Go's order, and what the program uses of strconv and
--              strings (Text/Parse); `time.Time` as exact nanoseconds since the zero time,
--              `time.Duration` as an int64.
--   Decimal    the decimals of the Lua scripts, digit by digit: valid_uint, add_uint, less_or_equal.
--   Redis      the commands that the scripts use, as an interface with its documented laws, and a
--              server in memory that meets them.
--   Counter    internal/redisstore/store.go: Script is counterScript, Store is commandArguments, Load
--              and Apply over a client that is a parameter.
--   Budget     internal/tierer/redis.go: Script is reserveBudgetScript, Reserve is Reserve.
--   Batcher    internal/updater/batcher.go: Pending is pendingBatch with canAdd, add and flush's
--              order; Defs is Batcher with Submit, Start, Stop and the cases of `run` as steps, and
--              `run` on a sequence of events.
--   Evaluator  Evaluate, sumCounts and DecideAction of internal/tierer/evaluator.go.
--   Contracts  internal/contracts/contracts.go: Windows and Defs hold HourWindow, CounterExpiry and the
--              checks, Coverage is ValidateCoverageTemplate, Keys is AccessKey over Base64.
--   Settings   the environment that both programs read.
--   Updater    internal/updater/config.go: Env reads one setting, Config is LoadConfig with
--              worstCaseAcknowledgementTime, group by group. internal/updater/decoder.go: Decoder.
--              internal/updater/http.go: Ingest is the handler of accesses.
--   Tierer     internal/tierer/config.go: Env reads one setting, Config is LoadConfig, group by group,
--              and the configuration that Run of internal/tierer/service.go gives to the scanner.
--              Service is runServiceLoops and Ready of that file.
--   Usage      internal/tierer/redis.go: Script is the two scripts that read counters and coverage,
--              Reads is ReadCounts, ReadCoverage and ReadChunk with decodeCounts and redisArray.
--   CursorStore  internal/tierer/redis.go: SaveCursor, LoadCursor and ResetCursor over a client and
--              encoding/json, which are parameters.
--   Minio      SameIdentity, Objects, stateFromInfo, PlanMarker and the check of ApplyMarker of
--              internal/tierer/minio.go.
--   Scanner    internal/tierer/scanner.go: Objects is handleObject with handleMarker and
--              handleRestore, Chunks is processChunk, scanBucket and ScanOnce, over the record Deps of
--              everything outside. A trace, newest first, holds what was called and observed.
--   Tests      runs on concrete inputs.
--
-- Bounds and fuel. Counts, deltas, sizes and limits are int64, hours and chunk sizes an int of 64 bits;
-- sums and products that may overflow are written with the wrap-around. Hour windows are exact for up
-- to 2562047 hours, the longest time.Duration. Two loops run on fuel: that of add_uint for as many
-- rounds as both numbers have digits, and two more, and that of decodeObject for three rounds, since a
-- third field is refused. The loops of the batcher go through lists.
--
-- Not modelled: metrics, logging, the HTTP servers, JSON, the hash of the scope in
-- internal/tierer/redis.go, the text of errors, timeouts of single operations, the loop Scanner.Run,
-- and two scans at once, which the lock of ScanOnce excludes. time.ParseDuration, net.SplitHostPort,
-- the formats of time.Time and the check of a tag by the MinIO client are parameters.
mod Prelude
pub mod Clock
pub mod Text
pub mod Decimal
pub mod Redis
pub mod Counter
pub mod Budget
pub mod Batcher
pub mod Contracts
pub mod Evaluator
pub mod Minio
pub mod Scanner
pub mod Settings
pub mod Tierer
pub mod Updater
pub mod Usage
pub mod CursorStore
mod Tests
