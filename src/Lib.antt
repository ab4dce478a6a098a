-- ===== src/Lib.antt =====
-- The services of self-host and its ingestion writer: a model of the parts that hold the
-- program's own rules, with the theorems that make them correct.
--
-- The program is a set of Go servers around a PostgreSQL database. REST handlers (api/) call
-- services (internal/services), which check what they are given and run queries (postgres/, code
-- that sqlc generates). A request carries a token; policies, which belong to groups of users, say
-- which actions on which resources it allows. Time series keep points in tsdata, with rollup
-- tables by hour and by day. The ingestion service (internal/insamlare) reads MQTT messages, turns
-- them into points and writes them in batches. The manager of programs (api/juvuln) keeps the
-- program revisions that a cron runs; it sends them as tasks to executors (api/malgomaj), which keep
-- compiled programs in a cache. Every request to the REST API first passes the policy validator
-- (middleware).
--
-- The files and the code they model:
--   Prelude, Text       helpers: the shared names, Go strings as lists of code points with the
--                       functions of package strings that the code calls, maps by text keys
--   Errors              internal/errors
--   Middleware          middleware/policyvalidator.go: Middleware/Scope the templates of scopes,
--                       Middleware/Validator the handler
--   Malgomaj            api/malgomaj: Malgomaj/Cache the cache of programs with its timers and
--                       Malgomaj/Locks its locks (program.go), Malgomaj/Task CreateTask (api.go)
--   Database            a connection of database/sql: BeginTx, statements inside and outside a
--                       transaction, Rollback, Commit. Database/Plain are statements without
--                       transactions, Database/Refines the rules by which a transaction is one
--                       atomic statement, Database/Succeeds what a success tells of its steps
--   Policy/Resource     validatePolicyResource of internal/services/policy_validation.go
--   Policy/Cover        sqlLikeMatch and policyResourceCovers of the same file
--   Policy/Rule         policyShadows, validatePolicyRuleShape and validatePolicyRule; how a token's
--                       access is decided is in Policy/Rule/Decision
--   Policy/Check        internal/services/policy_check.go with the cache of a request
--   Policy/Service      Add, Update and Delete of internal/services/policy.go
--   Users               internal/services/user.go
--   Things, Alerts      internal/services/thing.go and alert.go
--   Timeseries/Points   AddDataToTimeseries of internal/services/timeseries.go
--   Timeseries/Rollups  the split of a query into rollup rows and raw ranges
--   Timeseries/Truncate truncateTime, truncateByMinuteStep and truncateWeek
--   Timeseries/Aggregate
--                       the buckets of an aggregated series and the rows built of them
--   Timeseries/Single   QuerySingleSourceData with loadAggregateSources
--   Timeseries/Query    inValidRange, the limits and the rows of a raw query over several series
--   Timeseries/Multi    QueryMultiSourceData, aggregated and raw, over several series
--   Timeseries/Update   the operations on series themselves
--   Datasets            internal/services/dataset_upload.go: Datasets/World are the tables, files and
--                       objects it works on, Datasets/Checks its tests, Datasets/Uploads the
--                       session, Datasets/Assemble AssembleUpload; Datasets/Steps are the rules by
--                       which its steps are followed, errors included
--   Ingest/Topic        the wildcard matcher of internal/insamlare/route.go
--   Ingest/Config       internal/insamlare/config.go
--   Ingest/Template     expandCaptureTemplate of internal/insamlare/route.go
--   Ingest/Fixed        internal/insamlare/fixed_transform.go
--   Ingest/Route        CompileRoute, Transform and FixedTimeseriesUUID of internal/insamlare/route.go
--   Ingest/Runtime      validateRoutes and transformLoop of internal/insamlare/runtime.go, with
--                       Enqueue of internal/insamlare/writer.go
--   Ingest/Writer       the loop of Run and flush of internal/insamlare/writer.go
--   Juvuln/Cache        UpdateProgramCache of api/juvuln/api.go, program_cache.go and the
--                       schedule of program_revisions.go
--   Workforce           pkg/workforce/workforce.go
--   Examples            the theorems at concrete inputs, and tests
--
-- Parameters. The queries are arguments of the operations: a statement takes the state of the
-- database to a result and the next state or fails and changes nothing. Where a theorem relies on
-- what a query does, the law is a named hypothesis: a record such as InsertLaw or Reliable. The
-- errors of BeginTx and Commit are functions of the state. float64 is a type with its comparison and
-- arithmetic, the civil fields of an instant are those of a calendar, units and their conversion are
-- those of the package go-units. json.Marshal, json.Unmarshal, strconv.ParseFloat, uuid.Parse, sort.Slice of
-- rows, the regular expressions of a configuration and the order in which
-- Go visits a map are functions. A UUID is the number its bits are, a time.Time the number of
-- nanoseconds since Go's zero time, an int32 a signed integer, and the conversion of an int to it wraps around. A limit of points or
-- of a batch is a natural number.
--
-- The uploads of datasets work on tables, files and an object store with a
-- fault for any call; digests are functions.
--
-- Bounds and fuel. The slices of AddDataToTimeseries are computed on fuel, one unit for each point,
-- which suffices since a slice takes 256 points and the loop ends at their number. All other loops
-- are recursion on the list they run over. The rows and points that the code counts are far below
-- 2^63, so that the counts are natural numbers.
--
-- Concurrency. The cache of programs is a relation of steps in any order: an operation that holds the
-- lock of the cache is one step, the beginning of a timer's callback and its deletion are two;
-- Malgomaj/Locks has a step for each lock that a callback and ProgramCacheAdd take. In
-- the services one transaction is open at a time and the statements of other connections between
-- those of a transaction are not modelled. The transform workers are one loop over the messages that they
-- receive, in any order. The writer's loop is a sequence of the events that its
-- select statement receives, in any order.
--
-- Not modelled: the operations that only read rows and format them, the programs and groups services,
-- the REST handlers, generated code, secrets and tokens, the rate control, network plumbing and the
-- command line; Tengo scripts with their modules; the object store of datasets and
-- internal/services/dataset.go; the MQTT client of the ingestion service.
pub mod Alerts
pub mod Database
pub mod Datasets
pub mod Errors
pub mod Examples
pub mod Ingest
pub mod Juvuln
pub mod Malgomaj
pub mod Middleware
pub mod Policy
pub mod Prelude
pub mod Text
pub mod Things
pub mod Timeseries
pub mod Users
pub mod Workforce
