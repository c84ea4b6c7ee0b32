-- ===== src/Lib.antt =====
-- Verification of gopnique, an error tracker written in Go.
--
-- An event arrives in one of Sentry's protocols or as a minidump, is checked by the value types of
-- internal/domain, enriched (source maps, debug files, minidump metadata), grouped into an issue and
-- stored; operators search and triage issues; background workers purge old data, probe monitors and
-- send notifications. This library models the parts that decide something and proves what they
-- promise.
--
--   Base         shared names: tests on numbers, lists, results, Go strings, signed integers
--   Domain       internal/domain: the value types and their checks
--   Minidump     internal/app/minidumps/metadata.go: modules and crash frame of a minidump
--   Sourcemap    internal/app/sourcemaps: version 3 source maps, and the frames that they resolve
--   Debugfiles   internal/app/debugfiles/breakpad.go and apply.go: native frames get their functions
--   Ingest       internal/plans/grouping, internal/plans/ingestplan, internal/app/ingest, and Store.Run
--                of internal/adapters/postgres/store.go: an event is grouped and taken in
--   Issues       internal/app/issues/query.go and internal/adapters/postgres/issues_status.go: status
--                and assignment
--   Notify       internal/app/notifications, internal/plans/notifyplan and notifications.go of
--                internal/adapters/postgres: an opened issue is announced, and the outbox delivered
--   Protocol     internal/adapters/sentryprotocol/envelope.go: envelopes of events, logs and reports
--   Outbound     internal/app/outbound/url.go: which addresses the server may send requests to
--   Uptime       internal/app/uptime/uptime.go, internal/domain/uptime_monitor.go and uptime.go of
--                internal/adapters/postgres: checks of monitors, their incidents and creation
--   Operators    internal/app/operators/permissions.go: what an operator may do
--   Limits       internal/app/ratelimit, internal/app/retention, and rate_limit.go and quota.go of
--                internal/adapters/postgres: rate limits, quotas, the purge of old data
--
-- Ingest and the retention run work on a state that their ports change (Base/Action.antt): a call is a
-- function of the state to a result and the next state. Ports are a record of such calls. Those of the
-- ingest program are txStore (Ingest/TxStore.antt): its statements on the table of events are modelled,
-- and those on other tables are parameters; IsAtomic names what a transaction without an error does, and
-- nothing is assumed of a commit that fails. What is called, and in which order, is read off ports that
-- keep a log.
-- Notify starts where the ingest program calls the port enqueue_issue_opened, and resolves the URL of
-- a destination again with Outbound before it sends. The eight channels are copies of one code but for
-- the provider, the target, the payload and the columns that they clear: the model has that code once
-- (Notify/Batch.antt, Notify/Store.antt, Notify/Marks.antt) and each channel as an instance of it
-- (Notify/Batches.antt). A statement of the outbox commits by itself and may fail; the database carries
-- the list of failures to come. Batches run one after the other: `for update skip locked` keeps claims
-- of several workers apart, and their interleavings are not modelled.
-- Uptime takes a URL that Outbound accepts, and probes it after Outbound has resolved it again; its
-- transactions are functions of the rows of one monitor.
-- Symbolication and source maps use the frames and identifiers of Domain, quotas answer the port
-- check_quota.
--
-- How Go is read. A function that returns `(T, error)` or a `result.Result[T]` returns a `Result`,
-- whose error is the message; `(T, bool)` is an `Option`. A Go string is the sequence that `range`
-- yields: a code point for each valid encoding, and 0x110000 + b for a byte b in no valid encoding
-- (Base/Text.antt); cutting at ASCII characters and joining with them is exact on such sequences. An
-- unsigned number of w bits is a natural number with its wrap-around written out; `int` has 64 bits
-- and is an integer (Base/Int.antt), with wrap-around where the program adds file contents.
-- What lies outside the program is a parameter: Unicode's lower-case table beyond ASCII, `io.ReaderAt`
-- (with its documented laws, a record), `json.Unmarshal` and `json.Marshal`, SHA-256, the database and
-- the artifact vault.
--
-- Fuel: the loop over the numbers of a source map segment gets one more than the characters left, and
-- a theorem says that more changes nothing; `sort.Search` gets one more than the length of the slice,
-- and its halving interval is shorter than that. Hexadecimal and base64 printers recur on the digits
-- left.
--
-- The loop over the items of an envelope recurs on the items that are still allowed, 64 at the start.
--
-- Not modelled: HTTP handlers, templates, most statements of the SQL stores, senders and other input
-- and output; the reading of joined rows into deliveries; the rows that creating or changing a
-- monitor writes, status pages, sign-in, logs, statistics, settings, imports, the payloads of the
-- Sentry protocols and the search text of issues.
pub mod Base
pub mod Domain
pub mod Minidump
pub mod Sourcemap
pub mod Debugfiles
pub mod Protocol
pub mod Ingest
pub mod Notify
pub mod Outbound
pub mod Uptime
pub mod Issues
pub mod Operators
pub mod Limits
