-- ===== src/Lib.antt =====
-- TidyDAV: a server that fetches calendar feeds, merges and tidies them by rules, and that keeps
-- CalDAV and CardDAV collections in step. This library models the parts of it that keep state.
--
-- The parts and how they interact. The scheduler runs two jobs. One is the notifier, which has the
-- feed service match the rules of each feed and announces what is new, keeping a ledger in the
-- database; the feed service fetches its sources through the proxy, which keeps the last good copy
-- of each. The other is the runner of sync jobs, which builds two collections and calls the sync
-- engine with the job's state. The handlers of HTTP requests call the same parts and ask the auth
-- service whose request it is.
--
-- Which file models which code:
--   Prelude      what all share: tests on numbers, Go's `==` and maps, strings as bytes, integers,
--                results, and time with its saturating `Sub` and its 64-bit products.
--   Store        internal/store: Store/FeedCache.antt (feedcache.go), Store/Notified.antt
--                (notified.go), Store/Users.antt (users.go), Store/Sessions.antt (sessions.go and
--                passwordreset.go), Store/Feeds.antt (feeds.go), Store/SyncJobs.antt (syncjobs.go),
--                Store/Audit.antt (audit.go, and `Record` of internal/audit/audit.go). A table is a
--                list of rows or a map by its primary key; a statement has an argument that says
--                whether the database refuses it.
--   Dav          internal/dav, the sync engine: Dav/Types.antt (dav.go), Dav/Extract.antt and
--                Dav/Window.antt (the date window of extract.go), Dav/Href.antt and Dav/Mirror.antt (mirror.go, `destHref`),
--                Dav/OneWay.antt with its children (`syncOneWay` in sync.go), Dav/Bidi.antt with its
--                children (sync_bidi.go), Dav/Sync.antt (`Sync`).
--   DavSync      internal/davsync/runner.go: `Run`, `RunOne`, `runLocked`, `finish`, `buildSync`,
--                `due`, `acquire` and `release`.
--   Proxy        internal/proxy/proxy.go: `FetchAuth`, `fetchUpstream`, `cacheKey`.
--   Ics          internal/ics: Ics.antt (the fields of an event, ics.go), Ics/Fold.antt (`foldLine`),
--                Ics/Serialize.antt (`Serialize` and the encoder of a calendar without events),
--                Ics/Duration.antt (duration.go), Ics/Recurrence.antt (recurrence.go),
--                Ics/Vtimezone.antt (vtimezone.go).
--   Feed         internal/feed/service.go: Feed.antt (`merge`, `syntheticUID`, `ensureDTStamp`) and
--                Feed/Render.antt (`Render`, `Preview`, `Matches`, `CheckSource`, `newCalendar`,
--                `attachTimezones`, `eventWindow`).
--   Pipeline     internal/pipeline: Pipeline.antt (`MatchString`, the filter and dedup rules, and
--                `FilterEvents` of internal/ics/ics.go), Pipeline/Rules.antt (the other rules of
--                rules.go), Pipeline/Config.antt (the constructors of the rules),
--                Pipeline/Chain.antt (`BuildRule`, `BuildPipeline`, `Apply`, `Matches`).
--   Notify       internal/notify/notify.go: the targets and `Dispatch`.
--   Notifier     internal/notifier/notifier.go: `Run`, `runFeed`, `runMatches`, `runStale`.
--   Auth         internal/auth: session.go, password.go, secretid.go, reset.go, auth.go, and in
--                Auth/Oidc.antt oidc.go.
--   Server       internal/server: Server.antt (what the handlers share), Server/Feeds.antt with
--                Server/Feeds/Handlers.antt and Server/Feeds/Preview.antt (feeds.go),
--                Server/Notifications.antt (notifications.go), Server/SyncJobs.antt with its children
--                (syncjobs.go), Server/Serve.antt (`handleICS` of handlers.go).
--   Config       internal/config/config.go: `Load` and `validate`.
--   Scheduler    internal/scheduler/scheduler.go: `Add`, and the loop of a job as a step
--                relation, in which a run ends and has its effect on the state at its end.
-- A function of the code is a function here, named alike in lower case with `_`: `syncOneWay` is
-- `sync_one_way`. A part of a function, such as a loop's body or what follows an error test, is a
-- function of its own by clauses. State is passed on explicitly; the order in which Go ranges over a
-- map is an argument of the sync engine.
--
-- Loops run over lists, by structural recursion, but for three. `foldLine` has the length of the
-- line as fuel: a cut takes a byte at least. The bisection of a transition has 12 rounds, as an
-- hour is less than 2 to the power of 12 seconds, and the scan of a window has a round for each of
-- its hours, so that none of them runs out of fuel. Numbers are those of the code: lengths and
-- counts are natural numbers, a duration is an integer of 64 bits, and a time is its nanoseconds
-- from Go's zero time on, which a column of the database rounds down to seconds.
--
-- Not modelled are the clients of HTTP, CalDAV, CardDAV and SMTP, JSON, bcrypt, SHA-256, random
-- numbers and URL parsing, which are parameters of the definitions that call them; the log;
-- contexts and their timeouts; the texts of errors and messages, which are values of types. The
-- handlers of sessions and of password resets, the redirects of OpenID Connect, the middleware,
-- the previews of the sync engine, the parsers of iCalendar and vCard bodies, the check of
-- outbound addresses, the migrations of the database, the mails and the web interface are not
-- modelled either. The in-memory collection and the plain environments in the modules Memory,
-- Sample and Tests only serve to run the definitions.
pub mod Prelude
pub mod Dav
pub mod Store
pub mod Proxy
pub mod Notify
pub mod Notifier
pub mod DavSync
pub mod Auth
pub mod Feed
pub mod Pipeline
pub mod Ics
pub mod Server
pub mod Config
pub mod Scheduler
