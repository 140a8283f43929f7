-- ===== src/Lib.antt =====
-- A model of the api_free_demo server, a REST backend in Go for user accounts and profiles, and
-- what holds of it. HTTP requests reach two services. The user service (internal/domain/user)
-- registers accounts, logs them in and hands out pairs of signed tokens from the JWT manager
-- (internal/infrastructure/auth/jwt_manager.go). The profile service (internal/domain/profile)
-- keeps the profiles of each user. Both store their rows through the repositories of
-- internal/infrastructure/db in two SQL tables (migrations/postgres/001_init.up.sql). The router
-- (internal/app/router.go) leads a request through the middleware (request ids, CORS, the caller
-- of a token, rate limits, the log) and the guards of its route to a handler, which calls one
-- method of a service.
--
-- The files:
--   Base        shared names: numbers, lists, texts as lists of code points, Go's `int` with its
--               64-bit increment (Base.Int), calls with state and errors (Base.Outcome), their
--               contracts (Base.Triple, Base.Still)
--   Strings     the functions of Go's `strings` that the program calls; letters are lowered in
--               ASCII only; Atoi (strconv), Decimal (numerals), Trim (laws)
--   Time        times in nanoseconds from the first of January of year 0, and the date layout;
--               Calendar (the day of a time), Rfc3339 (the layout of cursors and log lines), with
--               Civil and RoundTrip
--   Validation  the rules that the `validate` tags name
--   Profile     internal/domain/profile: Model (model.go), Interface (repository.go), Payloads
--               (what service.go makes of a payload), Service (one function for each method)
--   User        internal/domain/user: Model, Interface (repository.go and `TokenManager`),
--               Service (service.go)
--   Db          internal/infrastructure/db: Tables (rows, faults, the driver), Assignments
--               and Profiles (profile_repository.go), Users (user_repository.go), Query (LIKE, ORDER BY and
--               the two `List` methods), Repositories (the interface filled); Rules, RowRules, Columns,
--               Actions and Steps prove what any statement may do to the rows of a user, Search
--               and Order what a query finds
--   ProfileApi  the profile service on its repository: sequences of calls of many users
--               (Owners, Effects, Isolation), and the contracts of the operations (Contracts, Reads,
--               Creates, Updates, Overwrites, Deletes, Patches, Batches, Listing)
--   Auth        the JWT manager: Store (memory or Redis), Checks, Rotation (refreshing), Kinds
--               (what a token is taken for)
--   UserApi     the user service on its repository and the JWT manager: Keeps, Statements and
--               Calls (what every call keeps), Accounts, Insertions,
--               Register, Taken, Logins, Sessions
--   Diagnostics internal/app/diagnostics/logbuffer.go, and Recent
--   RateLimit   internal/infrastructure/ratelimit/limiter.go: the memory limiter, with Float, Buckets, Burst, and
--               the one over Redis (Remote), with Remote.Fresh
--   Http        internal/app/middleware, pkg/response/response.go and the handlers of the two
--               domains: Reply and Answer (what is written), Query (limit, offset, version),
--               Guards (auth.go, ratelimit.go), Middleware (request_id.go, cors.go, logging.go),
--               ProfileHandler, UserHandler; Access, Limits, Effects and Cursor
--   Config      internal/config/config.go: Model, Read (the readers of variables), Load; Valid,
--               Lists and Secrets
--   Site        internal/app/router.go, over everything above as cmd/api/main.go wires it: Routes,
--               Model (a request, the parts of the server and its state), Dispatch (the handlers),
--               Serve (a request on its way, and sequences of requests); Passing (the guards), Effects, Isolation,
--               Anonymous, Seen
--   Connections internal/infrastructure/db/db.go and internal/infrastructure/redis/client.go, with
--               Laws and Handles
--   Startup     `main` of cmd/api/main.go as the list of its steps, internal/app/server.go and
--               internal/infrastructure/monitoring/sentry.go
--
-- A call is a function from a state to an outcome: a value or an error, with the state that it
-- leaves. The clock, fresh identifiers and salts are arguments. The rows of a table are a list,
-- a statement is a function on it, and a list of faults says which coming statements fail for a
-- reason of their own. A Go map that is ranged over is an association list, for any order.
-- Parameters: the HTML policy, the e-mail and URL checks of the validator, bcrypt, the JWT
-- library, the Redis client, sqlx, the messages and conversions of the database driver and what a
-- column keeps of a time, the arithmetic of floating-point numbers, their parsing and that of UUIDs, and what gin finds in a request: its route, its
-- parameters and the body that it has bound. No loop needs fuel: each runs over a list, the
-- characters of a text or the twelve months. Numerals are written with up to twenty digits, which
-- every number of 64 bits fits.
--
-- Not modelled: gin's matching of paths and its recovery from panics, the bytes of answers, the
-- headers of the rate limits, latencies, zap, Sentry and Prometheus behind their calls, the OAuth
-- stub, which nothing calls, and the script that fills a demo database.
pub mod Base
pub mod Strings
pub mod Time
pub mod Validation
pub mod Profile
pub mod User
pub mod Db
pub mod ProfileApi
pub mod Auth
pub mod UserApi
pub mod Diagnostics
pub mod RateLimit
pub mod Http
pub mod Config
pub mod Site
pub mod Connections
pub mod Startup
