-- ===== src/Lib.antt =====
-- skit-x, a Go service over the SDK skit: CRUD verticals (widget, user, product) with REST and gRPC
-- in front, Postgres behind, and durable events beside.
--
-- The parts and how they interact. A handler calls a Core (core/widget/widget.go). The Core checks
-- the settings, writes through a Store, publishes on the in-process bus, and maps the errors of the
-- store to those of the API. The Store (core/widget/widgetdb) makes SQL over dbx.Querier and maps
-- database errors to the sentinels of the domain. Create writes the row and schedules its event in
-- one transaction. The middleware of internal/app/idempotency runs a POST, and a broker message,
-- once per key.
--
-- Files.
--   Common          numbers, lists, options, results, and the tests on them
--   Keyset          the newest-first order of the listings, the cut of a page, a client's walk,
--                   also over a listing that grows (Moving)
--   Dbx             errors, parameters, statements and the querier of dbx; Dbx/Table.antt says what
--                   is assumed of Postgres behind it, Dbx/Find.antt reads rows by id and
--                   Dbx/Changes.antt says what a statement did to them
--   Listing         WHERE text, cursor codec and QueryByCursor, which the three stores share
--   Errs            the errors of the API
--   Context         internal/app/reqctx
--   Deps            internal/app/deps: the container and its initializers, what the options of the
--                   server resolve of it (Uses), and its start (Started)
--   Widget          core/widget: Widget/Settings.antt (settings.go), Widget/World.antt and
--                   Widget/Core.antt (widget.go), Widget/Spec.antt (what Core relies on),
--                   Widget/Db.antt (core/widget/widgetdb), Widget/Stack.antt (Core over that store)
--   User            core/user: User/Core.antt (user.go), User/Db.antt (core/user/userdb),
--                   User/Stack.antt (Core over that store), User/Filter.antt and User/Listings.antt
--                   (its listings)
--   Product         core/product, in the same files (Core, Db, Stack, Filter, Listings)
--   Import          core/widgetimport: Schedule and Handle, what is handed to the queue
--                   (Scheduled), what it holds then (Log), the workers (Workers) a task from
--                   Schedule to Handle (Delivered) and one that is delivered again (Replay)
--   Grpc            internal/app/handlers/widgetgrpc: the service over the widget Core, its failing
--                   calls (Failures) and a read after a create (RoundTrip)
--   Api             api: what the handlers do alike (Inputs), those of users (Users), products
--                   (Products) and widgets (Widgets; Widgets/Service.antt for the settings,
--                   imports, translations and the count), clients that follow the cursor listings
--                   (UserPages, WidgetPages, ProductPages), and sequences of requests to the widget
--                   service (Widgets/Requests.antt, Accounts.antt and Traces.antt there)
--   Idempotency     internal/app/idempotency: Escape and Keys (join, httpKey), Keeper (dedup), Http
--                   (HTTP, record), Broker (Handler); Http/Traffic.antt and Broker/Traffic.antt for
--                   the calls in between
--   Events          core/widgetaudit (Audit) and what it has recorded (Recorded), the recorder
--                   behind the idempotency of the consumer (Consumer), core/widgetwebhook (Webhook)
--   Server          internal/app/config (Config), internal/app/server: routes.go and the Routes
--                   methods of the features (Routes, Features, Install, Compact), server.go and
--                   options.go (App); internal/cmd (Commands); what is guarded (Guards), what the
--                   options make (Parts, Adds, Switches), and where they make nothing (Duplicates,
--                   Panics), serve against the other commands (Split)
--   Tests           a table, a keeper, formats and tokens in memory, and the theorems applied to
--                   them
--
-- State and operations. A call of Core takes the world (the database, the counter of created
-- widgets, what was published, the settings in force) and returns its result with the next world. A
-- write of a store returns the database that it leaves, beside an error too. The callback of a
-- transaction is a function on the database. An id is the number of its uuid, a time the
-- nanoseconds from the zero time.Time to its instant; both come from outside (uuid.New and time.Now
-- are the fields of Ctx). The columns are TIMESTAMPTZ: a time that is written is kept to the
-- microsecond (micros in Dbx/Table.antt), so a call that returns what it has just made has finer
-- times than a later read. A panic is a value beside the errors of the server's options (Failure in
-- Server/App.antt). The texts that the program only stores are native strings; those whose bytes it
-- reads (cursor keys, idempotency keys) are lists of bytes. Price is an int64 of the API and an
-- integer here.
--
-- Parameters. dbx and Postgres (Querier, with Serves for what a table does), the token codec of the
-- package page (Tokens), RFC 3339 and uuid text (Formats), dedup.Keeper (Keeper), the scheduler of
-- a transaction (Tasks) and JSON are code outside this repository: they are arguments, with what is
-- relied on as named hypotheses, and Tests has an instance of each. Import and the handlers have
-- parameters of their own: the task queue and the JSON of a batch (Queue, Codec), the parsing of
-- ids, pages, orders and numbers (Edge), the saves of settings and translations. The server takes
-- what the SDK and the container answer in this process as a record (Sdk), the container the
-- answers of the calls that fill it (Outside); the recorder has a querier of its own table and the
-- webhook an HTTP client.
--
-- Bounds and fuel. A walk over pages takes one unit of fuel for a page; one more than the number of
-- matching rows is enough, since each page but the last has at least one row; this holds for the
-- rows of the first request while others are inserted too. The rows of a walk are created before
-- the year 10000, since RFC 3339 has no later ones. Redeliveries are a list of what happens before
-- each of them. The resolution of a provider has as fuel the builders that may be open at once,
-- five. The limit of an import is written out where the code checks it; that of a page comes from
-- the package page.
--
-- Not modelled: JSON and the validation tags of the requests (a handler takes the decoded body or
-- the error of rest.Decode), the flags with their defaults, the constructors of library objects in
-- internal/app/deps and their own errors, the other settings of the servers, the commands migrate
-- and version (I/O and library calls), the generated protobuf code, logging, tracing, the renaming
-- of texts by the translation middleware, and the retry of a transaction after a deadlock.
pub mod Common
pub mod Keyset
pub mod Dbx
pub mod Listing
pub mod Errs
pub mod Context
pub mod Deps
pub mod Widget
pub mod User
pub mod Product
pub mod Import
pub mod Grpc
pub mod Api
pub mod Idempotency
pub mod Events
pub mod Server
pub mod Tests
