-- ===== src/Lib.antt =====
-- A verification library for the student event ticketing API (Go, Postgres).
--
-- Parts and files. Each repository method is a function of a session; a service calls repository
-- methods one after the other; a handler, behind the middleware of its route, calls a service and
-- answers or refuses; the worker calls the queue's methods.
--   Common, Common/*      Boolean tests, the readings of SQL clauses on lists, and their laws.
--   Errors                the error values of */repository/errors.go and */service/errors.go.
--   Tables, Tables/Rows   the tables of docker/postgres/migrations and the structs of */model.
--   Sql, Sql/Laws         internal/infra/db/postgres.go: `WithTx`, and the methods that call Begin,
--                         a deferred Rollback and Commit themselves.
--   Ticketing/*           ticketing/repository/postgres.go: `RegisterTicket` (Registration),
--                         `CancelTicket` and `UseTicketByQRHash` (Lifecycle), `GetByEventAndUser`
--                         (Queries), `GetUserTickets` with `overlayTicketExpiry` of
--                         ticketing/service/service.go (Wallet), over the statements that they
--                         send (Statements); what the bodies of the first three have read and
--                         written when they end (Effects, Passes); `RegisterTicket` of the
--                         service and the confirmation email of service/email.go (Issue), and
--                         ticketing/handler/routes.go (Handlers).
--   Events/*              events/repository/postgres.go and `Service.Create` of
--                         events/service/service.go: Create, GetByID, UpdateCoverImage,
--                         UpdateModeration, Delete (Repository), Update (Patch), List (Listing);
--                         events/handler/routes.go and dto.go: what a query and a body may hold
--                         (Requests), the handlers and routes (Handlers), and who may change an
--                         event (Ownership); `UploadCoverImage` of events/handler/handler.go over
--                         internal/infra/storage/minio.go (Covers, Covers/Posted with
--                         its route).
--   Seats/*               tickets and events together: a relation of the changes that the methods
--                         may make (Change, Methods), the invariant (Invariant, Tickets, Events),
--                         histories of calls (History, Moves), and the three ticket methods
--                         (Admission, CheckIn, Return, Recall), and what a user
--                         sees (Shown).
--   Payments/*            payments/repository (Repository) and payments/service/service.go
--                         (Service), and how a failed payment releases its seat (Holding,
--                         Release); payments/handler/routes.go (Handlers), and the webhook's
--                         signature (Signed).
--   Auth/*                auth/repository/postgres.go (Users, Tokens), internal/infra/auth/jwt.go and
--                         middleware.go (Roles, Jwt), auth/service/service.go (Service); refresh
--                         tokens over time (Issued, Sessions, Renewal); the
--                         rows of user_roles after a role change (RoleRows, Promotion); `Register`
--                         (Register), `ListUsers` (Directory), auth/handler/routes.go (Handlers).
--   Notifications/*       notifications/repository/postgres.go (Queue) and
--                         notifications/service/worker.go (Worker), and what the worker does to the
--                         queue (Batch, Fate, Retries); notifications/handler/routes.go (Handlers).
--   Config                internal/config/config.go: `LoadFromEnv`.
--   Http/*                internal/infra/http/errors.go: `MapDomainError` and `WriteError`
--                         (Errors); what a handler is (Handlers); `AuthMiddleware`, `RequireRole`
--                         and the request context of internal/infra/auth (Guards); `CORS` of
--                         middleware.go (Cors);
--                         internal/infra/rate_limit/limiter.go (RateLimit).
--   Admin/*               admin/repository/postgres.go (Logs), admin/service/service.go (Service)
--                         and admin/handler/routes.go (Handlers); what a moderation does to the
--                         tables (Moderation) and to what the public sees (Visibility), and who
--                         may call (Access).
--   Analytics/*           analytics/repository/postgres.go (Stats), the cache of
--                         analytics/service/service.go (Keys, Service, Service/Privacy) with
--                         analytics/handler/routes.go (Service), and the timeline's counts
--                         (Timeline).
--   Examples/*            runs of the model.
--
-- State and operations. A table is the list of its rows, the newest first; a Session is the
-- database and a list of faults, one entry for each statement to come: an entry with a text makes
-- that statement fail with it, so a theorem over every session covers each failing statement, Begin
-- and Commit. An error of Commit is taken as the answer that the transaction was rolled back: a
-- connection lost while Commit runs, where the transaction may yet be committed, is outside the
-- model. A method has the name of the Go method in this library's spelling, and takes the arguments
-- of the Go method; then the values that Go draws (uuid.New, time.Now) and, last, NOW() of the
-- server (`db_now`); where a call of Go reads its clock several times, it reads it once here. `calm
-- db` is a session in which no statement fails. The bodies of transactions run without
-- interleaving: they begin with a lock on the event row, the ticket row or the user row (FOR
-- UPDATE, or the UPDATE itself), and write rows behind that lock.
--
-- Choices. A uuid is only compared, so it is a natural number; an instant is a number of units of
-- time, and `hour` the units of one. Amounts and capacities are natural numbers, as the handlers'
-- validators admit only positive ones. A CHECK, a unique index or a foreign key of the migrations
-- is a test of the statement that can break it, with the SQLSTATE that the code looks at. No
-- definition needs fuel: all loops are over lists and texts. The JWT, bcrypt, uuid, QR, HMAC and
-- JSON libraries, the operator ILIKE, the collation and the sender of emails are parameters. Redis
-- and the object store are records of operations with laws: counters for the limiter, a store of
-- texts that may lose entries for the cache, a store of images. A handler is a function of the
-- session that answers or refuses with status, code and message; the body is what the decoder and
-- the validator made of it. Requests run one after the other. Rows that an ORDER BY leaves tied
-- come in the order of the table in the definitions; what is proved of a list of events leaves
-- their order open. The limits and offsets of a query are integers, as Atoi reads them.
--
-- Not modelled: the tags of the validator on single fields; the interleaving of transactions;
-- start-up, the other HTTP middleware, the clients of the object store, Redis and SMTP, and
-- logging, which are calls of libraries; docs/docs.go, which is generated; mobile/, which is not
-- Go.
pub mod Common
pub mod Errors
pub mod Tables
pub mod Sql
pub mod Ticketing
pub mod Events
pub mod Seats
pub mod Payments
pub mod Auth
pub mod Notifications
pub mod Examples
pub mod Http
pub mod Config
pub mod Admin
pub mod Analytics
