-- ===== src/Lib.antt =====
-- A model of g-micor, a Go library for services that can be run together or apart: a registration
-- centre with the resolvers of its clients, and helpers around gRPC, HTTP, Redis and PostgreSQL.
--
-- Base: what the modules share. Go's maps are association lists read by `lookup`; a slice is a list,
--   and where code edits the array under a slice that is still in use, the array is modelled too. Ints
--   that count are natural numbers; ints that a caller chooses are signed.
-- Discover.Registry: discover/server.go. `Service` is the struct's four maps. `register`, `discover`,
--   `perform_health_check`, `handle_unhealthy_service` and `remove_subscriber` are its methods; each
--   returns the new maps and the notifications handed to goroutines. In Steps a handler runs as one
--   step, and a notification that fails is a step of its own. In Sections a handler is what it does
--   under the lock and what it does between, and the parts of all handlers run in any order; an edit of
--   an array shows in the lookups that have read it and not copied it yet, and the notification of one
--   name's subscribers is one step. Dialling and pinging are arguments.
--   Discover.Registry.Directory is an abstract view: a directory of running instances.
-- Discover.Resolver: discover/clientV2.go. `Node` is a client with its resolvers; it calls the
--   registry's `discover`.
-- Pgsql: pgsql/. A text is its bytes, and an argument is a value of any type.
-- Pgsql.Sql: joining, `$n`, and a reader that lists the placeholders of a text.
-- Pgsql.Where, Pgsql.Update: the builders of pgsql/where.go and pgsql/update.go. The loop over the
--   bytes of a condition takes at least one byte a round, so its fuel is the condition's length.
-- Pgsql.Types, Pgsql.Scan, Pgsql.Table: pgsql/table.go. The types that the code reflects on are a
--   data type. `get_table` is what GetTable's cache is filled with.
-- Pgsql.Driver: what the operations ask of pgx, as a record, and operations as functions of the
--   database's state and the entities that pointers lead to.
-- Pgsql.Insert, Pgsql.Find, Pgsql.Page, Pgsql.Change: pgsql/table_operation.go. Pgsql.Strict is a
--   driver that refuses every statement whose placeholders are not $1, $2, … with one for each argument.
-- Pgsql.Operations: a program's calls of a table's methods, one after another.
-- Syncx.SingleFlight: syncx/singleflight.go. A state has the map, all calls and what each goroutine in
--   `Do` is at; a step is what one goroutine does under the lock, the end of its function, or that of its
--   call's wait group.
-- Syncx.WorkerPool: syncx/go.go. Tasks that are sent, executed, finished or lost; a step is what one goroutine
--   does.
-- Syncx.ResourceManager: syncx/resourcemanager.go, as what it hands to `Do`.
-- Arrays: util/arrays/.
-- Redisx.Simple, Redisx.Cacher: redisx/operation.go and the three cachers, which are one over a format of
--   values and a Redis client that is an argument.
-- Redisx.Flight: redisx/singleFlight.go. A world has Redis' locks and results, the calls, the nodes with their
--   maps and unread notifications, and what each goroutine in `Do` is at. A step is what one of them does
--   under a node's lock, one command of Redis, the end of a function, or a part of `complete` or of a
--   poller, or the expiry of a lock that is not renewed, because the context of its call has ended. Ids are
--   new when they are drawn. JSON and the types of values are arguments.
-- Redisx.Queue: redisx/mq.go. `listen` is the loop of `Listen` over the answers that Redis gives it.
-- Security.Base64, Security.Token: security/凭证.go. Protobuf and the HMAC are arguments.
-- Errorx: errorx/err.go. An error is an ErrorCode, a pointer to one, a text, or a text around an error.
-- Ginx.Answer: ginx/middleware_basic.go and ginx/handler.go. A context has what was written to it; the
--   rest of gin's chain is a function that ends or panics.
-- Ginx.Params: ginx/params.go.
-- Logx.Entry: logx/ctx.go, and how `Handle` of logx/openObserver.go makes an entry of a record and of the
--   attributes of its context.
-- Logx: logx/openObserver.go. The buffer of log entries and the batches that goroutines took from it; how a
--   request to the log server ends is an argument of the step, and whether a batch has a JSON text one of the model.
-- Gen.Scan: gen.go. `scan_proto_service` is scanProtoService of the lines of a file.
-- Gen.Templates, Gen.Files: the texts of gen.go's templates, and the files that a run reads and writes. Go's
--   formatter and parser are arguments.
-- Mongox.Filter, Mongox.ObjectId, Mongox.Document: mongox/filter.go, mongox/objectId.go, and the fields that mongox/model.go and
--   mongox/collection.go write into documents.
-- Mongox.Collection: mongox/collection.go. Every operation asks `getColl` for its collection, which is the
--   resource manager's (Syncx.ResourceManager), and sends its request to MongoDB's driver, an argument.
-- Random: util/random/uuid.go, of the bytes of a UUID.
--
-- Not modelled: generated code, servers, configuration, timeouts of requests, the connections of the
-- databases, and of the generator protoc and errors of files. Data races are not modelled, nor, in
-- Redisx.Flight, commands of Redis that fail in `Do` or in a poller, as those of a context that has ended do.
pub mod Base
pub mod Discover
pub mod Pgsql
pub mod Syncx
pub mod Arrays
pub mod Redisx
pub mod Ginx
pub mod Errorx
pub mod Logx
pub mod Security
pub mod Gen
pub mod Mongox
pub mod Random
