-- ===== src/Lib.antt =====
-- A model of regatta-go, the Go client of the key-value store Regatta, and what makes it correct.
--
-- The client builds operations (op.go), hands them to the hooks and to `Do` of the key-value client
-- (kv.go), which turns them into request messages for the gRPC stub. Retry options ride among the
-- call options to the interceptors (interceptor.go), which call the server again where that is safe.
-- Transactions are built step by step (txn.go) and end in one `Do`. The fake server (fake.go) stands in
-- for the store: it records what it is asked and answers from a prepared list.
--
-- The files, each with the code it models:
--   Proto           the messages of internal/proto/regatta.pb.go and internal/proto/mvcc.pb.go
--   Range           the keys that a request selects, as the comments of these messages say
--   Op              op.go: `Op`, its accessors, `toRangeRequest`, `toTxnRequest`, `isWrite`, `OpTxn`
--   Options         op.go: the options, `OpGet`, `OpIterate`, `OpDelete`, `OpPut`, `getPrefix`
--   Cmp             op.go: `Compare`, `Value` and the methods of `Cmp`, over a heap of messages
--   Env, Context    what gRPC and the context package give, `toErr` of client.go, context.go
--   Retry           kv.go, interceptor.go, options.go: the retry options of a call
--   Credentials     credentials/credentials.go: bundles, their tokens and transport credentials
--   Responses       kv.go: the responses and their translation from messages
--   Kv, Table       kv.go: `Do`, `retryKVClient`, `hookedKV`, the operations, the table client; in
--                   Methods the interface `KV` with its implementations
--   Txn             txn.go: the builder and `Commit`
--   Recorded, Fake  fake.go: the conversions, the handlers
--   Interceptor     interceptor.go: the unary interceptor, its tests on errors, and in Streams the
--                   retries of streams
--   Hooks           hooks.go, and `processHooks` of config.go
--   Client          client.go: `newClient`, `SetEndpoints`, `Sync`, `roundRobinQuorumBackoff`;
--                   in Lifecycle `Close`, `autoSync` and the statistics, and in Told the endpoints
--                   of client and resolver together
--   Config          config.go: the configuration and its setters, applied by `New` of client.go
--   Tls             tls.go, and in Secure `newTLSConfig` of config.go
--   Endpoint        internal/endpoint/endpoint.go: what the spelling of an endpoint means
--   Dial            client.go: the options and credentials that a connection is dialled with
--   Resolver        internal/resolver/resolver.go: the endpoints that gRPC is told
--   Cluster, Tables cluster.go, tables.go: the clients of these services, with Proto/Admin
--   Version         client.go: `checkVersion`; in Goroutines its goroutines as a step relation
--   Snappy          internal/snappy/grpc.go: the pools of readers and writers
--   Loggers         log.go, plugin/rlogrus, plugin/rzap: the loggers
--   Metrics         plugin/rprom: the hooks and options of the plugin for metrics
--   Tracing         plugin/rotel: the hook and options of the plugin for traces
-- Below a component stand the modules with its proofs. Prelude holds numbers, lists and tests, Go the
-- panics and the state passing that the models share, and Tests runs at concrete inputs.
--
-- A call that may panic returns in `Go`, one that also changes a state is a `Run`. A method that writes
-- to its receiver returns the new value; where copies share a message, as in `Cmp`, the heap is
-- explicit. gRPC, its status and metadata packages and the context package are the record `Env`, an
-- argument of what uses them: its `World` is all state outside the client. Strings are lists of bytes;
-- int64 fields are integers without overflow, since the client only copies and compares them. The
-- index of the fake server is a number that is taken modulo the number of responses; it would overflow
-- only after 2^63 requests.
--
-- Loops over slices are structural. The loops of the interceptors are recursion on the attempts left,
-- which the code counts too, so no fuel is added. The loop of an iteration has no bound in the code and
-- runs on fuel: one round for each reply up to the end of the stream, and one for the end.
-- The loop over the blocks of a PEM text runs on fuel too: the length of the text and one, since each
-- block takes at least a byte.
--
-- The goroutines of `checkVersion` are a step relation, so nothing there needs fuel. That a connection to
-- the fake server carries each message once is the hypothesis `Connected`.
--
-- `url.Parse`, files, PEM and X.509, the manual resolver of gRPC, its connections, the snappy
-- library, Prometheus and OpenTelemetry are parameters. The functions of strings, path, net, strconv and
-- utf8 that the code calls are modelled in Go.
--
-- Not modelled: the log lines that the code writes, jitter, the listener of the fake client, text output
-- (`String`), and the generated marshalling.
pub mod Prelude
pub mod Go
pub mod Proto
pub mod Range
pub mod Op
pub mod Options
pub mod Cmp
pub mod Env
pub mod Context
pub mod Loggers
pub mod Credentials
pub mod Retry
pub mod Responses
pub mod Kv
pub mod Txn
pub mod Table
pub mod Recorded
pub mod Fake
pub mod Interceptor
pub mod Hooks
pub mod Client
pub mod Tls
pub mod Config
pub mod Dial
pub mod Endpoint
pub mod Resolver
pub mod Cluster
pub mod Version
pub mod Tables
pub mod Metrics
pub mod Tracing
pub mod Snappy
mod Tests
