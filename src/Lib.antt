-- ===== src/Lib.antt =====
-- Superposition Accounts: the Go server that turns GraphQL requests into signed messages of the
-- accounts contract, sends them as transactions, and keeps the secrets that authenticate its users.
--
-- The parts, and how they work together
--   A request passes the middleware of main.go, which reads the Authorization header, asks the
--   database about it and hands a context to the GraphQL server. The resolvers of graph/ read the
--   context and the request. A mutation picks a private key (lib/db), builds a message from the
--   request's texts (lib/convertor, with calldata of lib/ninelives and the structures of lib/types),
--   has an external program sign the message, and gives it to lib/client, which prices, signs and
--   sends a transaction, or simulates it in a dry run. Afterwards the mutation writes to the database.
--
-- Files
--   Prelude          shared names, tests on the native numbers, lists measured by them
--   Outcome, Exec    errors, panics and fatal exits as values, and handlers that talk to the outside
--   Exec/Emits       which events a handler may raise on any path; Exec/Once, Exec/Bounded: how
--                    often; Exec/Inversion: what a handler that returned has done
--   Go               what is used of Go's standard library: copy, encoding/hex, math/big, strings, and
--                    float64 for the gas margin
--   Types            lib/types/types.go                World   the outside: events and answers
--   Model, Model/Asset  graph/model/models_gen.go      Events  kinds of events
--   ClientAddr       lib/types/proxy.go                Ninelives  lib/ninelives/ninelives.go
--   Convertor        lib/convertor/convertor.go        Client  lib/client/client.go
--   Db               lib/db/db.go                      Ratelimit  lib/ratelimit/ratelimit.go
--   Graph/Resolver   graph/resolver.go, graph/utils.go, graph/secret.go
--   Graph/Send, Graph/Account, Graph/Queries           graph/schema.resolvers.go
--   Graph/Inputs                                       graph/generated.go, the inputs of mutations
--   System/Arguments                                   graph/generated.go, the arguments of fields
--   Server/Auth, Server/Settings                       main.go
--   System           the server as a whole: System/Requests has the choice of the resolver of
--                    graph/generated.go and the requests that follow each other; the other files have
--                    what holds of the events of such a history
--   Database         db/db/schema.sql: the tables, the insertions and the counts, as a state that the
--                    events of a history change
--   Concurrent       handlers that run at the same time, as interleavings of their events
--   Tools            tools/make-permit, tools/sign-stdin, tools/leftpad-int, tools/keccak256-hex
--   Cooperation      an outside that answers; Exec/Progress, Exec/Onward: when a handler then returns
--   Tests            the theorems applied to one outside, configuration and user; in Tests/Ledger, an
--                    outside that is connected to a database of the schema with no secret but NULL
--
-- How the code is modelled
--   A function of the source keeps its name in snake case. A Go string is the list of its bytes, an
--   array is a list of its length, a pointer is an option, a *big.Int and an int32 are integers. A
--   function that mutates its argument returns the new value. A handler takes the history of what was
--   asked of the outside so far, the newest first, and returns an outcome (a value, an error, a panic
--   or the end of the process) with the longer history. Logging is left out.
--   The server as a whole starts from an empty history and handles one request after the other: the
--   middleware, then the fields of the operation in their order, each to its resolver, until one ends
--   the process. A process that ended is started again for the next request. A command line program
--   is a function from its arguments and its input to the object that it prints.
--   The database is its tables at the start and a function that says when it can be reached. Connected
--   puts it into the outside, where the answer to a statement is computed from the events before it.
--   Handlers that overlap ask their events in any order; each is answered from all that was asked
--   before. The arguments of a field are read from a map of values that are nil, a map or something
--   else, by the functions of gqlgen, which are fields of the records Coercion and Runtime.
--
-- The outside
--   The Ethereum node, the database, the signer, the webhook, the random source, go-ethereum, borsh
--   and SHA-512 are fields of the record Externals, a parameter of everything that uses them. The
--   answers to events may depend on the whole history. Hypotheses on it are named where they are
--   used: that the database keeps its unique index on nonces (UniqueNonces),
--   that addresses are read back as they were printed (ReadsBack) and printed without blanks at the
--   end (PrintsTrimmed), that the random source gives bytes (GivesBytes), that Sign makes
--   signatures in the form [R || S || V] that recover to their key (MakesSignatures), that the node,
--   the signer and the database answer to what they should (IsCooperative, IsServing), where only
--   the method of the mint, keys that were read and printed addresses with 32 bytes in hex need be
--   taken, and that gqlgen processes an argument as documented (ProcessesArguments).
--
-- Fuel
--   big_bytes and itoa take the number itself as the bound on their rounds, and each round divides it
--   by 256 or 10. The gas margin looks for the weight of a significand's lowest bit in 128 rounds,
--   which is enough for numbers below 2 ^ 181; a gas limit of 64 bits times the 53 bits of the
--   constant stays below 2 ^ 117 (Client/Double).
--
-- Not modelled
--   The rest of graph/generated.go, which gqlgen generates: the marshalling of results, the
--   propagation of null, the introspection. Requests that overlap in time, but for what Concurrent has
--   of RequestSecret. The sockets and the start of the process, but for the settings read from the
--   environment; the JSON encoder of the tools; the SQL that ranks the private keys, with the time of
--   their last use, and the statistics view; the times of rows; and the contracts and programs in
--   other languages.
mod Prelude
pub mod Outcome
pub mod Exec
pub mod Go
pub mod Types
pub mod World
pub mod Events
pub mod Model
pub mod Cooperation
pub mod Tools
pub mod Ninelives
pub mod ClientAddr
pub mod Convertor
pub mod Client
pub mod Db
pub mod Graph
pub mod Database
pub mod Server
pub mod Ratelimit
pub mod System
pub mod Concurrent
pub mod Tests
