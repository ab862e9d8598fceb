-- ===== src/Lib.antt =====
-- TeamX: terminals report to a server, which an administrator queries and commands.
--
-- The program's parts. The server (internal/server) keeps a registry of sessions in memory
-- (connection.go) and its tables in SQLite (store/). A client registers (`Register`), then opens a
-- stream (`Channel`) on which it sends heartbeats, hardware reports and results of commands. An
-- administrator's RPCs list terminals, kick or block them, and send commands, which go through a
-- queue of each session to its stream. The client (internal/client) reconnects with backoff, runs the
-- commands and sends their results and its hardware reports.
--
-- Which file models which part:
--   Proto/Types, Proto/Messages    internal/proto/teamx.pb.go: the enum of command types and the
--                                  messages
--   Utf8, Clock                    Go's iteration over a string's runes; the times of command.go
--   Store/Sql                      internal/server/store/store.go, schema.go: rows, statements
--                                  that may fail, transactions
--   Store/Engine                   what the queries rely on in SQLite's ORDER BY
--   Store/Json                     the JSON writers and readers of store.go, command.go,
--                                  hardware.go
--   Store/Terminals, Commands, Hardware
--                                  terminal.go, command.go, hardware.go of internal/server/store
--   Server/Connection              internal/server/connection.go
--   Server/Service, Dispatch       internal/server/server.go, command.go: the state of
--                                  `TeamXServer` and its handlers
--   Server/Steps                   the interleavings: every handler, consumer, watcher and tick is
--                                  a step, taken in any order
--   Client/Agent, Cache            internal/client/client.go, report.go, collector/cache.go: the
--                                  state of `Client`, its sends, the cache of reports
--   Client/Executor                internal/client/executor.go
--   Client/Session, Backoff        internal/client/client.go: `connect`, `recvLoop`, `Run`
--   Client/Identity                internal/client/fingerprint.go, fingerprint_linux.go
--   Client/Collector               internal/client/collector/collector.go, hardware_linux.go: one
--                                  child for each file of /proc that is read
--   Admin/Gateway, Format          cmd/admin/gateway.go: one poll and the events it broadcasts (the
--                                  order in which a Go map is ranged over is an argument);
--                                  formatBytes and its neighbours in cmd/admin/output.go
--   EndToEnd                       the client's messages and rounds against the server's handlers
--
-- How code corresponds to definitions. A Go method is a function from its arguments and the state
-- to its result and the new state, named as the method in snake case. A text is a list of bytes. A
-- clock reading, a new UUID and the engine's failures are arguments. A map is a list with one
-- entry for each key, in any order. The SQL engine is not part of the repository: a statement is
-- read as SQLite documents it, `Db.faults` says which statements fail, and `Engine.order_desc`
-- stands for `ORDER BY … DESC`. A SELECT with no ORDER BY is read in the order
-- of insertion, which SQLite leaves open. A Commit that fails leaves the tables as they were. The
-- local time zone is UTC. Texts that are trimmed or split are ASCII. DisconnectTerminal takes the
-- registry's lock twice, and has the state of each time as an argument.
--
-- Bounds and fuel. An int64 conversion wraps as in Go (`to_int64`, `to_uint64`). The reader of
-- JSON maps runs on fuel, one more than the length of its text; that this is enough is proved.
-- Ten digits are enough for an int32. The loops of the client run over the list of what they meet,
-- the events of a session and the rounds of `Run`: when it is used up they are still running. The
-- float64 arithmetic of the backoff is exact here, and its product is below 2^63.
--
-- Not modelled: logging, the gRPC transport, TLS, the web console, the developer tools, the
-- command line's flags and tables, the
-- generated code beyond the message fields, and the opening and the migration of the database.
pub mod Base
pub mod Utf8
pub mod Proto
pub mod Clock
pub mod Store
pub mod Server
pub mod Client
pub mod Admin
pub mod EndToEnd
pub mod Tests
