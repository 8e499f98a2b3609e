-- ===== src/Lib.antt =====
-- crabmq-core: a message broker over QUIC, with device tokens, topic filters, an offline queue in
-- Postgres and a management API. The development models the broker: who is let in and what they may
-- reach, how a published packet comes to its subscribers, and what is stored for those who are away;
-- and its clients: the management API with its bridge to the broker, the command line client and the
-- simulated devices.
--
-- The parts and their files
--   Qtt/Packet, Qtt/Builders   the packets of pkg/qtt/types/packet.go and the answers that
--     internal/protocol/packets/builders.go makes of them
--   Qtt/Topic                  `TopicOwner` and `MatchTopic` of pkg/qtt/utils/helpers.go
--   Auth/Jwt, Auth/Acl         internal/auth/jwt/service.go and internal/auth/acl/service.go
--   Broker/Session, Broker/Subscription, Broker/Limiter   internal/broker/session/store.go,
--     internal/broker/subscription/registry.go and internal/broker/server/limiter.go. The first two
--     share the loop that merges subscriptions, Broker/Merge
--   Broker/State               `Server` of internal/broker/server/server.go, with the counters of
--     internal/metrics/metrics.go, and the surroundings of the process
--   Broker/Router              `Route` of internal/broker/router/router.go
--   Broker/Server, Broker/Server/Connection   the handlers of internal/broker/server/server.go and
--     `handleConnection`, which calls them; Connection/Steps is the broker with all its connections, one
--     whole handler at a time; Server/Interleaved has their calls on the sessions, the
--     registry and the gauge one at a time
--   Db                         the statements of api/db/store.go, as functions on the rows of the
--     three tables; Db/Driver is `Open` and the reading of rows, on what database/sql answers
--   Queue/Persistent, Queue/Memory   internal/queue/persistent/store.go and
--     internal/queue/memory/store.go
--   Broker/Server/Initial      `New` of internal/broker/server/server.go
--   Wire                       the JSON form of a packet, by the tags of pkg/qtt/types/packet.go and the
--     coders of internal/protocol/encoder/json.go and internal/protocol/decoder/json.go: Wire/Value has the
--     JSON values, with the texts of their members, Wire/Encode and Wire/Decode the two directions; Wire/Sent is the wire with the broker
--   Transport                  internal/transport/quic/server.go: the certificates, the loop that accepts
--     connections, and the deadlines of `packetConn`
--   Metrics, HttpServer        internal/metrics/metrics.go: the collectors, over the counters of
--     Broker/State, and the endpoint; and the servers of net/http that it and the API start
--   Config                     internal/config/config.go, over an environment
--   Qtt/Client                 pkg/qtt/client/client.go; its stream is the record `Link`, and Qtt/Client/Acks
--     tells which PUBACKs a reader of packets owes
--   Api/Devices, Api/Handlers, Api/Routes, Api/Serve, Api/Numbers, Api/Bytes   api/services/devices.go, and the
--     handlers and routes of api/handlers/http.go, with `parseLimit` and the test of an empty body; in
--     Api/Handlers/Arrives the API, the bridge and the broker are put together
--   Api/Hub, Api/Bridge        api/services/hub.go and api/services/bridge.go; Api/Bridge/Stuck is the
--     bridge together with the broker
--   Cmd/Cli, Cmd/Simulator, Cmd/Daemon   the programs of cmd/; Cmd/Simulator/Start has the settings and
--     the devices of the simulator
--   Base, Errors               shared helpers, and the errors that the program makes
--   Tests                      the definitions at concrete inputs
--
-- How they interact: `handleConnection` authenticates by Auth/Jwt, stores a session, sends what
-- Queue/Persistent holds, and then handles packets: a SUBSCRIBE, if Auth/Acl admits every filter, is
-- stored in the registry and in the session; a PUBLISH, if Auth/Acl admits its topic, is saved and
-- routed to the matches of the registry, over the connections of the sessions or into the queue.
-- The API's bridge is a client of the broker by Qtt/Client: it hands telemetry to the websockets of
-- Api/Hub, and sends the commands that Api/Handlers takes.
--
-- The state is passed on explicitly. What the process asks of its surroundings, that is the
-- clock, packet ids, the database driver, the sends on connections and the order in which Go
-- visits a map, is a record `Env` of answers to the n-th call; `calls` counts the calls. A Go
-- error is a value of `Error`; `nil` is `none`. A text is a native String: the program's texts
-- come from JSON or from the environment, and are taken to be valid UTF-8. A Go int is an
-- integer without a bound: the only sums are of counters and times, far below 2^63. Times are
-- natural numbers of nanoseconds, 0 is Go's zero time. A map under a mutex is an association
-- list, and each operation that holds the mutex is one step. In Connection/Steps a handler is
-- one step, with its error answer: it tells the sequences of whole handlers. In the program
-- handlers of different connections overlap between their calls: Server/Interleaved has
-- their calls on the sessions, the registry and the gauge as single steps, in any order. A
-- client is a record `Outside` of such answers and a stream, whose reads are a list; a loop that
-- connects again and again, such as `Start` of the bridge, is run over the list of the answers
-- of its rounds. All loops are structural recursion on the list that they visit; the digits of a
-- number are taken out in as many rounds as the number says, which is never too few.
--
-- Not modelled: quic-go, crypto/x509, net/http, database/sql and gorilla/websocket, whose answers are
-- given to the functions that call them, with the constants that they are configured by; the texts of
-- JSON values, of times and of folded names, which are the record `TextLayer` of the wire (elsewhere
-- packets are values, and `json.Valid` and the decoding of a token's answer are parameters);
-- golang-jwt, which is a parameter, `JwtLib`, with what it documents in Auth/Jwt/RoundTrip, dates of whole seconds among it;
-- `time.ParseDuration`, a parameter since it rounds by floating-point numbers; package flag, and the
-- random payloads of the simulator; logging; the text that Prometheus is shown; which case of several that are
-- ready a `select` takes. A payload is a list of bytes. A decoded payload is the text of its member as it
-- is written, and encoding compacts it. A row of the offline queue holds the bytes that were stored, and
-- reading it gives what the parameter `jsonb` makes of them, since a column of type JSONB has another
-- layout and order of keys; the text of a column that is only shown by the API is not told apart from
-- the stored one. A payload that is no JSON makes a statement fail, which is one of its faults.
pub mod Base
pub mod Config
pub mod Errors
pub mod Qtt
pub mod Auth
pub mod Broker
pub mod Db
pub mod Queue
pub mod Api
pub mod Transport
pub mod Wire
pub mod HttpServer
pub mod Metrics
pub mod Cmd
pub mod Tests
