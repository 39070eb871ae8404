-- ===== src/Lib.antt =====
-- GoQTT, an MQTT 3.1.1 broker in Go: a model of its parts and theorems about them.
--
-- A client's bytes reach the broker through the connection handler (internal/transport/tcp.go),
-- which cuts them into packets and hands each to `packet.Parse`; what the broker answers is
-- written by the packets' `Encode` methods.
--
-- Base, Text, Slice    what the program uses of Go: lists and tests on native numbers, strings as
--                      bytes with UTF-8 as unicode/utf8 decodes it, index and slice expressions
--                      that panic out of range, encoding/binary.
-- Er                   pkg/er/er.go: the error values. A call returns `ok`, `err` with Go's
--                      context and message, or `panic`; `stuck` is the model's own, a loop without
--                      fuel. `Ensures P r` says that `r` is a value with `P` or an error.
--                      Texts has the errors' texts.
-- Encoding             internal/packet/utils/encoding.go. Length has EncodeRemainingLength and
--                      ParseRemainingLength, Topic the rules on topic names and filters, Fields
--                      ParseString and the packet identifiers.
-- Packet               internal/packet: Types (packet.go), Publish, Acks (pub.go), Subscribe and
--                      Unsubscribe with Filter (the filter validators of both), Suback (sub.go),
--                      Unsuback (unsub.go), Connect, Connack, Ping, Disconnect, and Parser
--                      (parser.go).
-- Dict                 Go's maps, as association lists, and maps of maps (Nested).
-- Auth                 internal/auth and pkg/hash: the check of a user name and a password.
-- Broker               internal/broker. Session (session.go) is the map of sessions. Tree
--                      (subscription.go) is the subscription tree: Find reads a tree as a map from
--                      the path of a node and a client to a subscription, and Table is the flat
--                      table of subscriptions that a history of calls describes. Qos (qos.go) is
--                      the QoS manager: History makes it of a sequence of calls, and describes it
--                      by three slots for each client and packet identifier; Resending is about what
--                      a round of retries writes, and Entries about the entries it goes over.
--                      State, Delivery and Handlers are broker.go: the state, how a message is sent,
--                      and the operations that the connection handler calls. Fanout, Releasing,
--                      Retention and Granting are about publishing, QoS 2, retained messages and
--                      subscriptions (Effect: that a granted one is found, Retained: what it is
--                      sent, Withdrawing: its removal), and Evolution about all operations at once:
--                      by which calls they change the tree and the manager.
-- Transport            internal/transport/tcp.go. Frame cuts the bytes of a connection into
--                      packets; Server is the state, the admission and the end of a connection;
--                      Handler does the first packet and Dispatch those behind it; Loop is the loop
--                      of one handler over its bytes, and Network is a server with all the handlers
--                      that run. Rounds and Invariant are about every reachable state, Admission
--                      about connections without a session, Counter and Limit about their number,
--                      and Cleanup about their end. The others follow a packet from the bytes of its
--                      sender to those of its receivers, with Answering for what they share:
--                      Publishing a PUBLISH; Holding, Releasing and ExactlyOnce one of QoS 2 and its
--                      PUBREL; Subscribing and Unsubscribing these packets; Reaching a message that
--                      is published after a SUBSCRIBE, Retaining one before it; Ticking what a tick
--                      of the retry loop sends, and Acknowledging what it sends after a PUBACK.
-- Logger               internal/logger/logger.go. Slog is what it uses of log/slog, Defs has New,
--                      the configurations, the global logger and the methods of a level, Events the
--                      methods for an event; Scopes and Records are about what a logger writes.
-- Main                 main.go: the steps of `main` up to the start of the server, and the lines of
--                      the shutdown. Lines and Startup are about the lines it logs and its end.
--
-- How the parts interact. `handle_event` runs one round of one handler on the server: it reads a
-- frame, `parse` makes a packet of it, and the broker's operation for the packet takes the broker
-- to a new one and says what is sent. `Write` is a connection with the bytes written to it, and
-- every function that sends returns the list of its writes, in order. A history of events is any
-- interleaving of the rounds of the handlers, ticks of the retry loop, new connections and Stop. A
-- new connection takes two events: the check of `checkServerAvailability`, and what follows it, the
-- count or the refusal; between them other handlers run. `serve` has the rounds of one handler in a
-- row, and what the others do between them as a function that is given.
--
-- A byte is a number below 256 and a `uint16` one below 65536; sums that Go makes in `uint16` are
-- taken modulo 2 ^ 16, and the counters of `int32` and `uint32` modulo 2 ^ 32. Go's `int` has 64
-- bits and holds every length here, so it does not wrap. A nil pointer is `none`. Buffers are made
-- by `make([]byte, n)`, so a capacity is the length. The loops of the SUBSCRIBE and UNSUBSCRIBE
-- parsers run on fuel, the length of the buffer: each round takes a byte at least. The loop over
-- the frames of a stream is given one round more than the stream has bytes: each takes a byte.
--
-- Parameters: `uuid.NewString`, the row that the database has for a user name, the comparison of
-- bcrypt, the time, and whether a write on the handler's own connection fails, all in the record
-- `World` that an event carries. A write to the connection of another client is listed whether or
-- not it succeeds, for the source only logs the error. One round has one time. What `main` asks the
-- file system, the YAML library and the database is in the record `Environment`.
--
-- A loop of Go over a map has no fixed order; here it takes the entries as they stand in the list.
-- Methods that hold a lock are one step, and so is a round of a handler, with the deferred
-- function where it returns; the source takes locks for shorter. The check of a new connection and
-- its count are two steps, as they take no lock. Time is a number of nanoseconds that each call is
-- given. A session is a value, since nothing changes one that is stored; a connection of package
-- net is a number, and no two open ones share it. The closure that a subscription holds is the
-- identifier of its client.
--
-- The parser, the broker and the server are modelled without the lines that they log: nothing reads
-- what a logger writes. A LogRecord has the handler that takes it, and the text that log/slog makes
-- of it is left out. A state of the global logger is passed on; its lock makes each call one step.
--
-- Not modelled: the listener and `Start`, the ends of the goroutines, the signals that end `main`,
-- and LogPerformance and Any of the logger, whose values have any type.
pub mod Auth
pub mod Base
pub mod Broker
pub mod Dict
pub mod Encoding
pub mod Er
pub mod Logger
pub mod Main
pub mod Packet
pub mod Slice
pub mod Text
pub mod Transport
