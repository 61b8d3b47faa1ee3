-- ===== src/Lib.antt =====
-- Verification of mini_ray, a small task system in Go: a scheduler that queues tasks and sends them
-- to workers, workers that run them and keep the results, a global control store (GCS) that knows
-- which worker keeps which object, and the message codec and connections that they share.
--
-- How the parts work together. Each node listens with gnet. A frame is four bytes of length, then a
-- payload of two bytes of message number, eight bytes of sequence number and a protobuf body. When
-- bytes arrive, OnTraffic decodes frames as long as there is a whole one and hands each packet to the
-- node's OnPacket; an error closes the connection. Between nodes an outgoing connection dials, sends
-- Establish, waits for EstablishAck, shakes hands, and dials again when it is lost. The scheduler's
-- AssignTask takes a task from a channel and sends it to workers; a worker runs it, stores the result
-- under an object id, answers, and reports the id to the GCS.
--
-- Which file is about what:
-- - Base: lists of bytes, Boolean tests, `Result` (a value, an error, a panic, or a call that never
--   returns) and its monad `M` over a state; Base/Maps for sync.Map as an association list.
-- - Messages: the structs of proto/meta.pb.go and proto/ray.pb.go, and type assertions on payloads.
-- - External: what is not in the repository. `Proto` is protobuf's Marshal and Unmarshal, with the
--   documented round trip, and that Unmarshal into a struct gives that struct. `Reader` is the
--   inbound side of gnet.Conn: InboundBuffered, Peek and Next over the buffered bytes. `Writer` is
--   Write of a net.Conn.
-- - Codec: codec/header.go. encode_payload, decode_inner_payload and zero_copy_decode are EncodePayload,
--   DecodeInnerPayload and ZeroCopyDecode; Codec/Endian has the big-endian numbers, Codec/Decode,
--   Codec/Dispatch, Codec/RoundTrip and Codec/Split the proofs.
-- - Frame: MakeFrame and ReadFrameFromGnet of common/rpc_conn.go.
-- - Traffic: OnTraffic, which common/eventHandler.go and the connection manager of each node repeat.
--   Traffic/Bytes, Traffic/Chunks and Traffic/Stream compare it with a loop over plain bytes,
--   Traffic/Runs says as a relation what a call does, Traffic/Ends carries safety from packets to
--   buffers.
-- - Client: the outgoing connection of common/client_conn.go, its sends, ticks, back-off (Client/Backoff)
--   and packets (Client/Packets), its loop as a step relation (Client/Loop), how the loop recovers
--   (Client/Dials, Client/Recover), and what happens beside it (Client/Events).
-- - Peers: the incoming connection of core/*/connection.go, both kinds of connections behind the
--   interface common.Connection, and the tables of a connection manager; Peers/Deliver hands on their
--   packets, Peers/Transports has readFrame and Close.
-- - Scheduler: core/scheduler/scheduler.go and core/scheduler/connection_manger.go.
--   Scheduler/Sound and Scheduler/Safety are about what keeps it sound, Scheduler/Tasks about its tasks,
--   Scheduler/Sent about what it sends and gets, Scheduler/Idle about where its tasks come from,
--   Scheduler/Kept about what a packet leaves alone. Scheduler/Board is the abstract view of its
--   tasks, Scheduler/Board/Refine the proof that it is one, Scheduler/Drain about the rounds of Loop,
--   Scheduler/Answers about the answers of two workers for one task, Scheduler/Buffers about whatever
--   bytes come in.
-- - Gcs: core/gcs/gcs.go and core/gcs/connection_manager.go; Gcs/Safety is about its packets,
--   Gcs/Reach has the steps of a whole GCS.
-- - Scheduler/Links, Gcs/Links, Worker/Links and Driver/Links: connection.go of each node, over its tables
--   and counters.
-- - Worker: core/worker, with its argument codec, object storage, task function and packets;
--   Worker/Channels has the maps of channels and getConnection. Under Worker/Packets, Fetch is
--   getRemoteObject and Remote about it, Sound and Safety are about what keeps a worker sound, Sum about
--   the sum of two numbers, Report about its loop, Sent about what it sends, Channel about what leaves
--   the channel of results as it is. Worker/Reach has the steps of a whole worker, Worker/Threads its
--   event loop and its Loop as two goroutines that share that channel, with a buffer or without;
--   Worker/Threads/Fifo is about its order, Worker/Threads/Stuck about what is left once Loop is gone.
-- - Cluster: two nodes, each of which reads what the other wrote: Cluster/Handshake, a scheduler that
--   dials a worker; Cluster/Trip, a task that it assigns; Cluster/Results, what a worker reports.
-- - Peers/Ticks: handshakes and ticks of incoming connections, and AddConnection. Scheduler/Node, Gcs/Node
--   and Worker/Node put the callbacks of a gnet engine together for each node, Scheduler/Reach the steps
--   of a whole scheduler; Peers/Alive and Peers/Grows have the lemmas on living connections,
--   Peers/Tabled those on the table of connections, Peers/Heartbeat what a tick sends, Peers/Hands those on packets that an outgoing
--   connection hands to its node, with the recovery from a panic there.
-- - Driver: core/driver/driver.go and core/driver/connection_manager.go; Driver/Submit is
--   about SubmitTask, Driver/Node its gnet callbacks, Driver/Create NewDriver, Driver/Dial and
--   Driver/Established the loop of the connections that it dials.
-- - Link: readFrame and readLoop of core/driver/connection.go, over the bytes that a net.Conn delivers;
--   Link/Write is writeFull.
-- - Options: common/options.go. Signals: common/safe_exit.go. Commands: execute of core/*/main/main.go.
--   Start: Start of the scheduler, the GCS and a worker. Utils: common/utils.go.
-- - Tests: runs at concrete inputs.
--
-- How state is modelled. A byte is a number below 256; an integer of w bits is a number with its
-- wrap-around written out, and a signed int is its 64 bits. Connection objects are numbers into a
-- heap, so that tables which name the same connection see the same object. What the operating system
-- does is an argument: the results of a dial and of an asynchronous write, the time, and the order in
-- which Go visits a sync.Map. A panic and a wait without end are values, so that a theorem can exclude
-- them.
--
-- Fuel. traffic_loop, read_rounds and write_rounds are on fuel. Each round but the last takes bytes off
-- the buffer, the stream or what is to be written, so one more than its bytes is enough, as serve, read_loop and
-- write_full give it. format_digits counts down the 19 digits that an int64 has at most. The fuel of
-- new_driver is the depth of calls; there is none that is enough, since NewDriver never returns.
--
-- What is not modelled. Logging; the recovery of a panic in the Loop of an outgoing connection; TLS;
-- the gRPC stubs, which nothing calls; generated reflection code. Packets of an outgoing connection
-- arrive in every phase of its loop, but a dial with the Establish after it, and waitClose, are one
-- step each. The rounding of the float64 in floorToSecond is left out; it is met only by back-offs
-- that have wrapped around. Two handlers of a node do not interleave, but in Worker/Threads: each runs as
-- one step. getRemoteObject, which no handler comes to, is a function of its own.
pub mod Base
pub mod Messages
pub mod External
pub mod Codec
pub mod Frame
pub mod Traffic
pub mod Client
pub mod Peers
pub mod Scheduler
pub mod Gcs
pub mod Worker
pub mod Driver
pub mod Link
pub mod Options
pub mod Cluster
pub mod Commands
pub mod Signals
pub mod Start
pub mod Utils
mod Tests
