-- ===== src/Lib.antt =====
-- A model of scaproust, a scalability-protocols messaging library, and proofs about it.
--
-- The program. A socket of the user is a protocol object (src/proto) inside a core socket
-- (src/core) that a reactor thread (src/reactor) drives: it turns requests of the user and events
-- of the transports into calls of the protocol, and the protocol answers with replies to the
-- user, calls of the network (open, close, send, recv on an endpoint), calls of the scheduler
-- (schedule, cancel) and events (can_send, can_recv). A protocol keeps its pipes in a
-- PipeCollection and chooses among them by a Priolist: a load balancer for sending, a fair queue
-- for receiving.
--
-- The files.
--   Prelude             Boolean tests, lists over native numbers, and code that may panic (Outcome).
--   Core/Message        Message of src/core/mod.rs.
--   Core/Endpoint       Endpoint, Pipe, Acceptor of src/core/endpoint.rs, and the specs of core/mod.rs.
--   Core/Config         Config and ConfigOption of src/core/config.rs.
--   Core/Context        Context, Network and Scheduler of src/core/context.rs and network.rs: World is
--                       the log of all that left the code, latest first, with the timer that answers
--                       `schedule`; the timer may answer anything, an error (none) included.
--   Core/Log            Counting the replies in a log.
--   Core/Bytes          The big-endian integers of the byteorder crate, a parameter with its laws, and
--                       equality of byte strings.
--   Core/Bits           The top bit of a word and of a byte, which marks a request identifier.
--   Proto/Priolist      Priolist of src/proto/priolist.rs; its child modules hold the invariant and a
--                       module for each operation.
--   Proto/Pipes         PipeCollection of src/proto/pipes.rs, a map as an association list.
--   Proto/Ids           The sets of endpoint ids in src/proto, a HashSet as a list.
--   Proto/Policy        fair_queue::recv and load_balancing::send of src/proto/policy.rs; its child
--                       Broadcast has the broadcasts.
--   Proto/Call          The calls of the Protocol trait, as a data type.
--   Proto/Answering     What a valid protocol keeps and what a history of calls is, for every protocol
--                       that answers the requests of its user.
--   Proto/Push, Pull    Push and Pull of src/proto/push.rs and pull.rs. For each: Inner and State are
--   Proto/Req           the types of the same names with a function for each method, the parent file
--                       is the protocol object, with `apply` and `step`, the code of each call of the
--                       trait; Invariant says which states are sound, History follows a socket over
--                       any sequence of calls. Req is src/proto/req.rs; its Frame is encode and
--                       decode.
--   Proto/Rep           Rep of src/proto/rep.rs in the same shape; its Route is the loop that takes the
--                       way of a request off its body, and the hop that a reply takes. For it and for
--                       Sub, Keeping has the lemmas that History rests on.
--   Proto/RequestReply  The frames that a Req and a Rep exchange.
--   Proto/Sub           Sub of src/proto/sub.rs in the same shape; Topics is about its subscriptions,
--                       Subscribing about the options that change them.
--   Proto/Publ          Pub of src/proto/publ.rs, which has no states; Announced is about its events.
--   Core/Probe          Probe of src/core/probe.rs; Context holds what it does to the outside.
--   Core/Socket         Socket of src/core/socket.rs, over any Protocol, a record of its operations, and
--                       any Network, the answers of the transports; its Local holds the types and what
--                       needs no protocol. Push/Unblocked and Pull/Unblocked fill the Protocol with
--                       push and pull; Push/Connected has the examples.
--   Transport/Io        Reads and writes: a call on a state that may give a value, an io::Error, a panic,
--                       or a loop that has run out of fuel. The streams of mio are records of their
--                       operations, with laws: a write takes a prefix of its buffer or fails.
--   Transport/Slices    Lemmas on the slices of buffers.
--   Transport/Tcp       Send and Recv are SendOperation and RecvOperation of src/transport/tcp/send.rs
--                       and recv.rs, Stub is TcpPipeStub of stub.rs, Pipe gives it as an
--                       AsyncPipeStub. Remaining, Sent and Progress follow a send, Received and
--                       Arrival a receive, step by step; Delivery and Reception follow a message over
--                       any sequence of runs; Framing, Ending and RoundTrip are about a message as a
--                       whole.
--   Transport/Async     The pipe of src/transport/async over any stub: Stub holds the interface and
--                       the handshake of stub.rs, Active the open state of active/unix.rs, State the
--                       states and what each does on a call. History follows a pipe over any
--                       sequence of calls, Accounts, Phases and Lifecycle are about what it raises.
--   the Examples        Tests and the witnesses of the theorems at concrete inputs; Proto/Fixtures
--                       holds the data they share.
--
-- How the code is modelled. A method that mutates `self` and calls the context takes the object
-- and a World and returns both. Indexing a vector out of range is `panic`, and Outcome carries it
-- through. `self.state.take()` of a protocol is a state of type Option. The u8 `priority + 1` of
-- compute_next wraps at 256, and the u32 sequence of request identifiers at 2 ^ 32. The search of
-- compute_next among lower priorities runs over the range `priority + 1 .. 17`, so that it ends
-- by the structure of the range; `find` runs over its index range likewise. Identifiers are
-- numbers. The loop of rep that takes a request apart runs on its time to live. The loops of a
-- send and a receive run on fuel: four rounds for a send, of which each ends the loop or moves on
-- to a later one of three steps, and two for a receive, which has two steps. A slice that starts
-- past the end of its buffer panics, and so does an allocation of more than isize::MAX bytes;
-- usize has 64 bits.
--
-- The theorems on Priolist suppose priorities of at most 16, which the search covers, and
-- distinct endpoints, as the socket gives fresh identifiers. A history of a protocol is a
-- sequence of calls each admissible in the state it meets: Admissible says what the caller, the
-- facade and the socket, promises: the user makes one request at a time, a pipe that is added is
-- new, a timer fires only while its request waits, and a closed socket is called no more, so that
-- `close` ends a history and is outside of it. Admissible also leaves out the removal of a pipe
-- that displaces the current endpoint of a list, for req a reply without an identifier that
-- meets a waiting receive, and for rep a request that cannot be traced back: the code answers a
-- receive twice when it meets one of these.
--
-- A request of the user whose timer the reactor refuses is answered with an error that is a
-- parameter, as is every answer of the network and of the timer; they may depend on all that
-- happened before.
--
-- A stream is asked for nothing but its laws; what it has taken (sent) and what is still to be
-- read from it (pending) are part of them. A message that is under way on a pipe may be resumed
-- at any time, and between two runs the pipe may do all else.
--
-- Not modelled: logging, Debug instances and metadata; the channels to the user, beyond the replies
-- that are sent on them; the operating system and mio beyond their streams; the transports ipc, and
-- acceptors; the Windows variants; the reactor; sessions and devices; the protocols pair, bus,
-- surveyor and respondent.
pub mod Prelude
pub mod Core
pub mod Proto
pub mod Transport
