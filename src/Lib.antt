-- ===== src/Lib.antt =====
-- The verification library of go-spop, an agent for HAProxy's Stream Processing Offload Protocol
-- (SPOP 2.0): the wire formats, the connection, the handshake, the worker of a connection and the
-- agent that serves them.
--
-- How the program's parts work together. An agent accepts connections and gives each of them to a
-- worker. The worker's read loop reads frames off the connection, answers the HAPROXY-HELLO with what
-- `negotiate` makes of it, starts a goroutine for each NOTIFY, and says goodbye with an
-- AGENT-DISCONNECT. The goroutine calls the program's handler, and writes the actions that it leaves
-- as an ACK. Frames are made of key-value lists, messages and actions, these of typed data, and these
-- of varints.
--
-- Which module models what:
--   Base       what the others share: tests on native numbers, lists, slices, Go's integers, strings as
--              lists of bytes, and the outcome of a call: a value, an error value, or a fault, which
--              stands for a Go panic or for fuel that ran out.
--   Varint     varint/varint.go: `PutUvarint`, `Uvarint`. The index loops are recursions on the list
--              of bytes, or on the room that the scratch array still has.
--   TypedData  typeddata/typeddata.go: `Encode`, `Decode` and the Go values they know.
--   Kv         payload/kv/kv.go: the list of items, `Add`, `Get`, `Bytes`, `Unmarshal`, `UnmarshalNB`.
--   Action     action/*.go: actions, `Marshal`, `Unmarshal`.
--   Message    message/*.go: the list of messages, lookup and `Decode`.
--   Frame      frame/frame.go; Frame.Encode is frame/encode.go, Frame.Read is frame/read.go, with the
--              bytes that will arrive and the error behind them as a `Source`.
--   Handshake  worker/handshake.go, and the functions of `strings` and `strconv` that it calls
--              (Handshake.Text).
--   Transport  transport/conn.go, over a net.Conn that answers as it likes to each call. Its operations
--              run at once; Transport.Lives has the steps of `WritePayload` and `Close`, between which
--              other goroutines come in, and Transport.Alone ties the two.
--   Request    request/request.go.
--   Pool       the pools of payload/kv/kv.go, message/message.go, frame/frame.go and
--              request/request.go, with their Acquire, Release and Reset, on objects that have an
--              identity; Pool.Notify follows those of a NOTIFY through `run` and
--              `processNotifyFrame`. The other modules take an acquired object as a new one, which is
--              what Pool.Served is about.
--   Worker     worker/worker.go and worker/frame_*.go: the state `Worker` is the struct `worker`. A
--              function there is a method of the same name, or the part of `run`, `dispatch` or
--              `processNotifyFrame` between two points where another goroutine can come in.
--              Worker.Loop has the turns of the read loop, Worker.Machine the goroutines of a
--              connection as a step relation. Worker.Counted counts the NOTIFYs of a run by any test
--              of a frame, Worker.Written reads the ACKs off the calls on the net.Conn.
--   Agent      agent/agent.go: its options, tables, connection slots and accept backoff;
--              Agent.Serving has the calls of `Serve` and the connections' goroutines as a step
--              relation, and Agent.Shutdown the call of `Shutdown` that begins the drain among them,
--              with the calls behind it, which return at once. A worker is one stage there, from
--              `track` to `forget`.
--   Client     client/client.go: the peer's side, `Init`, `Notify` and `Stop`. Client.Dialogue puts a
--              client and a worker together: each reads what the other has written.
--
-- Bounds and fuel. The integers of the program are native numbers with their wrap-around written out
-- (% 2 ^ 64, % 2 ^ 32). Loops over a buffer take its length as fuel, which is enough because a round
-- takes a byte at least. A buffer is shorter than 2 ^ 63, as an `int` is. Errors are constructors, one
-- for each message or sentinel; the texts of the AGENT-DISCONNECTs are constructors too, and what
-- `fmt` makes of them is a parameter. The read loop of a worker needs no fuel: each of its turns is a
-- step of its own.
--
-- Goroutines. A step of Worker.Machine runs to the end of a region that `sendMu` or the connection's
-- lock protects, or to where the goroutine waits. The handler is a relation between a request and the
-- actions it may leave, the net.Conn any function of the calls made so far, and a drain can begin
-- at any time. `armReadDeadline` is one step whose second check may see a drain that its first did
-- not. A write of one frame and a `Close` are single steps there, though `Close` takes no `writeMu`:
-- that it ends a write which has begun, or comes between the check and the write, shows in what the
-- net.Conn answers, and not in the order of the calls. Transport.Lives has these finer steps.
--
-- Shared objects. The number of a connection or listener stands for its pointer; a connection that
-- `Serve` accepts is new, so its number is none that the table holds. A pooled object stands with its
-- owner, and a request borrows the messages of its frame; which object a `sync.Pool` hands out is a
-- parameter.
--
-- What is not modelled. The logger, which no state depends on, and the texts of errors: but
-- for ErrFrameTooBig an error has no values in it, so the text of an AGENT-DISCONNECT that reports
-- one is the same for all of them. In Pool.Notify no other goroutine comes in between the calls on the pools. That a
-- `sync.Pool` may drop what it holds. That an ACK frame and its request share one array of actions,
-- which nobody writes once the handler has returned. What a worker sees of the agent is that a drain
-- begins, that read deadlines are set, and that `closeAll` closes its connection; what the agent sees of a worker is that it ends. Contexts
-- beyond their being cancelled, real time beyond a clock, and data races within a step.
pub mod Base
pub mod Varint
pub mod TypedData
pub mod Kv
pub mod Action
pub mod Message
pub mod Frame
pub mod Handshake
pub mod Transport
pub mod Request
pub mod Pool
pub mod Worker
pub mod Agent
pub mod Client
