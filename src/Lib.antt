-- ===== src/Lib.antt =====
-- The servers that stand in for Eight Sleep's cloud for a Pod 2: LogServer takes the log stream of the
-- pod, SparkServer speaks its control protocol. The two share nothing but the process.
--
-- LogServer:
--   LogServer/CircularBuffer.go is `LogServer.CircularBuffer`: the record and its operations, with the
--     loops by recursion on what is left to copy. `Refine` reads the ring as a queue of bytes.
--   LogServer/StreamParser.go is `LogServer.StreamParser`: `round` is one round of the loop of
--     `ExtractCBORByteStrings`. The loop runs on fuel, one round more than the ring holds bytes, which
--     is enough since a round that goes on takes a byte at least. `Wire` describes the stream
--     without the parser, `Decode` and `Stream` connect the two, `Feed` and `Stall` are about whole
--     streams.
--   LogServer/Models.go is `LogServer.Models`.
--   LogServer/Server.go is `LogServer.Server`: `Connection` holds the variables of `handleConnection`, a
--     read is a step on it, and what it does to the socket and the files is a list of effects. The
--     answers of the operating system come with each read. `Streamed` and `Session` follow batches and
--     whole connections, `Files` the open file, `Closing` the
--     end of a connection, `Counter` the number that is logged, `Fileless` the
--     connections that save nothing. `LogServer.Listener` is `StartServer`, over the list of the clients
--     that are accepted.
--
-- SparkServer:
--   SparkServer/PodConnection.go is `SparkServer.Cipher` (`encrypt`, `decrypt`), `SparkServer.Frames`
--     (`SplitMessages`, on fuel, one round more than bytes), and `SparkServer.Connection` (`sendMessage`,
--     the handlers, and the handling of one read; `start_request` is a round of `podRequestHandler` up
--     to its wait). `Dispatch` and `InStep` follow the messages of a read. `SparkServer.Session` is
--     `HandleConnection` as a whole, without the goroutine behind `RequestPipe`. `SparkServer.Requests` is
--     what the goroutines share: a relation of steps of the callers, of `podRequestHandler` and of the
--     loop over the reads, in any order, where what a goroutine does between two waits or sends is one
--     step. A request is its number in the order of `RequestPipe`, and its contents stand in a heap.
--     `HandleConnection` may return at any step. `Answers`, `Lost` and `Progress` follow requests through
--     the steps.
--   SparkServer/Handshake.go is `SparkServer.Signature` (the raw RSA signature) and
--     `SparkServer.Handshake`.
--   SparkServer/EightSleepApi.go is `SparkServer.Api`, with `GetStatus` in `SparkServer.Api.Status`. A caller
--     that sends requests and waits for the responses is an `Exchange`; `run` gives it a pod that answers.
--   SparkServer/FrankenSocket.go and SparkServer/SocketCommands.go are `SparkServer.FrankenSocket`: a read of
--     the socket is one command, which ends in a reply, in none, or in a panic.
--   SparkServer/Server.go is `SparkServer.Server`: the key, and the clients that are accepted one behind the
--     other.
--   SparkServer/PodRequest.go and the data of PodConnection.go are `SparkServer.Pod`.
-- main.go is `Main`: the environment, and which servers are started in which order.
--
-- Numbers are natural numbers, with the wrap-around of `uint8`, `uint16`, `uint32` and `uint64` written
-- out where the code has it; bytes are numbers, below 256 where a theorem needs it. Go's panics are
-- values. The libraries for AES, RSA, X.509, HMAC, CBOR and CoAP are parameters, as are random numbers
-- and the clock; of AES it is assumed that deciphering a block undoes enciphering it. Go's
-- `int` is `Prelude.Int.ℤ`, 64 bits where a theorem says so; `Prelude.Decimal` is strconv.
--
-- Not modelled: the lines of the logger, but for the one that ends a stream; data races inside of what is
-- one step above; time, so the wait between two dials of the control socket; FirmwareTools, which are
-- Python and shell tools run by hand; the files that build and deploy the program.
pub mod Prelude
pub mod LogServer
pub mod SparkServer
pub mod Main
