-- ===== src/SparkServer/Session.antt =====
-- SparkServer/PodConnection.go, `HandleConnection` as a whole: the handshake, and then the loop over the
-- reads. The goroutine behind `RequestPipe` is not part of it.
pub mod Served
use eight_sleep_pod2server.Prelude.{ℕ, List, [], ◌∷◌, ◌++◌, Bytes}
use eight_sleep_pod2server.SparkServer.Pod.{PodConnection}
use eight_sleep_pod2server.SparkServer.Handshake.{
  Environment, Outcome, returns_nil, returns_error, perform_handshake,
}
use eight_sleep_pod2server.SparkServer.Connection.{
  Coap, Answers, Effect, Next, goes_on, returns, panics, stuck, handle_read,
}

-- A read, with the answers for each message of it.
abbrev pub Read : Type 0
Read = (ℕ → Answers) × Bytes

-- The loop goes on behind a read, or not.
pub go_on : (PodConnection → List Effect × Next) → List Effect × Next → List Effect × Next
go_on loop (effects, goes_on c) = let (later, end) = loop c in (effects ++ later, end)
go_on loop (effects, returns) = (effects, returns)
go_on loop (effects, panics) = (effects, panics)
go_on loop (effects, stuck) = (effects, stuck)

-- The loop over the reads. At the end of the list the connection still waits for a read.
pub read_loop : Coap → PodConnection → List Read → List Effect × Next
read_loop coap c [] = ([], goes_on c)
read_loop coap c ((answers, bytes) ∷ reads) =
    go_on (λ c'. read_loop coap c' reads) (handle_read coap answers c bytes)

-- What the handshake wrote, and the effects and the end of what follows its outcome.
pub after_handshake : Coap → List Read → List Bytes × Outcome → List Bytes × (List Effect × Next)
after_handshake coap reads (written, returns_nil c) = (written, read_loop coap c reads)
after_handshake coap reads (written, returns_error c) = (written, ([], returns))
after_handshake coap reads (written, Outcome.panics) = (written, ([], panics))

pub handle_connection :
    {K : Type 0}
    → Environment K
    → Coap
    → PodConnection
    → List Read
    → List Bytes × (List Effect × Next)
handle_connection env coap c reads = after_handshake coap reads (perform_handshake env c)
