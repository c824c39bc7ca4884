-- ===== src/SparkServer/Requests.antt =====
-- SparkServer/PodConnection.go and SparkServer/EightSleepApi.go: the requests that the callers, the
-- goroutine `podRequestHandler` and the loop over the reads share, interleaved in any order. A request is
-- a number, in the order in which `RequestPipe` takes them, and its contents stand in the heap. What a
-- goroutine does between two waits or sends is one step.
pub mod Invariant
pub mod Answers
pub mod Lost
pub mod Progress
use eight_sleep_pod2server.Prelude.{
  ℕ, zero, suc, ◌+◌, ◌%◌, ◌<◌, ◌≤◌, ◌≡◌, Bool, true, false, Option, none, some, List, [], ◌∷◌, ◌++◌,
  Bytes, ◌==◌, if◌then◌else◌,
}
use eight_sleep_pod2server.SparkServer.Pod.{Message, PodRequest, new_pod_request, set_response}

-- The capacity of `RequestPipe`.
abbrev pub pipe_size : ℕ
pipe_size = 100

-- Where `podRequestHandler` is: at the `select`, between `currentRequest = req` and `sendMessage`, or at
-- `<-req.Ready`.
pub data Handler : Type 0 where
  idle : Handler
  sending waiting : ℕ → Handler

pub record Shared : Type 0 where
  pub requests : ℕ → PodRequest
  -- `RequestPipe` holds the requests from `taken` on, before `submitted`.
  pub taken : ℕ
  pub submitted : ℕ
  pub handler : Handler
  -- `HandleConnection` has not returned
  pub reading : Bool
  pub current : Option ℕ
  pub message_id : ℕ
  -- the requests that were written to the socket
  pub written : List ℕ
  -- the double close of `Ready`
  pub crashed : Bool

abbrev pub update {ℓ} : {A : Type ℓ} → (ℕ → A) → ℕ → A → ℕ → A
update f i v j = if j == i then v else f j

-- A new connection; numbers from `submitted` on name no request yet.
abbrev pub start : (ℕ → PodRequest) → Shared
start requests = record {
  requests = requests;
  taken = 0;
  submitted = 0;
  handler = idle;
  reading = true;
  current = none;
  message_id = 0;
  written = [];
  crashed = false;
}

-- `NewPodRequest`, and `RequestPipe <- podReq`.
unfoldable pub submit : Shared → Message → Shared
submit s msg = record s {
  requests = update s.requests s.submitted (new_pod_request msg);
  submitted = s.submitted + 1;
}

-- `req := <-c.RequestPipe`, and `c.currentRequest = req`.
unfoldable pub take_request : Shared → Shared
take_request s = record s { taken = s.taken + 1; handler = sending s.taken; current = some s.taken }

-- `sendMessage` of a request: it gets the counter for its id and its token.
unfoldable pub stamp_request : Shared → ℕ → Shared
stamp_request s i =
    let request = s.requests i in
    record s {
      requests = update s.requests i (record request {
        message = record (request.message) { message_id = s.message_id; token = s.message_id ∷ [] };
      });
      message_id = (s.message_id + 1) % 256;
    }

-- Behind `sendMessage`: without an error, and with one, which is only logged.
unfoldable pub sent : Shared → ℕ → Shared
sent s i = record (stamp_request s i) { handler = waiting i; written = s.written ++ i ∷ [] }

unfoldable pub send_failed : Shared → ℕ → Shared
send_failed s i = record (stamp_request s i) { handler = idle }

-- An acknowledgement with a body that can be read.
unfoldable pub answer : Shared → Option ℕ → ℕ → Bytes → Shared
answer s none id body = s
answer s (some i) id body =
    if id == (s.requests i).message.message_id
    then elim (set_response (s.requests i) body) [
      | none ↦ record s { crashed = true }
      | some answered ↦ record s { requests = update s.requests i answered; current = none }
    ]
    else s

unfoldable pub acknowledge : Shared → ℕ → Bytes → Shared
acknowledge s id body = answer s s.current id body

-- The steps. The messages of the API are no acknowledgements and have no id yet. A hello of the pod makes
-- the loop over the reads send a message of its own. `HandleConnection` may return at any time: a read,
-- the splitting, the decoding or a write fails. Nothing stops the other goroutines then.
pub data Step (s : Shared) : Shared → Type 0 where
  submits :
      (msg : Message)
      → msg.message_id ≡ 0
      → s.submitted < s.taken + pipe_size
      → Step s (submit s msg)
  takes : s.handler ≡ idle → s.taken < s.submitted → Step s (take_request s)
  sends : (i : ℕ) → s.handler ≡ sending i → Step s (sent s i)
  fails : (i : ℕ) → s.handler ≡ sending i → Step s (send_failed s i)
  resumes :
      (i : ℕ)
      → s.handler ≡ waiting i
      → (s.requests i).ready ≡ true
      → Step s (record s { handler = idle })
  receives : (id : ℕ) (body : Bytes) → s.reading ≡ true → Step s (acknowledge s id body)
  greets : s.reading ≡ true → Step s (record s { message_id = (s.message_id + 1) % 256 })
  returns : s.reading ≡ true → Step s (record s { reading = false })

pub data Steps (s : Shared) : Shared → Type 0 where
  here : Steps s s
  next : {t u : Shared} → Steps s t → Step t u → Steps s u
