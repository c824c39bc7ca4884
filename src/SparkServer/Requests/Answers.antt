-- ===== src/SparkServer/Requests/Answers.antt =====
-- How requests are answered, in time and too early.
use eight_sleep_pod2server.Prelude.{
  ℕ, ◌<◌, ◌≡◌, ◌≢◌, ◌∙◌, sym, ap, true, false, none, some, inl, inr, List, [], ◌∷◌, Bytes, All,
  arith, ==_refl,
}
use eight_sleep_pod2server.SparkServer.Pod.{PodRequest, new_pod_request, set_response}
use eight_sleep_pod2server.SparkServer.Requests.{
  idle, sending, waiting, Shared, update, start, submit, take_request, stamp_request, sent,
  send_failed, answer, acknowledge, Step, submits, takes, sends, fails, resumes, receives, greets,
  returns, Steps, here, next,
}
use eight_sleep_pod2server.SparkServer.Requests.Invariant.{
  IsOpen, IsServed, Inv, start-Inv, Steps-Inv, acknowledge-cases,
}

-- A request that was answered with a body.
abbrev pub IsAnswered : Shared → ℕ → Bytes → Type 0
IsAnswered s i body =
    (i < s.submitted) × ((s.requests i).ready ≡ true) × ((s.requests i).response ≡ body)

Step-IsAnswered :
    (i : ℕ) (body : Bytes) {s t : Shared}
    → Inv s
    → Step s t
    → IsAnswered s i body
    → IsAnswered t i body
unfolding submit new_pod_request take_request sent send_failed stamp_request
Step-IsAnswered i body v (submits msg e room) (lt, ready, same) = ground arith
Step-IsAnswered i body v (takes at some_left) (lt, ready, same) = (lt, ready, same)
Step-IsAnswered i body v (sends j at) (lt, ready, same) = (lt, ground arith, ground arith)
Step-IsAnswered i body v (fails j at) (lt, ready, same) = (lt, ground arith, ground arith)
Step-IsAnswered i body v (resumes j at done) (lt, ready, same) = (lt, ready, same)
Step-IsAnswered i body v (greets reads) (lt, ready, same) = (lt, ready, same)
Step-IsAnswered i body v (returns reads) (lt, ready, same) = (lt, ready, same)
Step-IsAnswered i body {s = s} v (receives id other reads) (lt, ready, same) =
    elim (acknowledge-cases s id other v) [
      | inl unchanged ↦ rw unchanged (lt, ready, same)
      | inr (j, e, _, answered) ↦
          let (_, closed) : IsOpen s.taken s.requests (some j) = rw e at (v.open_current) in
          rw answered (lt, ground arith, ground arith)
    ]

-- Whatever the goroutines do and in whatever order, `Ready` of a request is never closed twice, and a
-- request that was answered keeps its response.
pub ready_closed_once :
    (requests : ℕ → PodRequest) (s t : Shared) (i : ℕ) (body : Bytes)
    → Steps (start requests) s
    → IsAnswered s i body
    → Steps s t
    → (t.crashed ≡ false) × IsAnswered t i body
ready_closed_once requests s t i body reach answered later =
    let v = Steps-Inv (start-Inv requests) reach in ((Steps-Inv v later).running, keeps v later)
  where
    keeps : Inv s → {u : Shared} → Steps s u → IsAnswered u i body
    keeps v here = answered
    keeps v (next r st) = Step-IsAnswered i body (Steps-Inv v r) st (keeps v r)

-- The acknowledgement with the id of the current request.
pub acknowledge_current :
    (s : Shared) (i : ℕ) (body : Bytes)
    → Inv s
    → s.current ≡ some i
    → acknowledge s (s.requests i).message.message_id body ≡ record s {
      requests = update s.requests i (record (s.requests i) { response = body; ready = true });
      current = none;
    }
unfolding acknowledge answer set_response
acknowledge_current s i body v e =
    let (_, closed) : IsOpen s.taken s.requests (some i) = rw e at (v.open_current) in
    ap (λ c. answer s c (s.requests i).message.message_id body) e
    ∙ rw (==_refl (s.requests i).message.message_id, answer, closed, answer)

-- Whenever `podRequestHandler` waits for a request, the acknowledgement with the id of this request, with
-- any body, leaves the request answered, and the handler can go on directly behind it.
pub waiting_answered :
    (requests : ℕ → PodRequest) (s : Shared) (i : ℕ) (body : Bytes)
    → Steps (start requests) s
    → s.handler ≡ waiting i
    → (((acknowledge s (s.requests i).message.message_id body).requests i).ready ≡ true)
      × Step
          (acknowledge s (s.requests i).message.message_id body)
          (record (acknowledge s (s.requests i).message.message_id body) { handler = idle })
waiting_answered requests s i body reach at =
    let v = Steps-Inv (start-Inv requests) reach in
    let (_, held) : IsServed s.taken s.requests s.current (waiting i) = rw at at (v.served) in
    elim held [
      | inr e ↦
          let done = acknowledge_current s i body v e in
          rw done (ground arith, resumes i at (ground arith))
      | inl ready ↦ elim (acknowledge-cases s (s.requests i).message.message_id body v) [
        | inl unchanged ↦ rw unchanged (ready, resumes i at ready)
        | inr (j, _, _, answered) ↦ rw answered (ground arith, resumes i at (ground arith))
      ]
    ]

All-ne : (i : ℕ) (xs : List ℕ) → All (λ j. j < i) xs → All (λ j. j ≢ i) xs
All-ne i [] h = tt
All-ne i (x ∷ xs) (hx, h) = (omega arith, All-ne i xs h)

-- Between `currentRequest = req` and `sendMessage` a request has the id 0: an acknowledgement of an older
-- request with this id, or one that the pod makes up, answers it with its body, although the request was
-- never written to the socket.
pub unsent_answered :
    (requests : ℕ → PodRequest) (s : Shared) (i : ℕ) (body : Bytes)
    → Steps (start requests) s
    → s.handler ≡ sending i
    → (s.requests i).ready ≡ false
    → (((acknowledge s 0 body).requests i).ready ≡ true)
      × (((acknowledge s 0 body).requests i).response ≡ body)
      × All (λ j. j ≢ i) (acknowledge s 0 body).written
unsent_answered requests s i body reach at closed =
    let v = Steps-Inv (start-Inv requests) reach in
    let (_, fresh, held) : IsServed s.taken s.requests s.current (sending i) =
      rw at at (v.served) in
    let log : All (λ j. j < i) s.written = rw at at (v.logged) in
    elim held [
      | inl ready ↦ absurd (cc)
      | inr e ↦
          let done : acknowledge s 0 body ≡ record s {
            requests =
                update s.requests i (record (s.requests i) { response = body; ready = true });
            current = none;
          } =
            ap (λ id. acknowledge s id body) (sym fresh) ∙ acknowledge_current s i body v e in
          rw done (ground arith, ground arith, All-ne i s.written log)
    ]
