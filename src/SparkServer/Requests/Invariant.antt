-- ===== src/SparkServer/Requests/Invariant.antt =====
-- What holds between the goroutines at any time.
use eight_sleep_pod2server.Prelude.{
  ℕ, suc, ◌+◌, ◌<◌, ◌≤◌, ◌≡◌, refl, ◌∙◌, true, false, Option, none, some, ◌⊎◌, inl, inr, List, [],
  ◌∷◌, Bytes, ◌==◌, All, All-append, arith, Bool-cases,
}
use eight_sleep_pod2server.SparkServer.Pod.{Message, PodRequest, new_pod_request, set_response}
use eight_sleep_pod2server.SparkServer.Requests.{
  pipe_size, Handler, idle, sending, waiting, Shared, update, start, submit, take_request,
  stamp_request, sent, send_failed, answer, acknowledge, Step, submits, takes, sends, fails,
  resumes, receives, greets, returns, Steps, here, next,
}

abbrev pub Heap : Type 0
Heap = ℕ → PodRequest

-- The current request was taken and is not answered.
abbrev pub IsOpen : ℕ → Heap → Option ℕ → Type 0
IsOpen taken requests none = Unit
IsOpen taken requests (some i) = (i < taken) × ((requests i).ready ≡ false)

-- The request at the handler is answered or the current one. One that is not sent yet was taken last, and
-- has no id.
abbrev pub IsServed : ℕ → Heap → Option ℕ → Handler → Type 0
IsServed taken requests current idle = Unit
IsServed taken requests current (sending i) =
    (suc i ≡ taken)
    × ((requests i).message.message_id ≡ 0)
    × (((requests i).ready ≡ true) ⊎ (current ≡ some i))
IsServed taken requests current (waiting i) =
    (i < taken) × (((requests i).ready ≡ true) ⊎ (current ≡ some i))

-- The first request that cannot have been written.
abbrev pub unwritten : ℕ → Handler → ℕ
unwritten taken idle = taken
unwritten taken (sending i) = i
unwritten taken (waiting i) = taken

abbrev pub IsLogged : ℕ → Handler → List ℕ → Type 0
IsLogged taken handler written = All (λ j. j < unwritten taken handler) written

pub record Inv (s : Shared) : Type 0 where
  pub ordered : s.taken ≤ s.submitted
  pub bounded : s.submitted ≤ s.taken + pipe_size
  pub unanswered : (i : ℕ) → s.taken ≤ i → i < s.submitted → (s.requests i).ready ≡ false
  pub unstamped : (i : ℕ) → s.taken ≤ i → i < s.submitted → (s.requests i).message.message_id ≡ 0
  pub open_current : IsOpen s.taken s.requests s.current
  pub served : IsServed s.taken s.requests s.current s.handler
  pub logged : IsLogged s.taken s.handler s.written
  pub running : s.crashed ≡ false

pub start-Inv : (requests : Heap) → Inv (start requests)
start-Inv requests = record {
  ordered = omega arith;
  bounded = omega arith;
  unanswered = λ i h k. absurd (omega arith);
  unstamped = λ i h k. absurd (omega arith);
  open_current = tt;
  served = tt;
  logged = tt;
  running = refl;
}

-- The heap may change as long as no request below `taken` is answered by it, or answered no more.
abbrev Keeps : ℕ → Heap → Heap → Type 0
Keeps taken requests after = (i : ℕ) → i < taken → (after i).ready ≡ (requests i).ready

IsOpen-Keeps :
    (taken : ℕ) (requests after : Heap) (current : Option ℕ)
    → Keeps taken requests after
    → IsOpen taken requests current
    → IsOpen taken after current
IsOpen-Keeps taken requests after none k h = tt
IsOpen-Keeps taken requests after (some i) k (lt, closed) = (lt, k i lt ∙ closed)

submit-IsServed :
    (taken : ℕ) (requests : Heap) (current : Option ℕ) (handler : Handler) (i : ℕ) (r : PodRequest)
    → taken ≤ i
    → IsServed taken requests current handler
    → IsServed taken (update requests i r) current handler
submit-IsServed taken requests current idle i r le h = tt
submit-IsServed taken requests current (sending j) i r le h = ground arith
submit-IsServed taken requests current (waiting j) i r le h = ground arith

submit-Inv :
    (s : Shared) (msg : Message)
    → msg.message_id ≡ 0
    → s.submitted < s.taken + pipe_size
    → Inv s
    → Inv (submit s msg)
unfolding submit new_pod_request
submit-Inv s msg e room v = record {
  ordered = omega (arith, v.ordered);
  bounded = omega arith;
  unanswered = λ i h k. ground (arith, v.unanswered i h);
  unstamped = λ i h k. ground (arith, v.unstamped i h);
  open_current =
      IsOpen-Keeps s.taken s.requests (submit s msg).requests s.current
        (λ i lt. ground (arith, v.ordered)) v.open_current;
  served = submit-IsServed s.taken s.requests s.current s.handler s.submitted _ v.ordered v.served;
  logged = v.logged;
  running = v.running;
}

take_request-Inv :
    (s : Shared) → s.handler ≡ idle → s.taken < s.submitted → Inv s → Inv (take_request s)
unfolding take_request
take_request-Inv s at_select some_left v = record {
  ordered = omega arith;
  bounded = omega (arith, v.bounded);
  unanswered = λ i h k. v.unanswered i (omega arith) k;
  unstamped = λ i h k. v.unstamped i (omega arith) k;
  open_current = (omega arith, v.unanswered s.taken (omega arith) some_left);
  served = (omega arith, v.unstamped s.taken (omega arith) some_left, inr refl);
  logged = rw at_select at (v.logged);
  running = v.running;
}

All-mono : (a b : ℕ) (xs : List ℕ) → a ≤ b → All (λ j. j < a) xs → All (λ j. j < b) xs
All-mono a b [] le h = tt
All-mono a b (x ∷ xs) le (hx, h) = (omega arith, All-mono a b xs le h)

-- The stamp leaves `ready` alone.
stamp_request-Keeps : (s : Shared) (i : ℕ) → Keeps s.taken s.requests (stamp_request s i).requests
unfolding stamp_request
stamp_request-Keeps s i j lt = ground arith

sent-Inv : (s : Shared) (i : ℕ) → s.handler ≡ sending i → Inv s → Inv (sent s i)
unfolding sent stamp_request
sent-Inv s i at v =
    let (last, fresh, held) : IsServed s.taken s.requests s.current (sending i) =
      rw at at (v.served) in
    let log : All (λ j. j < i) s.written = rw at at (v.logged) in
    record {
      ordered = v.ordered;
      bounded = v.bounded;
      unanswered = λ j h k. ground (arith, v.unanswered j h k);
      unstamped = λ j h k. ground (arith, v.unstamped j h k);
      open_current =
          IsOpen-Keeps s.taken s.requests (stamp_request s i).requests s.current
            (stamp_request-Keeps s i) v.open_current;
      served = (omega arith, ground arith);
      logged =
          All-append (λ j. j < s.taken) s.written (i ∷ [])
            (All-mono i s.taken s.written (omega arith) log) (omega arith, tt);
      running = v.running;
    }

send_failed-Inv : (s : Shared) (i : ℕ) → s.handler ≡ sending i → Inv s → Inv (send_failed s i)
unfolding send_failed stamp_request
send_failed-Inv s i at v =
    let (last, _, _) : IsServed s.taken s.requests s.current (sending i) = rw at at (v.served) in
    let log : All (λ j. j < i) s.written = rw at at (v.logged) in
    record {
      ordered = v.ordered;
      bounded = v.bounded;
      unanswered = λ j h k. ground (arith, v.unanswered j h k);
      unstamped = λ j h k. ground (arith, v.unstamped j h k);
      open_current =
          IsOpen-Keeps s.taken s.requests (stamp_request s i).requests s.current
            (stamp_request-Keeps s i) v.open_current;
      served = tt;
      logged = All-mono i s.taken s.written (omega arith) log;
      running = v.running;
    }

resume-Inv :
    (s : Shared) (i : ℕ) → s.handler ≡ waiting i → Inv s → Inv (record s { handler = idle })
resume-Inv s i at v = record {
  ordered = v.ordered;
  bounded = v.bounded;
  unanswered = v.unanswered;
  unstamped = v.unstamped;
  open_current = v.open_current;
  served = tt;
  logged = rw at at (v.logged);
  running = v.running;
}

answered-IsServed :
    (taken : ℕ) (requests : Heap) (current : Option ℕ) (handler : Handler) (i : ℕ) (body : Bytes)
    → current ≡ some i
    → IsServed taken requests current handler
    → IsServed taken
        (update requests i (record (requests i) { response = body; ready = true }))
        none
        handler
answered-IsServed taken requests current idle i body e h = tt
answered-IsServed taken requests current (sending j) i body e h = ground arith
answered-IsServed taken requests current (waiting j) i body e h = ground arith

-- An acknowledgement changes nothing, or answers the current request.
answer-cases :
    (s : Shared) (current : Option ℕ) (id : ℕ) (body : Bytes)
    → IsOpen s.taken s.requests current
    → (answer s current id body ≡ s)
      ⊎ ((i : ℕ) × (current ≡ some i)
          × ((s.requests i).message.message_id ≡ id)
          × (answer s current id body ≡ record s {
            requests =
                update s.requests i (record (s.requests i) { response = body; ready = true });
            current = none;
          }))
unfolding answer set_response
answer-cases s none id body h = inl refl
answer-cases s (some i) id body (lt, closed) =
    elim (Bool-cases (id == (s.requests i).message.message_id)) [
      | inr other ↦ inl (rw (other, answer))
      | inl same ↦ inr (i, refl, ground arith, rw (same, answer, closed, answer))
    ]

pub acknowledge-cases :
    (s : Shared) (id : ℕ) (body : Bytes)
    → Inv s
    → (acknowledge s id body ≡ s)
      ⊎ ((i : ℕ) × (s.current ≡ some i)
          × ((s.requests i).message.message_id ≡ id)
          × (acknowledge s id body ≡ record s {
            requests =
                update s.requests i (record (s.requests i) { response = body; ready = true });
            current = none;
          }))
unfolding acknowledge
acknowledge-cases s id body v = answer-cases s s.current id body v.open_current

acknowledge-Inv : (s : Shared) (id : ℕ) (body : Bytes) → Inv s → Inv (acknowledge s id body)
acknowledge-Inv s id body v = elim (acknowledge-cases s id body v) [
  | inl same ↦ rw same v
  | inr (i, e, _, answered) ↦
      let (lt, closed) : IsOpen s.taken s.requests (some i) = rw e at (v.open_current) in
      rw answered (record {
        ordered = v.ordered;
        bounded = v.bounded;
        unanswered = λ j h k. ground (arith, v.unanswered j h k);
        unstamped = λ j h k. ground (arith, v.unstamped j h k);
        open_current = tt;
        served = answered-IsServed s.taken s.requests s.current s.handler i body e v.served;
        logged = v.logged;
        running = v.running;
      })
]

Step-Inv : {s t : Shared} → Step s t → Inv s → Inv t
Step-Inv {s = s} (submits msg e room) v = submit-Inv s msg e room v
Step-Inv {s = s} (takes at some_left) v = take_request-Inv s at some_left v
Step-Inv {s = s} (sends i at) v = sent-Inv s i at v
Step-Inv {s = s} (fails i at) v = send_failed-Inv s i at v
Step-Inv {s = s} (resumes i at ready) v = resume-Inv s i at v
Step-Inv {s = s} (receives id body reads) v = acknowledge-Inv s id body v
Step-Inv {s = s} (greets reads) v = record {
  ordered = v.ordered;
  bounded = v.bounded;
  unanswered = v.unanswered;
  unstamped = v.unstamped;
  open_current = v.open_current;
  served = v.served;
  logged = v.logged;
  running = v.running;
}
Step-Inv {s = s} (returns reads) v = record {
  ordered = v.ordered;
  bounded = v.bounded;
  unanswered = v.unanswered;
  unstamped = v.unstamped;
  open_current = v.open_current;
  served = v.served;
  logged = v.logged;
  running = v.running;
}

pub Steps-Inv : {s t : Shared} → Inv s → Steps s t → Inv t
Steps-Inv v here = v
Steps-Inv v (next r st) = Step-Inv st (Steps-Inv v r)
