-- ===== src/SparkServer/Requests/Lost.antt =====
-- Requests that are never answered.
use eight_sleep_pod2server.Prelude.{ℕ, ◌<◌, ◌≤◌, ◌≡◌, ◌≢◌, ◌∙◌, ap, false, some, inl, inr, arith}
use eight_sleep_pod2server.SparkServer.Pod.{PodRequest, new_pod_request}
use eight_sleep_pod2server.SparkServer.Requests.{
  Handler, idle, sending, waiting, Shared, start, submit, take_request, stamp_request, sent,
  send_failed, Step, submits, takes, sends, fails, resumes, receives, greets, returns, Steps, here,
  next,
}
use eight_sleep_pod2server.SparkServer.Requests.Invariant.{
  IsServed, Inv, start-Inv, Steps-Inv, acknowledge-cases,
}

-- A request that was taken, is not answered, and is not the current one.
record IsLost (i : ℕ) (s : Shared) : Type 0 where
  gone : i < s.taken
  unanswered : (s.requests i).ready ≡ false
  passed : s.current ≢ some i

Step-IsLost : {i : ℕ} {s t : Shared} → Inv s → Step s t → IsLost i s → IsLost i t
unfolding submit new_pod_request take_request sent send_failed stamp_request
Step-IsLost {i = i} {s = s} v (submits msg e room) l = record {
  gone = l.gone;
  unanswered = ground (arith, l.gone, l.unanswered, v.ordered);
  passed = l.passed;
}
Step-IsLost {i = i} {s = s} v (takes at some_left) l = record {
  gone = omega (arith, l.gone);
  unanswered = l.unanswered;
  passed = λ e. let same : s.taken ≡ i = cc e in omega (arith, l.gone);
}
Step-IsLost {i = i} {s = s} v (sends j at) l = record {
  gone = l.gone;
  unanswered = ground (arith, l.unanswered);
  passed = l.passed;
}
Step-IsLost {i = i} {s = s} v (fails j at) l = record {
  gone = l.gone;
  unanswered = ground (arith, l.unanswered);
  passed = l.passed;
}
Step-IsLost v (resumes j at done) l = record {
  gone = l.gone;
  unanswered = l.unanswered;
  passed = l.passed;
}
Step-IsLost v (greets reads) l = record {
  gone = l.gone;
  unanswered = l.unanswered;
  passed = l.passed;
}
Step-IsLost v (returns reads) l = record {
  gone = l.gone;
  unanswered = l.unanswered;
  passed = l.passed;
}
Step-IsLost {i = i} {s = s} v (receives id body reads) l = elim (acknowledge-cases s id body v) [
  | inl unchanged ↦ rw unchanged l
  | inr (j, e, _, answered) ↦
      let other : j ≢ i = λ same. l.passed (e ∙ ap (λ k. some k) same) in
      rw answered (record {
        gone = l.gone;
        unanswered = ground (arith, l.unanswered);
        passed = λ nothing. cc;
      })
]

Steps-IsLost : {i : ℕ} {s t : Shared} → Inv s → Steps s t → IsLost i s → IsLost i t
Steps-IsLost v here l = l
Steps-IsLost v (next r st) l = Step-IsLost (Steps-Inv v r) st (Steps-IsLost v r l)

Steps-taken : {s t : Shared} → Inv s → Steps s t → s.taken ≤ t.taken
unfolding submit take_request sent send_failed stamp_request
Steps-taken v here = omega arith
Steps-taken v (next r (submits msg e room)) = Steps-taken v r
Steps-taken v (next r (takes at some_left)) = omega (arith, Steps-taken v r)
Steps-taken v (next r (sends j at)) = Steps-taken v r
Steps-taken v (next r (fails j at)) = Steps-taken v r
Steps-taken v (next r (resumes j at done)) = Steps-taken v r
Steps-taken v (next r (greets reads)) = Steps-taken v r
Steps-taken v (next r (returns reads)) = Steps-taken v r
Steps-taken v (next {t = m} r (receives id body reads)) =
    elim (acknowledge-cases m id body (Steps-Inv v r)) [
      | inl unchanged ↦ rw unchanged (Steps-taken v r)
      | inr (j, _, _, answered) ↦ rw answered (Steps-taken v r)
    ]

-- The handler takes the next request while one is not answered.
take_request-IsLost :
    (t : Shared) (i : ℕ) → i < t.taken → (t.requests i).ready ≡ false → IsLost i (take_request t)
unfolding take_request
take_request-IsLost t i gone closed = record {
  gone = omega arith;
  unanswered = closed;
  passed = λ e. let same : t.taken ≡ i = cc e in omega arith;
}

-- A request whose send fails is only dropped by the handler, not answered: once the handler takes the
-- next request, no step of any goroutine ever answers it, so its caller waits forever.
pub failed_send_lost :
    (requests : ℕ → PodRequest) (s t u : Shared) (i : ℕ)
    → Steps (start requests) s
    → s.handler ≡ sending i
    → Steps (send_failed s i) t
    → (t.requests i).ready ≡ false
    → t.handler ≡ idle
    → t.taken < t.submitted
    → Steps (take_request t) u
    → (u.requests i).ready ≡ false
failed_send_lost requests s t u i reach at between closed at_select some_left later =
    let v = Steps-Inv (start-Inv requests) reach in
    let (last, _, _) : IsServed s.taken s.requests s.current (sending i) = rw at at (v.served) in
    let failed = Steps-Inv v (next here (fails i at)) in
    let gone : i < t.taken =
      omega (arith, last, Steps-taken v (next here (fails i at)), Steps-taken failed between) in
    let w = Steps-Inv failed between in
    let taking = takes at_select some_left in
    let l =
      Steps-IsLost (Steps-Inv w (next here taking)) later (take_request-IsLost t i gone closed) in
    l.unanswered

-- The loop over the reads has ended while the handler waits for a request that is not answered.
record IsAbandoned (i taken : ℕ) (s : Shared) : Type 0 where
  given : i < s.submitted
  ended : s.reading ≡ false
  unanswered : (s.requests i).ready ≡ false
  held : s.handler ≡ waiting i
  kept : s.taken ≡ taken

waited : Handler → ℕ
waited idle = 0
waited (sending i) = i
waited (waiting i) = i
