-- ===== src/SparkServer/Requests/Progress.antt =====
-- The queue goes on: what is in the pipe can be answered.
use eight_sleep_pod2server.Prelude.{
  ℕ, zero, suc, ◌+◌, ◌-◌, ◌<◌, ◌≤◌, ◌≡◌, refl, ◌∙◌, ap, true, ◌⊎◌, inl, inr, [], Bytes, arith,
  ==_refl,
}
use eight_sleep_pod2server.SparkServer.Pod.{PodRequest}
use eight_sleep_pod2server.SparkServer.Requests.{
  Handler, idle, sending, waiting, Shared, update, start, take_request, stamp_request, sent,
  acknowledge, takes, sends, resumes, receives, Steps, here, next,
}
use eight_sleep_pod2server.SparkServer.Requests.Invariant.{
  Heap, Inv, start-Inv, Steps-Inv, acknowledge-cases,
}
use eight_sleep_pod2server.SparkServer.Requests.Answers.{acknowledge_current, waiting_answered}

pub Steps-trans : {s t u : Shared} → Steps s t → Steps t u → Steps s u
Steps-trans r here = r
Steps-trans r (next later st) = next (Steps-trans r later) st

Handler-cases :
    (h : Handler) → (h ≡ idle) ⊎ (((i : ℕ) × (h ≡ sending i)) ⊎ ((i : ℕ) × (h ≡ waiting i)))
Handler-cases idle = inl refl
Handler-cases (sending i) = inr (inl (i, refl))
Handler-cases (waiting i) = inr (inr (i, refl))

-- Later, at the `select`, with the same requests in the pipe.
pub record Settles (s : Shared) : Type 0 where
  pub later : Shared
  pub steps : Steps s later
  pub at_select : later.handler ≡ idle
  pub same_taken : later.taken ≡ s.taken
  pub same_submitted : later.submitted ≡ s.submitted
  pub reads : later.reading ≡ true

-- An acknowledgement leaves the pipe and the handler alone.
acknowledge_pipe :
    (s : Shared) (id : ℕ) (body : Bytes)
    → Inv s
    → ((acknowledge s id body).taken ≡ s.taken)
      × ((acknowledge s id body).submitted ≡ s.submitted)
      × ((acknowledge s id body).reading ≡ s.reading)
acknowledge_pipe s id body v = elim (acknowledge-cases s id body v) [
  | inl unchanged ↦ rw unchanged (refl, refl, refl)
  | inr (j, _, _, answered) ↦ rw answered (refl, refl, refl)
]

waiting-Settles :
    (requests : Heap) (s : Shared) (i : ℕ)
    → Steps (start requests) s
    → s.handler ≡ waiting i
    → s.reading ≡ true
    → Settles s
waiting-Settles requests s i reach at reads =
    let id = (s.requests i).message.message_id in
    let (_, go) = waiting_answered requests s i [] reach at in
    let (same_taken, same_submitted, same_reading) =
      acknowledge_pipe s id [] (Steps-Inv (start-Inv requests) reach) in
    record {
      later = record (acknowledge s id []) { handler = idle };
      steps = next (next here (receives id [] reads)) go;
      at_select = refl;
      same_taken = same_taken;
      same_submitted = same_submitted;
      reads = same_reading ∙ reads;
    }

settle : (requests : Heap) (s : Shared) → Steps (start requests) s → s.reading ≡ true → Settles s
unfolding sent stamp_request
settle requests s reach reads = elim (Handler-cases s.handler) [
  | inl at ↦ record {
    later = s;
    steps = here;
    at_select = at;
    same_taken = refl;
    same_submitted = refl;
    reads = reads;
  }
  | inr (inl (i, at)) ↦
      let l = waiting-Settles requests (sent s i) i (next reach (sends i at)) refl reads in
      record {
        later = l.later;
        steps = Steps-trans (next here (sends i at)) l.steps;
        at_select = l.at_select;
        same_taken = l.same_taken;
        same_submitted = l.same_submitted;
        reads = l.reads;
      }
  | inr (inr (i, at)) ↦ waiting-Settles requests s i reach at reads
]

-- A round of the handler, in which the first request of the pipe is answered with a body.
pub record Round (s : Shared) (body : Bytes) : Type 0 where
  pub later : Shared
  pub steps : Steps s later
  pub at_select : later.handler ≡ idle
  pub reads : later.reading ≡ true
  pub taken_one : later.taken ≡ suc s.taken
  pub same_submitted : later.submitted ≡ s.submitted
  pub ready : (later.requests s.taken).ready ≡ true
  pub response : (later.requests s.taken).response ≡ body

update_same :
    (requests : Heap) (i : ℕ) (request : PodRequest) → update requests i request i ≡ request
update_same requests i request = rw (==_refl i) refl

serve_first :
    (requests : Heap) (s : Shared) (body : Bytes)
    → Steps (start requests) s
    → s.handler ≡ idle
    → s.reading ≡ true
    → s.taken < s.submitted
    → Round s body
unfolding sent stamp_request take_request
serve_first requests s body reach at reads some_left =
    let i = s.taken in
    let asked = sent (take_request s) i in
    let asking = next (next here (takes at some_left)) (sends i refl) in
    let v = Steps-Inv (start-Inv requests) (Steps-trans reach asking) in
    let id = (asked.requests i).message.message_id in
    let done = acknowledge_current asked i body v refl in
    let here_it_is =
      update_same asked.requests i (record (asked.requests i) { response = body; ready = true }) in
    let answered : ((acknowledge asked id body).requests i).ready ≡ true =
      ap (λ u. (u.requests i).ready) done ∙ ap (λ r. r.ready) here_it_is in
    record {
      later = record (acknowledge asked id body) { handler = idle };
      steps =
          next (next asking (receives id body reads))
            (resumes i (ap (λ u. u.handler) done) answered);
      at_select = refl;
      reads = ap (λ u. u.reading) done ∙ reads;
      taken_one = ap (λ u. u.taken) done ∙ omega arith;
      same_submitted = ap (λ u. u.submitted) done;
      ready = answered;
      response = ap (λ u. (u.requests i).response) done ∙ ap (λ r. r.response) here_it_is;
    }

serve_queue :
    (requests : Heap) (n : ℕ) (s : Shared) (i : ℕ) (body : Bytes)
    → Steps (start requests) s
    → s.handler ≡ idle
    → s.reading ≡ true
    → i ≡ s.taken + n
    → i < s.submitted
    → (t : Shared) × Steps s t × ((t.requests i).ready ≡ true) × ((t.requests i).response ≡ body)
serve_queue requests zero s i body reach at reads e lt =
    let r = serve_first requests s body reach at reads (omega arith) in
    let same : i ≡ s.taken = omega arith in
    (
      r.later,
      r.steps,
      ap (λ j. (r.later.requests j).ready) same ∙ r.ready,
      ap (λ j. (r.later.requests j).response) same ∙ r.response,
    )
serve_queue requests (suc n) s i body reach at reads e lt =
    let r = serve_first requests s [] reach at reads (omega arith) in
    let (t, steps, ready, response) =
      serve_queue requests n r.later i body (Steps-trans reach r.steps) r.at_select r.reads
        (omega (arith, r.taken_one)) (omega (arith, r.same_submitted)) in
    (t, Steps-trans r.steps steps, ready, response)

-- Whatever the goroutines have done before, as long as `HandleConnection` has not returned, a request that
-- waits in the pipe can still be answered, with any body: there is a sequence of steps after which it is.
pub queued_answerable :
    (requests : Heap) (s : Shared) (i : ℕ) (body : Bytes)
    → Steps (start requests) s
    → s.reading ≡ true
    → s.taken ≤ i
    → i < s.submitted
    → (t : Shared) × Steps s t × ((t.requests i).ready ≡ true) × ((t.requests i).response ≡ body)
queued_answerable requests s i body reach reads queued given =
    let l = settle requests s reach reads in
    let (t, steps, ready, response) =
      serve_queue requests (i - s.taken) l.later i body (Steps-trans reach l.steps) l.at_select
        l.reads (omega (arith, l.same_taken)) (omega (arith, l.same_submitted)) in
    (t, Steps-trans l.steps steps, ready, response)
