-- ===== src/SparkServer/Tests/Requests.antt =====
-- Interleavings of two requests.
use eight_sleep_pod2server.Prelude.{ℕ, ◌<◌, ◌≤◌, ◌≡◌, ◌≢◌, refl, true, false, [], ◌∷◌, All, arith}
use eight_sleep_pod2server.SparkServer.Pod.{
  confirmable, Code, Message, PodRequest, new_pod_request, set_response,
}
use eight_sleep_pod2server.SparkServer.Requests.{
  Shared, idle, sending, start, submit, take_request, stamp_request, answer, sent, send_failed,
  acknowledge, Steps, here, next, submits, takes, sends, receives,
}
use eight_sleep_pod2server.SparkServer.Requests.Answers.{
  IsAnswered, ready_closed_once, unsent_answered,
}
use eight_sleep_pod2server.SparkServer.Requests.Lost.{failed_send_lost}
use eight_sleep_pod2server.SparkServer.Requests.Progress.{queued_answerable}

abbrev question : Message
question = record {
  type = confirmable;
  code = Code.get;
  message_id = 0;
  token = [];
  options = [];
  payload = [];
}

abbrev blank : ℕ → PodRequest
blank i = record { message = question; response = []; ready = false }

-- Two requests in the pipe, and the first at the handler.
abbrev two : Shared
two = submit (submit (start blank) question) question

abbrev taken : Shared
taken = take_request two

taken-Steps : Steps (start blank) taken
unfolding submit
taken-Steps =
    next
      (next (next here (submits question refl (omega arith))) (submits question refl (omega arith)))
      (takes refl (omega arith))

-- The first is sent.
abbrev asked : Shared
asked = sent taken 0

asked-Steps : Steps (start blank) asked
unfolding take_request submit
asked-Steps = next taken-Steps (sends 0 refl)

asked-reading : asked.reading ≡ true
unfolding submit take_request sent stamp_request
asked-reading = refl

-- And answered, with the byte 9.
abbrev answered : Shared
answered = acknowledge asked 0 (9 ∷ [])

answered-Steps : Steps (start blank) answered
answered-Steps = next asked-Steps (receives 0 (9 ∷ []) asked-reading)

answered-reading : answered.reading ≡ true
unfolding submit take_request sent acknowledge stamp_request new_pod_request answer set_response
answered-reading = refl

answered-IsAnswered : IsAnswered answered 0 (9 ∷ [])
unfolding submit take_request sent acknowledge stamp_request new_pod_request answer set_response
answered-IsAnswered = (omega arith, refl, refl)

-- The same acknowledgement comes again.
ready_closed_once_example :
    ((acknowledge answered 0 (8 ∷ [])).crashed ≡ false)
    × IsAnswered (acknowledge answered 0 (8 ∷ [])) 0 (9 ∷ [])
ready_closed_once_example =
    ready_closed_once blank answered (acknowledge answered 0 (8 ∷ [])) 0 (9 ∷ []) answered-Steps
      answered-IsAnswered (next here (receives 0 (8 ∷ []) answered-reading))

-- With the first at the handler and not yet answered, the second waits in the pipe.
asked-queued : (asked.taken ≤ 1) × (1 < asked.submitted)
unfolding submit take_request sent stamp_request
asked-queued = (omega arith, omega arith)

queued_answerable_example :
    (t : Shared) × Steps asked t
    × ((t.requests 1).ready ≡ true)
    × ((t.requests 1).response ≡ 5 ∷ [])
queued_answerable_example =
    queued_answerable blank asked 1 (5 ∷ []) asked-Steps asked-reading asked-queued.0 asked-queued.1

-- The loop over the reads ends, and then a third request is submitted.
abbrev ended : Shared
ended = record asked { reading = false }

taken-sending : taken.handler ≡ sending 0
unfolding take_request submit
taken-sending = refl

taken-unanswered : (taken.requests 0).ready ≡ false
unfolding take_request submit new_pod_request
taken-unanswered = refl

unsent_answered_example :
    (((acknowledge taken 0 (9 ∷ [])).requests 0).ready ≡ true)
    × (((acknowledge taken 0 (9 ∷ [])).requests 0).response ≡ 9 ∷ [])
    × All (λ j. j ≢ 0) (acknowledge taken 0 (9 ∷ [])).written
unsent_answered_example =
    unsent_answered blank taken 0 (9 ∷ []) taken-Steps taken-sending taken-unanswered

-- The first is not sent, and the second is taken.
abbrev dropped : Shared
dropped = send_failed taken 0

dropped-unanswered : (dropped.requests 0).ready ≡ false
unfolding send_failed take_request submit new_pod_request stamp_request
dropped-unanswered = refl

dropped-idle : dropped.handler ≡ idle
unfolding send_failed stamp_request
dropped-idle = refl

dropped-some_left : dropped.taken < dropped.submitted
unfolding send_failed take_request submit stamp_request
dropped-some_left = omega arith

retaken-reading : (take_request dropped).reading ≡ true
unfolding send_failed take_request submit stamp_request
retaken-reading = refl

failed_send_lost_example :
    ((acknowledge (take_request dropped) 0 (9 ∷ [])).requests 0).ready ≡ false
failed_send_lost_example =
    failed_send_lost blank taken dropped (acknowledge (take_request dropped) 0 (9 ∷ [])) 0
      taken-Steps taken-sending here dropped-unanswered dropped-idle dropped-some_left
      (next here (receives 0 (9 ∷ []) retaken-reading))
