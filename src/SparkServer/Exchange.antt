-- ===== src/SparkServer/Exchange.antt =====
-- The callers of SparkServer/EightSleepApi.go: each sends a request through `RequestPipe` and waits on
-- `Ready` for its response, and may go on by what it is.
use eight_sleep_pod2server.Prelude.{ℕ, ◌+◌, ◌≡◌, refl, List, [], ◌∷◌, Bytes}
use eight_sleep_pod2server.SparkServer.Pod.{Message}

-- A result, or a request and what follows its response.
pub data Exchange (A : Type 0) : Type 0 where
  done : A → Exchange A
  ask : Message → (Bytes → Exchange A) → Exchange A

infixl 5 ◌>>=◌ ◌>>◌
abbrev pub ◌>>=◌ : {A B : Type 0} → Exchange A → (A → Exchange B) → Exchange B
done a >>= f = f a
ask msg next >>= f = ask msg (λ response. next response >>= f)

abbrev pub ◌>>◌ : {A B : Type 0} → Exchange A → Exchange B → Exchange B
m >> k = m >>= λ _. k

-- The requests, one behind the response to the other.
abbrev pub ask_all : List Message → Exchange (Unit {0})
ask_all [] = done tt
ask_all (msg ∷ msgs) = ask msg (λ response. ask_all msgs)

-- With a pod that answers the request of each index: the requests that it gets, and the result.
abbrev pub run : {A : Type 0} → (ℕ → Message → Bytes) → ℕ → Exchange A → List Message × A
run pod i (done a) = ([], a)
run pod i (ask msg next) = let (msgs, a) = run pod (i + 1) (next (pod i msg)) in (msg ∷ msgs, a)

-- A change of the result changes no request.
pub run-done :
    {A B : Type 0} (pod : ℕ → Message → Bytes) (i : ℕ) (m : Exchange A) (f : A → B)
    → run pod i (m >>= λ a. done (f a)) ≡ ((run pod i m).0, f (run pod i m).1)
run-done pod i (done a) f = refl
run-done pod i (ask msg next) f =
    λ j. let (msgs, b) = run-done pod (i + 1) (next (pod i msg)) f j in (msg ∷ msgs, b)
