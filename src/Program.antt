-- ===== src/Program.antt =====
-- The sending threads of both benchmarks over the channels of rpBenchmark2/com.c: what the compute thread
-- and the request handler of a process send to another process, and in Program/Patterns what a sender
-- thread of rpBenchmark1/main.c sends.
pub mod Counts
pub mod Judged
pub mod Outputs
pub mod Said
pub mod Finishes
pub mod Arrived
pub mod Closing
pub mod Patterns
use rp_maksym_zaveriukha.Base.{
  ℕ, ◌+◌, ◌<◌, ◌≡◌, ◌==◌, ◌^◌, Option, some, List, [], ◌∷◌, ◌++◌, length, if◌then◌else◌,
}
use rp_maksym_zaveriukha.Net.System.{Sent}
use rp_maksym_zaveriukha.Net.Flow.{from_rank}
use rp_maksym_zaveriukha.Net.Channel.{only}
use rp_maksym_zaveriukha.Db.Message.{Padding, send_response}
use rp_maksym_zaveriukha.Db.Receiver.{Verdict, to_handler, stop, local_done, judge}
use rp_maksym_zaveriukha.Db.Compute.{Pads, Answer, Send, sent, compute_thread_main}

-- The messages for `d`, in the order in which they are sent.
abbrev pub to_rank : ℕ → List Send → List (List ℕ)
to_rank d [] = []
to_rank d ((r, msg) ∷ ms) = let rest = to_rank d ms in if r == d then msg ∷ rest else rest

-- The third list has the members of the first two, each in its order.
pub data Merge {ℓ} {A : Type ℓ} : List A → List A → List A → Type ℓ where
  both_empty : Merge [] [] []
  from_first : {xs ys zs : List A} (x : A) → Merge xs ys zs → Merge (x ∷ xs) ys (x ∷ zs)
  from_second : {xs ys zs : List A} (y : A) → Merge xs ys zs → Merge xs (y ∷ ys) (y ∷ zs)

-- Messages that send_response of process `r` has built, with fields that fit.
pub data Responses (r : ℕ) : List (List ℕ) → Type 0 where
  nothing : Responses r []
  response :
      (pad : Padding) (request_id key size : ℕ) {msg : List ℕ} {ms : List (List ℕ)}
      → request_id < 2 ^ 32
      → key < 2 ^ 32
      → size < 2 ^ 56
      → send_response pad r request_id key size ≡ some msg
      → Responses r ms
      → Responses r (msg ∷ ms)

-- What process `r` has sent to process `d`, where both its threads run the program: a beginning of
-- what its compute thread sends there until it finishes, merged with responses of its handler.
pub record Runs (r nr_proc response_size requests_per_process d : ℕ) (log : List (List ℕ))
    : Type 0 where
  pub pads : Pads
  pub answers : List Answer
  pub sends : List Send
  pub computed :
      compute_thread_main pads r nr_proc response_size requests_per_process answers ≡ sent sends
  pub begun : List (List ℕ)
  pub rest : List (List ℕ)
  pub split : to_rank d sends ≡ begun ++ rest
  pub responses : List (List ℕ)
  pub are_responses : Responses r responses
  pub merged : Merge begun responses log

-- The messages that com_recv has copied for process `d`, oldest first.
abbrev pub all_for : ℕ → List Sent → List (List ℕ)
all_for d [] = []
all_for d (x ∷ xs) = all_for d xs ++ only (from_rank d x.dest) x.bytes

-- What the receiver makes of a message; com_recv returns its length.
abbrev pub verdict : List ℕ → Verdict
verdict msg = judge msg (length msg)

abbrev pub as_stop : Verdict → ℕ
as_stop stop = 1
as_stop _ = 0

abbrev pub as_request : Verdict → ℕ
as_request to_handler = 1
as_request _ = 0

abbrev pub as_done : Verdict → ℕ
as_done local_done = 1
as_done _ = 0

abbrev pub weighed : (Verdict → ℕ) → List (List ℕ) → ℕ
weighed w [] = 0
weighed w (m ∷ ms) = w (verdict m) + weighed w ms

abbrev pub stops : List (List ℕ) → ℕ
stops = weighed as_stop

abbrev pub requests : List (List ℕ) → ℕ
requests = weighed as_request

abbrev pub dones : List (List ℕ) → ℕ
dones = weighed as_done

-- The messages for all ranks.
abbrev pub messages : List Send → List (List ℕ)
messages [] = []
messages ((r, msg) ∷ ms) = msg ∷ messages ms
