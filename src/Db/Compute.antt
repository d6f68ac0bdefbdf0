-- ===== src/Db/Compute.antt =====
-- compute_thread_main and request_handler_thread_main of rpBenchmark2/main.c.
pub mod Target
pub mod Exchange
use rp_maksym_zaveriukha.Base.{
  ℕ, zero, suc, ◌+◌, ◌-◌, ◌*◌, ◌%◌, ◌^◌, ◌==◌, ltb, not, List, [], ◌∷◌, ◌++◌, Option, none, some,
  map, if◌then◌else◌,
}
use rp_maksym_zaveriukha.Db.Message.{
  MessageHeader, Padding, header_size, read_header, msg_request, msg_stop, msg_local_done,
  send_request, send_response, send_control_message,
}

-- The remote rank that request `i` goes to.
unfoldable pub target_of : (rank nr_proc i : ℕ) → ℕ
target_of rank nr_proc i = (rank + 1 + i % (nr_proc - 1)) % nr_proc

-- `(ctx->rank * 1000000) + (int)i`, as a 32-bit pattern.
unfoldable pub key_of : (rank i : ℕ) → ℕ
key_of rank i = (rank * 1000000 + i) % 2 ^ 32

-- One send: the destination and the message.
abbrev pub Send : Type 0
Send = ℕ × List ℕ

-- What response_slot_wait returns: the request that was answered, and the size of the response.
abbrev pub Answer : Type 0
Answer = ℕ × ℕ

-- The end of the compute thread: what it sent, in order, or the exit on an answer to another request
-- or of another size.
pub data Computed : Type 0 where
  sent : List Send → Computed
  wrong_id wrong_size : Computed
  no_answer : List Send → Computed  -- it still waits for an answer

abbrev pub prepend : Send → Computed → Computed
prepend m (sent ms) = sent (m ∷ ms)
prepend m (no_answer ms) = no_answer (m ∷ ms)
prepend m wrong_id = wrong_id
prepend m wrong_size = wrong_size

-- The padding of the headers that the compute thread sends: of the request of each round, and of the
-- control message to each rank. The code leaves these bytes as they are.
pub record Pads : Type 0 where
  pub request : ℕ → Padding
  pub control : ℕ → Padding

module _ (pads : Pads) (rank nr_proc response_size : ℕ) where
  -- The request of round `i`.
  unfoldable pub request_of : ℕ → Send
  unfolding target_of key_of
  request_of i = (
    target_of rank nr_proc i,
    send_request (pads.request i) rank (i % 2 ^ 32) (key_of rank i) response_size,
  )

  -- MSG_STOP to the ranks from `i` on, `k` rounds left, without the own rank.
  unfoldable pub stops_from : ℕ → ℕ → List Send
  stops_from i zero = []
  stops_from i (suc k) =
      let rest = stops_from (i + 1) k in
      if i == rank then rest else (i, send_control_message (pads.control i) rank msg_stop) ∷ rest

  unfoldable pub farewells : List Send
  unfolding stops_from
  farewells =
      stops_from 0 nr_proc
      ++ ((rank, send_control_message (pads.control rank) rank msg_local_done) ∷ [])

  -- The loop from request `i` on, `k` requests left, over the answers that arrive.
  unfoldable pub compute_from : (i k : ℕ) → List Answer → Computed
  unfolding request_of farewells
  compute_from i zero answers = sent farewells
  compute_from i (suc k) [] = prepend (request_of i) (no_answer [])
  compute_from i (suc k) ((request_id, size) ∷ answers) =
      let rest = prepend (request_of i) (compute_from (i + 1) k answers) in
      if not (request_id == i % 2 ^ 32)
      then wrong_id
      else if not (size == response_size)
      then wrong_size
      else rest

  unfoldable pub compute_thread_main : (requests_per_process : ℕ) → List Answer → Computed
  unfolding compute_from
  compute_thread_main requests_per_process answers = compute_from 0 requests_per_process answers

-- What the request handler does with one message of the queue: it sends a response, it prints a message
-- and exits, or send_response writes past its buffer.
pub data Handled : Type 0 where
  responds : Send → Handled
  rejects overruns : Handled

abbrev pub answer_to : ℕ → Option (List ℕ) → Handled
answer_to source_rank none = overruns
answer_to source_rank (some msg) = responds (source_rank, msg)

unfoldable pub handle_request : Padding → (rank : ℕ) → (msg : List ℕ) → (size : ℕ) → Handled
handle_request pad rank msg size =
    if ltb size header_size
    then rejects
    else if not (header.type == msg_request)
    then rejects
    else answer_to header.source_rank
        (send_response pad rank header.request_id header.key header.response_size)
  where
    header : MessageHeader
    header = read_header msg
