-- ===== src/Db/Receiver.antt =====
-- receiver_thread_main of rpBenchmark2/main.c: what it does with each message of com_recv, and its
-- loop over the messages that arrive.
pub mod Loop
pub mod Accepts
use rp_maksym_zaveriukha.Base.{
  ℕ, ◌+◌, ◌-◌, ◌==◌, ltb, not, ◌&&◌, Bool, true, false, List, [], ◌∷◌, take, drop, if◌then◌else◌,
}
use rp_maksym_zaveriukha.Db.Payload.{checksum_payload}
use rp_maksym_zaveriukha.Db.Message.{
  MessageHeader, header_size, total_size, read_header, msg_request, msg_response, msg_stop,
  msg_local_done,
}

-- Where the code prints a message and leaves by `exit(1)`.
pub data Fault : Type 0 where
  too_small size_mismatch bad_checksum unknown_type : Fault

-- What the receiver does with one message.
pub data Verdict : Type 0 where
  to_handler : Verdict  -- request_queue_push of the message
  to_compute : (request_id response_size : ℕ) → Verdict  -- response_slot_set
  stop local_done : Verdict
  fault : Fault → Verdict

-- A message of type MSG_RESPONSE.
unfoldable pub judge_response : List ℕ → ℕ → MessageHeader → Verdict
judge_response msg size header =
    if not (size == total_size header.response_size)
    then fault size_mismatch
    else if ltb 0 header.response_size
        && checksum_payload (take header.response_size (drop header_size msg)) == 0
    then fault bad_checksum
    else to_compute header.request_id header.response_size

-- `msg` and `size` as com_recv returns them.
unfoldable pub judge : List ℕ → ℕ → Verdict
judge msg size =
    if ltb size header_size
    then fault too_small
    else if header.type == msg_request
    then to_handler
    else if header.type == msg_response
    then judge_response msg size header
    else if header.type == msg_stop
    then stop
    else if header.type == msg_local_done
    then local_done
    else fault unknown_type
  where
    header : MessageHeader
    header = read_header msg

-- How the loop ends: it closes the queue with these messages left, it waits for another message, or
-- the process leaves by `exit(1)`.
pub data Ending : Type 0 where
  closes : (left : List Verdict) → Ending
  waits : (remote_stop_count : ℕ) → (done : Bool) → Ending
  exits : Fault → Ending

-- The condition of the while loop, negated.
abbrev pub is_over : ℕ → ℕ → Bool → Bool
is_over nr_proc remote_stop_count done = (remote_stop_count == nr_proc - 1) && done

-- The loop over what it makes of each message, from the state of its two locals.
unfoldable pub receiver_loop : ℕ → ℕ → Bool → List Verdict → Ending
receiver_loop nr_proc stops done [] =
    if is_over nr_proc stops done then closes [] else waits stops done
receiver_loop nr_proc stops done (v ∷ vs) =
    let rest : Ending = elim v [
      | stop ↦ receiver_loop nr_proc (stops + 1) done vs
      | local_done ↦ receiver_loop nr_proc stops true vs
      | fault f ↦ exits f
      | _ ↦ receiver_loop nr_proc stops done vs
    ] in
    if is_over nr_proc stops done then closes (v ∷ vs) else rest
