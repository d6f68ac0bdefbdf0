-- ===== src/Tests/Database.antt =====
-- The parts of the database benchmark at concrete inputs.
use rp_maksym_zaveriukha.Base.{
  ℕ, ◌+◌, ◌-◌, ◌%◌, ◌<◌, ◌≡◌, ◌==◌, ◌&&◌, ◌++◌, ◌↔◌, pos, false, List, [], ◌∷◌, some, arith, refl,
  length, replicate, length-replicate, if◌then◌else◌,
}
use rp_maksym_zaveriukha.Db.Queue.{
  QueueItem, request_queue_capacity, no_item, PushPc, PopPc, request_queue_init, request_queue_push,
  request_queue_pop, request_queue_close,
}
use rp_maksym_zaveriukha.Db.Queue.Contents.{contents}
use rp_maksym_zaveriukha.Db.Queue.Pipe.{
  pushing, finished, popping, stopped, Move, offer, shut, ask, produce, consume, pipe_step, run,
  pipe_start,
}
use rp_maksym_zaveriukha.Db.Queue.Pipe.Order.{
  in_hand, posts, pipe_order, stop_means_drained, no_lost_wakeup, room_for_push,
}
use rp_maksym_zaveriukha.Db.Slot.{SetPc, response_slot_init, response_slot_set, response_slot_wait}
use rp_maksym_zaveriukha.Db.Slot.Handover.{
  setting, Move as SlotMove, give, expect, set, wait, handover_step, play, handover_start,
}
use rp_maksym_zaveriukha.Db.Slot.Handover.Order.{in_hand as slot_in_hand, unread, slot_order}
use rp_maksym_zaveriukha.Db.Payload.{fill_response_payload, checksum_payload}
use rp_maksym_zaveriukha.Db.Payload.Checksum.{checksum_zero_iff}
use rp_maksym_zaveriukha.Db.Message.{
  MessageHeader, Padding, header_size, total_size, header_bytes, read_header, send_request,
  send_response,
}
use rp_maksym_zaveriukha.Db.Message.RoundTrip.{read_header-header_bytes}
use rp_maksym_zaveriukha.Db.Receiver.{
  Verdict, judge, receiver_loop, closes, stop, local_done, to_handler, to_compute, fault,
  bad_checksum,
}
use rp_maksym_zaveriukha.Db.Receiver.Accepts.{judge-send_response}
use rp_maksym_zaveriukha.Db.Receiver.Loop.{Read, closes-Read, receiver_loop_ends}
use rp_maksym_zaveriukha.Db.Compute.{target_of, handle_request, compute_thread_main, sent}
use rp_maksym_zaveriukha.Db.Compute.Target.{round_robin}
use rp_maksym_zaveriukha.Base.{ltb, ◌^◌, take}
use rp_maksym_zaveriukha.Db.Message.{response_bytes}
use rp_maksym_zaveriukha.Db.Compute.{Pads, Send, responds, overruns}
use rp_maksym_zaveriukha.Program.Said.{Said}
use rp_maksym_zaveriukha.Program.Finishes.{compute_thread_finishes}
use rp_maksym_zaveriukha.Db.Compute.Exchange.{handle_request-send_request, expected_from}

abbrev blank : List QueueItem
blank = replicate request_queue_capacity no_item

blank_size : length blank ≡ request_queue_capacity
blank_size = length-replicate request_queue_capacity no_item

abbrev first : QueueItem
first = record { msg = 1 ∷ []; size = 1 }

abbrev second : QueueItem
second = record { msg = 2 ∷ []; size = 1 }

-- Two pushes with a pop between their steps.
abbrev two_pushes : List Move
two_pushes =
    offer first
    ∷ produce
    ∷ ask
    ∷ consume
    ∷ produce
    ∷ produce
    ∷ consume
    ∷ consume
    ∷ offer second
    ∷ produce
    ∷ produce
    ∷ []

pipe_order_example :
    (run two_pushes (pipe_start blank)).accepted
    ≡ (run two_pushes (pipe_start blank)).taken
      ++ (in_hand (run two_pushes (pipe_start blank)).consumer
          ++ contents (run two_pushes (pipe_start blank)).queue)
pipe_order_example = pipe_order two_pushes blank blank_size

-- A push, a pop, then the queue is closed and the consumer asks again.
abbrev to_the_end : List Move
to_the_end =
    offer first
    ∷ produce
    ∷ produce
    ∷ produce
    ∷ shut
    ∷ produce
    ∷ produce
    ∷ ask
    ∷ consume
    ∷ consume
    ∷ consume
    ∷ ask
    ∷ consume
    ∷ consume
    ∷ []

to_the_end-stopped : (run to_the_end (pipe_start blank)).consumer ≡ stopped
unfolding run pipe_step pipe_start request_queue_init request_queue_push request_queue_pop
    request_queue_close
to_the_end-stopped = refl

stop_means_drained_example :
    ((run to_the_end (pipe_start blank)).producer ≡ finished)
    × ((run to_the_end (pipe_start blank)).taken ≡ (run to_the_end (pipe_start blank)).accepted)
stop_means_drained_example = stop_means_drained to_the_end blank blank_size to_the_end-stopped

-- The consumer asks before anything is pushed, and a push is under way.
abbrev asks_first : List Move
asks_first = ask ∷ offer first ∷ produce ∷ []

asks_first-waits :
    ((run asks_first (pipe_start blank)).consumer ≡ popping PopPc.wait_item)
    × ((run asks_first (pipe_start blank)).queue.items_sem ≡ 0)
    × (posts (run asks_first (pipe_start blank)).producer ≡ 0)
    × ((run asks_first (pipe_start blank)).producer ≡ pushing first PushPc.locked)
unfolding run pipe_step pipe_start request_queue_init request_queue_push request_queue_pop
    request_queue_close
asks_first-waits = (refl, refl, refl, refl)

no_lost_wakeup_example :
    ((run asks_first (pipe_start blank)).queue.count ≡ 0)
    × ((run asks_first (pipe_start blank)).queue.closed ≡ false)
no_lost_wakeup_example =
    no_lost_wakeup asks_first blank blank_size asks_first-waits.0 asks_first-waits.1
      asks_first-waits.2 (ground (arith, asks_first-waits.3))

room_for_push_example : (run asks_first (pipe_start blank)).queue.count < request_queue_capacity
room_for_push_example = room_for_push asks_first blank blank_size first asks_first-waits.3

abbrev zeros : Padding
zeros = record { first = 0; second = 0; third = 0 }

abbrev some_header : MessageHeader
some_header = record {
  type = 1;
  request_id = 300;
  source_rank = 2;
  key = 2000300;
  response_size = 70000;
}

read_header-header_bytes_example :
    (length (header_bytes zeros some_header) ≡ header_size)
    × (read_header (header_bytes zeros some_header ++ (9 ∷ [])) ≡ some_header)
read_header-header_bytes_example = read_header-header_bytes zeros some_header (9 ∷ []) (record {
  type = omega arith;
  request_id = omega arith;
  source_rank = omega arith;
  key = omega arith;
  response_size = omega arith;
})

abbrev one_byte : ℕ
one_byte = 1

-- Request 96 of process 1, which has the key 1000096, is answered by process 0 with one byte.
checksum_zero_iff_example :
    (checksum_payload (fill_response_payload one_byte 0 96 1000096) ≡ 0)
    ↔ ((one_byte ≡ 1) × ((0 + 96 + 1000096) % 256 ≡ 0))
checksum_zero_iff_example = checksum_zero_iff one_byte 0 96 1000096 (omega arith) (omega arith)

judge-send_response_example :
    (msg : List ℕ) × (send_response zeros 0 96 1000096 1 ≡ some msg)
    × (length msg ≡ total_size 1)
    × (judge msg (total_size 1) ≡ (
        if (1 == 1) && ((0 + 96 + 1000096) % 256 == 0)
        then fault bad_checksum
        else to_compute 96 1))
judge-send_response_example =
    judge-send_response zeros 0 96 1000096 (omega arith) (omega arith) (omega arith) 1 (omega arith)

-- Three processes: two STOPs and a LOCAL_DONE between other messages.
abbrev a_session : List Verdict
a_session = to_handler ∷ stop ∷ to_compute 0 8 ∷ local_done ∷ to_handler ∷ stop ∷ to_handler ∷ []

a_session-closes : receiver_loop 3 0 false a_session ≡ closes (to_handler ∷ [])
unfolding receiver_loop
a_session-closes = refl

closes-Read_example : Read 3 0 false a_session (to_handler ∷ [])
closes-Read_example = closes-Read 3 0 false a_session a_session-closes

receiver_loop_ends_example :
    (left : List Verdict) × (receiver_loop 3 0 false a_session ≡ closes left)
receiver_loop_ends_example = receiver_loop_ends 3 0 false a_session refl (omega arith) refl

handle_request-send_request_example :
    handle_request zeros 0 (send_request zeros 2 7 2000007 100) header_size ≡ (
      if ltb (header_size + 100) (2 ^ 64)
      then responds (2, response_bytes zeros 0 7 2000007 100)
      else overruns)
handle_request-send_request_example =
    handle_request-send_request zeros zeros 0 2 7 2000007 100 (omega arith) (omega arith)
      (omega arith) (omega arith)

abbrev no_pads : Pads
no_pads = record { request = λ i. zeros; control = λ i. zeros }

compute_thread_finishes_example : (take 2 ((0, 100) ∷ (1, 100) ∷ []) ≡ expected_from 100 0 2) ↔ (
    (ms : List Send) × (compute_thread_main no_pads 1 3 100 2 ((0, 100) ∷ (1, 100) ∷ []) ≡ sent ms)
    × Said 1 100 2 2 ms)
compute_thread_finishes_example =
    compute_thread_finishes no_pads 1 3 100 2 2 ((0, 100) ∷ (1, 100) ∷ []) (omega arith)
      (omega arith) (omega arith) (omega arith) (omega arith)

round_robin_example :
    (i : ℕ) × (i < 3 - 1)
    × (target_of 1 3 (4 + i) ≡ 0)
    × ((j : ℕ) → j < 3 - 1 → target_of 1 3 (4 + j) ≡ 0 → j ≡ i)
round_robin_example = round_robin 1 3 4 (omega arith) refl 0 (omega arith) (omega arith)

-- The receiver thread gives the responses 7 and 8, the compute thread waits for 7 meanwhile.
abbrev two_responses : List SlotMove
two_responses =
    expect (pos 7)
    ∷ give (pos 7) 64
    ∷ set
    ∷ set
    ∷ set
    ∷ wait
    ∷ give (pos 8) 64
    ∷ wait
    ∷ wait
    ∷ set
    ∷ []

two_responses-free : (play two_responses handover_start).setter ≡ setting (pos 8) 64 SetPc.locked
unfolding play handover_step handover_start response_slot_init response_slot_set response_slot_wait
two_responses-free = refl

slot_order_example :
    (play two_responses handover_start).given
    ≡ (play two_responses handover_start).taken
      ++ (slot_in_hand (play two_responses handover_start).waiter
          ++ unread (play two_responses handover_start))
slot_order_example = slot_order two_responses
