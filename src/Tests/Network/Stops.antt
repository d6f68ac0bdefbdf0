-- ===== src/Tests/Network/Stops.antt =====
-- Process 0 of the database sends its request and its STOP to process 1, whose compute thread sends
-- LOCAL_DONE.
use rp_maksym_zaveriukha.Base.{pos, ℕ, zero, suc, ◌<◌, ◌≡◌, false, [], ◌∷◌, none, arith, refl, ◌++◌}
use rp_maksym_zaveriukha.Com.Names.{own_name, eq_name, decimal, digits_of}
use rp_maksym_zaveriukha.Com.Region.{create_shared_region}
use rp_maksym_zaveriukha.Com.Segment.{
  create_process_segment, cleanup_old_segments_with_prefix, read_message_from_segment,
}
use rp_maksym_zaveriukha.Com.Buffer.{
  send_buffer_lock_checked, send_buffer_unlock_checked, wait_for_pending_acks,
  com_prepare_send_buffer, com_finish_send_buffer,
}
use rp_maksym_zaveriukha.Com.Send.{com_send}
use rp_maksym_zaveriukha.Com.Recv.{com_recv}
use rp_maksym_zaveriukha.Com.Router.{server_loop}
use rp_maksym_zaveriukha.Com.Finalize.{com_finalize}
use rp_maksym_zaveriukha.Com.Initialize.{
  fork_from, wait_ready, post_start, pass_start, com_initialize,
}
use rp_maksym_zaveriukha.Net.Thread.{idle, thread_step}
use rp_maksym_zaveriukha.Net.System.{
  transmit, System, receive, begin, Reach, here, later, router_turn, thread_turn,
}
use rp_maksym_zaveriukha.Net.Channel.{view, logged_for}
use rp_maksym_zaveriukha.Tests.Network.{
  two_pids, rank_of, no_segments, two_pids-Pids, two_started, start, two_ranks, routed, begun,
  routed-Reach,
}
use rp_maksym_zaveriukha.Base.{List, map, sym, ap, ◌∙◌}
use mathlib.Core.Path.{subst}
use rp_maksym_zaveriukha.Tests.Network.Closing.{turns, turns-Reach}
use rp_maksym_zaveriukha.Db.Message.{
  Padding, header_bytes, little_endian, read_header, from_little_endian, send_request,
  send_control_message, msg_stop, msg_local_done,
}
use rp_maksym_zaveriukha.Db.Compute.{Pads, key_of, target_of, request_of, stops_from, farewells}
use rp_maksym_zaveriukha.Db.Compute.Exchange.{
  expected_from, requests_from, compute_thread_main-expected_from,
}
use rp_maksym_zaveriukha.Db.Receiver.{closes, judge, receiver_loop}
use rp_maksym_zaveriukha.Program.{
  Runs, both_empty, from_first, nothing, to_rank, all_for, verdict, requests,
}
use rp_maksym_zaveriukha.Program.Closing.{closes_after_requests}

abbrev zeros : Padding
zeros = record { first = 0; second = 0; third = 0 }

abbrev no_pads : Pads
no_pads = record { request = λ i. zeros; control = λ i. zeros }

abbrev pub sent_on : ℕ → List ℕ → System → System
sent_on i msg s =
    routed (routed (routed (routed (turns 10 i (begun i (transmit msg (pos 1 ∷ [])) s)))))

-- Thread `i` sends a message to process 1, where thread 1 receives it.
abbrev pub exchanged : ℕ → List ℕ → System → System
exchanged i msg s = turns 6 i (turns 7 1 (begun 1 receive (sent_on i msg s)))

pub sent_on-Reach :
    (i : ℕ) (msg : List ℕ) {s : System}
    → i < 4
    → (s.threads i).pc ≡ idle
    → Reach 4 start s
    → Reach 4 start (sent_on i msg s)
sent_on-Reach i msg lt e run = routed-Reach (
    routed-Reach (
      routed-Reach (
        routed-Reach
          (turns-Reach 10 i lt (later run (begin i (transmit msg (pos 1 ∷ [])) lt e tt))))))

pub exchanged-Reach :
    (i : ℕ) (msg : List ℕ) {s : System}
    → i < 4
    → (s.threads i).pc ≡ idle
    → ((sent_on i msg s).threads 1).pc ≡ idle
    → Reach 4 start s
    → Reach 4 start (exchanged i msg s)
exchanged-Reach i msg lt e f run = turns-Reach 6 i lt (
    turns-Reach 7 1 (omega arith)
      (later (sent_on-Reach i msg lt e run) (begin 1 receive (omega arith) f tt)))

abbrev the_request : List ℕ
the_request = send_request zeros 0 0 0 8

abbrev the_stop : List ℕ
the_stop = send_control_message zeros 0 msg_stop

abbrev the_end : List ℕ
the_end = send_control_message zeros 1 msg_local_done

abbrev one_read : System
one_read = exchanged 0 the_request start

one_idle : ((sent_on 0 the_request start).threads 1).pc ≡ idle
unfolding com_initialize fork_from create_process_segment create_shared_region wait_ready post_start
    pass_start own_name eq_name decimal digits_of cleanup_old_segments_with_prefix thread_turn
    thread_step router_turn com_prepare_send_buffer com_finish_send_buffer com_send com_recv
    server_loop com_finalize send_buffer_lock_checked send_buffer_unlock_checked
    wait_for_pending_acks read_message_from_segment send_request header_bytes little_endian
one_idle = refl

one_read-Reach : Reach 4 start one_read
one_read-Reach = exchanged-Reach 0 the_request (omega arith) refl one_idle here

abbrev two_read : System
two_read = exchanged 0 the_stop one_read

two_idle : ((one_read.threads 0).pc ≡ idle) × (((sent_on 0 the_stop one_read).threads 1).pc ≡ idle)
unfolding com_initialize fork_from create_process_segment create_shared_region wait_ready post_start
    pass_start own_name eq_name decimal digits_of cleanup_old_segments_with_prefix thread_turn
    thread_step router_turn com_prepare_send_buffer com_finish_send_buffer com_send com_recv
    server_loop com_finalize send_buffer_lock_checked send_buffer_unlock_checked
    wait_for_pending_acks read_message_from_segment send_request send_control_message header_bytes
    little_endian
two_idle = (refl, refl)

two_read-Reach : Reach 4 start two_read
two_read-Reach = exchanged-Reach 0 the_stop (omega arith) two_idle.0 two_idle.1 one_read-Reach

abbrev all_read : System
all_read = exchanged 3 the_end two_read

all_idle : ((two_read.threads 3).pc ≡ idle) × (((sent_on 3 the_end two_read).threads 1).pc ≡ idle)
unfolding com_initialize fork_from create_process_segment create_shared_region wait_ready post_start
    pass_start own_name eq_name decimal digits_of cleanup_old_segments_with_prefix thread_turn
    thread_step router_turn com_prepare_send_buffer com_finish_send_buffer com_send com_recv
    server_loop com_finalize send_buffer_lock_checked send_buffer_unlock_checked
    wait_for_pending_acks read_message_from_segment send_request send_control_message header_bytes
    little_endian
all_idle = (refl, refl)

all_read-Reach : Reach 4 start all_read
all_read-Reach = exchanged-Reach 3 the_end (omega arith) all_idle.0 all_idle.1 two_read-Reach

all_logged :
    (logged_for 0 1 all_read.sent ≡ the_request ∷ the_stop ∷ [])
    × (logged_for 1 1 all_read.sent ≡ the_end ∷ [])
    × (all_for 1 all_read.got ≡ the_request ∷ the_stop ∷ the_end ∷ [])
unfolding com_initialize fork_from create_process_segment create_shared_region wait_ready post_start
    pass_start own_name eq_name decimal digits_of cleanup_old_segments_with_prefix thread_turn
    thread_step router_turn com_prepare_send_buffer com_finish_send_buffer com_send com_recv
    server_loop com_finalize send_buffer_lock_checked send_buffer_unlock_checked
    wait_for_pending_acks read_message_from_segment send_request send_control_message header_bytes
    little_endian
all_logged = (refl, refl, refl)

-- Each process makes one request of 8 bytes.
sends_of_0 :
    to_rank 1 (requests_from no_pads 0 2 8 0 1 ++ farewells no_pads 0 2 8)
    ≡ (the_request ∷ the_stop ∷ []) ++ []
unfolding request_of target_of key_of stops_from farewells
sends_of_0 = refl

sends_of_1 :
    to_rank 1 (requests_from no_pads 1 2 8 0 1 ++ farewells no_pads 1 2 8) ≡ (the_end ∷ []) ++ []
unfolding request_of target_of key_of stops_from farewells
sends_of_1 = refl

runs_0 : Runs 0 2 8 1 1 (the_request ∷ the_stop ∷ [])
runs_0 = record {
  answers = expected_from 8 0 1;
  sends = requests_from no_pads 0 2 8 0 1 ++ farewells no_pads 0 2 8;
  pads = no_pads;
  computed = compute_thread_main-expected_from no_pads 0 2 8 1 (expected_from 8 0 1) refl;
  begun = the_request ∷ the_stop ∷ [];
  rest = [];
  split = sends_of_0;
  responses = [];
  are_responses = nothing;
  merged = from_first the_request (from_first the_stop both_empty);
}

runs_1 : Runs 1 2 8 1 1 (the_end ∷ [])
runs_1 = record {
  answers = expected_from 8 0 1;
  sends = requests_from no_pads 1 2 8 0 1 ++ farewells no_pads 1 2 8;
  pads = no_pads;
  computed = compute_thread_main-expected_from no_pads 1 2 8 1 (expected_from 8 0 1) refl;
  begun = the_end ∷ [];
  rest = [];
  split = sends_of_1;
  responses = [];
  are_responses = nothing;
  merged = from_first the_end both_empty;
}

both_run : (r : ℕ) → r < 2 → Runs r 2 8 1 1 (logged_for r 1 all_read.sent)
both_run zero lt = subst (Runs 0 2 8 1 1) (sym all_logged.0) runs_0
both_run (suc zero) lt = subst (Runs 1 2 8 1 1) (sym all_logged.1) runs_1
both_run (suc (suc r)) lt = absurd (omega (arith, lt))

read_through :
    receiver_loop 2 0 false (map verdict (the_request ∷ the_stop ∷ the_end ∷ [])) ≡ closes []
unfolding receiver_loop judge read_header from_little_endian send_request send_control_message
    header_bytes little_endian
read_through = refl

closed : receiver_loop 2 0 false (map verdict (all_for 1 all_read.got)) ≡ closes []
closed = ap (λ ms. receiver_loop 2 0 false (map verdict ms)) all_logged.2 ∙ read_through

closes_after_requests_example :
    (requests (view 4 0 1 all_read).queue ≡ 0) × (requests (both_run 0 (omega arith)).rest ≡ 0)
closes_after_requests_example =
    closes_after_requests 2 4 99 two_pids rank_of none no_segments {s = all_read} two_pids-Pids
      two_started two_ranks all_read-Reach 8 1 1 (omega arith) (omega arith) (omega arith) both_run
      closed 0 (omega arith) (omega arith)
