-- ===== src/Tests/Network/Closing.antt =====
-- The run on to its end: both processes call com_finalize, the last one stops the router.
use rp_maksym_zaveriukha.Base.{
  sym, ℕ, zero, suc, ◌<◌, ◌≡◌, ◌≢◌, false, true, none, some, arith, refl, ◌⊎◌,
}
use rp_maksym_zaveriukha.Com.Names.{own_name, eq_name, decimal, digits_of}
use rp_maksym_zaveriukha.Com.Region.{create_shared_region}
use rp_maksym_zaveriukha.Com.Segment.{
  create_process_segment, cleanup_old_segments_with_prefix, read_message_from_segment,
}
use rp_maksym_zaveriukha.Com.Buffer.{
  send_buffer_lock_checked, send_buffer_unlock_checked, wait_for_pending_acks,
  com_prepare_send_buffer, com_finish_send_buffer,
}
use rp_maksym_zaveriukha.Com.Send.{com_send}
use rp_maksym_zaveriukha.Com.Recv.{com_recv}
use rp_maksym_zaveriukha.Com.Router.{RouterPc, server_loop}
use rp_maksym_zaveriukha.Com.Finalize.{com_finalize}
use rp_maksym_zaveriukha.Com.Initialize.{
  fork_from, wait_ready, post_start, pass_start, com_initialize,
}
use rp_maksym_zaveriukha.Net.Thread.{idle, left, exited, thread_step}
use rp_maksym_zaveriukha.Net.System.{System, begin, Reach, later, router_turn, thread_turn}
use rp_maksym_zaveriukha.Tests.Network.{
  two_pids, rank_of, no_segments, two_pids-Pids, two_started, start, two_ranks, turned, routed,
  begun, turned-Reach, routed-Reach,
}
use rp_maksym_zaveriukha.Tests.Network.Channel.{finished, finished-Reach, below_four}
use rp_maksym_zaveriukha.Net.System.{leave, finalize}
use rp_maksym_zaveriukha.Net.Closing.{counted}
use rp_maksym_zaveriukha.Net.Channel.{logged_for}
use rp_maksym_zaveriukha.Net.Channel.Refinement.{Resting, nothing_lost}
use rp_maksym_zaveriukha.Tests.Network.{sender, receiver}
use rp_maksym_zaveriukha.Net.Closing.Shutdown.{router_stops_last}

abbrev pub turns : ℕ → ℕ → System → System
turns zero i s = s
turns (suc k) i s = turned i (turns k i s)

pub turns-Reach : (k i : ℕ) {s : System} → i < 4 → Reach 4 start s → Reach 4 start (turns k i s)
turns-Reach zero i lt r = r
turns-Reach (suc k) i lt r = turned-Reach i lt (turns-Reach k i lt r)

-- Threads 2 and 3 leave their start routines.
abbrev alone : System
alone = begun 3 leave (begun 2 leave finished)

-- Then process 0 finishes.
abbrev one_over : System
one_over = turns 7 0 (begun 0 finalize alone)

-- Then process 1, the last one.
abbrev all_over : System
all_over = turns 9 1 (begun 1 finalize one_over)

finished_idle_2 : (finished.threads 2).pc ≡ idle
unfolding com_initialize fork_from create_process_segment create_shared_region wait_ready post_start
    pass_start own_name eq_name decimal digits_of cleanup_old_segments_with_prefix thread_turn
    thread_step router_turn com_prepare_send_buffer com_finish_send_buffer com_send com_recv
    server_loop com_finalize send_buffer_lock_checked send_buffer_unlock_checked
    wait_for_pending_acks read_message_from_segment
finished_idle_2 = refl

finished_idle_3 : ((begun 2 leave finished).threads 3).pc ≡ idle
unfolding com_initialize fork_from create_process_segment create_shared_region wait_ready post_start
    pass_start own_name eq_name decimal digits_of cleanup_old_segments_with_prefix thread_turn
    thread_step router_turn com_prepare_send_buffer com_finish_send_buffer com_send com_recv
    server_loop com_finalize send_buffer_lock_checked send_buffer_unlock_checked
    wait_for_pending_acks read_message_from_segment
finished_idle_3 = refl

alone-Reach : Reach 4 start alone
alone-Reach =
    later (later finished-Reach (begin 2 leave (omega arith) finished_idle_2 tt))
      (begin 3 leave (omega arith) finished_idle_3 tt)

alone_idle : ((alone.threads 0).pc ≡ idle) × ((alone.threads 2).pc ≡ left)
unfolding com_initialize fork_from create_process_segment create_shared_region wait_ready post_start
    pass_start own_name eq_name decimal digits_of cleanup_old_segments_with_prefix thread_turn
    thread_step router_turn com_prepare_send_buffer com_finish_send_buffer com_send com_recv
    server_loop com_finalize send_buffer_lock_checked send_buffer_unlock_checked
    wait_for_pending_acks read_message_from_segment
alone_idle = (refl, refl)

one_not_zero : suc zero ≢ zero
one_not_zero e = cc

abbrev Others : ℕ → System → ℕ → Type 0
Others i s j = i ≢ j → (s.threads j).rank ≡ (s.threads i).rank → (s.threads j).pc ≡ left

alone-Others : (j : ℕ) → j < 4 → Others 0 alone j
unfolding com_initialize fork_from create_process_segment create_shared_region wait_ready post_start
    pass_start own_name eq_name decimal digits_of cleanup_old_segments_with_prefix thread_turn
    thread_step router_turn com_prepare_send_buffer com_finish_send_buffer com_send com_recv
    server_loop com_finalize send_buffer_lock_checked send_buffer_unlock_checked
    wait_for_pending_acks read_message_from_segment
alone-Others j lt =
    below_four (Others 0 alone) (λ ne same. absurd (ne refl))
      (λ ne same. absurd (one_not_zero same)) (λ ne same. refl)
      (λ ne same. absurd (one_not_zero same)) j lt

one_over-Reach : Reach 4 start one_over
one_over-Reach =
    turns-Reach 7 0 (omega arith)
      (later alone-Reach (begin 0 finalize (omega arith) alone_idle.0 alone-Others))

one_over_idle : ((one_over.threads 1).pc ≡ idle) × ((one_over.threads 0).pc ≡ exited false)
unfolding com_initialize fork_from create_process_segment create_shared_region wait_ready post_start
    pass_start own_name eq_name decimal digits_of cleanup_old_segments_with_prefix thread_turn
    thread_step router_turn com_prepare_send_buffer com_finish_send_buffer com_send com_recv
    server_loop com_finalize send_buffer_lock_checked send_buffer_unlock_checked
    wait_for_pending_acks read_message_from_segment
one_over_idle = (refl, refl)

one_over-Others : (j : ℕ) → j < 4 → Others 1 one_over j
unfolding com_initialize fork_from create_process_segment create_shared_region wait_ready post_start
    pass_start own_name eq_name decimal digits_of cleanup_old_segments_with_prefix thread_turn
    thread_step router_turn com_prepare_send_buffer com_finish_send_buffer com_send com_recv
    server_loop com_finalize send_buffer_lock_checked send_buffer_unlock_checked
    wait_for_pending_acks read_message_from_segment
one_over-Others j lt =
    below_four (Others 1 one_over) (λ ne same. absurd (one_not_zero (sym same)))
      (λ ne same. absurd (ne refl)) (λ ne same. absurd (one_not_zero (sym same))) (λ ne same. refl)
      j lt

all_over-Reach : Reach 4 start all_over
all_over-Reach =
    turns-Reach 9 1 (omega arith)
      (later one_over-Reach (begin 1 finalize (omega arith) one_over_idle.0 one_over-Others))

all_over_exited :
    ((all_over.threads 1).pc ≡ exited true) × (all_over.router ≡ some RouterPc.wait_full)
unfolding com_initialize fork_from create_process_segment create_shared_region wait_ready post_start
    pass_start own_name eq_name decimal digits_of cleanup_old_segments_with_prefix thread_turn
    thread_step router_turn com_prepare_send_buffer com_finish_send_buffer com_send com_recv
    server_loop com_finalize send_buffer_lock_checked send_buffer_unlock_checked
    wait_for_pending_acks read_message_from_segment
all_over_exited = (refl, refl)

stopped : (routed all_over).router ≡ none
unfolding com_initialize fork_from create_process_segment create_shared_region wait_ready post_start
    pass_start own_name eq_name decimal digits_of cleanup_old_segments_with_prefix thread_turn
    thread_step router_turn com_prepare_send_buffer com_finish_send_buffer com_send com_recv
    server_loop com_finalize send_buffer_lock_checked send_buffer_unlock_checked
    wait_for_pending_acks read_message_from_segment
stopped = refl

existing : 0 < (routed all_over).world.shared.nr_proc
unfolding com_initialize fork_from create_process_segment create_shared_region wait_ready post_start
    pass_start own_name eq_name decimal digits_of cleanup_old_segments_with_prefix thread_turn
    thread_step router_turn com_prepare_send_buffer com_finish_send_buffer com_send com_recv
    server_loop com_finalize send_buffer_lock_checked send_buffer_unlock_checked
    wait_for_pending_acks read_message_from_segment
existing = omega arith

router_stops_last_example :
    ((i : ℕ) × (i < 4)
      × (((routed all_over).threads i).rank ≡ 0)
      × (counted ((routed all_over).threads i).pc ≡ 1))
    × ((((routed all_over).threads 1).pc ≡ left) ⊎ (counted ((routed all_over).threads 1).pc ≡ 1))
router_stops_last_example =
    router_stops_last 2 4 99 two_pids rank_of none no_segments {s = routed all_over} two_pids-Pids
      two_started two_ranks (routed-Reach all_over-Reach) 0 1 existing (omega arith) stopped

over_rest : (j : ℕ) → j < 4 → Resting ((routed all_over).threads j).pc
unfolding com_initialize fork_from create_process_segment create_shared_region wait_ready post_start
    pass_start own_name eq_name decimal digits_of cleanup_old_segments_with_prefix thread_turn
    thread_step router_turn com_prepare_send_buffer com_finish_send_buffer com_send com_recv
    server_loop com_finalize send_buffer_lock_checked send_buffer_unlock_checked
    wait_for_pending_acks read_message_from_segment
over_rest j lt = below_four (λ j. Resting ((routed all_over).threads j).pc) tt tt tt tt j lt

over_empty : ((routed all_over).world.shared.slots 1).full ≡ 0
unfolding com_initialize fork_from create_process_segment create_shared_region wait_ready post_start
    pass_start own_name eq_name decimal digits_of cleanup_old_segments_with_prefix thread_turn
    thread_step router_turn com_prepare_send_buffer com_finish_send_buffer com_send com_recv
    server_loop com_finalize send_buffer_lock_checked send_buffer_unlock_checked
    wait_for_pending_acks read_message_from_segment
over_empty = refl

nothing_lost_example :
    logged_for sender receiver (routed all_over).sent
    ≡ logged_for sender receiver (routed all_over).got
nothing_lost_example =
    nothing_lost 2 4 99 two_pids rank_of none no_segments two_pids-Pids two_started two_ranks
      (routed-Reach all_over-Reach) sender receiver over_rest over_empty
