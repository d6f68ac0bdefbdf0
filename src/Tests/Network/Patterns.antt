-- ===== src/Tests/Network/Patterns.antt =====
-- Process 0 of the all-to-all benchmark sends its first pattern to process 1, which receives it, and
-- then its second one.
use rp_maksym_zaveriukha.Base.{◌≡◌, [], ◌∷◌, none, arith, refl, ◌++◌}
use rp_maksym_zaveriukha.Com.Names.{own_name, eq_name, decimal, digits_of}
use rp_maksym_zaveriukha.Com.Region.{create_shared_region}
use rp_maksym_zaveriukha.Com.Segment.{
  create_process_segment, cleanup_old_segments_with_prefix, read_message_from_segment,
}
use rp_maksym_zaveriukha.Com.Buffer.{
  send_buffer_lock_checked, send_buffer_unlock_checked, wait_for_pending_acks,
  com_prepare_send_buffer, com_finish_send_buffer,
}
use rp_maksym_zaveriukha.Com.Send.{com_send}
use rp_maksym_zaveriukha.Com.Recv.{com_recv}
use rp_maksym_zaveriukha.Com.Router.{server_loop}
use rp_maksym_zaveriukha.Com.Finalize.{com_finalize}
use rp_maksym_zaveriukha.Com.Initialize.{
  fork_from, wait_ready, post_start, pass_start, com_initialize,
}
use rp_maksym_zaveriukha.Net.Thread.{idle, thread_step}
use rp_maksym_zaveriukha.Net.System.{System, Reach, here, router_turn, thread_turn}
use rp_maksym_zaveriukha.Net.Channel.{view, logged_for}
use rp_maksym_zaveriukha.Tests.Network.{
  two_pids, rank_of, no_segments, two_pids-Pids, two_started, start, two_ranks,
}
use rp_maksym_zaveriukha.AllToAll.{
  fill_message, fill_from, sends_from, cycles_from, sender_thread_main,
}
use rp_maksym_zaveriukha.Tests.Network.Stops.{sent_on, sent_on-Reach, exchanged, exchanged-Reach}
use rp_maksym_zaveriukha.Program.{to_rank}
use rp_maksym_zaveriukha.Program.Patterns.{patterns_from, patterns_arrive}

abbrev first : System
first = exchanged 0 (65 ∷ 66 ∷ []) start

first_idle :
    (((sent_on 0 (65 ∷ 66 ∷ []) start).threads 1).pc ≡ idle) × ((first.threads 0).pc ≡ idle)
unfolding com_initialize fork_from create_process_segment create_shared_region wait_ready post_start
    pass_start own_name eq_name decimal digits_of cleanup_old_segments_with_prefix thread_turn
    thread_step router_turn com_prepare_send_buffer com_finish_send_buffer com_send com_recv
    server_loop com_finalize send_buffer_lock_checked send_buffer_unlock_checked
    wait_for_pending_acks read_message_from_segment
first_idle = (refl, refl)

-- The second pattern lies in the inbox.
abbrev second : System
second = sent_on 0 (66 ∷ 67 ∷ []) first

second-Reach : Reach 4 start second
second-Reach =
    sent_on-Reach 0 (66 ∷ 67 ∷ []) (omega arith) first_idle.1
      (exchanged-Reach 0 (65 ∷ 66 ∷ []) (omega arith) refl first_idle.0 here)

-- Three cycles of two bytes: the third pattern is still to come.
second_program :
    to_rank 1 (sender_thread_main 0 2 2 3) ≡ logged_for 0 1 second.sent ++ ((67 ∷ 68 ∷ []) ∷ [])
unfolding com_initialize fork_from create_process_segment create_shared_region wait_ready post_start
    pass_start own_name eq_name decimal digits_of cleanup_old_segments_with_prefix thread_turn
    thread_step router_turn com_prepare_send_buffer com_finish_send_buffer com_send com_recv
    server_loop com_finalize send_buffer_lock_checked send_buffer_unlock_checked
    wait_for_pending_acks read_message_from_segment fill_message fill_from sends_from cycles_from
    sender_thread_main
second_program = refl

patterns_arrive_example :
    patterns_from 0 2 0 3
    ≡ logged_for 0 1 second.got ++ ((view 4 0 1 second).queue ++ ((67 ∷ 68 ∷ []) ∷ []))
patterns_arrive_example =
    patterns_arrive 2 4 99 two_pids rank_of none no_segments {s = second} two_pids-Pids two_started
      two_ranks second-Reach 0 1 2 3 ((67 ∷ 68 ∷ []) ∷ []) (omega arith) (omega arith)
      second_program
