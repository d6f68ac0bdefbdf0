-- ===== src/Tests/Network/Copied.antt =====
-- Thread 0 is about to copy its message into the send buffer.
use rp_maksym_zaveriukha.Base.{pos, ◌<◌, ◌≡◌, true, [], ◌∷◌, none, arith, refl}
use rp_maksym_zaveriukha.Com.Names.{own_name, eq_name, decimal, digits_of}
use rp_maksym_zaveriukha.Com.Region.{create_shared_region}
use rp_maksym_zaveriukha.Com.Segment.{
  create_process_segment, cleanup_old_segments_with_prefix, read_message_from_segment,
}
use rp_maksym_zaveriukha.Com.Buffer.{
  send_buffer_lock_checked, send_buffer_unlock_checked, wait_for_pending_acks,
  com_prepare_send_buffer, com_finish_send_buffer,
}
use rp_maksym_zaveriukha.Com.Send.{com_send}
use rp_maksym_zaveriukha.Com.Recv.{com_recv}
use rp_maksym_zaveriukha.Com.Router.{server_loop}
use rp_maksym_zaveriukha.Com.Finalize.{com_finalize}
use rp_maksym_zaveriukha.Com.Initialize.{
  fork_from, wait_ready, post_start, pass_start, com_initialize,
}
use rp_maksym_zaveriukha.Net.Thread.{thread_step}
use rp_maksym_zaveriukha.Net.System.{
  transmit, System, begin, Reach, here, later, router_turn, thread_turn,
}
use rp_maksym_zaveriukha.Tests.Network.{
  two_pids, rank_of, no_segments, two_pids-Pids, two_started, start, two_ranks,
}
use rp_maksym_zaveriukha.Base.{◌≤◌}
use rp_maksym_zaveriukha.Net.Thread.{writing}
use rp_maksym_zaveriukha.Net.Sound.Mapped.{room}
use rp_maksym_zaveriukha.Net.Sound.Copied.{copy_within_mapping}
use rp_maksym_zaveriukha.Tests.Network.{sending_starts}
use rp_maksym_zaveriukha.Tests.Network.Closing.{turns, turns-Reach}

abbrev copying : System
copying = turns 3 0 sending_starts

copying-Reach : Reach 4 start copying
copying-Reach =
    turns-Reach 3 0 (omega arith)
      (later here (begin 0 (transmit (5 ∷ 6 ∷ []) (pos 1 ∷ [])) (omega arith) refl tt))

copying_pc : (copying.threads 0).pc ≡ writing (5 ∷ 6 ∷ []) (pos 1 ∷ [])
unfolding com_initialize fork_from create_process_segment create_shared_region wait_ready post_start
    pass_start own_name eq_name decimal digits_of cleanup_old_segments_with_prefix thread_turn
    thread_step router_turn com_prepare_send_buffer com_finish_send_buffer com_send com_recv
    server_loop com_finalize send_buffer_lock_checked send_buffer_unlock_checked
    wait_for_pending_acks read_message_from_segment
copying_pc = refl

copy_within_mapping_example :
    (2 ≤ (copying.world.procs (copying.threads 0).rank).mapping_capacity)
    × (0 < 2 → (copying.world.procs (copying.threads 0).rank).mapped ≡ true)
    × ((copying.world.procs (copying.threads 0).rank).mapping_capacity
        ≤ room copying.world (copying.threads 0).rank)
copy_within_mapping_example =
    copy_within_mapping 2 4 99 two_pids rank_of none no_segments {s = copying} two_pids-Pids
      two_started two_ranks copying-Reach 0 (5 ∷ 6 ∷ []) (pos 1 ∷ []) (omega arith) copying_pc
