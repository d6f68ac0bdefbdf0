-- ===== src/Tests/Network/Channel.antt =====
-- One message through the channel, and the state after it in which everything waits.
use rp_maksym_zaveriukha.Base.{
  pos, ℕ, zero, suc, Bool, ◌<◌, ◌≡◌, ◌≢◌, false, true, [], ◌∷◌, Option, none, some, arith, refl,
  Option-cases, inl, inr, ◌++◌,
}
use rp_maksym_zaveriukha.Com.{blocked, failed, invalid_rank}
use rp_maksym_zaveriukha.Com.Names.{own_name, eq_name, decimal, digits_of}
use rp_maksym_zaveriukha.Com.Region.{create_shared_region}
use rp_maksym_zaveriukha.Com.Segment.{
  create_process_segment, cleanup_old_segments_with_prefix, read_message_from_segment,
}
use rp_maksym_zaveriukha.Com.Buffer.{
  send_buffer_lock_checked, send_buffer_unlock_checked, wait_for_pending_acks,
  com_prepare_send_buffer, com_finish_send_buffer,
}
use rp_maksym_zaveriukha.Com.Send.{com_send}
use rp_maksym_zaveriukha.Com.Recv.{com_recv}
use rp_maksym_zaveriukha.Com.Router.{RouterPc, server_loop}
use rp_maksym_zaveriukha.Com.Finalize.{com_finalize}
use rp_maksym_zaveriukha.Com.Initialize.{
  fork_from, wait_ready, post_start, pass_start, com_initialize,
}
use rp_maksym_zaveriukha.Net.Thread.{idle, exited, thread_step}
use rp_maksym_zaveriukha.Net.System.{
  transmit, System, receive, turn, begin, Reach, later, router_turn, thread_turn,
}
use rp_maksym_zaveriukha.Net.Channel.{ChannelStep, view, logged_for}
use rp_maksym_zaveriukha.Net.Channel.Refinement.{channel_refined, received_in_order}
use rp_maksym_zaveriukha.Net.Progress.Weighed.{Quiet}
use rp_maksym_zaveriukha.Net.Progress.Deadlock.{no_deadlock}
use rp_maksym_zaveriukha.Net.Sound.Exits.{WrongRank, only_wrong_ranks_exit, router_never_exits}
use rp_maksym_zaveriukha.Tests.Network.{
  sender, receiver, two_pids, rank_of, no_segments, two_pids-Pids, two_started, start, two_ranks,
  turned, routed, begun, turned-Reach, routed-Reach, reading, reading-Reach, after_recv,
  after_recv-Reach,
}

abbrev is_some : Option System → Bool
is_some none = false
is_some (some t) = true

some-turned :
    (i : ℕ) (s : System) → is_some (thread_turn i s) ≡ true → thread_turn i s ≡ some (turned i s)
some-turned i s h = elim (Option-cases (thread_turn i s)) [
  | inl stays ↦ cc (stays, h)
  | inr (t, e) ↦ rw e refl
]

-- Thread 1 copies the message.
copies : is_some (thread_turn 1 reading) ≡ true
unfolding com_initialize fork_from create_process_segment create_shared_region wait_ready post_start
    pass_start own_name eq_name decimal digits_of cleanup_old_segments_with_prefix thread_turn
    thread_step router_turn com_prepare_send_buffer com_finish_send_buffer com_send com_recv
    server_loop com_finalize send_buffer_lock_checked send_buffer_unlock_checked
    wait_for_pending_acks read_message_from_segment
copies = refl

copied_log :
    (logged_for sender receiver reading.got ≡ [])
    × (logged_for sender receiver (turned 1 reading).got ≡ (5 ∷ 6 ∷ []) ∷ [])
unfolding com_initialize fork_from create_process_segment create_shared_region wait_ready post_start
    pass_start own_name eq_name decimal digits_of cleanup_old_segments_with_prefix thread_turn
    thread_step router_turn com_prepare_send_buffer com_finish_send_buffer com_send com_recv
    server_loop com_finalize send_buffer_lock_checked send_buffer_unlock_checked
    wait_for_pending_acks read_message_from_segment
copied_log = (refl, refl)

channel_refined_example :
    ChannelStep (view 4 sender receiver reading) (view 4 sender receiver (turned 1 reading))
channel_refined_example =
    channel_refined 2 4 99 two_pids rank_of none no_segments two_pids-Pids two_started two_ranks
      reading-Reach sender receiver (turn 1 (omega arith) (some-turned 1 reading copies))

received_in_order_example :
    logged_for sender receiver reading.sent
    ≡ logged_for sender receiver reading.got ++ (view 4 sender receiver reading).queue
received_in_order_example =
    received_in_order 2 4 99 two_pids rank_of none no_segments two_pids-Pids two_started two_ranks
      reading-Reach sender receiver

-- Both threads have finished their calls.
abbrev pub finished : System
finished = turned 0 (turned 0 (turned 0 (turned 0 (turned 0 (turned 1 (routed after_recv))))))

pub finished-Reach : Reach 4 start finished
finished-Reach = turned-Reach 0 (omega arith) (
    turned-Reach 0 (omega arith) (
      turned-Reach 0 (omega arith) (
        turned-Reach 0 (omega arith) (
          turned-Reach 0 (omega arith)
            (turned-Reach 1 (omega arith) (routed-Reach after_recv-Reach))))))

pub below_four : (P : ℕ → Type 0) → P 0 → P 1 → P 2 → P 3 → (j : ℕ) → j < 4 → P j
below_four P a b c d zero lt = a
below_four P a b c d (suc zero) lt = b
below_four P a b c d (suc (suc zero)) lt = c
below_four P a b c d (suc (suc (suc zero))) lt = d
below_four P a b c d (suc (suc (suc (suc k)))) lt = absurd (omega (arith, lt))

-- Then thread 1 asks for another message.
abbrev quiescent : System
quiescent = begun 1 receive finished

finished_idle : (finished.threads 1).pc ≡ idle
unfolding com_initialize fork_from create_process_segment create_shared_region wait_ready post_start
    pass_start own_name eq_name decimal digits_of cleanup_old_segments_with_prefix thread_turn
    thread_step router_turn com_prepare_send_buffer com_finish_send_buffer com_send com_recv
    server_loop com_finalize send_buffer_lock_checked send_buffer_unlock_checked
    wait_for_pending_acks read_message_from_segment
finished_idle = refl

quiescent-Reach : Reach 4 start quiescent
quiescent-Reach = later finished-Reach (begin 1 receive (omega arith) finished_idle tt)

quiescent_waits :
    (j : ℕ)
    → j < 4
    → thread_step (quiescent.threads j).rank (quiescent.threads j).pc quiescent.world ≡ blocked
unfolding com_initialize fork_from create_process_segment create_shared_region wait_ready post_start
    pass_start own_name eq_name decimal digits_of cleanup_old_segments_with_prefix thread_turn
    thread_step router_turn com_prepare_send_buffer com_finish_send_buffer com_send com_recv
    server_loop com_finalize send_buffer_lock_checked send_buffer_unlock_checked
    wait_for_pending_acks read_message_from_segment
quiescent_waits j lt =
    below_four
      (λ j.
        thread_step (quiescent.threads j).rank (quiescent.threads j).pc quiescent.world ≡ blocked)
      refl refl refl refl j lt

quiescent_router :
    (quiescent.router ≡ some RouterPc.wait_full)
    × (server_loop RouterPc.wait_full quiescent.world ≡ blocked)
unfolding com_initialize fork_from create_process_segment create_shared_region wait_ready post_start
    pass_start own_name eq_name decimal digits_of cleanup_old_segments_with_prefix thread_turn
    thread_step router_turn com_prepare_send_buffer com_finish_send_buffer com_send com_recv
    server_loop com_finalize send_buffer_lock_checked send_buffer_unlock_checked
    wait_for_pending_acks read_message_from_segment
quiescent_router = (refl, refl)

not_over : (j : ℕ) → j < 4 → (quiescent.threads j).pc ≢ exited true
unfolding com_initialize fork_from create_process_segment create_shared_region wait_ready post_start
    pass_start own_name eq_name decimal digits_of cleanup_old_segments_with_prefix thread_turn
    thread_step router_turn com_prepare_send_buffer com_finish_send_buffer com_send com_recv
    server_loop com_finalize send_buffer_lock_checked send_buffer_unlock_checked
    wait_for_pending_acks read_message_from_segment
not_over j lt =
    below_four (λ j. (quiescent.threads j).pc ≢ exited true) (λ e. cc) (λ e. cc) (λ e. cc) (λ e. cc)
      j lt

unread : (d : ℕ) → d < quiescent.world.shared.nr_proc → (quiescent.world.shared.slots d).full ≡ 0
unfolding com_initialize fork_from create_process_segment create_shared_region wait_ready post_start
    pass_start own_name eq_name decimal digits_of cleanup_old_segments_with_prefix thread_turn
    thread_step router_turn com_prepare_send_buffer com_finish_send_buffer com_send com_recv
    server_loop com_finalize send_buffer_lock_checked send_buffer_unlock_checked
    wait_for_pending_acks read_message_from_segment
unread zero lt = refl
unread (suc zero) lt = refl
unread (suc (suc k)) lt = absurd (omega (arith, lt))

no_deadlock_example : Quiet (quiescent.threads 1).pc
no_deadlock_example =
    no_deadlock 2 4 99 two_pids rank_of none no_segments {s = quiescent} two_pids-Pids two_started
      two_ranks quiescent-Reach RouterPc.wait_full quiescent_router.0 quiescent_router.1
      quiescent_waits not_over unread 1 (omega arith)

-- Thread 2, of process 0, calls com_send for a rank that does not exist.
abbrev astray : System
astray = turned 2 (
    turned 2 (
      turned 2 (
        turned 2
          (turned 2 (turned 2 (turned 2 (begun 2 (transmit (7 ∷ []) (pos 5 ∷ [])) finished)))))))

finished_idle_too : (finished.threads 2).pc ≡ idle
unfolding com_initialize fork_from create_process_segment create_shared_region wait_ready post_start
    pass_start own_name eq_name decimal digits_of cleanup_old_segments_with_prefix thread_turn
    thread_step router_turn com_prepare_send_buffer com_finish_send_buffer com_send com_recv
    server_loop com_finalize send_buffer_lock_checked send_buffer_unlock_checked
    wait_for_pending_acks read_message_from_segment
finished_idle_too = refl

astray-Reach : Reach 4 start astray
astray-Reach = turned-Reach 2 (omega arith) (
    turned-Reach 2 (omega arith) (
      turned-Reach 2 (omega arith) (
        turned-Reach 2 (omega arith) (
          turned-Reach 2 (omega arith) (
            turned-Reach 2 (omega arith) (
              turned-Reach 2 (omega arith) (
                later finished-Reach (
                  begin 2 (transmit (7 ∷ []) (pos 5 ∷ [])) (omega arith) finished_idle_too
                    tt))))))))

astray_fails :
    thread_step (astray.threads 2).rank (astray.threads 2).pc astray.world ≡ failed invalid_rank
unfolding com_initialize fork_from create_process_segment create_shared_region wait_ready post_start
    pass_start own_name eq_name decimal digits_of cleanup_old_segments_with_prefix thread_turn
    thread_step router_turn com_prepare_send_buffer com_finish_send_buffer com_send com_recv
    server_loop com_finalize send_buffer_lock_checked send_buffer_unlock_checked
    wait_for_pending_acks read_message_from_segment
astray_fails = refl

only_wrong_ranks_exit_example :
    (invalid_rank ≡ invalid_rank) × WrongRank astray.world (astray.threads 2).pc
only_wrong_ranks_exit_example =
    only_wrong_ranks_exit 2 4 99 two_pids rank_of none no_segments {s = astray} two_pids-Pids
      two_started two_ranks astray-Reach 2 invalid_rank (omega arith) astray_fails

router_never_exits_example : server_loop RouterPc.wait_full quiescent.world ≢ failed invalid_rank
router_never_exits_example =
    router_never_exits 2 4 99 two_pids rank_of none no_segments {s = quiescent} two_pids-Pids
      two_started two_ranks quiescent-Reach RouterPc.wait_full invalid_rank quiescent_router.0
