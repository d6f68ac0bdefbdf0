-- ===== src/Tests/Network.antt =====
-- Two processes of two threads each: thread 0 sends two bytes to process 1, where thread 1 receives.
pub mod Channel
pub mod Closing
pub mod Stops
pub mod Copied
pub mod Patterns
use rp_maksym_zaveriukha.Base.{
  ℕ, zero, suc, Bool, ◌+◌, ◌%◌, ◌<◌, ◌≡◌, ◌≢◌, false, true, length, total, [], ◌∷◌, Option, none,
  some, pos, arith, refl, Option-cases, inl, inr, ◌⊎◌, ◌++◌,
}
use rp_maksym_zaveriukha.Com.{Name, World, blocked, failed, already_active, not_active}
use rp_maksym_zaveriukha.Net.Weights.{routes, delivers, fills, awaits, owns, reads}
use rp_maksym_zaveriukha.Com.Names.{own_name, eq_name, decimal, digits_of}
use rp_maksym_zaveriukha.Com.Region.{destroy_shared_region, Segments, create_shared_region}
use rp_maksym_zaveriukha.Com.Segment.{
  create_process_segment, cleanup_old_segments_with_prefix, read_message_from_segment,
}
use rp_maksym_zaveriukha.Com.Buffer.{
  send_buffer_lock_checked, send_buffer_unlock_checked, wait_for_pending_acks,
  com_prepare_send_buffer, com_finish_send_buffer,
}
use rp_maksym_zaveriukha.Com.Send.{com_send}
use rp_maksym_zaveriukha.Com.Recv.{Message, com_recv}
use rp_maksym_zaveriukha.Com.Router.{RouterPc, server_loop}
use rp_maksym_zaveriukha.Com.Finalize.{com_finalize}
use rp_maksym_zaveriukha.Com.Initialize.{
  fresh_process, fork_from, wait_ready, post_start, pass_start, com_initialize,
}
use rp_maksym_zaveriukha.Net.Thread.{received, idle, left, exited, thread_step}
use rp_maksym_zaveriukha.Net.System.{
  System, Call, transmit, receive, entry, set_pc, route, turn, begin, Reach, here, later,
  router_turn, thread_turn,
}
use rp_maksym_zaveriukha.Net.Start.Forked.{Pids}
use rp_maksym_zaveriukha.Net.Destroyed.{Named, destroy_shared_region_lem}
use rp_maksym_zaveriukha.Net.Start.{Started, system_of, com_initialize_lem, com_initialize-Started}
use rp_maksym_zaveriukha.Net.Flow.{
  Logged, Carried, inbox_weight, carries, acked, uncounted, delivered_from,
}
use rp_maksym_zaveriukha.Net.Flow.Footprint.{writes_segment}
use rp_maksym_zaveriukha.Net.Delivery.{
  received_was_sent, inbox_describes_message, unread_not_rewritten, acks_balance,
}
use rp_maksym_zaveriukha.Net.Channel.{ChannelStep, view, logged_for}
use rp_maksym_zaveriukha.Net.Channel.Refinement.{channel_refined, received_in_order, nothing_lost}
use rp_maksym_zaveriukha.Net.Progress.Weighed.{Quiet}
use rp_maksym_zaveriukha.Net.Progress.Deadlock.{no_deadlock}
use rp_maksym_zaveriukha.Net.Safety.{
  mailbox_exclusive, inbox_exclusive, buffer_exclusive, buffer_checks_pass,
}

abbrev sender : ℕ
sender = 0

abbrev receiver : ℕ
receiver = 1

abbrev two_pids : ℕ → ℕ
two_pids i = 100 + i

abbrev rank_of : ℕ → ℕ
rank_of i = i % 2

abbrev no_segments : Segments
no_segments name = none

two_pids-Pids : Pids 2 two_pids
two_pids-Pids = record {
  distinct = λ a b ha hb e. omega (arith, e);
  small = λ a h. omega (arith, h);
}

com_initialize_lem_example :
    (w : World) × (com_initialize 2 99 two_pids none no_segments ≡ some w) × Started 2 two_pids w
com_initialize_lem_example = com_initialize_lem 2 99 two_pids none no_segments two_pids-Pids

abbrev two_processes : World
two_processes = elim (com_initialize 2 99 two_pids none no_segments) [
  | none ↦ record { shared = create_shared_region 0; procs = λ _. fresh_process; shm = no_segments }
  | some w ↦ w
]

two_started : com_initialize 2 99 two_pids none no_segments ≡ some two_processes
unfolding com_initialize fork_from create_process_segment create_shared_region wait_ready post_start
    pass_start own_name eq_name decimal digits_of cleanup_old_segments_with_prefix
two_started = refl

abbrev start : System
start = system_of two_processes rank_of

two_ranks : (i : ℕ) → i < 4 → rank_of i < 2
two_ranks i h = omega arith

abbrev or_stay : System → Option System → System
or_stay s none = s
or_stay s (some t) = t

abbrev turned : ℕ → System → System
turned i s = or_stay s (thread_turn i s)

abbrev routed : System → System
routed s = or_stay s (router_turn s)

abbrev begun : ℕ → Call → System → System
begun i c s = set_pc s i s.world (entry c)

turned-Reach : (i : ℕ) {s : System} → i < 4 → Reach 4 start s → Reach 4 start (turned i s)
turned-Reach i {s} h r = elim (Option-cases (thread_turn i s)) [
  | inl stays ↦ rw stays r
  | inr (t, e) ↦ rw e (later r (turn i h e))
]

routed-Reach : {s : System} → Reach 4 start s → Reach 4 start (routed s)
routed-Reach {s} r = elim (Option-cases (router_turn s)) [
  | inl stays ↦ rw stays r
  | inr (t, e) ↦ rw e (later r (route e))
]

abbrev pub sending_starts : System
sending_starts = begun 0 (transmit (5 ∷ 6 ∷ []) (pos 1 ∷ [])) start

-- Thread 0 holds the mailbox.
abbrev holding : System
holding = turned 0 (turned 0 (turned 0 (turned 0 (turned 0 (turned 0 (turned 0 sending_starts))))))

holding-Reach : Reach 4 start holding
holding-Reach = turned-Reach 0 (omega arith) (
    turned-Reach 0 (omega arith) (
      turned-Reach 0 (omega arith) (
        turned-Reach 0 (omega arith) (
          turned-Reach 0 (omega arith) (
            turned-Reach 0 (omega arith) (
              turned-Reach 0 (omega arith) (
                later here
                  (begin 0 (transmit (5 ∷ 6 ∷ []) (pos 1 ∷ [])) (omega arith) refl tt))))))))

-- Thread 0 waits for its delivery.
abbrev waiting : System
waiting = turned 0 holding

waiting-Reach : Reach 4 start waiting
waiting-Reach = turned-Reach 0 (omega arith) holding-Reach

-- The router has delivered, and thread 1 reads its inbox.
abbrev reading : System
reading = turned 1 (begun 1 receive (routed (routed (routed waiting))))

-- Where the threads stand.
positions :
    (fills (holding.threads 0).pc ≡ 1)
    × (owns 0 (holding.threads 0) ≡ 1)
    × (awaits (waiting.threads 0).pc ≡ 1)
    × ((routed (routed (routed waiting))).threads 1).pc ≡ idle
    × (reads 1 (reading.threads 1) ≡ 1)
unfolding com_initialize fork_from create_process_segment create_shared_region wait_ready post_start
    pass_start own_name eq_name decimal digits_of cleanup_old_segments_with_prefix thread_turn
    thread_step router_turn com_prepare_send_buffer com_finish_send_buffer com_send com_recv
    server_loop com_finalize send_buffer_lock_checked send_buffer_unlock_checked
    wait_for_pending_acks read_message_from_segment
positions = (refl, refl, refl, refl, refl)

reading-Reach : Reach 4 start reading
reading-Reach = turned-Reach 1 (omega arith) (
    later (routed-Reach (routed-Reach (routed-Reach waiting-Reach)))
      (begin 1 receive (omega arith) positions.3 tt))

mailbox_exclusive_example :
    (sender ≡ sender) × (routes holding.router ≡ 0) × (holding.world.shared.server_box.full ≡ 0)
mailbox_exclusive_example =
    mailbox_exclusive 2 4 99 two_pids rank_of none no_segments {s = holding} two_pids-Pids
      two_started two_ranks holding-Reach 0 0 (omega arith) (omega arith) positions.0 positions.0

inbox_exclusive_example : (receiver ≡ receiver) × (delivers 1 reading.router ≡ 0)
inbox_exclusive_example =
    inbox_exclusive 2 4 99 two_pids rank_of none no_segments {s = reading} two_pids-Pids two_started
      two_ranks reading-Reach 1 1 1 (omega arith) (omega arith) positions.4 positions.4

buffer_exclusive_example : sender ≡ sender
buffer_exclusive_example =
    buffer_exclusive 2 4 99 two_pids rank_of none no_segments {s = holding} two_pids-Pids
      two_started two_ranks holding-Reach 0 0 0 (omega arith) (omega arith) positions.1 positions.1

abbrev foreign_name : Name
foreign_name = b'/' ∷ b'x' ∷ []

two_Started : Started 2 two_pids two_processes
two_Started = com_initialize-Started 2 99 two_pids none no_segments two_pids-Pids two_started

two_Named : (r : ℕ) → r < 2 → Named two_pids two_processes.shared.slots two_processes.shm r
two_Named r h = record {
  name = (two_Started.segmented r h).0;
  bytes = [];
  there = (two_Started.segmented r h).1;
}

two_foreign : (r : ℕ) → r < 2 → eq_name (own_name (two_pids r)) foreign_name ≡ false
unfolding eq_name own_name
two_foreign r h = refl

destroy_shared_region_lem_example :
    (shm' : Segments) × (destroy_shared_region two_processes.shared two_processes.shm ≡ some shm')
    × ((r : ℕ) → r < 2 → shm' (own_name (two_pids r)) ≡ none)
    × (shm' foreign_name ≡ two_processes.shm foreign_name)
destroy_shared_region_lem_example =
    destroy_shared_region_lem 2 two_pids two_processes.shared two_processes.shm foreign_name
      two_pids-Pids two_Started.initial.count two_Named two_foreign

-- The router has handed the message to process 1, which has not asked for it yet.
abbrev delivered : System
delivered = routed (routed (routed waiting))

delivered-Reach : Reach 4 start delivered
delivered-Reach = routed-Reach (routed-Reach (routed-Reach waiting-Reach))

-- Thread 1 has returned from com_recv.
abbrev after_recv : System
after_recv = turned 1 (turned 1 (turned 1 (turned 1 reading)))

after_recv-Reach : Reach 4 start after_recv
after_recv-Reach = turned-Reach 1 (omega arith) (
    turned-Reach 1 (omega arith)
      (turned-Reach 1 (omega arith) (turned-Reach 1 (omega arith) reading-Reach)))

-- The same message on its way, while thread 3, also of process 1, prepares its own segment.
abbrev preparing_beside : System
preparing_beside = turned 3 (turned 3 (begun 3 (transmit (9 ∷ []) (pos 0 ∷ [])) delivered))

abbrev the_message : Message
the_message = record { bytes = 5 ∷ 6 ∷ []; size = 2 }

later_positions :
    ((after_recv.threads 1).pc ≡ received the_message)
    × (0 < (delivered.world.shared.slots 1).full)
    × ((delivered.threads 3).pc ≡ idle)
    × (writes_segment (preparing_beside.threads 3).pc ≡ true)
    × (0 < (preparing_beside.world.shared.slots 1).full)
    × (1 < preparing_beside.world.shared.nr_proc)
unfolding com_initialize fork_from create_process_segment create_shared_region wait_ready post_start
    pass_start own_name eq_name decimal digits_of cleanup_old_segments_with_prefix thread_turn
    thread_step router_turn com_prepare_send_buffer com_finish_send_buffer com_send com_recv
    server_loop com_finalize send_buffer_lock_checked send_buffer_unlock_checked
    wait_for_pending_acks read_message_from_segment
later_positions = (refl, omega arith, refl, refl, omega arith, omega arith)

preparing_beside-Reach : Reach 4 start preparing_beside
preparing_beside-Reach = turned-Reach 3 (omega arith) (
    turned-Reach 3 (omega arith) (
      later delivered-Reach
        (begin 3 (transmit (9 ∷ []) (pos 0 ∷ [])) (omega arith) later_positions.2 tt)))

received_was_sent_example :
    (the_message.size ≡ length the_message.bytes)
    × ((src : ℕ) × Logged src (pos (after_recv.threads 1).rank) the_message.bytes after_recv.sent)
received_was_sent_example =
    received_was_sent 2 4 99 two_pids rank_of none no_segments {s = after_recv} two_pids-Pids
      two_started two_ranks after_recv-Reach 1 the_message (omega arith) later_positions.0

inbox_describes_message_example :
    (1 < delivered.world.shared.nr_proc) × Carried delivered.world delivered.sent 1
inbox_describes_message_example =
    inbox_describes_message 2 4 99 two_pids rank_of none no_segments {s = delivered} two_pids-Pids
      two_started two_ranks delivered-Reach 1 later_positions.1

unread_not_rewritten_example :
    (inbox_weight (preparing_beside.threads 3).rank (preparing_beside.world.shared.slots 1) ≡ 0)
    × (carries (preparing_beside.threads 3).rank (preparing_beside.threads 1) ≡ 0)
unread_not_rewritten_example =
    unread_not_rewritten 2 4 99 two_pids rank_of none no_segments {s = preparing_beside}
      two_pids-Pids two_started two_ranks preparing_beside-Reach 3 1 1 (omega arith)
      later_positions.5 (omega arith) later_positions.3

acks_balance_example :
    (reading.world.shared.slots 0).ack_full
      + total (inbox_weight 0) reading.world.shared.nr_proc reading.world.shared.slots
      + total (carries 0) 4 reading.threads
      + total (acked 0) 4 reading.threads
    ≡ (reading.world.shared.slots 0).pending_acks
      + delivered_from 0 reading.world reading.router
      + total (uncounted 0) 4 reading.threads
acks_balance_example =
    acks_balance 2 4 99 two_pids rank_of none no_segments {s = reading} two_pids-Pids two_started
      two_ranks reading-Reach 0
