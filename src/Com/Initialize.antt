-- ===== src/Com/Initialize.antt =====
-- com_initialize of rpBenchmark2/com.c: the region, the forked processes and their segments, and the
-- two semaphores that hold the processes back until all segments are there. The process ids are what
-- `fork` returns, and the directory is what `readdir` lists. The children are run in the order of
-- their ranks up to the barrier; what they write is disjoint.
use rp_maksym_zaveriukha.Base.{
  ℕ, zero, suc, ◌+◌, ◌-◌, ◌==◌, true, false, List, Option, none, some, pos, if◌then◌else◌,
}
use rp_maksym_zaveriukha.Com.{Name, World, Process, returned, set_slot}
use rp_maksym_zaveriukha.Com.Region.{Segments, create_shared_region}
use rp_maksym_zaveriukha.Com.Segment.{create_process_segment, cleanup_old_segments_with_prefix}

-- The static variables as they are initialised.
abbrev pub fresh_process : Process
fresh_process = record {
  next_msg_id = 1;
  mapped = false;
  mapping_capacity = 0;
  locked = false;
  active = false;
  attached = true;
}

abbrev pub set_ready : World → ℕ → World
set_ready w v = record w { shared = record (w.shared) { ready_sem = v } }

abbrev pub set_start : World → ℕ → World
set_start w v = record w { shared = record (w.shared) { start_sem = v } }

-- `slots[i].pid = pid` in the parent, then the child `i` up to its sem_wait(start_sem); `none` where
-- a process stops with an error. `k` rounds are left.
unfoldable pub fork_from : ℕ → ℕ → (ℕ → ℕ) → World → Option World
fork_from zero i pids w = some w
fork_from (suc k) i pids w =
    elim (create_process_segment i (pids i)
      (set_slot w i (record (w.shared.slots i) { pid = pos (pids i) }))) [
        | returned w' _ ↦ fork_from k (i + 1) pids (set_ready w' (w'.shared.ready_sem + 1))
        | _ ↦ none
      ]

-- `for (i = 0; i < nr_proc; i++) sem_wait(&ready_sem)`; `none` where the parent would wait for ever.
unfoldable pub wait_ready : ℕ → World → Option World
wait_ready zero w = some w
wait_ready (suc k) w =
    let rest = wait_ready k (set_ready w (w.shared.ready_sem - 1)) in
    if w.shared.ready_sem == 0 then none else rest

unfoldable pub post_start : ℕ → World → World
post_start zero w = w
post_start (suc k) w = post_start k (set_start w (w.shared.start_sem + 1))

-- The children's sem_wait(start_sem), one for each process.
unfoldable pub pass_start : ℕ → World → Option World
pass_start zero w = some w
pass_start (suc k) w =
    let rest = pass_start k (set_start w (w.shared.start_sem - 1)) in
    if w.shared.start_sem == 0 then none else rest

-- The world in which every user process has returned from com_initialize.
unfoldable pub com_initialize :
    ℕ → (router_pid : ℕ) → (pids : ℕ → ℕ) → Option (List Name) → Segments → Option World
com_initialize nr_proc router_pid pids entries shm = elim (fork_from nr_proc 0 pids forked) [
  | none ↦ none
  | some w ↦ elim (wait_ready nr_proc w) [
    | none ↦ none
    | some w' ↦ pass_start nr_proc (post_start nr_proc w')
  ]
]
  where
    forked : World
    forked = record {
      shared = record (create_shared_region nr_proc) { server_pid = pos router_pid };
      procs = λ _. fresh_process;
      shm = cleanup_old_segments_with_prefix entries shm;
    }
