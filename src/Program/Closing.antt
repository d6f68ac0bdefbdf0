-- ===== src/Program/Closing.antt =====
-- The state in which receiver_thread_main closes the request queue: "no new REQUEST messages should
-- arrive".
use rp_maksym_zaveriukha.Base.{
  ℕ, ◌+◌, ◌-◌, ◌<◌, ◌≤◌, ◌≡◌, ◌≢◌, ◌==◌, ◌^◌, List, ◌++◌, Option, some, false, map, arith, ap, ◌∙◌,
  sym, below_add, below_one, full_shares, if◌then◌else◌,
}
use rp_maksym_zaveriukha.Com.{Name, World}
use rp_maksym_zaveriukha.Com.Region.{Segments}
use rp_maksym_zaveriukha.Com.Initialize.{com_initialize}
use rp_maksym_zaveriukha.Net.System.{System, Reach}
use rp_maksym_zaveriukha.Net.Start.Forked.{Pids}
use rp_maksym_zaveriukha.Net.Start.{system_of}
use rp_maksym_zaveriukha.Net.Channel.{view, logged_for}
use rp_maksym_zaveriukha.Net.Channel.Refinement.{received_in_order}
use rp_maksym_zaveriukha.Db.Receiver.{Verdict, closes, receiver_loop}
use rp_maksym_zaveriukha.Db.Receiver.Loop.{Read, stops_in, closes-Read}
use rp_maksym_zaveriukha.Program.{Runs, to_rank, all_for, verdict, as_stop, stops, requests}
use rp_maksym_zaveriukha.Program.Counts.{
  late, weighed-append, weighed-merged, late-append, late-of-begun, late-merged,
}
use rp_maksym_zaveriukha.Program.Judged.{Responses-quiet}
use rp_maksym_zaveriukha.Program.Outputs.{Tidy, computed-Tidy}
use rp_maksym_zaveriukha.Program.Arrived.{
  stops_in-verdict, stops_in-append, stops-all_for, Reach-Placed,
}

-- What is copied and what is still on its way, of a process that runs the program.
record Split (r d : ℕ) (got queue rest : List (List ℕ)) : Type 0 where
  one : stops got ≤ 1
  own : r ≡ d → stops got ≡ 0
  after : 0 < stops got → (requests queue ≡ 0) × (requests rest ≡ 0)

module _ {r nr_proc response_size k d : ℕ} {log : List (List ℕ)} (hr : r < 2 ^ 32)
    (hs : response_size < 2 ^ 64) (p : Runs r nr_proc response_size k d log) where
  Runs-Split : (got queue : List (List ℕ)) → log ≡ got ++ queue → Split r d got queue p.rest
  Runs-Split got queue split = record {
    one = omega (arith, few, tidy.one);
    own = λ e. omega (arith, few, tidy.own e);
    after = λ h. (
      omega (
        arith,
        late-append got queue h,
        ap late split,
        late-merged p.merged quiet.0 quiet.1,
        late-of-begun p.begun p.rest,
        none_late,
      ),
      omega (arith, late-append p.begun p.rest (omega (arith, h, some_sent)), none_late),
    );
  }
    where
      tidy : Tidy p.pads r nr_proc response_size d (to_rank d p.sends)
      tidy = computed-Tidy p.pads r nr_proc response_size d k p.answers hr hs p.computed

      quiet : (stops p.responses ≡ 0) × (requests p.responses ≡ 0)
      quiet = Responses-quiet hr p.are_responses

      none_late : late (p.begun ++ p.rest) ≡ 0
      none_late = sym (ap late p.split) ∙ tidy.ordered

      some_sent : stops got ≤ stops p.begun
      some_sent = omega (
        arith,
        ap stops split,
        weighed-append as_stop got queue,
        weighed-merged as_stop p.merged,
        quiet.0,
      )

      few : stops got ≤ stops (to_rank d p.sends)
      few = omega (arith, some_sent, ap stops p.split, weighed-append as_stop p.begun p.rest)

-- `n` threads of `nr_proc` processes, the thread `i` in the process of rank `rank_of i`, start in the
-- world that com_initialize leaves.
module _ (nr_proc n router_pid : ℕ) (pids rank_of : ℕ → ℕ) (entries : Option (List Name))
    (shm : Segments) {w : World} {s : System} (distinct : Pids nr_proc pids)
    (started : com_initialize nr_proc router_pid pids entries shm ≡ some w)
    (ranks : (i : ℕ) → i < n → rank_of i < nr_proc) (run : Reach n (system_of w rank_of) s)
    (response_size requests_per_process : ℕ) (d : ℕ) (size_ok : response_size < 2 ^ 64)
    (few : nr_proc ≤ 2 ^ 32) (exists : d < nr_proc)
    (program : (r : ℕ)
      → r < nr_proc
      → Runs r nr_proc response_size requests_per_process d (logged_for r d s.sent)) where
  abbrev copied : ℕ → ℕ
  copied r = stops (logged_for r d s.got)

  known-Split :
      (r : ℕ) (lt : r < nr_proc)
      → Split r d (logged_for r d s.got) (view n r d s).queue (program r lt).rest
  known-Split r lt =
      Runs-Split (omega (arith, lt, few)) size_ok (program r lt) (logged_for r d s.got)
        (view n r d s).queue
        (received_in_order nr_proc n router_pid pids rank_of entries shm distinct started ranks run
          r d)

  no_strangers : (r : ℕ) → nr_proc ≤ r → copied r ≡ 0
  no_strangers r h = omega (
    arith,
    ap stops (
        received_in_order nr_proc n router_pid pids rank_of entries shm distinct started ranks run r
          d),
    ap stops ((Reach-Placed n nr_proc d rank_of ranks run).strangers r h),
    weighed-append as_stop (logged_for r d s.got) (view n r d s).queue,
  )

  -- All STOPs are there, so there is one from each other process.
  stopped_by : nr_proc - 1 ≤ stops (all_for d s.got) → (r : ℕ) → r < nr_proc → r ≢ d → copied r ≡ 1
  stopped_by all r lt other = ground (
    arith,
    full_shares (λ q. copied q + (if d == q then 1 else 0)) nr_proc r
        (λ q h. ground (arith, (known-Split q h).one, (known-Split q h).own)) lt
        (ground (
          arith,
          all,
          stops-all_for d nr_proc s.got no_strangers,
          below_add copied (λ q. if d == q then 1 else 0) nr_proc,
          below_one 1 d nr_proc,
          exists,
        )),
  )

  Read-stops :
      {left : List Verdict}
      → Read nr_proc 0 false (map verdict (all_for d s.got)) left
      → nr_proc - 1 ≤ stops (all_for d s.got)
  Read-stops {left} r = omega (
    arith,
    r.counted,
    stops_in-verdict (all_for d s.got),
    ap stops_in r.split,
    stops_in-append r.taken left,
  )

  -- In every state reached from com_initialize (distinct process ids, threads with existing ranks,
  -- any schedule, at most 2^32 processes) in which each process runs the database, that is, has
  -- called com_send for process `d` with a beginning of what a finishing compute_thread_main sends
  -- there (a response size below 2^64), merged with responses that send_response has built (fields
  -- of 32 bits, sizes below 2^56): if the receiver's loop, on all messages that com_recv has copied
  -- in process `d`, in order, comes to close the request queue, then no request from another
  -- process is on its way to `d`, and the compute thread of that process has none left to send
  -- there.
  pub closes_after_requests :
      {left : List Verdict}
      → receiver_loop nr_proc 0 false (map verdict (all_for d s.got)) ≡ closes left
      → (r : ℕ) (lt : r < nr_proc) → r ≢ d
      → (requests (view n r d s).queue ≡ 0) × (requests (program r lt).rest ≡ 0)
  closes_after_requests closed r lt other = (known-Split r lt).after (
      omega (
        arith,
        stopped_by (Read-stops (closes-Read nr_proc 0 false (map verdict (all_for d s.got)) closed))
            r lt other,
      ))
