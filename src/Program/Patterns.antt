-- ===== src/Program/Patterns.antt =====
-- The all-to-all benchmark over the network: which message arrives when.
use mathlib.Core.List.{append_assoc}
use rp_maksym_zaveriukha.Base.{
  ℕ, zero, suc, ◌+◌, ◌<◌, ◌≤◌, ◌≡◌, ◌≢◌, ◌==◌, List, [], ◌∷◌, ◌++◌, Option, some, arith, refl, sym,
  ap, ◌∙◌, Bool-cases, inl, inr,
}
use rp_maksym_zaveriukha.Com.{Name, World}
use rp_maksym_zaveriukha.Com.Region.{Segments}
use rp_maksym_zaveriukha.Com.Initialize.{com_initialize}
use rp_maksym_zaveriukha.Net.System.{System, Reach}
use rp_maksym_zaveriukha.Net.Start.Forked.{Pids}
use rp_maksym_zaveriukha.Net.Start.{system_of}
use rp_maksym_zaveriukha.Net.Channel.{view, logged_for}
use rp_maksym_zaveriukha.Net.Channel.Refinement.{received_in_order}
use rp_maksym_zaveriukha.AllToAll.{fill_message, sends_from, cycles_from, sender_thread_main}
use rp_maksym_zaveriukha.Program.{to_rank}
use rp_maksym_zaveriukha.Program.Outputs.{to_rank-append}

-- The test patterns of process `r` for the cycles from `cycle` on, `k` left.
abbrev pub patterns_from : (r msg_size cycle k : ℕ) → List (List ℕ)
patterns_from r msg_size cycle zero = []
patterns_from r msg_size cycle (suc k) =
    fill_message msg_size r cycle ∷ patterns_from r msg_size (cycle + 1) k

module _ (r d : ℕ) (other : r ≢ d) (msg : List ℕ) where
  sends_past : (i k : ℕ) → d < i → to_rank d (sends_from r msg i k) ≡ []
  unfolding sends_from
  sends_past i zero h = refl
  sends_past i (suc k) h = ground (arith, sends_past (i + 1) k)

  one_message : (i k : ℕ) → i ≤ d → d < i + k → to_rank d (sends_from r msg i k) ≡ msg ∷ []
  unfolding sends_from
  one_message i zero h lt = absurd (omega arith)
  one_message i (suc k) h lt = elim (Bool-cases (i == d)) [
    | inl now ↦ ground (arith, now, sends_past (i + 1) k)
    | inr later ↦ ground (arith, later, one_message (i + 1) k)
  ]

to_rank-cycles_from :
    (r d nr_proc msg_size cycle k : ℕ)
    → r ≢ d
    → d < nr_proc
    → to_rank d (cycles_from r nr_proc msg_size cycle k) ≡ patterns_from r msg_size cycle k
unfolding cycles_from
to_rank-cycles_from r d nr_proc msg_size cycle zero other lt = refl
to_rank-cycles_from r d nr_proc msg_size cycle (suc k) other lt = rw (
  to_rank-append d (sends_from r (fill_message msg_size r cycle) 0 nr_proc)
      (cycles_from r nr_proc msg_size (cycle + 1) k),
  one_message r d other (fill_message msg_size r cycle) 0 nr_proc (omega arith) (omega (arith, lt)),
  to_rank-cycles_from r d nr_proc msg_size (cycle + 1) k other lt,
)

-- `n` threads of `nr_proc` processes, the thread `i` in the process of rank `rank_of i`, start in the
-- world that com_initialize leaves.
module _ (nr_proc n router_pid : ℕ) (pids rank_of : ℕ → ℕ) (entries : Option (List Name))
    (shm : Segments) {w : World} {s : System} (distinct : Pids nr_proc pids)
    (started : com_initialize nr_proc router_pid pids entries shm ≡ some w)
    (ranks : (i : ℕ) → i < n → rank_of i < nr_proc) (run : Reach n (system_of w rank_of) s) where
  -- In every state reached from com_initialize (distinct process ids, threads with existing ranks,
  -- any schedule) in which a process has called com_send for another existing one with a beginning
  -- of what sender_thread_main sends there: the test patterns of the sender for the cycles 0 to
  -- repeat - 1 are, in this order, those that com_recv has copied there, then those on their way,
  -- then those still to be sent.
  pub patterns_arrive :
      (r d msg_size repeat : ℕ) (rest : List (List ℕ))
      → r ≢ d
      → d < nr_proc
      → to_rank d (sender_thread_main r nr_proc msg_size repeat) ≡ logged_for r d s.sent ++ rest
      → patterns_from r msg_size 0 repeat ≡ logged_for r d s.got ++ ((view n r d s).queue ++ rest)
  unfolding sender_thread_main
  patterns_arrive r d msg_size repeat rest other lt program =
      sym (to_rank-cycles_from r d nr_proc msg_size 0 repeat other lt)
      ∙ program
      ∙ ap (λ log. log ++ rest)
          (received_in_order nr_proc n router_pid pids rank_of entries shm distinct started ranks
            run r d)
      ∙ append_assoc (logged_for r d s.got) (view n r d s).queue rest
