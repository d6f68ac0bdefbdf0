-- ===== src/Tests/Programs.antt =====
-- The command line, the all-to-all benchmark and the segments' names at concrete inputs.
use rp_maksym_zaveriukha.Base.{
  ◌*◌, ℕ, ◌+◌, ◌-◌, ◌%◌, ◌^◌, ◌≡◌, ◌==◌, [], ◌∷◌, none, some, arith, refl, ltb, get_or, replicate,
  if◌then◌else◌,
}
use rp_maksym_zaveriukha.Com.Region.{Segments}
use rp_maksym_zaveriukha.Com.Segment.{cleanup_old_segments_with_prefix}
use rp_maksym_zaveriukha.Com.Names.{eq_name}
use rp_maksym_zaveriukha.Com.Segment.Cleanup.{cleanup_removes_listed}
use rp_maksym_zaveriukha.Com.Names.{codes, has_prefix, decimal, digits_of}
use rp_maksym_zaveriukha.Args.{
  long_max, Config, numeral, parse_positive_long, parse_size_value, db_main,
}
use rp_maksym_zaveriukha.Args.Decimal.{parse_positive_long-decimal, parse_size_value-decimal}
use rp_maksym_zaveriukha.Args.Accepted.{IsAccepted, db_main-IsAccepted}
use rp_maksym_zaveriukha.AllToAll.{fill_message, missing, receiver_thread_main}
use rp_maksym_zaveriukha.AllToAll.Balance.{sent_by_below, all_received, fill_message_pattern}

parse_positive_long-decimal_example :
    (parse_positive_long (decimal 12)
      ≡ (if 12 == 0 then none else if ltb long_max 12 then some long_max else some 12))
    × (parse_positive_long (b'-' ∷ decimal 12) ≡ none)
parse_positive_long-decimal_example = parse_positive_long-decimal 12

parse_size_value-decimal_example :
    (parse_size_value (decimal 1) ≡ some 1)
    × (parse_size_value (b'-' ∷ decimal 1) ≡ some (2 ^ 64 - 1))
parse_size_value-decimal_example = parse_size_value-decimal 1 (omega arith) (omega arith)

abbrev small_run : Config
small_run = record { nr_proc = 4; rounds = 10; size = 256 }

small_run-accepted : db_main (decimal 4 ∷ decimal 10 ∷ decimal 256 ∷ []) ≡ some small_run
unfolding db_main parse_positive_long parse_size_value numeral decimal digits_of
small_run-accepted = refl

db_main-IsAccepted_example : IsAccepted small_run
db_main-IsAccepted_example =
    db_main-IsAccepted (decimal 4 ∷ decimal 10 ∷ decimal 256 ∷ []) small_run-accepted

all_received_example :
    (sent_by_below 1 3 64 2 3 ≡ replicate (2 * (3 - 1)) 64)
    × (receiver_thread_main 3 64 2 (sent_by_below 1 3 64 2 3) ≡ missing 0)
all_received_example = all_received 1 3 64 2 (omega arith) (omega arith)

fill_message_pattern_example : get_or (fill_message 40 3 7) 20 0 ≡ 65 + 3 % 26 + (20 + 7) % 26
fill_message_pattern_example = fill_message_pattern 40 3 7 20 (omega arith) (omega arith)

abbrev a_pid : ℕ
a_pid = 4711

abbrev old_segments : Segments
old_segments name = some (1 ∷ [])

cleanup_removes_listed_example :
    cleanup_old_segments_with_prefix
      (some (codes "snd" ∷ codes "com_ipc_17" ∷ []))
      old_segments
      (codes "/com_ipc_17")
    ≡ none
unfolding has_prefix eq_name
cleanup_removes_listed_example =
    cleanup_removes_listed (codes "/com_ipc_17") (codes "snd" ∷ codes "com_ipc_17" ∷ [])
      old_segments
