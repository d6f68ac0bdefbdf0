-- ===== src/Com/Segment.antt =====
-- create_process_segment, read_message_from_segment and cleanup_old_segments_with_prefix of
-- rpBenchmark2/com.c.
pub mod Cleanup
use rp_maksym_zaveriukha.Base.{
  ℕ, zero, suc, ◌==◌, ◌&&◌, List, [], ◌∷◌, ◌++◌, Option, none, some, pos, if◌then◌else◌, length,
  take, drop,
}
use rp_maksym_zaveriukha.Com.{
  Name, World, ProcessSlot, Outcome, returned, failed, name_too_long, set_slot,
}
use rp_maksym_zaveriukha.Com.Names.{own_name, fits_name, has_prefix, eq_name, com_shm_prefix}
use rp_maksym_zaveriukha.Com.Region.{Segments, shm_unlink}

abbrev pub shm_set : Segments → Name → List ℕ → Segments
shm_set shm name bytes n = if eq_name name n then some bytes else shm n

-- `ftruncate`: new bytes are zero.
abbrev pub ftruncate : ℕ → List ℕ → List ℕ
ftruncate zero bytes = []
ftruncate (suc n) [] = 0 ∷ ftruncate n []
ftruncate (suc n) (b ∷ bs) = b ∷ ftruncate n bs

-- `memcpy` of a message to the start of a mapping.
abbrev pub memcpy : List ℕ → List ℕ → List ℕ
memcpy msg bytes = msg ++ drop (length msg) bytes

-- `rank` and the process's own id. The old segment of that name, if any, is unlinked first, so that
-- the exclusive creation succeeds.
unfoldable pub create_process_segment : ℕ → ℕ → World → Outcome Unit Unit
create_process_segment rank pid w =
    if fits_name (own_name pid)
    then returned (record (set_slot w rank slot) { shm = shm_set (shm_unlink w.shm name) name [] })
        tt
    else failed name_too_long
  where
    name : Name
    name = own_name pid

    slot : ProcessSlot
    slot = record (w.shared.slots rank) { pid = pos pid; capacity = 0; own_shm_name = name }

-- The copy that the receiver gets; `none` where the segment cannot be opened. An empty message is a
-- buffer of which no byte is read.
unfoldable pub read_message_from_segment : Segments → Name → ℕ → Option (List ℕ)
read_message_from_segment shm name size = elim (shm name) [
  | none ↦ none
  | some bytes ↦ some (if size == 0 then [] else take size bytes)
]

-- One round of the loop over the directory's entries.
unfoldable pub cleanup_entry : Name → Segments → Segments
cleanup_entry entry shm =
    if has_prefix com_shm_prefix entry && fits_name (b'/' ∷ entry)
    then shm_unlink shm (b'/' ∷ entry)
    else shm

-- `none` stands for a directory that cannot be opened.
cleanup_from : List Name → Segments → Segments
cleanup_from [] shm = shm
cleanup_from (entry ∷ entries) shm = cleanup_from entries (cleanup_entry entry shm)

unfoldable pub cleanup_old_segments_with_prefix : Option (List Name) → Segments → Segments
unfolding cleanup_from cleanup_entry
cleanup_old_segments_with_prefix none shm = shm
cleanup_old_segments_with_prefix (some entries) shm = cleanup_from entries shm
