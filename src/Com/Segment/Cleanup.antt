-- ===== src/Com/Segment/Cleanup.antt =====
-- What cleanup_old_segments_with_prefix removes and what it leaves.
use rp_maksym_zaveriukha.Base.{
  ◌≡◌, ap, ◌&&◌, ◌||◌, Bool, if◌then◌else◌, false, List, [], ◌∷◌, none, some, arith, Bool-cases,
  inl, inr,
}
use rp_maksym_zaveriukha.Com.{Name}
use rp_maksym_zaveriukha.Com.Names.{com_shm_prefix, fits_name, has_prefix, eq_name}
use rp_maksym_zaveriukha.Com.Names.Laws.{eq_name→eq}
use rp_maksym_zaveriukha.Com.Region.{Segments}
use rp_maksym_zaveriukha.Com.Segment.{cleanup_entry, cleanup_from, cleanup_old_segments_with_prefix}

-- The directory lists the segment of this name.
abbrev pub is_listed : List Name → Name → Bool
is_listed [] name = false
is_listed (e ∷ es) name = eq_name (b'/' ∷ e) name || is_listed es name

-- A name of the library, as long as the code can build it.
abbrev pub is_own : Name → Bool
is_own name = has_prefix (b'/' ∷ com_shm_prefix) name && fits_name name

same_test :
    (e name : Name)
    → b'/' ∷ e ≡ name
    → (has_prefix com_shm_prefix e && fits_name (b'/' ∷ e)) ≡ is_own name
unfolding has_prefix
same_test e name same = ap is_own same

cleanup_entry_lem :
    (e name : Name) (shm : Segments)
    → cleanup_entry e shm name ≡ (if is_own name && eq_name (b'/' ∷ e) name then none else shm name)
unfolding cleanup_entry
cleanup_entry_lem e name shm = elim (Bool-cases (eq_name (b'/' ∷ e) name)) [
  | inl same ↦ ground (arith, same, same_test e name (eq_name→eq (b'/' ∷ e) name same))
  | inr other ↦ ground (arith, other)
]

cleanup_from_lem :
    (entries : List Name) (shm : Segments) (name : Name)
    → cleanup_from entries shm name
      ≡ (if is_own name && is_listed entries name then none else shm name)
unfolding cleanup_from
cleanup_from_lem [] shm name = ground arith
cleanup_from_lem (e ∷ es) shm name =
    ground (arith, cleanup_from_lem es (cleanup_entry e shm) name, cleanup_entry_lem e name shm)

-- Where the directory can be read, cleanup_old_segments_with_prefix removes exactly the segments
-- that the directory lists, whose name begins with the prefix of the library and fits the buffer;
-- every other segment stays as it is.
pub cleanup_removes_listed :
    (name : Name) (entries : List Name) (shm : Segments)
    → cleanup_old_segments_with_prefix (some entries) shm name
      ≡ (if is_own name && is_listed entries name then none else shm name)
unfolding cleanup_old_segments_with_prefix
cleanup_removes_listed name entries shm = cleanup_from_lem entries shm name
