-- ===== src/Com/Names.antt =====
-- Segment names: `snprintf` with "/com_ipc_%ld" into a buffer of COM_SHM_NAME_LEN bytes
-- (create_process_segment and cleanup_old_segments_with_prefix in rpBenchmark2/com.c).
pub mod Laws
use Prim.Native.Char.{code}
use Prim.Native.String.{String}
use rp_maksym_zaveriukha.Base.{
  ℕ, zero, suc, ◌+◌, ◌/◌, ◌%◌, Bool, true, false, List, [], ◌∷◌, ◌++◌, Option, none, some, ltb, leb,
  ◌==◌, ◌&&◌, if◌then◌else◌, length,
}
use rp_maksym_zaveriukha.Com.{Name, com_shm_name_len}

-- The bytes of an ASCII text.
abbrev pub codes : String → List ℕ
codes String.[] = []
codes (String.◌∷◌ c s) = code c ∷ codes s

-- COM_SHM_PREFIX
abbrev pub com_shm_prefix : Name
com_shm_prefix = codes "com_ipc_"

-- `%ld` of a number that is not negative; a number has at most as many digits as the fuel.
unfoldable pub digits_of : ℕ → ℕ → List ℕ
digits_of zero n = []
digits_of (suc f) n =
    let rest = digits_of f (n / 10) in
    if ltb n 10 then (48 + n) ∷ [] else rest ++ ((48 + n % 10) ∷ [])

unfoldable pub decimal : ℕ → List ℕ
unfolding digits_of
decimal n = digits_of (suc n) n

-- A byte string that fits the buffer with its NUL; `none` where the code stops with an error.
abbrev pub fits_name : Name → Bool
fits_name name = ltb (length name) com_shm_name_len

unfoldable pub own_name : ℕ → Name
unfolding decimal
own_name pid = b'/' ∷ com_shm_prefix ++ decimal pid

-- `strncmp(text, prefix, strlen(prefix)) == 0`
unfoldable pub has_prefix : Name → Name → Bool
has_prefix [] text = true
has_prefix (p ∷ ps) [] = false
has_prefix (p ∷ ps) (c ∷ cs) = (p == c) && has_prefix ps cs

unfoldable pub eq_name : Name → Name → Bool
eq_name [] [] = true
eq_name [] (y ∷ ys) = false
eq_name (x ∷ xs) [] = false
eq_name (x ∷ xs) (y ∷ ys) = (x == y) && eq_name xs ys
