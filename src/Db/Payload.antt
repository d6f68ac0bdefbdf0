-- ===== src/Db/Payload.antt =====
-- The payload of a response and its checksum (fill_response_payload, checksum_payload in
-- rpBenchmark2/main.c).
pub mod Checksum
use rp_maksym_zaveriukha.Base.{ℕ, zero, suc, ◌+◌, ◌%◌, ◌^◌, List, [], ◌∷◌}

-- The bytes from index `i` on, `k` left to write. The conversion to `unsigned char` takes the value
-- modulo 256, whatever the sign of the remainder `%` and however the `int` sum wraps, since 256
-- divides 2^32.
pub fill_from : ℕ → ℕ → ℕ → List ℕ
fill_from base i zero = []
fill_from base i (suc k) = (base + i) % 256 ∷ fill_from base (i + 1) k

unfoldable pub fill_response_payload : (size source_rank request_id key : ℕ) → List ℕ
unfolding fill_from
fill_response_payload size source_rank request_id key =
    fill_from (source_rank + request_id + key) 0 size

-- `uint64_t sum`.
pub sum_from : ℕ → List ℕ → ℕ
sum_from sum [] = sum
sum_from sum (b ∷ bs) = sum_from ((sum + b) % 2 ^ 64) bs

unfoldable pub checksum_payload : List ℕ → ℕ
unfolding sum_from
checksum_payload bytes = sum_from 0 bytes
