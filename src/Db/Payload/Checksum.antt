-- ===== src/Db/Payload/Checksum.antt =====
-- The checksum is the sum of the bytes, and for which responses it is zero.
use rp_maksym_zaveriukha.Base.{
  ℕ, zero, suc, ◌+◌, ◌*◌, ◌%◌, ◌^◌, ◌≤◌, ◌<◌, ◌≡◌, ◌↔◌, ◌∙◌, refl, ap, List, [], ◌∷◌, arith, length,
}
use rp_maksym_zaveriukha.Db.Payload.{fill_from, fill_response_payload, sum_from, checksum_payload}

abbrev pub sum : List ℕ → ℕ
sum [] = 0
sum (b ∷ bs) = b + sum bs

abbrev pub AllBytes : List ℕ → Type 0
AllBytes [] = Unit
AllBytes (b ∷ bs) = (b < 256) × AllBytes bs

sum-le : (bs : List ℕ) → AllBytes bs → sum bs ≤ 255 * length bs
sum-le [] h = omega arith
sum-le (b ∷ bs) h = omega (arith, sum-le bs h.1)

sum_from-eq : (acc : ℕ) (bs : List ℕ) → acc < 2 ^ 64 → sum_from acc bs ≡ (acc + sum bs) % 2 ^ 64
unfolding sum_from
sum_from-eq acc [] h = omega arith
sum_from-eq acc (b ∷ bs) h = sum_from-eq ((acc + b) % 2 ^ 64) bs (omega arith) ∙ omega arith

-- For a message of less than 2^56 bytes the 64-bit checksum is the sum of the bytes: it does not
-- wrap.
pub checksum_is_sum :
    (bs : List ℕ) → AllBytes bs → length bs < 2 ^ 56 → checksum_payload bs ≡ sum bs
unfolding checksum_payload
checksum_is_sum bs h small = omega (arith, sum_from-eq 0 bs (omega arith), sum-le bs h)

length-fill_from : (base i k : ℕ) → length (fill_from base i k) ≡ k
unfolding fill_from
length-fill_from base i zero = refl
length-fill_from base i (suc k) = ap suc (length-fill_from base (i + 1) k)

fill_from-AllBytes : (base i k : ℕ) → AllBytes (fill_from base i k)
unfolding fill_from
fill_from-AllBytes base i zero = tt
fill_from-AllBytes base i (suc k) = (omega arith, fill_from-AllBytes base (i + 1) k)

-- The payload has the size that was asked for, and consists of bytes.
pub payload_shape :
    (size source_rank request_id key : ℕ)
    → (length (fill_response_payload size source_rank request_id key) ≡ size)
      × AllBytes (fill_response_payload size source_rank request_id key)
unfolding fill_response_payload
payload_shape size source_rank request_id key = (
  length-fill_from (source_rank + request_id + key) 0 size,
  fill_from-AllBytes (source_rank + request_id + key) 0 size,
)

sum-fill_from-two : (base k : ℕ) → 0 < sum (fill_from base 0 (suc (suc k)))
unfolding fill_from
sum-fill_from-two base k = omega arith

sum-fill_from-one : (base : ℕ) → sum (fill_from base 0 1) ≡ base % 256
unfolding fill_from
sum-fill_from-one base = omega arith

zero_sum :
    (base size : ℕ) → 0 < size → (sum (fill_from base 0 size) ≡ 0) ↔ ((size ≡ 1) × (base % 256 ≡ 0))
zero_sum base zero h = absurd (omega arith)
zero_sum base (suc zero) h = (
  λ e. (refl, omega (arith, sum-fill_from-one base)),
  λ e. omega (arith, sum-fill_from-one base, e.1),
)
zero_sum base (suc (suc k)) h =
    (λ e. absurd (omega (arith, sum-fill_from-two base k)), λ e. absurd (omega (arith, e.0)))

-- The checksum of a generated response of 1 to 2^56 - 1 bytes is zero exactly when it has one byte
-- and the responder's rank, the request id and the key add up to a multiple of 256.
pub checksum_zero_iff :
    (size source_rank request_id key : ℕ)
    → 0 < size
    → size < 2 ^ 56
    → (checksum_payload (fill_response_payload size source_rank request_id key) ≡ 0)
      ↔ ((size ≡ 1) × ((source_rank + request_id + key) % 256 ≡ 0))
unfolding fill_response_payload
checksum_zero_iff size source_rank request_id key pos small =
    rw
      (checksum_is_sum (fill_from base 0 size) (fill_from-AllBytes base 0 size)
        (omega (arith, length-fill_from base 0 size)))
      (zero_sum base size pos)
  where
    base : ℕ
    base = source_rank + request_id + key
