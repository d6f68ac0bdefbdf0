-- ===== src/Db/Message/RoundTrip.antt =====
-- A header that is written and read again is the same header.
use rp_maksym_zaveriukha.Base.{ℕ, zero, suc, ◌/◌, ◌^◌, ◌<◌, ◌≡◌, refl, List, ◌++◌, arith, length}
use native.Mathlib.Nat.{pow-suc}
use rp_maksym_zaveriukha.Db.Message.{
  MessageHeader, Padding, header_size, little_endian, from_little_endian, header_bytes, read_header,
}

pub from_little_endian-little_endian :
    (k n : ℕ) → n < 256 ^ k → from_little_endian (little_endian k n) ≡ n
unfolding little_endian from_little_endian
from_little_endian-little_endian zero n h = omega arith
from_little_endian-little_endian (suc k) n h =
    omega (arith, from_little_endian-little_endian k (n / 256) (omega (arith, pow-suc 256 k)))

-- The fields fit their C types.
pub record InRange (h : MessageHeader) : Type 0 where
  pub type : h.type < 256
  pub request_id : h.request_id < 2 ^ 32
  pub source_rank : h.source_rank < 2 ^ 32
  pub key : h.key < 2 ^ 32
  pub response_size : h.response_size < 2 ^ 64

-- A header whose fields fit their C types is 24 bytes long, and reading it from the front of a
-- message gives the header back, whatever the padding and whatever follows.
pub read_header-header_bytes :
    (pad : Padding) (h : MessageHeader) (rest : List ℕ)
    → InRange h
    → (length (header_bytes pad h) ≡ header_size) × (read_header (header_bytes pad h ++ rest) ≡ h)
unfolding header_bytes read_header little_endian from_little_endian
read_header-header_bytes pad h rest r = (
  refl,
  ground (
    arith,
    from_little_endian-little_endian 4 h.request_id,
    from_little_endian-little_endian 4 h.source_rank,
    from_little_endian-little_endian 4 h.key,
    from_little_endian-little_endian 8 h.response_size,
  ),
)
