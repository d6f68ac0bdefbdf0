-- ===== src/Db/Message.antt =====
-- Messages of rpBenchmark2/main.c: `MessageHeader` as the bytes that memcpy moves, and the functions
-- that build a message.
pub mod RoundTrip
use rp_maksym_zaveriukha.Base.{
  ℕ, zero, suc, ◌+◌, ◌-◌, ◌*◌, ◌/◌, ◌%◌, ◌^◌, List, [], ◌∷◌, ◌++◌, Option, none, some, Bool, ltb,
  ◌==◌, if◌then◌else◌, length, take, drop, get_or,
}
use rp_maksym_zaveriukha.Db.Payload.{fill_response_payload}

abbrev pub msg_request : ℕ
msg_request = 1

abbrev pub msg_response : ℕ
msg_response = 2

abbrev pub msg_stop : ℕ
msg_stop = 3

abbrev pub msg_local_done : ℕ
msg_local_done = 4

-- `int` fields are 32-bit patterns: -1 is 2^32 - 1.
pub record MessageHeader : Type 0 where
  pub type : ℕ
  pub request_id : ℕ
  pub source_rank : ℕ
  pub key : ℕ
  pub response_size : ℕ

-- `sizeof(MessageHeader)` with 4-byte `int` and 8-byte `size_t`: one byte for the type, three of
-- padding, three times four, eight.
abbrev pub header_size : ℕ
header_size = 24

-- `k` bytes of a number, the lowest first.
unfoldable pub little_endian : ℕ → ℕ → List ℕ
little_endian zero n = []
little_endian (suc k) n = n % 256 ∷ little_endian k (n / 256)

unfoldable pub from_little_endian : List ℕ → ℕ
from_little_endian [] = 0
from_little_endian (b ∷ bs) = b + 256 * from_little_endian bs

-- The bytes between the fields, which the code leaves as they are.
pub record Padding : Type 0 where
  pub first : ℕ
  pub second : ℕ
  pub third : ℕ

unfoldable pub header_bytes : Padding → MessageHeader → List ℕ
unfolding little_endian
header_bytes pad h =
    h.type
    ∷ pad.first
    ∷ pad.second
    ∷ pad.third
    ∷ (little_endian 4 h.request_id
        ++ (little_endian 4 h.source_rank
            ++ (little_endian 4 h.key ++ little_endian 8 h.response_size)))

-- `(MessageHeader *)msg`, for a message of at least `header_size` bytes.
unfoldable pub read_header : List ℕ → MessageHeader
unfolding from_little_endian
read_header msg = record {
  type = get_or msg 0 0;
  request_id = from_little_endian (take 4 (drop 4 msg));
  source_rank = from_little_endian (take 4 (drop 8 msg));
  key = from_little_endian (take 4 (drop 12 msg));
  response_size = from_little_endian (take 8 (drop 16 msg));
}

-- `sizeof(MessageHeader) + response_size`, as a `size_t`.
abbrev pub total_size : ℕ → ℕ
total_size response_size = (header_size + response_size) % 2 ^ 64

-- What send_request hands to send_raw_message.
unfoldable pub send_request : Padding → (source_rank request_id key response_size : ℕ) → List ℕ
send_request pad source_rank request_id key response_size = header_bytes pad (record {
  type = msg_request;
  request_id = request_id;
  source_rank = source_rank;
  key = key;
  response_size = response_size;
})

-- What send_response writes: the header, then the payload.
unfoldable pub response_bytes : Padding → (source_rank request_id key response_size : ℕ) → List ℕ
response_bytes pad source_rank request_id key response_size =
    header_bytes pad (record {
      type = msg_response;
      request_id = request_id;
      source_rank = source_rank;
      key = key;
      response_size = response_size;
    })
    ++ fill_response_payload response_size source_rank request_id key

-- What send_response hands to send_raw_message. It is `none` where `total_size` has wrapped: then the
-- buffer of `total_size` bytes is too short, and the code writes past its end.
unfoldable pub send_response :
    Padding → (source_rank request_id key response_size : ℕ) → Option (List ℕ)
send_response pad source_rank request_id key response_size =
    if total_size response_size == header_size + response_size
    then some (response_bytes pad source_rank request_id key response_size)
    else none

-- What send_control_message hands to send_raw_message; its request_id is -1.
unfoldable pub send_control_message : Padding → (source_rank type : ℕ) → List ℕ
send_control_message pad source_rank type = header_bytes pad (record {
  type = type;
  request_id = 2 ^ 32 - 1;
  source_rank = source_rank;
  key = 0;
  response_size = 0;
})
