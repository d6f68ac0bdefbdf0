-- ===== src/Db/Receiver/Accepts.antt =====
-- What the receiver makes of the messages that the program builds.
use rp_maksym_zaveriukha.Base.{
  ℕ, ◌+◌, ◌-◌, ◌%◌, ◌^◌, ◌<◌, ◌≡◌, ◌==◌, ◌&&◌, ◌++◌, ◌∙◌, ap, refl, sym, [], List, arith, length,
  take, take-length, drop, ltb, if◌then◌else◌, some,
}
use mathlib.Core.List.{append-nil}
use rp_maksym_zaveriukha.Db.Payload.{fill_response_payload, checksum_payload}
use rp_maksym_zaveriukha.Db.Payload.Checksum.{payload_shape, checksum_zero_iff}
use rp_maksym_zaveriukha.Db.Message.{
  MessageHeader, Padding, header_bytes, header_size, total_size, read_header, send_request,
  send_response, response_bytes, send_control_message, msg_stop, msg_local_done, msg_response,
  msg_request,
}
use rp_maksym_zaveriukha.Db.Message.RoundTrip.{read_header-header_bytes}
use rp_maksym_zaveriukha.Db.Receiver.{
  to_handler, to_compute, stop, local_done, fault, too_small, unknown_type, bad_checksum, judge,
  judge_response,
}

-- `judge` in terms of the header that it reads.
judge_lem :
    (msg : List ℕ) (size : ℕ) (h : MessageHeader)
    → read_header msg ≡ h
    → judge msg size ≡ (
        if ltb size header_size
        then fault too_small
        else if h.type == msg_request
        then to_handler
        else if h.type == msg_response
        then judge_response msg size h
        else if h.type == msg_stop
        then stop
        else if h.type == msg_local_done
        then local_done
        else fault unknown_type)
unfolding judge
judge_lem msg size h e = rw e

payload_of :
    (pad : Padding) (h : MessageHeader) (p : List ℕ)
    → take (length p) (drop header_size (header_bytes pad h ++ p)) ≡ p
unfolding header_bytes
payload_of pad h p = take-length p

judge_response_lem :
    (pad : Padding) (h : MessageHeader) (p : List ℕ)
    → length p ≡ h.response_size
    → judge_response (header_bytes pad h ++ p) (total_size h.response_size) h ≡ (
        if ltb 0 h.response_size && checksum_payload p == 0
        then fault bad_checksum
        else to_compute h.request_id h.response_size)
unfolding judge_response
judge_response_lem pad h p e =
    ground
      (arith, ap (λ n. take n (drop header_size (header_bytes pad h ++ p))) e, payload_of pad h p)

module _ (pad : Padding) (source_rank request_id key : ℕ) (rank_ok : source_rank < 2 ^ 32)
    (id_ok : request_id < 2 ^ 32) (key_ok : key < 2 ^ 32) where
  judge-response_bytes :
      (size : ℕ)
      → size < 2 ^ 56
      → judge (response_bytes pad source_rank request_id key size) (total_size size) ≡ (
          if (size == 1) && ((source_rank + request_id + key) % 256 == 0)
          then fault bad_checksum
          else to_compute request_id size)
  unfolding response_bytes
  judge-response_bytes size small =
      judge_lem (header_bytes pad h ++ p) (total_size size) h
        (read_header-header_bytes pad h p (omega arith)).1
      ∙ ground (
        arith,
        judge_response_lem pad h p (payload_shape size source_rank request_id key).0,
        checksum_zero_iff size source_rank request_id key,
      )
    where
      h : MessageHeader
      h = record {
        type = msg_response;
        request_id = request_id;
        source_rank = source_rank;
        key = key;
        response_size = size;
      }

      p : List ℕ
      p = fill_response_payload size source_rank request_id key

  length-response_bytes :
      (size : ℕ)
      → size < 2 ^ 56
      → length (response_bytes pad source_rank request_id key size) ≡ total_size size
  unfolding response_bytes header_bytes
  length-response_bytes size small =
      omega (arith, (payload_shape size source_rank request_id key).0)

  -- For fields of 32 bits and a payload of less than 2^56 bytes, send_response builds a message,
  -- whose length is what the receiver expects, and the receiver passes it to the compute thread
  -- with its id and size, except that a response of one byte for which the responder's rank, the
  -- request id and the key add up to a multiple of 256 ends the process as a bad checksum.
  pub judge-send_response :
      (size : ℕ)
      → size < 2 ^ 56
      → (msg : List ℕ) × (send_response pad source_rank request_id key size ≡ some msg)
        × (length msg ≡ total_size size)
        × (judge msg (total_size size) ≡ (
            if (size == 1) && ((source_rank + request_id + key) % 256 == 0)
            then fault bad_checksum
            else to_compute request_id size))
  unfolding send_response
  judge-send_response size small = (
    response_bytes pad source_rank request_id key size,
    ground arith,
    length-response_bytes size small,
    judge-response_bytes size small,
  )

  -- A message that is a header alone, of any type but MSG_RESPONSE.
  judge-header :
      (type size : ℕ)
      → size < 2 ^ 64
      → type < 256
      → judge
          (header_bytes pad (record {
            type = type;
            request_id = request_id;
            source_rank = source_rank;
            key = key;
            response_size = size;
          }))
          header_size
        ≡ (if type == msg_request
            then to_handler
            else if type == msg_response
            then judge_response
                (header_bytes pad (record {
                  type = type;
                  request_id = request_id;
                  source_rank = source_rank;
                  key = key;
                  response_size = size;
                }))
                header_size
                (record {
                  type = type;
                  request_id = request_id;
                  source_rank = source_rank;
                  key = key;
                  response_size = size;
                })
            else if type == msg_stop
            then stop
            else if type == msg_local_done
            then local_done
            else fault unknown_type)
  judge-header type size small byte = judge_lem (header_bytes pad h) header_size h (
      ap read_header (sym (append-nil (header_bytes pad h)))
      ∙ (read_header-header_bytes pad h [] (omega arith)).1)
    where
      h : MessageHeader
      h = record {
        type = type;
        request_id = request_id;
        source_rank = source_rank;
        key = key;
        response_size = size;
      }

  -- The receiver hands a request that send_request has built, for fields that fit their C types, to
  -- the request handler.
  pub judge-send_request :
      (size : ℕ)
      → size < 2 ^ 64
      → judge (send_request pad source_rank request_id key size) header_size ≡ to_handler
  unfolding send_request
  judge-send_request size small = judge-header msg_request size small (omega arith) ∙ refl

-- The receiver counts a STOP that send_control_message has built as a STOP, and a LOCAL_DONE as the
-- end of the local requests, for any sender rank of 32 bits.
pub judge-send_control_message :
    (pad : Padding) (source_rank : ℕ)
    → source_rank < 2 ^ 32
    → (judge (send_control_message pad source_rank msg_stop) header_size ≡ stop)
      × (judge (send_control_message pad source_rank msg_local_done) header_size ≡ local_done)
unfolding send_control_message
judge-send_control_message pad source_rank h = (
  judge-header pad source_rank (2 ^ 32 - 1) 0 h (omega arith) (omega arith) msg_stop 0 (omega arith)
      (omega arith),
  judge-header pad source_rank (2 ^ 32 - 1) 0 h (omega arith) (omega arith) msg_local_done 0
      (omega arith) (omega arith),
)
