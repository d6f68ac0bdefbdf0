-- ===== src/Program/Judged.antt =====
-- What the receiver makes of the messages that the two sending threads build.
use rp_maksym_zaveriukha.Base.{
  ℕ, ◌+◌, ◌%◌, ◌==◌, ◌&&◌, if◌then◌else◌, some, ◌<◌, ◌≡◌, ◌^◌, List, arith, refl, length,
}
use rp_maksym_zaveriukha.Db.Message.{
  Padding, header_bytes, total_size, send_request, send_response, send_control_message, msg_stop,
  msg_local_done,
}
use rp_maksym_zaveriukha.Db.Receiver.{
  to_handler, to_compute, fault, bad_checksum, judge, stop, local_done,
}
use rp_maksym_zaveriukha.Db.Receiver.Accepts.{
  judge-send_request, judge-send_response, judge-send_control_message,
}
use rp_maksym_zaveriukha.Program.{
  Responses, nothing, response, verdict, as_stop, as_request, stops, requests,
}

pub verdict-send_request :
    (pad : Padding) (r request_id key size : ℕ)
    → r < 2 ^ 32
    → request_id < 2 ^ 32
    → key < 2 ^ 32
    → size < 2 ^ 64
    → verdict (send_request pad r request_id key size) ≡ to_handler
unfolding send_request header_bytes
verdict-send_request pad r request_id key size hr hi hk hs =
    judge-send_request pad r request_id key hr hi hk size hs

pub verdict-send_control_message :
    (pad : Padding) (r : ℕ)
    → r < 2 ^ 32
    → (verdict (send_control_message pad r msg_stop) ≡ stop)
      × (verdict (send_control_message pad r msg_local_done) ≡ local_done)
unfolding send_control_message header_bytes
verdict-send_control_message pad r h = judge-send_control_message pad r h

verdict-send_response :
    (pad : Padding) (r request_id key size : ℕ) (msg : List ℕ)
    → r < 2 ^ 32
    → request_id < 2 ^ 32
    → key < 2 ^ 32
    → size < 2 ^ 56
    → send_response pad r request_id key size ≡ some msg
    → (as_stop (verdict msg) ≡ 0) × (as_request (verdict msg) ≡ 0)
verdict-send_response pad r request_id key size msg hr hi hk hs e =
    found (judge-send_response pad r request_id key hr hi hk size hs)
  where
    found :
        (m : List ℕ) × (send_response pad r request_id key size ≡ some m)
          × (length m ≡ total_size size)
          × (judge m (total_size size) ≡ (
              if (size == 1) && ((r + request_id + key) % 256 == 0)
              then fault bad_checksum
              else to_compute request_id size))
        → (as_stop (verdict msg) ≡ 0) × (as_request (verdict msg) ≡ 0)
    found (m, f, len, judged) = let same : msg ≡ m = cc in rw (same, len, judged) (ground arith)

pub Responses-quiet :
    {r : ℕ} {ms : List (List ℕ)} → r < 2 ^ 32 → Responses r ms → (stops ms ≡ 0) × (requests ms ≡ 0)
Responses-quiet h nothing = (refl, refl)
Responses-quiet {r} h (response pad request_id key size {msg = msg} hi hk hs e rs) =
    omega (
      arith,
      verdict-send_response pad r request_id key size msg h hi hk hs e,
      Responses-quiet h rs,
    )
