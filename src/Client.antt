-- ===== src/Client.antt =====
-- cpp/include/relink/rlcore_client.hpp: a node registers with rlcore, with retries. The socket is what the network
-- makes of each attempt; the cipher is the interface that Rlcore/Dispatch has.
mod Answered
mod Answers
mod Registered
mod Key
mod Tests
use relink_com.Base.{
  ℕ, zero, suc, ◌+◌, ◌*◌, ◌^◌, leb, Bool, true, false, ◌&&◌, Option, none, some, List, [], ◌∷◌,
  ◌==◌, if◌then◌else◌, tabulate,
}
use relink_com.Register.{
  RegisterAckPeer, DecodedRegisterAck, RegisterEncodeResult, RegisterDecodeResult, ok, decoded,
  encode_register_request, decode_register_ack, register_ack_peer_at,
}
use relink_com.Rlcore.Dispatch.{Cipher}

pub record RegisterOutcome : Type 0 where
  pub ok : Bool
  pub peers : List RegisterAckPeer

-- What the network makes of one attempt: whether the datagram goes out whole, and the reply, if one comes before the
-- timeout (from the socket, or from the transport's queue).
pub record Attempt : Type 0 where
  pub sent : Bool
  pub reply : Option (List ℕ)

-- One attempt as it is seen from outside: the datagram, and the timeout in milliseconds.
pub record Sent : Type 0 where
  pub bytes : List ℕ
  pub timeout_ms : ℕ

-- The size of the buffers.
abbrev pub buffer_size : ℕ
buffer_size = 65507

abbrev pub failed : RegisterOutcome
failed = record { ok = false; peers = [] }

-- The reply in the clear.
unfoldable pub opened : Option Cipher → Option (List ℕ) → Option (List ℕ)
opened cipher none = none
opened none (some bytes) = some bytes
opened (some c) (some bytes) = c.open_blob bytes

-- The peers of an ack that is well-formed and whose status is 0.
unfoldable pub accepted_ack :
    RegisterDecodeResult DecodedRegisterAck → Option (List RegisterAckPeer)
accepted_ack (decoded ack) =
    if ack.status == 0 then some (tabulate (register_ack_peer_at ack) ack.peer_count) else none
accepted_ack _ = none

unfoldable pub peers_of_reply : Option (List ℕ) → Option (List RegisterAckPeer)
peers_of_reply none = none
peers_of_reply (some bytes) = accepted_ack (decode_register_ack bytes)

-- What one attempt brings.
unfoldable pub attempt_result : Option Cipher → Attempt → Option (List RegisterAckPeer)
attempt_result cipher a = if a.sent then peers_of_reply (opened cipher a.reply) else none

-- The largest value of an `int` and one more.
abbrev pub int_limit : ℕ
int_limit = 2 ^ 31

-- A result ends the loop. Without one the timeout is doubled and the loop goes on; a product that no `int` holds is
-- undefined behaviour, `none`.
unfoldable pub after_attempt :
    Option (List RegisterAckPeer)
    → Sent
    → Bool
    → Option (RegisterOutcome × List Sent)
    → Option (RegisterOutcome × List Sent)
after_attempt (some peers) sent overflows rest =
    some (record { ok = true; peers = peers }, sent ∷ [])
after_attempt none sent true rest = none
after_attempt none sent false none = none
after_attempt none sent false (some (outcome, more)) = some (outcome, sent ∷ more)

-- The attempts from number `attempt` on, `n` at most.
unfoldable pub retry_loop :
    Option Cipher → List ℕ → (ℕ → Attempt) → ℕ → ℕ → ℕ → Option (RegisterOutcome × List Sent)
retry_loop cipher wire_req network zero attempt backoff_ms = some (failed, [])
retry_loop cipher wire_req network (suc n) attempt backoff_ms =
    after_attempt (attempt_result cipher (network attempt))
      (record { bytes = wire_req; timeout_ms = backoff_ms }) (leb int_limit (backoff_ms * 2))
      (retry_loop cipher wire_req network n (attempt + 1) (backoff_ms * 2))

-- The request as it is sent: sealed where there is a key.
unfoldable pub wire_request : Option Cipher → RegisterEncodeResult → Option (List ℕ)
wire_request none (ok bytes) = some bytes
wire_request (some c) (ok bytes) = c.seal_blob bytes
wire_request cipher _ = none

unfoldable pub with_request :
    Option Cipher → ℕ → ℕ → (ℕ → Attempt) → Option (List ℕ) → Option (RegisterOutcome × List Sent)
with_request cipher max_retries timeout_ms network none = some (failed, [])
with_request cipher max_retries timeout_ms network (some wire_req) =
    retry_loop cipher wire_req network max_retries 0 timeout_ms

unfoldable pub register_with_rlcore_on_socket :
    Option Cipher → ℕ → ℕ → List ℕ → ℕ → ℕ → (ℕ → Attempt) → Option (RegisterOutcome × List Sent)
register_with_rlcore_on_socket cipher self_ip self_data_port topic_ids max_retries timeout_ms
      network =
    with_request cipher max_retries timeout_ms network
      (wire_request cipher (encode_register_request self_ip self_data_port topic_ids buffer_size))
