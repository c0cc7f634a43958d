-- ===== src/Client/Answered.antt =====
-- When an attempt of register_with_rlcore_on_socket is answered.
use relink_com.Base.{
  ℕ, ◌≡◌, ◌↔◌, refl, sym, ap, ◌∙◌, inl, inr, true, Option, none, some, List, ◌==◌, if◌then◌else◌,
  Bool-cases, tabulate, arith, some_injective,
}
use relink_com.Rlcore.Dispatch.{Cipher}
use relink_com.Register.{
  RegisterAckPeer, DecodedRegisterAck, RegisterDecodeResult, decoded, decode_register_ack,
  register_ack_peer_at,
}
use relink_com.Client.{Attempt, opened, accepted_ack, peers_of_reply, attempt_result}

-- What comes in the clear: what was sent, or what was sealed in it.
abbrev pub InClear : Option Cipher → List ℕ → List ℕ → Type 0
InClear none wire bytes = wire ≡ bytes
InClear (some c) wire bytes = c.open_blob wire ≡ some bytes

-- The request went out whole, and a well-formed ack of status 0 with these peers came back.
pub record IsAnswered (cipher : Option Cipher) (a : Attempt) (peers : List RegisterAckPeer)
    : Type 0 where
  pub sent : a.sent ≡ true
  pub wire : List ℕ
  pub came : a.reply ≡ some wire
  pub bytes : List ℕ
  pub in_clear : InClear cipher wire bytes
  pub ack : DecodedRegisterAck
  pub is_ack : decode_register_ack bytes ≡ decoded ack
  pub status : ack.status ≡ 0
  pub listed : peers ≡ tabulate (register_ack_peer_at ack) ack.peer_count

-- No peers come back.
abbrev pub IsLost : Option Cipher → Attempt → Type 0
IsLost cipher a = (peers : List RegisterAckPeer) → ¬ IsAnswered cipher a peers

opened-InClear :
    (cipher : Option Cipher) (reply : Option (List ℕ)) (bytes : List ℕ)
    → opened cipher reply ≡ some bytes
    → (wire : List ℕ) × (reply ≡ some wire) × InClear cipher wire bytes
unfolding opened
opened-InClear cipher none bytes e = absurd (cc e)
opened-InClear none (some wire) bytes e = (wire, refl, some_injective e)
opened-InClear (some c) (some wire) bytes e = (wire, refl, e)

InClear-opened :
    (cipher : Option Cipher) (wire bytes : List ℕ)
    → InClear cipher wire bytes
    → opened cipher (some wire) ≡ some bytes
unfolding opened
InClear-opened none wire bytes e = ap some e
InClear-opened (some c) wire bytes e = e

abbrev IsAck : List ℕ → List RegisterAckPeer → Type 0
IsAck bytes peers =
    (ack : DecodedRegisterAck) × (decode_register_ack bytes ≡ decoded ack)
    × (ack.status ≡ 0)
    × (peers ≡ tabulate (register_ack_peer_at ack) ack.peer_count)

accepted_ack_lem :
    (r : RegisterDecodeResult DecodedRegisterAck) (peers : List RegisterAckPeer)
    → accepted_ack r ≡ some peers
    → (ack : DecodedRegisterAck) × (r ≡ decoded ack)
      × (ack.status ≡ 0)
      × (peers ≡ tabulate (register_ack_peer_at ack) ack.peer_count)
unfolding accepted_ack
accepted_ack_lem (decoded ack) peers e = elim (Bool-cases (ack.status == 0)) [
  | inl good ↦ (ack, refl, ground (arith, good), sym (some_injective (rw good at e)))
  | inr bad ↦ absurd (cc (rw bad at e))
]
accepted_ack_lem _ peers e = absurd (cc e)

good_status :
    (ack : DecodedRegisterAck) (ps : List RegisterAckPeer)
    → ack.status ≡ 0
    → (if ack.status == 0 then some ps else none) ≡ some ps
good_status ack ps e = ground arith

reply-IsAck :
    (reply : Option (List ℕ)) (peers : List RegisterAckPeer)
    → peers_of_reply reply ≡ some peers
    → (bytes : List ℕ) × (reply ≡ some bytes) × IsAck bytes peers
unfolding peers_of_reply
reply-IsAck none peers e = absurd (cc e)
reply-IsAck (some bytes) peers e =
    (bytes, refl, accepted_ack_lem (decode_register_ack bytes) peers e)

-- An attempt brings a result exactly if it is answered.
pub attempt_result-IsAnswered :
    (cipher : Option Cipher) (a : Attempt) (peers : List RegisterAckPeer)
    → (attempt_result cipher a ≡ some peers) ↔ IsAnswered cipher a peers
unfolding attempt_result
attempt_result-IsAnswered cipher a peers = (there, back)
  where
    there : attempt_result cipher a ≡ some peers → IsAnswered cipher a peers
    there e = elim (Bool-cases a.sent) [
      | inl whole ↦
          let (bytes, is_open, ack) = reply-IsAck (opened cipher a.reply) peers (rw whole at e) in
          let (wire, came, in_clear) = opened-InClear cipher a.reply bytes is_open in
          let (decoded_ack, is_ack, status, listed) = ack in
          record {
            sent = whole;
            wire = wire;
            came = came;
            bytes = bytes;
            in_clear = in_clear;
            ack = decoded_ack;
            is_ack = is_ack;
            status = status;
            listed = listed;
          }
      | inr lost ↦ absurd (cc (rw lost at e))
    ]

    back : IsAnswered cipher a peers → attempt_result cipher a ≡ some peers
    back h = rw (h.sent) (
        ap (λ (r : Option (List ℕ)). peers_of_reply (opened cipher r)) h.came
        ∙ ap peers_of_reply (InClear-opened cipher h.wire h.bytes h.in_clear)
        ∙ of_ack)
      where
        of_ack : peers_of_reply (some h.bytes) ≡ some peers
        of_ack =
            unfold peers_of_reply accepted_ack in
            ap accepted_ack h.is_ack
            ∙ good_status h.ack (tabulate (register_ack_peer_at h.ack) h.ack.peer_count) h.status
            ∙ ap some (sym h.listed)
