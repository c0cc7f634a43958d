-- ===== src/Register/Ack.antt =====
-- RegisterAck: round trip.
use relink_com.Base.{
  ℕ, suc, ◌+◌, ◌*◌, ◌<◌, ◌≤◌, ◌≡◌, refl, ap, ap₂, ◌∙◌, ◌⊎◌, inl, inr, List, [], ◌∷◌, ◌++◌, arith,
  length, drop, All, le16, le32, u16_at, u32_at, u16_mod, u32_mod, tabulate, tabulate_congr,
  length-append, u16_at-append, u32_at-append,
}
use native.Mathlib.Decide.{dec_le}
use relink_com.Register.{
  RegisterAckPeer, DecodedRegisterAck, ok, decoded, buffer_too_small, encode_register_ack,
  decode_register_ack, register_ack_peer_at, peer_bytes, peer_at, write_peers,
}

pub record PeerFits (p : RegisterAckPeer) : Type 0 where
  pub ip : p.ip < u32_mod
  pub port : p.port < u16_mod
  pub topic_id : p.topic_id < u32_mod
  pub lan_ip : p.lan_ip < u32_mod
  pub lan_port : p.lan_port < u16_mod

-- The peers that `register_ack_peer_at` reads out of a decoded ack, in order.
abbrev pub peers_of : DecodedRegisterAck → List RegisterAckPeer
peers_of ack = tabulate (register_ack_peer_at ack) ack.peer_count

length-peer_bytes : (p : RegisterAckPeer) → length (peer_bytes p) ≡ 16
unfolding peer_bytes le32 le16
length-peer_bytes p = refl

length-write_peers : (ps : List RegisterAckPeer) → length (write_peers ps) ≡ 16 * length ps
unfolding write_peers
length-write_peers [] = refl
length-write_peers (p ∷ ps) = omega (
  arith,
  length-append (peer_bytes p) (write_peers ps),
  length-peer_bytes p,
  length-write_peers ps,
)

peer_at-peer_bytes :
    (p : RegisterAckPeer) (rest : List ℕ) → PeerFits p → peer_at (peer_bytes p ++ rest) 0 ≡ p
unfolding peer_at peer_bytes le32 le16 u32_at u16_at
peer_at-peer_bytes p rest f = ground arith

peer_at-append :
    (p : RegisterAckPeer) (xs : List ℕ) (i : ℕ)
    → peer_at (peer_bytes p ++ xs) (16 + i) ≡ peer_at xs i
unfolding peer_at
peer_at-append p xs i = ground (
  arith,
  length-peer_bytes p,
  u32_at-append (peer_bytes p) xs i,
  u16_at-append (peer_bytes p) xs (i + 4),
  u32_at-append (peer_bytes p) xs (i + 6),
  u32_at-append (peer_bytes p) xs (i + 10),
  u16_at-append (peer_bytes p) xs (i + 14),
)

peers-write_peers :
    (ps : List RegisterAckPeer)
    → All PeerFits ps
    → tabulate (λ i. peer_at (write_peers ps) (i * 16)) (length ps) ≡ ps
unfolding write_peers
peers-write_peers [] h = refl
peers-write_peers (p ∷ ps) (hp, hps) =
    ap₂ ◌∷◌ (peer_at-peer_bytes p (write_peers ps) hp)
      (tabulate_congr _ _ (length ps) later ∙ peers-write_peers ps hps)
  where
    later :
        (i : ℕ)
        → i < length ps
        → peer_at (peer_bytes p ++ write_peers ps) (suc i * 16) ≡ peer_at (write_peers ps) (i * 16)
    later i _ =
        ap (λ (k : ℕ). peer_at (peer_bytes p ++ write_peers ps) k) {y = 16 + i * 16} (omega arith)
        ∙ peer_at-append p (write_peers ps) (i * 16)

abbrev ack_bytes : ℕ → List RegisterAckPeer → List ℕ
ack_bytes status peers = status ∷ (le16 (length peers) ++ write_peers peers)

ack_fields :
    (status : ℕ) (peers : List RegisterAckPeer)
    → length peers < u16_mod
    → (u16_at (ack_bytes status peers) 1 ≡ length peers)
      × (drop 3 (ack_bytes status peers) ≡ write_peers peers)
      × (length (ack_bytes status peers) ≡ 3 + length peers * 16)
unfolding le16 u16_at
ack_fields status peers h = (omega arith, refl, omega (arith, length-write_peers peers))

-- For at most 65535 peers `encode_register_ack` refuses exactly the buffers that are too small, and any
-- other ack decodes to the status and the list of peers, their LAN candidates included.
pub decode_ack-encode_ack :
    (status : ℕ) (peers : List RegisterAckPeer) (capacity : ℕ)
    → length peers < u16_mod
    → All PeerFits peers
    → (encode_register_ack status peers capacity ≡ buffer_too_small)
        × (capacity < 3 + length peers * 16)
      ⊎ ((bytes : List ℕ) × (ack : DecodedRegisterAck) × (encode_register_ack status peers capacity
            ≡ ok bytes)
          × (length bytes ≤ capacity)
          × (decode_register_ack bytes ≡ decoded ack)
          × (ack.status ≡ status)
          × (peers_of ack ≡ peers))
decode_ack-encode_ack status peers capacity hn hps =
    elim (dec_le (3 + length peers * 16) capacity) [
      | no small ↦ inl (unfold encode_register_ack in ground arith, omega arith)
      | yes room ↦ inr (
        ack_bytes status peers,
        record { status = status; peer_count = length peers; peers_raw = write_peers peers },
        unfold encode_register_ack in ground arith,
        omega (arith, ack_fields status peers hn),
        unfold decode_register_ack in ground (arith, ack_fields status peers hn),
        refl,
        unfold register_ack_peer_at in peers-write_peers peers hps,
      )
    ]
