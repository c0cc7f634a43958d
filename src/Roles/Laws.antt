-- ===== src/Roles/Laws.antt =====
-- The role directory: splitting and round trip, and which packets are accepted.
use relink_com.Base.{
  ℕ, ◌+◌, ◌<◌, ◌≤◌, ◌≡◌, refl, some, List, [], ◌∷◌, ◌++◌, arith, length, get_or, drop, All, IsByte,
  le16, le32, u16_at, u32_at, u16_mod, u32_mod, length-append, append_assoc, u16_at-append,
  u32_at-append, get_or-append_right, drop_u16, drop_u32, drop_byte, get_or-All, u32_at-lt,
  u16_at-lt,
}
use relink_com.Packet.Wire.{Laws}
use relink_com.Roles.{
  RoleAnnounceEntry, RolePeerEntry, announce_entry, peer_entry, announce_entry_bytes,
  peer_entry_bytes, read_announce_entry, read_peer_entry,
}

pub record AnnounceFits (e : RoleAnnounceEntry) : Type 0 where
  pub id : e.topic_id < u32_mod
  pub role : e.role < 256

pub record PeerFits (e : RolePeerEntry) : Type 0 where
  pub id : e.topic_id < u32_mod
  pub role : e.role < 256
  pub ip : e.ip < u32_mod
  pub port : e.port < u16_mod

announce_fields :
    (e : RoleAnnounceEntry) (rest : List ℕ)
    → AnnounceFits e
    → let xs = announce_entry_bytes e ++ rest in
      (u32_at xs 0 ≡ e.topic_id) × (get_or xs 4 0 ≡ e.role) × (length xs ≡ 5 + length rest)
unfolding announce_entry_bytes le32 u32_at
announce_fields e rest v = (omega (arith, v), refl, omega arith)

announce_read_back :
    (pre rest : List ℕ) (e : RoleAnnounceEntry)
    → AnnounceFits e
    → read_announce_entry (pre ++ (announce_entry_bytes e ++ rest)) (length pre)
      ≡ some (e, length pre + (4 + 1))
unfolding read_announce_entry
announce_read_back pre rest e v = ground (
  arith,
  announce_fields e rest v,
  length-append pre (announce_entry_bytes e ++ rest),
  u32_at-append pre (announce_entry_bytes e ++ rest) 0,
  get_or-append_right pre (announce_entry_bytes e ++ rest) 4 0,
)

announce_guards :
    (buf : List ℕ) (off : ℕ) (e : RoleAnnounceEntry) (off' : ℕ)
    → read_announce_entry buf off ≡ some (e, off')
    → (off + 5 ≤ length buf)
      × (off' ≡ off + 5)
      × (e.topic_id ≡ u32_at buf off)
      × (e.role ≡ get_or buf (off + 4) 0)
unfolding read_announce_entry
announce_guards buf off e off' h = ground arith

announce_read_sound :
    (buf : List ℕ) (off : ℕ) (e : RoleAnnounceEntry) (off' : ℕ)
    → All IsByte buf
    → read_announce_entry buf off ≡ some (e, off')
    → AnnounceFits e
      × (drop off buf ≡ announce_entry_bytes e ++ drop off' buf)
      × (off' ≡ off + (4 + 1))
      × (off' ≤ length buf)
unfolding announce_entry_bytes
announce_read_sound buf off e off' b h = (
  ground (arith, guards, u32_at-lt buf off b, get_or-All buf (off + 4) b),
  rw append_assoc (ground (arith, guards, drop_u32 off buf b, drop_byte (off + 4) buf)),
  omega (arith, guards),
  omega (arith, guards),
)
  where
    guards :
        (off + 5 ≤ length buf)
        × (off' ≡ off + 5)
        × (e.topic_id ≡ u32_at buf off)
        × (e.role ≡ get_or buf (off + 4) 0)
    guards = announce_guards buf off e off' h

pub announce_entry-Laws : Laws announce_entry AnnounceFits
unfolding announce_entry_bytes le32
announce_entry-Laws = record {
  count_fits = omega arith;
  small = λ e v. omega arith;
  positive = λ e. omega arith;
  written = λ e v. refl;
  sized = λ e v. refl;
  read_back = announce_read_back;
  read_sound = announce_read_sound;
}

peer_fields :
    (e : RolePeerEntry) (rest : List ℕ)
    → PeerFits e
    → let xs = peer_entry_bytes e ++ rest in
      (u32_at xs 0 ≡ e.topic_id)
      × (get_or xs 4 0 ≡ e.role)
      × (u32_at xs 5 ≡ e.ip)
      × (u16_at xs 9 ≡ e.port)
      × (length xs ≡ 11 + length rest)
unfolding peer_entry_bytes le32 le16 u32_at u16_at
peer_fields e rest v = (omega (arith, v), refl, omega (arith, v), omega (arith, v), omega arith)

peer_read_back :
    (pre rest : List ℕ) (e : RolePeerEntry)
    → PeerFits e
    → read_peer_entry (pre ++ (peer_entry_bytes e ++ rest)) (length pre)
      ≡ some (e, length pre + (4 + 1 + 4 + 2))
unfolding read_peer_entry
peer_read_back pre rest e v = ground (
  arith,
  peer_fields e rest v,
  length-append pre (peer_entry_bytes e ++ rest),
  u32_at-append pre (peer_entry_bytes e ++ rest) 0,
  get_or-append_right pre (peer_entry_bytes e ++ rest) 4 0,
  u32_at-append pre (peer_entry_bytes e ++ rest) 5,
  u16_at-append pre (peer_entry_bytes e ++ rest) 9,
)

-- What one round of `decode_role_reply` has checked and read.
record PeerRead (buf : List ℕ) (off : ℕ) (e : RolePeerEntry) (off' : ℕ) : Type 0 where
  room : off + 11 ≤ length buf
  next : off' ≡ off + 11
  id : e.topic_id ≡ u32_at buf off
  role : e.role ≡ get_or buf (off + 4) 0
  ip : e.ip ≡ u32_at buf (off + 5)
  port : e.port ≡ u16_at buf (off + 9)

peer_guards :
    (buf : List ℕ) (off : ℕ) (e : RolePeerEntry) (off' : ℕ)
    → read_peer_entry buf off ≡ some (e, off')
    → PeerRead buf off e off'
unfolding read_peer_entry
peer_guards buf off e off' h = ground arith

peer_read_sound :
    (buf : List ℕ) (off : ℕ) (e : RolePeerEntry) (off' : ℕ)
    → All IsByte buf
    → read_peer_entry buf off ≡ some (e, off')
    → PeerFits e
      × (drop off buf ≡ peer_entry_bytes e ++ drop off' buf)
      × (off' ≡ off + (4 + 1 + 4 + 2))
      × (off' ≤ length buf)
unfolding peer_entry_bytes
peer_read_sound buf off e off' b h =
    let r = peer_guards buf off e off' h in
    (
      ground (
        arith,
        r,
        u32_at-lt buf off b,
        get_or-All buf (off + 4) b,
        u32_at-lt buf (off + 5) b,
        u16_at-lt buf (off + 9) b,
      ),
      rw (append_assoc (le32 e.topic_id), append_assoc (e.role ∷ []), append_assoc (le32 e.ip))
          (ground (
            arith,
            r,
            drop_u32 off buf b,
            drop_byte (off + 4) buf,
            drop_u32 (off + 5) buf b,
            drop_u16 (off + 9) buf b,
          )),
      omega (arith, r),
      omega (arith, r),
    )

pub peer_entry-Laws : Laws peer_entry PeerFits
unfolding peer_entry_bytes le32 le16
peer_entry-Laws = record {
  count_fits = omega arith;
  small = λ e v. omega arith;
  positive = λ e. omega arith;
  written = λ e v. refl;
  sized = λ e v. refl;
  read_back = peer_read_back;
  read_sound = peer_read_sound;
}
