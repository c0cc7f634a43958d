-- ===== src/Rlcore.antt =====
-- cpp/rlcore/relink_rlcore.cpp: the registry daemon. Its variables, and `prune_stale`.
-- A `double` of seconds on the monotonic clock is a natural number of nanoseconds here.
pub mod Dispatch
pub mod Pruned
pub mod Swallowed
pub mod Replies
pub mod Acks
mod Tests
use relink_com.Base.{
  ℕ, ◌+◌, ◌-◌, Bool, true, false, not, Option, none, some, List, [], ◌∷◌, ltb, if◌then◌else◌, find,
  put, erase, keep, nat_key, pair_key,
}

-- ip and port, compared as `operator<` of PeerEntry does.
abbrev pub PeerEntry : Type 0
PeerEntry = ℕ × ℕ

-- std::set<PeerEntry>
abbrev pub PeerSet : Type 0
PeerSet = List (PeerEntry × Unit {0})

-- (topic_id, peer)
abbrev pub Registration : Type 0
Registration = ℕ × PeerEntry

abbrev pub Table : Type 0
Table = List (ℕ × PeerSet)

abbrev pub RelayGroups : Type 0
RelayGroups = List (ℕ × List (PeerEntry × ℕ))

-- The maps of `main`.
pub record RlCore : Type 0 where
  pub table : Table
  pub lan_of : List (PeerEntry × PeerEntry)
  pub last_seen : List (Registration × ℕ)
  pub role_table : List (Registration × ℕ)
  pub role_last_seen : List (Registration × ℕ)
  pub relay_groups : RelayGroups
  pub topic_names : List (ℕ × List ℕ)

abbrev pub registration_ttl : ℕ
registration_ttl = 3000000000

abbrev pub relay_member_ttl : ℕ
relay_member_ttl = 30000000000

-- The age of a registration, which is past the limit where there is none.
unfoldable pub age : ℕ → Registration → List (Registration × ℕ) → ℕ
age now key last_seen = elim (find key last_seen) [
  | none ↦ registration_ttl + 1
  | some seen ↦ now - seen
]

unfoldable pub is_stale : ℕ → Registration → List (Registration × ℕ) → Bool
is_stale now key last_seen = ltb registration_ttl (age now key last_seen)

-- The inner loop over the peers of a topic, which erases from `last_seen` on the way.
unfoldable pub prune_peers :
    ℕ → ℕ → List (Registration × ℕ) → PeerSet → List (Registration × ℕ) × PeerSet
prune_peers now topic last_seen [] = (last_seen, [])
prune_peers now topic last_seen ((peer, u) ∷ peers) =
    let stale = is_stale now (topic, peer) last_seen in
    let (seen, rest) =
      prune_peers now topic (if stale then erase (topic, peer) last_seen else last_seen) peers in
    (seen, if stale then rest else (peer, u) ∷ rest)

-- A topic is erased when no peer of it is left.
unfoldable pub keep_topic : {A : Type 0} → ℕ → List A → List (ℕ × List A) → List (ℕ × List A)
keep_topic topic [] rest = rest
keep_topic topic (x ∷ xs) rest = (topic, x ∷ xs) ∷ rest

unfoldable pub prune_table : ℕ → List (Registration × ℕ) → Table → List (Registration × ℕ) × Table
prune_table now last_seen [] = (last_seen, [])
prune_table now last_seen ((topic, peers) ∷ table) =
    let (seen, left) = prune_peers now topic last_seen peers in
    let (seen', rest) = prune_table now seen table in (seen', keep_topic topic left rest)

-- The loop over `role_last_seen`, with `role_table`.
unfoldable pub prune_roles :
    ℕ
    → List (Registration × ℕ)
    → List (Registration × ℕ)
    → List (Registration × ℕ) × List (Registration × ℕ)
prune_roles now roles [] = (roles, [])
prune_roles now roles ((key, seen) ∷ last_seen) =
    let stale = ltb registration_ttl (now - seen) in
    let (roles', rest) = prune_roles now (if stale then erase key roles else roles) last_seen in
    (roles', if stale then rest else (key, seen) ∷ rest)

unfoldable pub is_member : ℕ → PeerEntry × ℕ → Bool
is_member now member = not (ltb relay_member_ttl (now - member.1))

unfoldable pub prune_groups : ℕ → RelayGroups → RelayGroups
prune_groups now [] = []
prune_groups now ((topic, members) ∷ groups) =
    keep_topic topic (keep (is_member now) members) (prune_groups now groups)

unfoldable pub prune_stale : Bool → ℕ → RlCore → RlCore
prune_stale relay_mode now st =
    let (last_seen, table) = prune_table now st.last_seen st.table in
    let (role_table, role_last_seen) = prune_roles now st.role_table st.role_last_seen in
    record st {
      table = table;
      last_seen = last_seen;
      role_table = role_table;
      role_last_seen = role_last_seen;
      relay_groups = if relay_mode then prune_groups now st.relay_groups else st.relay_groups;
    }
