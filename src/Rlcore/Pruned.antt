-- ===== src/Rlcore/Pruned.antt =====
-- What `prune_stale` keeps.
use relink_com.Base.{
  ℕ, ◌+◌, ◌-◌, ◌≡◌, refl, sym, ap, ◌∙◌, inl, inr, Bool, true, false, not, ◌&&◌, ◌||◌, Option, none,
  some, List, [], ◌∷◌, arith, ltb, leb, ◌==◌, if◌then◌else◌, find, erase, find-erase, nat_key,
  pair_key, Bool-cases, ==_iff, Key,
}
use relink_com.Rlcore.{
  PeerEntry, PeerSet, Registration, Table, RlCore, registration_ttl, age, is_stale, prune_peers,
  prune_table, keep_topic, prune_stale,
}

unfoldable pub is_some : {A : Type 0} → Option A → Bool
is_some none = false
is_some (some a) = true

-- Is a peer in a set?
unfoldable pub has : PeerEntry → PeerSet → Bool
has p ps = is_some (find p ps)

-- Is a peer registered for a topic?
unfoldable pub registered : ℕ → PeerEntry → Table → Bool
registered topic p [] = false
registered topic p ((t, ps) ∷ table) = ((t == topic) && has p ps) || registered topic p table

-- `is_stale` by what is found.
stale_of : ℕ → Option ℕ → Bool
stale_of now o =
    ltb registration_ttl
      (elim o as (λ x. ℕ) [ none ↦ registration_ttl + 1 | some seen ↦ now - seen ])

is_stale_eq :
    (now : ℕ) (k : Registration) (seen : List (Registration × ℕ))
    → is_stale now k seen ≡ stale_of now (find k seen)
unfolding is_stale age stale_of
is_stale_eq now k seen = refl

stale_if :
    (now : ℕ) (b : Bool) (o : Option ℕ)
    → (b ≡ true → stale_of now o ≡ true)
    → stale_of now (if b then none else o) ≡ stale_of now o
unfolding stale_of
stale_if now true o h = sym (h refl)
stale_if now false o h = refl

-- Erasing a registration that is stale makes no difference to what is stale.
is_stale-erase :
    (now : ℕ) (k j : Registration) (seen : List (Registration × ℕ))
    → is_stale now k seen ≡ true
    → is_stale now j (erase k seen) ≡ is_stale now j seen
is_stale-erase now k j seen h =
    is_stale_eq now j (erase k seen)
    ∙ ap (stale_of now) (find-erase k j seen)
    ∙ stale_if now (key.same k j) (find j seen) (λ e.
      sym (is_stale_eq now j seen)
      ∙ ap (λ (i : Registration). is_stale now i seen) (sym ((key.same_iff k j).0 e))
      ∙ h)
    ∙ sym (is_stale_eq now j seen)
  where
    key : Key Registration
    key = pair_key

abbrev key : Key PeerEntry
key = pair_key

pub is_some-if :
    {A : Type 0} (b : Bool) (a : A) (o : Option A)
    → is_some (if b then some a else o) ≡ (b || is_some o)
unfolding is_some
is_some-if true a o = refl
is_some-if false a o = refl

pub has-cons :
    (p q : PeerEntry) (u : Unit {0}) (ps : PeerSet)
    → has p ((q, u) ∷ ps) ≡ (key.same q p || has p ps)
unfolding has find
has-cons p q u ps = is_some-if (key.same q p) u (find p ps)

pub has-nil : (p : PeerEntry) → has p [] ≡ false
unfolding has find is_some
has-nil p = refl

has-empty : (p : PeerEntry) (b : Bool) → has p [] ≡ (has p [] && b)
unfolding has find is_some
has-empty p b = refl

dropped :
    (same h stale : Bool)
    → (same ≡ true → stale ≡ true)
    → (h && not stale) ≡ ((same || h) && not stale)
dropped true h stale e = rw (e refl) (ground arith)
dropped false h stale e = refl

kept_eq :
    (same h stale : Bool)
    → (same ≡ true → stale ≡ false)
    → (same || (h && not stale)) ≡ ((same || h) && not stale)
kept_eq true h stale e = rw (e refl)
kept_eq false h stale e = refl

-- What the loop over the peers of a topic does: to what is stale, nothing; to the set, what it should.
prune_peers_lem :
    (now topic : ℕ) (seen : List (Registration × ℕ)) (ps : PeerSet)
    → ((k : Registration) → is_stale now k (prune_peers now topic seen ps).0 ≡ is_stale now k seen)
      × ((p : PeerEntry)
          → has p (prune_peers now topic seen ps).1
            ≡ (has p ps && not (is_stale now (topic, p) seen)))
unfolding prune_peers
prune_peers_lem now topic seen [] =
    (λ k. refl, λ p. has-empty p (not (is_stale now (topic, p) seen)))
prune_peers_lem now topic seen ((q, u) ∷ ps) = elim (Bool-cases (is_stale now (topic, q) seen)) [
  | inl stale ↦
      let (same, kept) = prune_peers_lem now topic (erase (topic, q) seen) ps in
      (
        λ k. rw stale (same k ∙ is_stale-erase now (topic, q) k seen stale),
        λ p. rw stale (
            kept p
            ∙ ap (λ (b : Bool). has p ps && not b)
                (is_stale-erase now (topic, q) (topic, p) seen stale)
            ∙ dropped (key.same q p) (has p ps) (is_stale now (topic, p) seen)
                (λ e. sym (at p q e) ∙ stale)
            ∙ ap (λ (b : Bool). b && not (is_stale now (topic, p) seen)) (sym (has-cons p q u ps))),
      )
  | inr live ↦
      let (same, kept) = prune_peers_lem now topic seen ps in
      (
        λ k. rw live (same k),
        λ p. rw live (
            has-cons p q u (prune_peers now topic seen ps).1
            ∙ ap (λ (b : Bool). key.same q p || b) (kept p)
            ∙ kept_eq (key.same q p) (has p ps) (is_stale now (topic, p) seen)
                (λ e. sym (at p q e) ∙ live)
            ∙ ap (λ (b : Bool). b && not (is_stale now (topic, p) seen)) (sym (has-cons p q u ps))),
      )
]
  where
    at :
        (p q : PeerEntry)
        → key.same q p ≡ true
        → is_stale now (topic, q) seen ≡ is_stale now (topic, p) seen
    at p q e = ap (λ (x : PeerEntry). is_stale now (topic, x) seen) ((key.same_iff q p).0 e)

registered-keep_topic :
    (topic t : ℕ) (p : PeerEntry) (ps : PeerSet) (rest : Table)
    → registered topic p (keep_topic t ps rest)
      ≡ (((t == topic) && has p ps) || registered topic p rest)
unfolding keep_topic registered has find is_some
registered-keep_topic topic t p [] rest = ground arith
registered-keep_topic topic t p (q ∷ ps) rest = refl

one_topic :
    (e h r stale_t stale : Bool)
    → (e ≡ true → stale_t ≡ stale)
    → ((e && (h && not stale_t)) || (r && not stale)) ≡ (((e && h) || r) && not stale)
one_topic true h r stale_t stale c = rw (c refl) (ground arith)
one_topic false h r stale_t stale c = refl

prune_table_lem :
    (now : ℕ) (seen : List (Registration × ℕ)) (table : Table) (topic : ℕ) (p : PeerEntry)
    → registered topic p (prune_table now seen table).1
      ≡ (registered topic p table && not (is_stale now (topic, p) seen))
unfolding prune_table registered
prune_table_lem now seen [] topic p = refl
prune_table_lem now seen ((t, ps) ∷ table) topic p =
    let (same, kept) = prune_peers_lem now t seen ps in
    let (seen', left) = prune_peers now t seen ps in
    registered-keep_topic topic t p left (prune_table now seen' table).1
    ∙ ap (λ (b : Bool). ((t == topic) && b) || registered topic p (prune_table now seen' table).1)
        (kept p)
    ∙ ap (λ (b : Bool). ((t == topic) && (has p ps && not (is_stale now (t, p) seen))) || b)
        (prune_table_lem now seen' table topic p
          ∙ ap (λ (b : Bool). registered topic p table && not b) (same (topic, p)))
    ∙ one_topic (t == topic) (has p ps) (registered topic p table) (is_stale now (t, p) seen)
        (is_stale now (topic, p) seen)
        (λ e. ap (λ (x : ℕ). is_stale now (x, p) seen) ((==_iff t topic).0 e))

-- Has a last request come, no longer ago than the limit?
unfoldable pub is_live : ℕ → Option ℕ → Bool
is_live now none = false
is_live now (some seen) = leb (now - seen) registration_ttl

is_live_eq :
    (now : ℕ) (k : Registration) (seen : List (Registration × ℕ))
    → not (is_stale now k seen) ≡ is_live now (find k seen)
unfolding stale_of is_live
is_live_eq now k seen = ap not (is_stale_eq now k seen) ∙ pick (find k seen)
  where
    pick : (o : Option ℕ) → not (stale_of now o) ≡ is_live now o
    pick none = refl
    pick (some t) = ground arith

-- A peer is registered for a topic after `prune_stale` exactly where it was before and its last request for
-- that topic is known and came no longer than the limit of three seconds ago.
pub registered-prune_stale :
    (relay_mode : Bool) (now : ℕ) (st : RlCore) (topic : ℕ) (p : PeerEntry)
    → registered topic p (prune_stale relay_mode now st).table
      ≡ (registered topic p st.table && is_live now (find (topic, p) st.last_seen))
unfolding prune_stale
registered-prune_stale relay_mode now st topic p =
    prune_table_lem now st.last_seen st.table topic p
    ∙ ap (λ (b : Bool). registered topic p st.table && b) (is_live_eq now (topic, p) st.last_seen)
