-- ===== src/Node/Start.antt =====
-- Starting a RelinkNode (ensure_started of relink.hpp): the checks of the discovery mode, the topics of each socket,
-- which are registered or announced together, and the socket through which a topic's peers are reached.
use relink_com.Base.{
  ℕ, Bool, true, false, not, ◌&&◌, Option, none, some, List, [], ◌∷◌, ◌++◌, ◌==◌, if◌then◌else◌,
  find, put, nat_key, length, keep, ◌>>=◌,
}
use relink_com.Transport.{Transport}
use relink_com.Node.{
  no_mode, rl_core, Node, Topics, Via, shared, dedicated, same_mode, select_mode, group_key,
}

pub record RlCoreConfig : Type 0 where
  pub ip_set : Bool
  pub rlcore_ip : ℕ
  pub rlcore_port : ℕ
  pub relay_requested : Bool

abbrev pub Groups : Type 0
Groups = List (ℕ × List ℕ)

unfoldable pub topics_of : Topics → List ℕ
topics_of [] = []
topics_of ((t, u) ∷ ts) = t ∷ topics_of ts

unfoldable pub topics_at : ℕ → Groups → List ℕ
topics_at key groups = elim (find key groups) [ none ↦ [] | some topics ↦ topics ]

-- The group of the shared socket, unless it is empty.
unfoldable pub shared_group : List ℕ → List (Via × List ℕ)
shared_group [] = []
shared_group (t ∷ ts) = (shared, t ∷ ts) ∷ []

unfoldable pub dedicated_groups : Groups → List (Via × List ℕ)
dedicated_groups [] = []
dedicated_groups ((key, topics) ∷ groups) = (dedicated key, topics) ∷ dedicated_groups groups

module _ {H : Type 0} where
  -- set_rlcore.ip
  unfoldable pub set_ip : ℕ → RlCoreConfig → Node H → Option (RlCoreConfig × Node H)
  set_ip addr c n = do
    n1 ← select_mode rl_core n
    some (record c { ip_set = true; rlcore_ip = addr }, n1)

  unfoldable pub use_rlcore_relay : RlCoreConfig → Node H → Node H
  use_rlcore_relay c n = record n {
    relay_enabled = true;
    relay_ip = c.rlcore_ip;
    relay_port = c.rlcore_port;
  }

  -- What ensure_started refuses, and the relay that setRelay asks for.
  unfoldable pub check_mode : RlCoreConfig → Node H → Option (Node H)
  check_mode c n =
      if same_mode n.mode no_mode
      then none
      else if same_mode n.mode rl_core && not c.ip_set
      then none
      else if c.relay_requested && not n.relay_enabled
      then if not (same_mode n.mode rl_core) then none else some (use_rlcore_relay c n)
      else some n

  -- A topic goes to the group of its key if that key has a transport.
  unfoldable pub add_topic : ℕ → ℕ → Option (Transport H) → Groups → Groups
  add_topic key topic none groups = groups
  add_topic key topic (some t) groups = put key (topics_at key groups ++ (topic ∷ [])) groups

  unfoldable pub by_transport : Node H → List ℕ → Groups → Groups
  by_transport n [] groups = groups
  by_transport n (t ∷ ts) groups =
      let key = group_key t n in
      let more = by_transport n ts in more (add_topic key t (find key n.topic_transports) groups)

  unfoldable pub is_made : Option (Transport H) → Bool
  is_made none = false
  is_made (some t) = true

  unfoldable pub has_transport : Node H → ℕ → Bool
  has_transport n topic = is_made (find (group_key topic n) n.topic_transports)

  unfoldable pub leftover : Node H → List ℕ → List ℕ
  leftover n topics = keep (λ t. not (has_transport n t)) topics

  unfoldable pub groups : Node H → List (Via × List ℕ)
  groups n =
      let topics = topics_of n.declared_topics in
      if not n.multiplex && not (length n.topic_transports == 0)
      then dedicated_groups (by_transport n topics []) ++ shared_group (leftover n topics)
      else shared_group topics

-- topic_route_: every topic of a group has the group's socket.
unfoldable pub route_topics : Via → List ℕ → List (ℕ × Via) → List (ℕ × Via)
route_topics via [] routes = routes
route_topics via (t ∷ ts) routes = let more = route_topics via ts in more (put t via routes)

unfoldable pub topic_routes : List (Via × List ℕ) → List (ℕ × Via) → List (ℕ × Via)
topic_routes [] routes = routes
topic_routes ((via, topics) ∷ gs) routes =
    let more = topic_routes gs in more (route_topics via topics routes)
