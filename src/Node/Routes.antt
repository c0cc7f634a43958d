-- ===== src/Node/Routes.antt =====
-- The sockets of topics once a RelinkNode has started (ensure_started of relink.hpp).
use relink_com.Base.{
  ℕ, ◌≡◌, refl, sym, ap, ◌∙◌, arith, Bool, true, false, not, ◌&&◌, ◌||◌, Option, none, some, List,
  [], ◌∷◌, ◌++◌, ◌==◌, if◌then◌else◌, find, put, nat_key, find-put, is_in, keep, length, All,
  Bool-cases, ltb, inl, inr, ==_iff,
}
use relink_com.Transport.{Transport}
use relink_com.Node.{Node, Via, shared, dedicated, group_key, transport_for}
use relink_com.Node.Groups.{
  any_in, is_in-append, topics_at_here, topics_at_there, any_in-put, topics_at-any_in,
}
use relink_com.Node.Start.{
  Groups, topics_of, topics_at, add_topic, by_transport, has_transport, is_made, leftover,
  shared_group, dedicated_groups, groups, route_topics, topic_routes,
}

find-route_topics :
    (via : Via) (t : ℕ) (ts : List ℕ) (routes : List (ℕ × Via))
    → find t (route_topics via ts routes) ≡ (if is_in t ts then some via else find t routes)
unfolding route_topics is_in
find-route_topics via t [] routes = refl
find-route_topics via t (u ∷ us) routes =
    ground (arith, find-route_topics via t us (put u via routes), find-put u t via routes)

topic_routes-append :
    (gs hs : List (Via × List ℕ)) (routes : List (ℕ × Via))
    → topic_routes (gs ++ hs) routes ≡ topic_routes hs (topic_routes gs routes)
unfolding topic_routes
topic_routes-append [] hs routes = refl
topic_routes-append ((via, ts) ∷ gs) hs routes =
    topic_routes-append gs hs (route_topics via ts routes)

find-shared_group :
    (t : ℕ) (ts : List ℕ) (routes : List (ℕ × Via))
    → find t (topic_routes (shared_group ts) routes)
      ≡ (if is_in t ts then some shared else find t routes)
unfolding topic_routes shared_group
find-shared_group t [] routes = unfold is_in in refl
find-shared_group t (u ∷ us) routes = find-route_topics shared t (u ∷ us) routes

module _ {H : Type 0} (n : Node H) where
  -- The topics of a group have its key.
  abbrev InGroup : ℕ × List ℕ → Type 0
  InGroup g = (t : ℕ) → is_in t g.1 ≡ true → group_key t n ≡ g.0

  InGroup-put :
      (key : ℕ) (ts : List ℕ) (gs : Groups)
      → InGroup (key, ts)
      → All InGroup gs
      → All InGroup (put key ts gs)
  unfolding put
  InGroup-put key ts [] g all = (g, tt)
  InGroup-put key ts ((j, us) ∷ gs) g (g', all) = elim (Bool-cases (j == key)) [
    | inl same ↦ rw same (g, all)
    | inr other ↦ elim (Bool-cases (ltb key j)) [
      | inl before ↦ rw (other, before) (g, (g', all))
      | inr behind ↦ rw (other, behind) (g', InGroup-put key ts gs g all)
    ]
  ]

  topics_at-InGroup : (key : ℕ) (gs : Groups) → All InGroup gs → InGroup (key, topics_at key gs)
  unfolding topics_at find
  topics_at-InGroup key [] all t h = absurd (no_member t h)
    where
      no_member : (t : ℕ) → is_in t [] ≡ true → ⊥
      no_member t h = unfold is_in in cc
  topics_at-InGroup key ((j, us) ∷ gs) (g, all) t h = elim (Bool-cases (j == key)) [
    | inl same ↦ g t (rw (topics_at_here key j us gs same) at h) ∙ (==_iff j key).0 same
    | inr other ↦ topics_at-InGroup key gs all t (rw (topics_at_there key j us gs other) at h)
  ]

  find-dedicated_groups :
      (t : ℕ) (gs : Groups) (routes : List (ℕ × Via))
      → All InGroup gs
      → find t (topic_routes (dedicated_groups gs) routes)
        ≡ (if any_in t gs then some (dedicated (group_key t n)) else find t routes)
  unfolding topic_routes dedicated_groups any_in
  find-dedicated_groups t [] routes all = refl
  find-dedicated_groups t ((key, ts) ∷ gs) routes (g, all) =
      find-dedicated_groups t gs (route_topics (dedicated key) ts routes) all
      ∙ ap (λ (o : Option Via). if any_in t gs then some (dedicated (group_key t n)) else o)
          (find-route_topics (dedicated key) t ts routes)
      ∙ merged (is_in t ts) (any_in t gs) (g t)
    where
      merged :
          (here there : Bool)
          → (here ≡ true → group_key t n ≡ key)
          → (if there
              then some (dedicated (group_key t n))
              else if here
              then some (dedicated key)
              else find t routes)
            ≡ (if here || there then some (dedicated (group_key t n)) else find t routes)
      merged true true same = refl
      merged false true same = refl
      merged true false same = ap (λ (k : ℕ). some (dedicated k)) (sym (same refl))
      merged false false same = refl

  add_topic-InGroup :
      (t : ℕ) (o : Option (Transport H)) (gs : Groups)
      → All InGroup gs
      → All InGroup (add_topic (group_key t n) t o gs)
  unfolding add_topic
  add_topic-InGroup t none gs all = all
  add_topic-InGroup t (some found) gs all =
      InGroup-put (group_key t n) (topics_at (group_key t n) gs ++ (t ∷ [])) gs grown all
    where
      is_last :
          (u : ℕ)
          → is_in u (topics_at (group_key t n) gs ++ (t ∷ [])) ≡ true
          → is_in u (topics_at (group_key t n) gs) ≡ false
          → t ≡ u
      is_last u h new =
          unfold is_in in ground (arith, is_in-append u (topics_at (group_key t n) gs) (t ∷ []))

      grown : InGroup (group_key t n, topics_at (group_key t n) gs ++ (t ∷ []))
      grown u h = elim (Bool-cases (is_in u (topics_at (group_key t n) gs))) [
        | inl old ↦ topics_at-InGroup (group_key t n) gs all u old
        | inr new ↦ ap (λ (x : ℕ). group_key x n) (sym (is_last u h new))
      ]

  by_transport-InGroup :
      (ts : List ℕ) (gs : Groups) → All InGroup gs → All InGroup (by_transport n ts gs)
  unfolding by_transport
  by_transport-InGroup [] gs all = all
  by_transport-InGroup (t ∷ ts) gs all =
      by_transport-InGroup ts _
        (add_topic-InGroup t (find (group_key t n) n.topic_transports) gs all)

  any_in-add_topic :
      (t u : ℕ) (o : Option (Transport H)) (gs : Groups)
      → any_in u (add_topic (group_key t n) t o gs) ≡ (any_in u gs || ((t == u) && is_made o))
  unfolding add_topic is_made
  any_in-add_topic t u none gs = ground arith
  any_in-add_topic t u (some found) gs =
      let key = group_key t n in
      any_in-put u key (topics_at key gs ++ (t ∷ [])) gs
        (λ h. unfold is_in in ground (arith, is_in-append u (topics_at key gs) (t ∷ [])))
      ∙ (unfold is_in in
          ground (arith, is_in-append u (topics_at key gs) (t ∷ []), topics_at-any_in u key gs))

  same_has_transport : (t u : ℕ) → (t == u) ≡ true → has_transport n t ≡ has_transport n u
  same_has_transport t u same = ap (λ (x : ℕ). has_transport n x) ((==_iff t u).0 same)

  one_more :
      (t u : ℕ) (before after : Bool)
      → ((before || ((t == u) && has_transport n t)) || (after && has_transport n u))
        ≡ (before || (((t == u) || after) && has_transport n u))
  one_more t u before after = ground (arith, same_has_transport t u)

  any_in-by_transport :
      (u : ℕ) (ts : List ℕ) (gs : Groups)
      → any_in u (by_transport n ts gs) ≡ (any_in u gs || (is_in u ts && has_transport n u))
  unfolding by_transport is_in has_transport
  any_in-by_transport u [] gs = ground arith
  any_in-by_transport u (t ∷ ts) gs =
      any_in-by_transport u ts _
      ∙ ap (λ (b : Bool). b || (is_in u ts && has_transport n u))
          (any_in-add_topic t u (find (group_key t n) n.topic_transports) gs)
      ∙ one_more t u (any_in u gs) (is_in u ts)

  is_in-leftover :
      (u : ℕ) (ts : List ℕ) → is_in u (leftover n ts) ≡ (is_in u ts && not (has_transport n u))
  unfolding leftover keep is_in
  is_in-leftover u [] = refl
  is_in-leftover u (t ∷ ts) = ground (arith, same_has_transport t u, is_in-leftover u ts)

  sorted_out :
      (t : ℕ) (declared made : Bool) (via : Via)
      → (if declared && not made
          then some shared
          else if any_in t [] || (declared && made)
          then some via
          else find t [])
        ≡ (if declared then some (if made then via else shared) else none)
  unfolding any_in find
  sorted_out t true true via = refl
  sorted_out t true false via = refl
  sorted_out t false made via = refl

  find-grouped :
      (t : ℕ) (ts : List ℕ)
      → find t (
          topic_routes (dedicated_groups (by_transport n ts []) ++ shared_group (leftover n ts)) [])
        ≡ (if is_in t ts
            then some (if has_transport n t then dedicated (group_key t n) else shared)
            else none)
  find-grouped t ts =
      rw
        (
          topic_routes-append (dedicated_groups (by_transport n ts []))
              (shared_group (leftover n ts)) [],
          find-shared_group t (leftover n ts)
              (topic_routes (dedicated_groups (by_transport n ts [])) []),
          find-dedicated_groups t (by_transport n ts []) [] (by_transport-InGroup ts [] tt),
          any_in-by_transport t ts [],
          is_in-leftover t ts,
        )
        (sorted_out t (is_in t ts) (has_transport n t) (dedicated (group_key t n)))

  no_transport : (t : ℕ) → (length n.topic_transports == 0) ≡ true → has_transport n t ≡ false
  unfolding has_transport is_made
  no_transport t h = on_none (group_key t n) n.topic_transports h
    where
      on_none :
          (key : ℕ) (m : List (ℕ × Transport H))
          → (length m == 0) ≡ true
          → is_made (find key m) ≡ false
      on_none key [] e = unfold find in refl
      on_none key (x ∷ m) e = absurd (ground (arith, e))

  via_demultiplexed :
      (t : ℕ) → n.multiplex ≡ false → (transport_for t n).0 ≡ dedicated (group_key t n)
  unfolding transport_for
  via_demultiplexed t h = rw h refl

  via_multiplexed : (t : ℕ) → n.multiplex ≡ true → (transport_for t n).0 ≡ shared
  unfolding transport_for
  via_multiplexed t h = rw h refl

  -- Once the node has started, each of its declared topics is routed through one socket, and no other topic is. That
  -- is the socket on which transport_for has it received and sent, if that socket was there before, and else the
  -- shared one.
  pub topic_routes-groups :
      (t : ℕ)
      → find t (topic_routes (groups n) []) ≡ (
          if is_in t (topics_of n.declared_topics)
          then some (if n.multiplex || has_transport n t then (transport_for t n).0 else shared)
          else none)
  unfolding groups find by_transport leftover has_transport group_key
  topic_routes-groups t = elim (Bool-cases n.multiplex) [
    | inl on ↦
        rw (via_multiplexed t on, groups, on) (find-shared_group t (topics_of n.declared_topics) [])
    | inr off ↦ elim (Bool-cases (length n.topic_transports == 0)) [
      | inl empty ↦
          rw (no_transport t empty, groups, off, empty)
            (find-shared_group t (topics_of n.declared_topics) [])
      | inr some_made ↦
          rw (via_demultiplexed t off, groups, off, some_made)
            (find-grouped t (topics_of n.declared_topics))
    ]
  ]
