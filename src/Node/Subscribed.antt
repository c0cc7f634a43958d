-- ===== src/Node/Subscribed.antt =====
-- Subscriptions of RelinkNode (relink.hpp) are heard on the topic's socket.
use relink_com.Base.{
  ℕ, ◌≡◌, refl, ap, subst, ◌∙◌, Bool, true, false, Option, none, some, if◌then◌else◌, Bool-cases,
  inl, inr, find, nat_key, find-put_self, some_injective, bind_inverse,
}
use relink_com.Transport.{Transport, set_topic_handler}
use relink_com.Node.{
  Node, Via, shared, dedicated, group_key, make_transport, transport_for, transport_at,
  update_transport, declare_subscribed, subscribed, subscribe_raw, register_pair,
}

module _ {H : Type 0} (topic : ℕ) (cb : H) where
  -- The handler of the topic on its socket.
  handler_of : Node H → Option H
  handler_of n = find topic (transport_at (transport_for topic n).0 n).handlers

  via_dedicated :
      (m : Node H) → m.multiplex ≡ false → (transport_for topic m).0 ≡ dedicated (group_key topic m)
  unfolding transport_for
  via_dedicated m off = rw off refl

  at_dedicated :
      (m : Node H) (t : Transport H)
      → m.multiplex ≡ false
      → find (group_key topic m) m.topic_transports ≡ some t
      → find topic t.handlers ≡ some cb
      → handler_of m ≡ some cb
  unfolding handler_of transport_for transport_at
  at_dedicated m t off at_key heard = rw (via_dedicated m off, transport_at, at_key) heard

  at_shared :
      (m : Node H)
      → m.multiplex ≡ true
      → find topic m.transport.handlers ≡ some cb
      → handler_of m ≡ some cb
  unfolding handler_of transport_at
  at_shared m on heard = rw (via_shared m on) heard
    where
      via_shared : (m : Node H) → m.multiplex ≡ true → (transport_for topic m).0 ≡ shared
      via_shared m on = unfold transport_for in rw on refl

  put_heard : (t : Transport H) → find topic (set_topic_handler topic cb t).handlers ≡ some cb
  unfolding set_topic_handler
  put_heard t = find-put_self topic cb t.handlers

  on_dedicated :
      (n : Node H) (found : Option (Transport H))
      → n.multiplex ≡ false
      → handler_of (
          update_transport
            (dedicated (group_key topic n))
            (set_topic_handler topic cb (
              transport_at
                (dedicated (group_key topic n))
                (declare_subscribed topic (make_transport (group_key topic n) found n))))
            (declare_subscribed topic (make_transport (group_key topic n) found n)))
        ≡ some cb
  unfolding update_transport declare_subscribed make_transport group_key
  on_dedicated n none off =
      at_dedicated _ _ off (find-put_self (group_key topic n) _ _) (put_heard _)
  on_dedicated n (some t) off =
      at_dedicated _ _ off (find-put_self (group_key topic n) _ _) (put_heard _)

  chosen :
      (n : Node H) (multiplex : Bool)
      → n.multiplex ≡ multiplex
      → transport_for topic n ≡ (
          if multiplex then (shared, n) else (
            dedicated (group_key topic n),
            make_transport (group_key topic n) (find (group_key topic n) n.topic_transports) n,
          ))
  unfolding transport_for
  chosen n multiplex e =
      ap
        (λ (b : Bool). if b then (shared, n) else (
          dedicated (group_key topic n),
          make_transport (group_key topic n) (find (group_key topic n) n.topic_transports) n,
        ))
        e

  listening : Via × Node H → Node H
  listening p =
      update_transport p.0
        (set_topic_handler topic cb (transport_at p.0 (declare_subscribed topic p.1)))
        (declare_subscribed topic p.1)

  on_shared : (n : Node H) → n.multiplex ≡ true → handler_of (listening (shared, n)) ≡ some cb
  unfolding listening update_transport declare_subscribed
  on_shared n on = at_shared _ on (put_heard _)

  subscribed-handler : (n : Node H) → handler_of (subscribed topic cb n) ≡ some cb
  unfolding subscribed listening
  subscribed-handler n = elim (Bool-cases n.multiplex) [
    | inl on ↦
        ap (λ (p : Via × Node H). handler_of (listening p)) (chosen n true on) ∙ on_shared n on
    | inr off ↦
        ap (λ (p : Via × Node H). handler_of (listening p)) (chosen n false off)
        ∙ on_dedicated n (find (group_key topic n) n.topic_transports) off
  ]

  -- After subscribe_raw the socket that transport_for gives for the topic has the callback as the topic's handler,
  -- also where the topic is paired, and also if set_multiplex(false) was called.
  pub subscribe_raw-handler :
      (pair : Bool) (pair_id : ℕ) (n m : Node H)
      → subscribe_raw topic cb pair pair_id n ≡ some m
      → find topic (transport_at (transport_for topic m).0 m).handlers ≡ some cb
  unfolding subscribe_raw handler_of
  subscribe_raw-handler pair pair_id n m e =
      let (n1, at_first, rest) = bind_inverse (register_pair topic pair pair_id n) _ m e in
      subst (λ (x : Node H). handler_of x ≡ some cb) (some_injective rest) (subscribed-handler n1)
