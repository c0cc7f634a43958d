-- ===== src/Node/Sockets.antt =====
-- Sockets of RelinkNode (relink.hpp) under set_multiplex(false): which topics share one.
use relink_com.Base.{
  ℕ, ◌+◌, ◌<◌, ◌≡◌, ◌↔◌, ◌⊎◌, refl, sym, ap, ◌∙◌, inl, inr, true, false, Option, none, some, arith,
  find, nat_key, u32_mod,
}
use relink_com.Node.{Node, shared, dedicated, group_key, transport_for, pair_key_tag}

abbrev key_of : ℕ → Option ℕ → ℕ
key_of topic pair = elim pair as (λ x. ℕ) [ none ↦ topic | some pair_id ↦ pair_key_tag + pair_id ]

keys_apart :
    (t u : ℕ) (p q : Option ℕ)
    → t < u32_mod
    → u < u32_mod
    → key_of t p ≡ key_of u q
    → ((t ≡ u) × (p ≡ none)) ⊎ ((pair : ℕ) × (p ≡ some pair) × (q ≡ some pair))
keys_apart t u none none ht hu e = inl (e, refl)
keys_apart t u none (some b) ht hu e = absurd (omega arith)
keys_apart t u (some a) none ht hu e = absurd (omega arith)
keys_apart t u (some a) (some b) ht hu e = inr (a, refl, ap some (omega arith))

module _ {H : Type 0} where
  via_of :
      (t : ℕ) (n : Node H)
      → n.multiplex ≡ false
      → (transport_for t n).0 ≡ dedicated (key_of t (find t n.topic_pair_id))
  unfolding transport_for group_key
  via_of t n h = rw h refl

  -- With set_multiplex(false) two topics have the same socket exactly if they are the same topic or are paired under
  -- the same pair id; a pair id never gives the socket of a topic of that number. With multiplexing every topic has
  -- the node's shared socket. Topics are below 2^32.
  pub transport_for-shared :
      (t u : ℕ) (n : Node H)
      → t < u32_mod
      → u < u32_mod
      → (n.multiplex ≡ true → (transport_for t n).0 ≡ shared)
        × (n.multiplex ≡ false
            → ((transport_for t n).0 ≡ (transport_for u n).0) ↔ (
                (t ≡ u)
                ⊎ ((pair : ℕ) × (find t n.topic_pair_id ≡ some pair)
                    × (find u n.topic_pair_id ≡ some pair))))
  transport_for-shared t u n ht hu = (λ h. on_shared h, λ h. (λ e. apart h e, λ s. together h s))
    where
      on_shared : n.multiplex ≡ true → (transport_for t n).0 ≡ shared
      on_shared h = unfold transport_for in rw h refl

      dedicated_injective : {a b : ℕ} → dedicated a ≡ dedicated b → a ≡ b
      dedicated_injective e = cc

      apart :
          n.multiplex ≡ false
          → (transport_for t n).0 ≡ (transport_for u n).0
          → (t ≡ u)
            ⊎ ((pair : ℕ) × (find t n.topic_pair_id ≡ some pair)
                × (find u n.topic_pair_id ≡ some pair))
      apart h e =
          elim (keys_apart t u (find t n.topic_pair_id) (find u n.topic_pair_id) ht hu
            (dedicated_injective (sym (via_of t n h) ∙ e ∙ via_of u n h))) [
              | inl same ↦ inl same.0
              | inr pair ↦ inr pair
            ]

      together :
          n.multiplex ≡ false
          → (t ≡ u)
            ⊎ ((pair : ℕ) × (find t n.topic_pair_id ≡ some pair)
                × (find u n.topic_pair_id ≡ some pair))
          → (transport_for t n).0 ≡ (transport_for u n).0
      together h (inl e) = ap (λ (x : ℕ). (transport_for x n).0) e
      together h (inr (pair, p, q)) =
          via_of t n h
          ∙ ap (λ (o : Option ℕ). dedicated (key_of t o)) p
          ∙ sym (ap (λ (o : Option ℕ). dedicated (key_of u o)) q)
          ∙ sym (via_of u n h)
