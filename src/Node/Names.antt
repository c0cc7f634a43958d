-- ===== src/Node/Names.antt =====
-- Topic names of RelinkNode (relink.hpp): what topic_id_for promises about the ids that it hands out.
use relink_com.Base.{
  ℕ, ◌≡◌, ◌≢◌, refl, sym, ap, ◌∙◌, inl, inr, Bool, true, false, Bool-cases, Option, none, some,
  ◌>>=◌, bind_inverse, List, [], ◌∷◌, map, ◌==◌, ==_iff, if◌then◌else◌, All, find, put, find-put,
  find-put_self, nat_key, bytes_eq, bytes_eq_sound, some_injective, subst, ap₂,
}
use native.Mathlib.Decide.{ℕ_discrete}
use relink_com.TopicHash.{fnv1a32}
use relink_com.Node.{Node, nat_punch_topic_id, with_known_name, topic_id_for, topic_name_for}

-- The ids of several names, asked for one after the other.
unfoldable pub topic_ids_for : {H : Type 0} → List (List ℕ) → Node H → Option (Node H × List ℕ)
topic_ids_for [] n = some (n, [])
topic_ids_for (name ∷ names) n = topic_id_for name n >>= λ first.
    topic_ids_for names first.0 >>= λ rest. some (rest.0, first.1 ∷ rest.1)

-- A name that a node knows for an id, and that it will keep.
Known : {H : Type 0} → Node H → List ℕ → Type 0
Known n name = (find (fnv1a32 name) n.topic_names ≡ some name) × (fnv1a32 name ≢ nat_punch_topic_id)

-- What one call comes to.
record Named {H : Type 0} (name : List ℕ) (n n' : Node H) (id : ℕ) : Type 0 where
  is_hash : id ≡ fnv1a32 name
  is_known : Known n' name
  keeps : (k : ℕ) (v : List ℕ) → find k n.topic_names ≡ some v → find k n'.topic_names ≡ some v

module _ {H : Type 0} (name : List ℕ) (n n' : Node H) (id : ℕ) where
  known_name :
      (known : Option (List ℕ))
      → find (fnv1a32 name) n.topic_names ≡ known
      → fnv1a32 name ≢ nat_punch_topic_id
      → with_known_name (fnv1a32 name) name n known ≡ some (n', id)
      → Named name n n' id
  unfolding with_known_name Known
  known_name none f ne e =
      subst (λ (r : Node H × ℕ). Named name n r.0 r.1) (some_injective e)
        (record {
          is_hash = refl;
          is_known = (find-put_self (fnv1a32 name) name n.topic_names, ne);
          keeps = kept;
        })
    where
      clash :
          (k : ℕ) (v : List ℕ)
          → find (fnv1a32 name) n.topic_names ≡ find k n.topic_names
          → find k n.topic_names ≡ some v
          → ⊥
      clash k v a b = cc

      kept :
          (k : ℕ) (v : List ℕ)
          → find k n.topic_names ≡ some v
          → find k (put (fnv1a32 name) name n.topic_names) ≡ some v
      kept k v h = elim (Bool-cases (fnv1a32 name == k)) [
        | inl same ↦
            absurd (
              clash k v (ap (λ (x : ℕ). find x n.topic_names) ((==_iff (fnv1a32 name) k).0 same)) h)
        | inr other ↦ find-put (fnv1a32 name) k name n.topic_names ∙ rw other h
      ]
  known_name (some known) f ne e = by_name (bytes_eq known name) refl e
    where
      by_name :
          (t : Bool)
          → bytes_eq known name ≡ t
          → (let found : Option (Node H × ℕ) = some (n, fnv1a32 name) in if t then found else none)
            ≡ some (n', id)
          → Named name n n' id
      by_name true q e =
          subst (λ (r : Node H × ℕ). Named name n r.0 r.1) (some_injective e)
            (record {
              is_hash = refl;
              is_known = (f ∙ ap some (bytes_eq_sound known name q), ne);
              keeps = λ k v h. h;
            })
      by_name false q e = cc

  topic_id_for-Named : topic_id_for name n ≡ some (n', id) → Named name n n' id
  unfolding topic_id_for
  topic_id_for-Named e = elim (ℕ_discrete (fnv1a32 name) nat_punch_topic_id) [
    | yes punch ↦ absurd (
        refused _ (fnv1a32 name == nat_punch_topic_id)
          ((==_iff (fnv1a32 name) nat_punch_topic_id).1 punch) e)
    | no ne ↦ known_name (find (fnv1a32 name) n.topic_names) refl ne (
        passed (fnv1a32 name == nat_punch_topic_id) ne
          (λ t. (==_iff (fnv1a32 name) nat_punch_topic_id).0 t) e)
  ]
    where
      refused :
          {A : Type 0} {a : A} (o : Option A) (t : Bool)
          → t ≡ true
          → (if t then none else o) ≡ some a
          → ⊥
      refused o true h e = cc
      refused o false h e = cc

      passed :
          {A : Type 0} {o : Option A} {a : A} (t : Bool)
          → fnv1a32 name ≢ nat_punch_topic_id
          → (t ≡ true → fnv1a32 name ≡ nat_punch_topic_id)
          → (if t then none else o) ≡ some a
          → o ≡ some a
      passed true ne same e = absurd (ne (same refl))
      passed false ne same e = e

module _ {H : Type 0} where
  -- What a node knows it still knows after more names.
  ids-keeps :
      (names : List (List ℕ)) (n n' : Node H) (ids : List ℕ) (k : ℕ) (v : List ℕ)
      → topic_ids_for names n ≡ some (n', ids)
      → find k n.topic_names ≡ some v
      → find k n'.topic_names ≡ some v
  unfolding topic_ids_for
  ids-keeps [] n n' ids k v e h =
      ap (λ (r : Node H × List ℕ). find k r.0.topic_names) (sym (some_injective e)) ∙ h
  ids-keeps (name ∷ names) n n' ids k v e h =
      let (first, at_first, more) = bind_inverse (topic_id_for name n) _ (n', ids) e in
      let (rest, at_rest, last) = bind_inverse (topic_ids_for names first.0) _ (n', ids) more in
      let named = topic_id_for-Named name n first.0 first.1 at_first in
      ap (λ (r : Node H × List ℕ). find k r.0.topic_names) (sym (some_injective last))
      ∙ ids-keeps names first.0 rest.0 rest.1 k v at_rest (named.keeps k v h)

  name_for :
      (k : ℕ) (v : List ℕ) (n : Node H) → find k n.topic_names ≡ some v → topic_name_for k n ≡ v
  unfolding topic_name_for
  name_for k v n h = rw (topic_name_for, h) refl

  -- The node answers with a name for the name's id, which is not the reserved one.
  abbrev pub Answered : Node H → List ℕ → Type 0
  Answered n name = (topic_name_for (fnv1a32 name) n ≡ name) × (fnv1a32 name ≢ nat_punch_topic_id)

  -- Where topic_id_for answers for each of several names, one after the other on the same node, each id is the FNV-1a
  -- hash of its name and not the reserved one, and at the end topic_name_for answers for each id the name
  -- itself. So no two different names share an id.
  pub topic_ids_for-names :
      (names : List (List ℕ)) (n n' : Node H) (ids : List ℕ)
      → topic_ids_for names n ≡ some (n', ids)
      → (ids ≡ map fnv1a32 names) × All (Answered n') names
  unfolding topic_ids_for Known
  topic_ids_for-names [] n n' ids e =
      (ap (λ (r : Node H × List ℕ). r.1) (sym (some_injective e)), tt)
  topic_ids_for-names (name ∷ names) n n' ids e =
      let (first, at_first, more) = bind_inverse (topic_id_for name n) _ (n', ids) e in
      let (rest, at_rest, last) = bind_inverse (topic_ids_for names first.0) _ (n', ids) more in
      let named = topic_id_for-Named name n first.0 first.1 at_first in
      let ih = topic_ids_for-names names first.0 rest.0 rest.1 at_rest in
      let done = some_injective last in
      (
        ap (λ (r : Node H × List ℕ). r.1) (sym done) ∙ ap₂ ◌∷◌ named.is_hash ih.0,
        subst (λ (m : Node H). All (Answered m) (name ∷ names))
            (ap (λ (r : Node H × List ℕ). r.0) done)
            (
              (
                name_for (fnv1a32 name) name rest.0 (
                    ids-keeps names first.0 rest.0 rest.1 (fnv1a32 name) name at_rest
                      named.is_known.0),
                named.is_known.1,
              ),
              ih.1,
            ),
      )
