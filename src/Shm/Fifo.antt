-- ===== src/Shm/Fifo.antt =====
-- The ring is a bounded queue.
use relink_com.Base.{
  ℕ, suc, ◌+◌, ◌-◌, ◌%◌, ◌<◌, ◌≡◌, ◌≢◌, refl, sym, ap, ap₂, ◌∙◌, true, false, List, [], ◌∷◌, ◌++◌,
  map, arith, length, get_or, set, drop, ◌==◌, ==_iff, le→ltb, lt→ltb, tabulate, slot,
  contents-store, contents-next, wrap_cases, wrap-lt, wrap-suc, length-set, length-replicate,
  take-append, length-append,
}
use native.Mathlib.Nat.{mod-add-mod}
use native.Mathlib.Decide.{dec_lt, ℕ_discrete}
use relink_com.Shm.Spec.{Call, push, pop, call, calls, spec_call, spec_calls}
use relink_com.Shm.{
  Slot, ShmRing, Message, blank_slot, init_as_creator, write_slot, try_push, read_slot, try_pop,
}

map-append : {A B : Type 0} (f : A → B) (xs ys : List A) → map f (xs ++ ys) ≡ map f xs ++ map f ys
map-append f [] ys = refl
map-append f (x ∷ xs) ys = ap (λ t. f x ∷ t) (map-append f xs ys)

read_slot-write_slot :
    (old : Slot) (payload : List ℕ) (seq : ℕ)
    → read_slot (write_slot old payload seq) ≡ record { seq_num = seq; payload = payload }
unfolding read_slot write_slot
read_slot-write_slot old payload seq = rw (take-append payload (drop (length payload) old.payload))

-- Where `tail` goes, from `used` places behind `head`.
next_cases :
    (c head used tail : ℕ)
    → head < c
    → used < c
    → tail ≡ (head + used) % c
    → ((tail + 1) % c ≡ (head + suc used) % c)
      × (used + 1 ≡ c → ((tail + 1) % c == head) ≡ true)
      × (used + 1 ≢ c → ((tail + 1) % c == head) ≡ false)
next_cases c head used tail hh hu e =
    let w = wrap_cases {c = c} {h = head} {k = suc used} hh (omega arith) in
    (
      next,
      λ f. (==_iff ((tail + 1) % c) head).1 (omega (arith, next, w)),
      λ f. ne_eq _ _ (λ q. omega (arith, next, w)),
    )
  where
    next : (tail + 1) % c ≡ (head + suc used) % c
    next =
        ap (λ (k : ℕ). (k + 1) % c) e
        ∙ mod-add-mod (head + used) c 1
        ∙ ap (λ (k : ℕ). k % c) (omega arith)

    ne_eq : (a b : ℕ) → a ≢ b → (a == b) ≡ false
    ne_eq a b ne = ground arith

cons_inj : {A : Type 0} (x y : A) (xs ys : List A) → x ∷ xs ≡ y ∷ ys → (x ≡ y) × (xs ≡ ys)
cons_inj x y xs ys e = (cc, cc)

-- `head` meets `tail` just where nothing is held.
meet_cases :
    (c head used tail : ℕ)
    → head < c
    → used < c
    → tail ≡ (head + used) % c
    → (used ≡ 0 → (head == tail) ≡ true) × (used ≢ 0 → (head == tail) ≡ false)
meet_cases c head used tail hh hu e =
    let w = wrap_cases {c = c} {h = head} {k = used} hh (omega arith) in
    (λ f. (==_iff head tail).1 (omega (arith, e, w)), λ f. ne_eq _ _ (λ q. omega (arith, e, w)))
  where
    ne_eq : (a b : ℕ) → a ≢ b → (a == b) ≡ false
    ne_eq a b ne = ground arith

module _ (capacity max_payload : ℕ) where
  abbrev held : ShmRing → ℕ → List Message
  held r n = map read_slot (tabulate (slot (blank_slot max_payload) capacity r.slots r.head) n)

  -- The ring holds `n` messages, which are those of `q`.
  record Holds (r : ShmRing) (q : List Message) : Type 0 where
    used : ℕ
    room : length r.slots ≡ capacity
    head_in : r.head < capacity
    used_in : used < capacity
    tail_at : r.tail ≡ (r.head + used) % capacity
    size : length q ≡ used
    queue : held r used ≡ q

  -- The state after a push that finds room.
  grown :
      (r : ShmRing) (q : List Message) (payload : List ℕ) (seq : ℕ)
      → (h : Holds r q) → h.used + 1 ≢ capacity
      → (r.tail + 1) % capacity ≡ (r.head + suc h.used) % capacity
      → Holds
          (record r {
            tail = (r.tail + 1) % capacity;
            slots =
                set r.slots r.tail
                  (write_slot (get_or r.slots r.tail (blank_slot max_payload)) payload seq);
          })
          (q ++ (record { seq_num = seq; payload = payload } ∷ []))
  grown r q payload seq h free next = record {
    used = suc h.used;
    room = length-set r.slots r.tail new ∙ h.room;
    head_in = h.head_in;
    used_in = omega (arith, free, h.used_in);
    tail_at = next;
    size =
        omega (arith, h.size, length-append q (record { seq_num = seq; payload = payload } ∷ []));
    queue =
        ap
          (λ (k : ℕ).
            map read_slot (tabulate (slot blank capacity (set r.slots k new) r.head) (suc h.used)))
          h.tail_at
        ∙ ap (map read_slot)
            (contents-store blank capacity r.slots r.head h.used new h.room h.head_in h.used_in)
        ∙ map-append read_slot (tabulate (slot blank capacity r.slots r.head) h.used) (new ∷ [])
        ∙ ap₂ (λ (xs : List Message) (x : Message). xs ++ (x ∷ [])) h.queue
            (read_slot-write_slot (get_or r.slots r.tail blank) payload seq);
  }
    where
      blank : Slot
      blank = blank_slot max_payload

      new : Slot
      new = write_slot (get_or r.slots r.tail (blank_slot max_payload)) payload seq

  push_lem :
      (r : ShmRing) (q : List Message) (payload : List ℕ) (seq : ℕ)
      → Holds r q
      → ((call capacity max_payload r (push payload seq)).1
          ≡ (spec_call capacity max_payload q (push payload seq)).1)
        × Holds
            (call capacity max_payload r (push payload seq)).0
            (spec_call capacity max_payload q (push payload seq)).0
  unfolding call spec_call try_push
  push_lem r q payload seq h =
      let (next, at_head, away) =
        next_cases capacity r.head h.used r.tail h.head_in h.used_in h.tail_at in
      elim (dec_lt max_payload (length payload)) [
        | yes large ↦ rw (lt→ltb max_payload (length payload) large) (refl, h)
        | no small ↦
            let fits = le→ltb (length payload) max_payload (omega arith) in
            elim (ℕ_discrete (length q + 1) capacity) [
              | yes full ↦
                  rw
                    (
                      fits,
                      at_head (omega (arith, full, h.size)),
                      (==_iff (length q + 1) capacity).1 full,
                    )
                    (refl, h)
              | no free ↦
                  rw
                    (
                      fits,
                      away (λ e. free (omega (arith, e, h.size))),
                      not_eq (length q + 1) capacity free,
                    )
                    (refl, grown r q payload seq h (λ e. free (omega (arith, e, h.size))) next)
            ]
      ]
    where
      not_eq : (a b : ℕ) → a ≢ b → (a == b) ≡ false
      not_eq a b ne = ground arith

  pop_lem :
      (r : ShmRing) (q : List Message)
      → Holds r q
      → ((call capacity max_payload r pop).1 ≡ (spec_call capacity max_payload q pop).1)
        × Holds (call capacity max_payload r pop).0 (spec_call capacity max_payload q pop).0
  unfolding call spec_call try_pop
  pop_lem r [] h =
      let empty =
        (meet_cases capacity r.head h.used r.tail h.head_in h.used_in h.tail_at).0
          (omega (arith, h.size)) in
      rw empty (refl, h)
  pop_lem r (m ∷ q) h =
      let (first, rest) = cons_inj _ _ _ _ (
        ap (map read_slot) (
          sym (
            contents-next (blank_slot max_payload) capacity r.slots r.head h.used h.head_in
              (λ e. omega (arith, e, h.size))))
        ∙ h.queue) in
      rw
        (
          (meet_cases capacity r.head h.used r.tail h.head_in h.used_in h.tail_at).1
              (λ e. omega (arith, e, h.size)),
          first,
        )
        (
          refl,
          record {
            used = h.used - 1;
            room = h.room;
            head_in =
                wrap-lt {c = capacity} {h = r.head} {k = 1} h.head_in (omega (arith, h.used_in));
            used_in = omega (arith, h.used_in);
            tail_at =
                h.tail_at
                ∙ ap (λ (k : ℕ). (r.head + k) % capacity) {x = h.used} {y = suc (h.used - 1)}
                    (omega (arith, h.size))
                ∙ sym (wrap-suc capacity r.head (h.used - 1));
            size = omega (arith, h.size);
            queue = rest;
          },
        )

  calls_lem :
      (cs : List Call) (r : ShmRing) (q : List Message)
      → Holds r q
      → calls capacity max_payload r cs ≡ spec_calls capacity max_payload q cs
  unfolding calls spec_calls
  calls_lem [] r q h = refl
  calls_lem (push payload seq ∷ cs) r q h =
      let (same, h') = push_lem r q payload seq h in
      ap₂ ◌∷◌ same (
        calls_lem cs (call capacity max_payload r (push payload seq)).0
          (spec_call capacity max_payload q (push payload seq)).0 h')
  calls_lem (pop ∷ cs) r q h =
      let (same, h') = pop_lem r q h in
      ap₂ ◌∷◌ same (
        calls_lem cs (call capacity max_payload r pop).0 (spec_call capacity max_payload q pop).0
          h')

  -- From a ring that the creator has just set up, for every capacity above 0, no sequence of pushes by the
  -- producer and pops by the consumer, in any order, tells the shared ring from a queue of at most
  -- `capacity - 1` messages: a push answers false and changes nothing where the payload is too long or the
  -- queue full, every other push answers true, and a pop gives the oldest message, with its sequence number
  -- and exactly its payload, or nothing where there is none.
  pub calls-init_as_creator :
      (cs : List Call)
      → 0 < capacity
      → calls capacity max_payload (init_as_creator capacity max_payload) cs
        ≡ spec_calls capacity max_payload [] cs
  unfolding init_as_creator
  calls-init_as_creator cs h = calls_lem cs _ [] (record {
    used = 0;
    room = length-replicate capacity (blank_slot max_payload);
    head_in = h;
    used_in = h;
    tail_at = omega (arith, wrap_cases {c = capacity} {h = 0} {k = 0} h (omega arith));
    size = refl;
    queue = refl;
  })
