-- ===== src/Client/Answers.antt =====
-- What register_with_rlcore_on_socket sends, when it stops, and what it answers.
use native.Mathlib.Nat.{
  pow-succ', one-le-pow, le-mul_of_pos_right, mul-le-mul_left, pow-le-pow_right,
}
use relink_com.Base.{
  ℕ, zero, suc, ◌+◌, ◌*◌, ◌^◌, ◌<◌, ◌≤◌, ◌≡◌, ◌⊎◌, refl, sym, ap, ◌∙◌, inl, inr, true, false, leb,
  Option, none, some, List, [], ◌∷◌, ◌==◌, Bool-cases, ==_iff, arith,
}
use relink_com.Rlcore.Dispatch.{Cipher}
use relink_com.Register.{RegisterAckPeer, encode_register_request}
use relink_com.Client.Answered.{IsAnswered, IsLost, attempt_result-IsAnswered}
use relink_com.Client.{
  Attempt, Sent, failed, int_limit, buffer_size, attempt_result, after_attempt, retry_loop,
  wire_request, with_request, register_with_rlcore_on_socket,
}

-- `n` times the same request, each with twice the timeout of the one before it.
unfoldable pub attempts : List ℕ → ℕ → ℕ → List Sent
attempts request timeout zero = []
attempts request timeout (suc n) =
    record { bytes = request; timeout_ms = timeout } ∷ attempts request (timeout * 2) n

-- A timeout that can be doubled `suc k` times is doubled once without overflow.
doubling :
    (timeout k : ℕ)
    → timeout * 2 ^ suc k < int_limit
    → (leb int_limit (timeout * 2) ≡ false) × (timeout * 2 * 2 ^ k < int_limit)
doubling timeout k h = doubled (2 ^ k) (one-le-pow k 2 (omega arith)) (rw (pow-succ' 2 k) at h)
  where
    doubled :
        (p : ℕ)
        → 1 ≤ p
        → timeout * (2 * p) < int_limit
        → (leb int_limit (timeout * 2) ≡ false) × (timeout * 2 * p < int_limit)
    doubled p pos lt =
        (ground (arith, le-mul_of_pos_right {m = p} (timeout * 2) pos), omega (arith, lt))

-- The first of `n` attempts that brings a result, if there is one.
first_answer :
    (results : ℕ → Option (List RegisterAckPeer)) (n : ℕ)
    → ((k : ℕ) × (peers : List RegisterAckPeer) × (k < n)
        × (results k ≡ some peers)
        × ((j : ℕ) → j < k → results j ≡ none))
      ⊎ ((j : ℕ) → j < n → results j ≡ none)
first_answer results zero = inr (λ j lt. absurd (omega arith))
first_answer results (suc n) = elim (first_answer results n) [
  | inl (k, peers, lt, found, lost) ↦ inl (k, peers, omega arith, found, lost)
  | inr lost ↦ at_last (results n) refl lost
]
  where
    at_last :
        (o : Option (List RegisterAckPeer))
        → results n ≡ o
        → ((j : ℕ) → j < n → results j ≡ none)
        → ((k : ℕ) × (peers : List RegisterAckPeer) × (k < suc n)
            × (results k ≡ some peers)
            × ((j : ℕ) → j < k → results j ≡ none))
          ⊎ ((j : ℕ) → j < suc n → results j ≡ none)
    at_last (some peers) e lost = inl (n, peers, omega arith, e, lost)
    at_last none e lost = inr (λ j lt. elim (Bool-cases (j == n)) [
      | inl same ↦ ap results ((==_iff j n).0 same) ∙ e
      | inr other ↦ lost j (ground (arith, ==_iff j n))
    ])

module _ (cipher : Option Cipher) (request : List ℕ) (network : ℕ → Attempt) where
  retry_loop-answered :
      (k n from timeout : ℕ) (peers : List RegisterAckPeer)
      → k < n
      → timeout * 2 ^ k < int_limit
      → ((j : ℕ) → j < k → attempt_result cipher (network (from + j)) ≡ none)
      → attempt_result cipher (network (from + k)) ≡ some peers
      → retry_loop cipher request network n from timeout
        ≡ some (record { ok = true; peers = peers }, attempts request timeout (suc k))
  unfolding retry_loop after_attempt attempts
  retry_loop-answered zero zero from timeout peers lt fits lost e = absurd (omega arith)
  retry_loop-answered (suc k) zero from timeout peers lt fits lost e = absurd (omega arith)
  retry_loop-answered zero (suc n) from timeout peers lt fits lost e = rw (at_start e) refl
    where
      at_start :
          attempt_result cipher (network (from + 0)) ≡ some peers
          → attempt_result cipher (network from) ≡ some peers
      at_start e = ap (λ (i : ℕ). attempt_result cipher (network i)) {x = from} (omega arith) ∙ e
  retry_loop-answered (suc k) (suc n) from timeout peers lt fits lost e =
      rw
        (
          ap (λ (i : ℕ). attempt_result cipher (network i)) {x = from} (omega arith)
              ∙ lost 0 (omega arith),
          (doubling timeout k fits).0,
          retry_loop-answered k n (from + 1) (timeout * 2) peers (omega arith)
              (doubling timeout k fits).1
              (λ j h.
                ap (λ (i : ℕ). attempt_result cipher (network i)) {x = from + 1 + j} (omega arith)
                ∙ lost (suc j) (omega arith))
              (ap (λ (i : ℕ). attempt_result cipher (network i)) {x = from + 1 + k} (omega arith)
                ∙ e),
        )
        refl

  retry_loop-lost :
      (n from timeout : ℕ)
      → timeout * 2 ^ n < int_limit
      → ((j : ℕ) → j < n → attempt_result cipher (network (from + j)) ≡ none)
      → retry_loop cipher request network n from timeout ≡ some (failed, attempts request timeout n)
  unfolding retry_loop after_attempt attempts
  retry_loop-lost zero from timeout fits lost = refl
  retry_loop-lost (suc n) from timeout fits lost =
      rw
        (
          ap (λ (i : ℕ). attempt_result cipher (network i)) {x = from} (omega arith)
              ∙ lost 0 (omega arith),
          (doubling timeout n fits).0,
          retry_loop-lost n (from + 1) (timeout * 2) (doubling timeout n fits).1 (λ j h.
              ap (λ (i : ℕ). attempt_result cipher (network i)) {x = from + 1 + j} (omega arith)
              ∙ lost (suc j) (omega arith)),
        )
        refl

  lost-none : (a : Attempt) → IsLost cipher a → attempt_result cipher a ≡ none
  lost-none a lost = by_result (attempt_result cipher a) refl
    where
      by_result : (o : Option (List RegisterAckPeer)) → attempt_result cipher a ≡ o → o ≡ none
      by_result none e = refl
      by_result (some peers) e =
          absurd (lost peers ((attempt_result-IsAnswered cipher a peers).0 e))

  none-IsLost : (a : Attempt) → attempt_result cipher a ≡ none → IsLost cipher a
  none-IsLost a e peers h = absurd (cc (sym e ∙ (attempt_result-IsAnswered cipher a peers).1 h))

  registers :
      (ip port : ℕ) (topics : List ℕ) (max_retries timeout : ℕ)
      → wire_request cipher (encode_register_request ip port topics buffer_size) ≡ some request
      → register_with_rlcore_on_socket cipher ip port topics max_retries timeout network
        ≡ retry_loop cipher request network max_retries 0 timeout
  unfolding register_with_rlcore_on_socket with_request
  registers ip port topics max_retries timeout e = rw e refl

  result_at :
      (i j : ℕ) → i ≡ j → attempt_result cipher (network i) ≡ attempt_result cipher (network j)
  result_at i j e = ap (λ (x : ℕ). attempt_result cipher (network x)) e

  -- The attempts before number `k` are lost, and `k` is answered.
  pub register-answered :
      (ip port : ℕ) (topics : List ℕ) (max_retries timeout k : ℕ) (peers : List RegisterAckPeer)
      → wire_request cipher (encode_register_request ip port topics buffer_size) ≡ some request
      → k < max_retries
      → timeout * 2 ^ k < int_limit
      → ((j : ℕ) → j < k → IsLost cipher (network j))
      → attempt_result cipher (network k) ≡ some peers
      → register_with_rlcore_on_socket cipher ip port topics max_retries timeout network
        ≡ some (record { ok = true; peers = peers }, attempts request timeout (suc k))
  register-answered ip port topics max_retries timeout k peers e lt fits lost found =
      registers ip port topics max_retries timeout e
      ∙ retry_loop-answered k max_retries 0 timeout peers lt fits
          (λ j h. result_at (0 + j) j (omega arith) ∙ lost-none (network j) (lost j h))
          (result_at (0 + k) k (omega arith) ∙ found)

-- A registration whose request can be encoded and sealed comes to an end, and its timeouts fit an `int`, if
-- timeout_ms * 2 ^ max_retries does. Either some attempt is the first that is answered, which means that the
-- request went out whole and a well-formed ack of status 0 came back, sealed where there is a key: then it is the
-- last attempt, and the peers are those of the ack. Or none of the `max_retries` attempts is answered, and the
-- registration fails after them. It has sent the same bytes once for each attempt made, and has waited twice as long
-- each time.
pub register-attempts :
    (cipher : Option Cipher) (ip port : ℕ) (topics request : List ℕ) (max_retries timeout : ℕ)
    (network : ℕ → Attempt)
    → wire_request cipher (encode_register_request ip port topics buffer_size) ≡ some request
    → timeout * 2 ^ max_retries < int_limit
    → ((k : ℕ) × (peers : List RegisterAckPeer) × (k < max_retries)
        × IsAnswered cipher (network k) peers
        × ((j : ℕ) → j < k → IsLost cipher (network j))
        × (register_with_rlcore_on_socket cipher ip port topics max_retries timeout network
            ≡ some (record { ok = true; peers = peers }, attempts request timeout (suc k))))
      ⊎ (((j : ℕ) → j < max_retries → IsLost cipher (network j))
          × (register_with_rlcore_on_socket cipher ip port topics max_retries timeout network
              ≡ some (failed, attempts request timeout max_retries)))
register-attempts cipher ip port topics request max_retries timeout network e fits =
    elim (first_answer (λ i. attempt_result cipher (network i)) max_retries) [
      | inl (k, peers, lt, found, before) ↦
          let lost : ((j : ℕ) → j < k → IsLost cipher (network j)) =
            λ j h. none-IsLost cipher request network (network j) (before j h) in
          inl (
            k,
            peers,
            lt,
            (attempt_result-IsAnswered cipher (network k) peers).0 found,
            lost,
            register-answered cipher request network ip port topics max_retries timeout k peers e lt
                (fewer k lt) lost found,
          )
      | inr all ↦ inr (
        λ j h. none-IsLost cipher request network (network j) (all j h),
        registers cipher request network ip port topics max_retries timeout e
            ∙ retry_loop-lost cipher request network max_retries 0 timeout fits
                (λ j h. result_at cipher request network (0 + j) j (omega arith) ∙ all j h),
      )
    ]
  where
    fewer : (k : ℕ) → k < max_retries → timeout * 2 ^ k < int_limit
    fewer k lt = omega (
      arith,
      fits,
      mul-le-mul_left timeout
          (pow-le-pow_right {n = 2} (omega arith) {i = k} {j = max_retries} (omega arith)),
    )
