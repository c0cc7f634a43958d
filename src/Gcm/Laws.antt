-- ===== src/Gcm/Laws.antt =====
-- Sealing and opening of cpp/include/relink/crypto.hpp undo each other.
use relink_com.Base.{
  ℕ, ◌+◌, ◌-◌, ◌≤◌, ◌≡◌, refl, sym, ap, ◌∙◌, Bool, true, false, ◌>>=◌, none, some, List, ◌++◌,
  arith, ◌==◌, ==_iff, ltb, if◌then◌else◌, length, take, drop, length-append, length-take,
  length-drop, take-append-drop, drop-append, take-append, difference, difference_sound,
  difference_self,
}
use relink_com.Gcm.Counter.{length-gctr, gctr_twice}
use relink_com.Gcm.Sizes.{length-tag_of}
use relink_com.Aes.{round_keys}
use relink_com.Gcm.{inc32, gctr, first_counter, tag_of, aes256gcm_seal, aes256gcm_open}

-- Opening a buffer whose three parts are known.
open_parts :
    (key nonce ct tag : List ℕ) (room : ℕ)
    → length nonce ≡ 12
    → length tag ≡ 16
    → aes256gcm_open key (nonce ++ (ct ++ tag)) room ≡ (
        if ltb room (length ct)
        then none
        else if difference 0 (tag_of (round_keys key) nonce ct) tag == 0
        then some (gctr (round_keys key) (inc32 (first_counter nonce)) ct)
        else none)
unfolding aes256gcm_open
open_parts key nonce ct tag room hn ht =
    let size = length-append nonce (ct ++ tag) in
    let size' = length-append ct tag in
    rw
      (
        ap (λ k. take k (nonce ++ (ct ++ tag))) (sym hn) ∙ take-append nonce (ct ++ tag),
        ap (λ k. drop k (nonce ++ (ct ++ tag))) (sym hn) ∙ drop-append nonce (ct ++ tag),
        number_of_bytes {len = length (nonce ++ (ct ++ tag))} {n = length ct}
            (omega (arith, size, size', hn, ht)),
        take-append ct tag,
        drop-append ct tag,
        enough_bytes {len = length (nonce ++ (ct ++ tag))} (omega (arith, size, size', hn, ht)),
      )
      refl
  where
    number_of_bytes : {len n : ℕ} → len ≡ n + 28 → len - 12 - 16 ≡ n
    number_of_bytes h = omega arith

    enough_bytes : {len : ℕ} → 28 ≤ len → ltb len 28 ≡ false
    enough_bytes h = ground arith

-- What aes256gcm_seal makes with a nonce of 12 bytes, aes256gcm_open under the same key answers with the
-- plaintext, for every key and plaintext, where both buffers are large enough.
pub aes256gcm_seal-aes256gcm_open :
    (key nonce pt : List ℕ) (room room' : ℕ)
    → length nonce ≡ 12
    → 12 + length pt + 16 ≤ room
    → length pt ≤ room'
    → (aes256gcm_seal key nonce pt room >>= λ bytes. aes256gcm_open key bytes room') ≡ some pt
unfolding aes256gcm_seal
aes256gcm_seal-aes256gcm_open key nonce pt room room' hn hc hc' =
    let ct = gctr (round_keys key) (inc32 (first_counter nonce)) pt in
    let tag = tag_of (round_keys key) nonce ct in
    rw
      (
        fits hc,
        open_parts key nonce ct tag room' hn (length-tag_of (round_keys key) nonce ct),
        length-gctr (round_keys key) (inc32 (first_counter nonce)) pt,
        fits hc',
        difference_self tag,
        gctr_twice (round_keys key) (inc32 (first_counter nonce)) pt,
      )
      refl
  where
    fits : {a b : ℕ} → a ≤ b → ltb b a ≡ false
    fits h = ground arith

-- What the answer of aes256gcm_open says of its tests.
accepted :
    (short full equal : Bool) (answer pt : List ℕ)
    → (if short then none else if full then none else if equal then some answer else none) ≡ some pt
    → (short ≡ false) × (equal ≡ true) × (answer ≡ pt)
accepted true full equal answer pt h = cc
accepted false true equal answer pt h = cc
accepted false false true answer pt h = (refl, refl, cc)
accepted false false false answer pt h = cc

-- aes256gcm_open under a key accepts only what aes256gcm_seal makes: what it answers, sealed again under that
-- key with the buffer's own first 12 bytes as the nonce, is the buffer itself, tag included.
pub aes256gcm_open-aes256gcm_seal :
    (key bytes pt : List ℕ) (room : ℕ)
    → aes256gcm_open key bytes room ≡ some pt
    → aes256gcm_seal key (take 12 bytes) pt (length bytes) ≡ some bytes
unfolding aes256gcm_open aes256gcm_seal
aes256gcm_open-aes256gcm_seal key bytes pt room h =
    let keys = round_keys key in
    let n = length bytes - 12 - 16 in
    let ct = take n (drop 12 bytes) in
    let tag = drop n (drop 12 bytes) in
    let tag' = tag_of keys (take 12 bytes) ct in
    let t =
      accepted (ltb (length bytes) 28) (ltb room n) (difference 0 tag' tag == 0)
        (gctr keys (inc32 (first_counter (take 12 bytes))) ct) pt h in
    let long = not_short t.0 in
    let same =
      difference_sound tag' tag
        (omega (
          arith,
          length-tag_of keys (take 12 bytes) ct,
          length-drop n (drop 12 bytes),
          length-drop 12 bytes,
        ))
        ((==_iff _ 0).0 t.1) in
    rw
      (
        sym t.2,
        length-gctr keys (inc32 (first_counter (take 12 bytes))) ct,
        gctr_twice keys (inc32 (first_counter (take 12 bytes))) ct,
        same,
        take-append-drop n (drop 12 bytes),
        take-append-drop 12 bytes,
        large (length bytes) (length ct)
            (omega (arith, length-take n (drop 12 bytes), length-drop 12 bytes)),
      )
      refl
  where
    not_short : {len : ℕ} → ltb len 28 ≡ false → 28 ≤ len
    not_short e = ground arith

    large : (len n : ℕ) → n + 28 ≤ len → ltb len (12 + n + 16) ≡ false
    large len n h = ground arith
