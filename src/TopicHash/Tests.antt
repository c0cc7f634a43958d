-- ===== src/TopicHash/Tests.antt =====
-- The published test values of FNV-1a.
use relink_com.Base.{◌≡◌, refl, [], ◌∷◌}
use relink_com.TopicHash.{mix, fnv1a32_from, fnv1a32}

hash_of_a : fnv1a32 (b'a' ∷ []) ≡ 0xe40c292c
unfolding mix fnv1a32_from fnv1a32
hash_of_a = refl

hash_of_foobar : fnv1a32 (b'f' ∷ b'o' ∷ b'o' ∷ b'b' ∷ b'a' ∷ b'r' ∷ []) ≡ 0xbf9cf968
unfolding mix fnv1a32_from fnv1a32
hash_of_foobar = refl
