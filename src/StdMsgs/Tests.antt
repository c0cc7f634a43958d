-- ===== src/StdMsgs/Tests.antt =====
-- A text field as it is stored.
use relink_com.Base.{ℕ, ◌≡◌, refl, arith, List, [], ◌∷◌, length, take, All}
use relink_com.StdMsgs.{set_text, text_str, up_to_zero}
use relink_com.StdMsgs.Texts.{NonZero, text_str-set_text}

abbrev frame_id : List ℕ
frame_id = b'b' ∷ b'a' ∷ b's' ∷ b'e' ∷ []

frame_id-NonZero : All NonZero frame_id
frame_id-NonZero = (omega arith, (omega arith, (omega arith, (omega arith, tt))))

frame_id_stored : set_text 6 frame_id ≡ b'b' ∷ b'a' ∷ b's' ∷ b'e' ∷ 0 ∷ 0 ∷ []
unfolding set_text up_to_zero
frame_id_stored = refl

frame_id_cut : text_str 4 (set_text 4 frame_id) ≡ b'b' ∷ b'a' ∷ b's' ∷ []
unfolding set_text text_str up_to_zero
frame_id_cut = refl

text_str-set_text_example :
    (length (set_text 4 frame_id) ≡ 4) × (text_str 4 (set_text 4 frame_id) ≡ take 3 frame_id)
text_str-set_text_example = text_str-set_text 4 frame_id (omega arith) frame_id-NonZero
