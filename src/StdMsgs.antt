-- ===== src/StdMsgs.antt =====
-- cpp/include/relink/standard_msgs.hpp, and the primitives of wire.hpp: the packed structs, and the text fields of a
-- fixed length. A struct is the list of its members; no member is padded.
pub mod Texts
mod Tests
pub mod Std
pub mod Geometry
pub mod Sensor
pub mod Nav
pub mod Diagnostic
pub mod Trajectory
pub mod Actionlib
use Prim.Native.String.{String}
use text.Mathlib.Text.{◌==◌ as str_eq}
use relink_com.Base.{
  ℕ, zero, suc, ◌+◌, ◌-◌, ◌*◌, Bool, true, false, List, [], ◌∷◌, ◌++◌, ◌==◌, if◌then◌else◌, take,
  length, replicate,
}

-- A member of `count` elements; a plain member has one.
pub record Member : Type 0 where
  pub name : String
  pub elem_size : ℕ
  pub count : ℕ

abbrev pub Struct : Type 0
Struct = List Member

unfoldable pub member_size : Member → ℕ
member_size m = m.elem_size * m.count

-- sizeof of a packed struct
unfoldable pub sizeof : Struct → ℕ
sizeof [] = 0
sizeof (m ∷ s) = member_size m + sizeof s

-- offsetof. A member that the struct lacks does not compile; here its offset is the struct's size.
unfoldable pub offset_of : String → Struct → ℕ
offset_of f [] = 0
offset_of f (m ∷ s) =
    let rest = offset_of f s in if str_eq m.name f then 0 else member_size m + rest

unfoldable pub member_of : String → Struct → Member
member_of f [] = record { name = f; elem_size = 0; count = 0 }
member_of f (m ∷ s) = let rest = member_of f s in if str_eq m.name f then m else rest

abbrev pub one : String → ℕ → Member
one f size = record { name = f; elem_size = size; count = 1 }

abbrev pub array : String → ℕ → ℕ → Member
array f size n = record { name = f; elem_size = size; count = n }

-- strncpy: the bytes up to the first zero byte, at most `n` of them.
unfoldable pub up_to_zero : ℕ → List ℕ → List ℕ
up_to_zero zero s = []
up_to_zero (suc n) [] = []
up_to_zero (suc n) (c ∷ s) = let rest = up_to_zero n s in if c == 0 then [] else c ∷ rest

-- set_frame_id, String::set and the other setters: the buffer is cleared and all but its last byte is filled.
unfoldable pub set_text : ℕ → List ℕ → List ℕ
set_text size s = let text = up_to_zero (size - 1) s in text ++ replicate (size - length text) 0

-- frame_id_str, str and the other getters: a copy of the buffer with a zero byte behind it, up to the first zero.
unfoldable pub text_str : ℕ → List ℕ → List ℕ
text_str size field = up_to_zero (size + 1) (take size field ++ (0 ∷ []))
