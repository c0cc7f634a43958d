-- ===== src/MsgSchema.antt =====
-- cpp/tools/msg_schema.hpp: descriptions of message types, and printing a message with one. std::to_string of a float
-- or a double is a parameter, from its bytes to a text; texts are lists of bytes. A read outside the data is `none`.
pub mod Std
pub mod Geometry
pub mod Sensor
pub mod Nav
pub mod Diagnostic
pub mod Trajectory
pub mod Actionlib
pub mod Registry
pub mod Decimal
pub mod Layout
pub mod Printing
mod Tests
use Prim.Native.Char.{code}
use Prim.Native.String.{String}
use relink_com.Base.{
  ℕ, zero, suc, ◌+◌, ◌-◌, ◌*◌, ◌/◌, ◌%◌, ◌^◌, Bool, true, false, Option, none, some, List, [], ◌∷◌,
  ◌++◌, ◌==◌, ltb, leb, if◌then◌else◌, take, drop, length, replicate, ◌>>=◌,
}
use relink_com.StdMsgs.{Struct, Member, sizeof, offset_of, member_of, member_size, up_to_zero}

-- The numeric kinds of FKind.
pub data Num : Type 0 where
  i8 u8 i16 u16 i32 u32 i64 u64 f32 f64 : Num

unfoldable pub num_size : Num → ℕ
num_size i8 = 1
num_size u8 = 1
num_size i16 = 2
num_size u16 = 2
num_size i32 = 4
num_size u32 = 4
num_size i64 = 8
num_size u64 = 8
num_size f32 = 4
num_size f64 = 8

-- A field has the members of FieldDesc that its kind uses, in their order.
mutual
  pub data TypeDesc : Type 0 where
    type_desc : String → ℕ → Fields → TypeDesc

  pub data Fields : Type 0 where
    no_fields : Fields
    scalar : String → ℕ → Num → Fields → Fields
    char_str : String → ℕ → ℕ → Fields → Fields
    char_str_array : String → ℕ → ℕ → ℕ → Fields → Fields
    num_array : String → ℕ → ℕ → Num → Fields → Fields
    struct_field : String → ℕ → ℕ → TypeDesc → Fields → Fields
    struct_array : String → ℕ → ℕ → ℕ → TypeDesc → Fields → Fields

unfoldable pub type_name : TypeDesc → String
type_name (type_desc name size fs) = name

unfoldable pub type_size : TypeDesc → ℕ
type_size (type_desc name size fs) = size

-- RMS_SCALAR, RMS_STR and the others, each before the fields that follow it; then RMS_TYPE.
unfoldable pub rms_scalar : Struct → String → Num → Fields → Fields
rms_scalar s f k rest = scalar f (offset_of f s) k rest

unfoldable pub rms_numarr : Struct → String → Num → Fields → Fields
rms_numarr s f k rest = num_array f (offset_of f s) (member_of f s).count k rest

unfoldable pub rms_str : Struct → String → Fields → Fields
rms_str s f rest = char_str f (offset_of f s) (member_size (member_of f s)) rest

unfoldable pub rms_strarr : Struct → String → Fields → Fields
rms_strarr s f rest =
    char_str_array f (offset_of f s) (member_of f s).count (member_of f s).elem_size rest

unfoldable pub rms_struct : Struct → String → TypeDesc → Fields → Fields
rms_struct s f t rest = struct_field f (offset_of f s) (member_size (member_of f s)) t rest

unfoldable pub rms_structarr : Struct → String → TypeDesc → Fields → Fields
rms_structarr s f t rest =
    struct_array f (offset_of f s) (member_of f s).count (member_of f s).elem_size t rest

unfoldable pub rms_type : String → Struct → Fields → TypeDesc
rms_type name s fs = type_desc name (sizeof s) fs

abbrev pub codes : String → List ℕ
codes String.[] = []
codes (String.◌∷◌ c s) = code c ∷ codes s

-- `n` bytes from `at`.
unfoldable pub read : List ℕ → ℕ → ℕ → Option (List ℕ)
read data_bytes at n =
    if leb (at + n) (length data_bytes) then some (take n (drop at data_bytes)) else none

-- A little-endian number.
unfoldable pub le_value : List ℕ → ℕ
le_value [] = 0
le_value (b ∷ bs) = b + 256 * le_value bs

-- The decimal digits of a number below 10 ^ suc fuel.
unfoldable pub digits : ℕ → ℕ → List ℕ
digits zero n = (b'0' + n % 10) ∷ []
digits (suc fuel) n =
    let rest = digits fuel (n / 10) in
    if ltb n 10 then (b'0' + n) ∷ [] else rest ++ ((b'0' + n % 10) ∷ [])

-- std::to_string of a number below 2^64, which has at most 20 digits.
unfoldable pub decimal : ℕ → List ℕ
decimal n = digits 19 n

-- That of the signed number of `w` bits that has these bits.
unfoldable pub signed : ℕ → ℕ → List ℕ
signed w n = if ltb n (2 ^ (w - 1)) then decimal n else b'-' ∷ decimal (2 ^ w - n)

-- `std::string(s, strnlen(s, n))` between quotes; the whole field is read.
unfoldable pub quoted : List ℕ → List ℕ
quoted bytes = b'"' ∷ up_to_zero (length bytes) bytes ++ (b'"' ∷ [])

-- The texts for j, j + 1 and so on, with a separator between them.
unfoldable pub joined : List ℕ → ℕ → ℕ → (ℕ → Option (List ℕ)) → Option (List ℕ)
joined sep zero j f = some []
joined sep (suc count) j f = do
  text ← f j
  rest ← joined sep count (suc j) f
  some (text ++ (if count == 0 then [] else sep) ++ rest)

-- `' ' * ((indent + 1) * 2)` and the name.
unfoldable pub label : ℕ → String → List ℕ
label indent name = replicate ((indent + 1) * 2) b' ' ++ codes name

unfoldable pub newline_unless_last : Fields → List ℕ
newline_unless_last no_fields = []
newline_unless_last _ = b'\n' ∷ []

-- One field's line or lines, and what follows.
unfoldable pub then_rest : List ℕ → Fields → Option (List ℕ) → Option (List ℕ) → Option (List ℕ)
then_rest head fs value more = do
  v ← value
  m ← more
  some (head ++ v ++ newline_unless_last fs ++ m)

-- What stands around the text of a field.
unfoldable pub bracketed : Option (List ℕ) → Option (List ℕ)
bracketed texts = do t ← texts; some (codes " = [" ++ t ++ codes "]")

unfoldable pub assigned : Option (List ℕ) → Option (List ℕ)
assigned text = do t ← text; some (codes " = " ++ t)

unfoldable pub below_label : Option (List ℕ) → Option (List ℕ)
below_label text = do t ← text; some (codes ":\n" ++ t)

unfoldable pub numbered : ℕ → ℕ → Option (List ℕ) → Option (List ℕ)
numbered indent j text = do
  t ← text
  some (replicate ((indent + 2) * 2) b' ' ++ codes "[" ++ decimal j ++ codes "]:\n" ++ t)

module _ (show_float : List ℕ → List ℕ) where
  unfoldable pub to_string : Num → List ℕ → List ℕ
  to_string i8 bytes = signed 8 (le_value bytes)
  to_string u8 bytes = decimal (le_value bytes)
  to_string i16 bytes = signed 16 (le_value bytes)
  to_string u16 bytes = decimal (le_value bytes)
  to_string i32 bytes = signed 32 (le_value bytes)
  to_string u32 bytes = decimal (le_value bytes)
  to_string i64 bytes = signed 64 (le_value bytes)
  to_string u64 bytes = decimal (le_value bytes)
  to_string f32 bytes = show_float bytes
  to_string f64 bytes = show_float bytes

  unfoldable pub number_text : List ℕ → ℕ → Num → Option (List ℕ)
  number_text bytes at k = do field ← read bytes at (num_size k); some (to_string k field)

  unfoldable pub string_text : List ℕ → ℕ → ℕ → Option (List ℕ)
  string_text bytes at n = do field ← read bytes at n; some (quoted field)

  -- format_message of the message at `at`.
  unfoldable mutual
    pub format_message : List ℕ → TypeDesc → ℕ → ℕ → Option (List ℕ)
    format_message bytes (type_desc name size fs) at indent = format_fields bytes fs at indent

    pub format_fields : List ℕ → Fields → ℕ → ℕ → Option (List ℕ)
    format_fields bytes no_fields at indent = some []
    format_fields bytes (scalar f off k rest) at indent =
        then_rest (label indent f) rest (assigned (number_text bytes (at + off) k))
          (format_fields bytes rest at indent)
    format_fields bytes (char_str f off n rest) at indent =
        then_rest (label indent f) rest (assigned (string_text bytes (at + off) n))
          (format_fields bytes rest at indent)
    format_fields bytes (char_str_array f off count n rest) at indent =
        then_rest (label indent f) rest
          (bracketed (joined (codes ", ") count 0 (λ j. string_text bytes (at + off + j * n) n)))
          (format_fields bytes rest at indent)
    format_fields bytes (num_array f off count k rest) at indent =
        then_rest (label indent f) rest
          (bracketed
            (joined (codes ", ") count 0 (λ j. number_text bytes (at + off + j * num_size k) k)))
          (format_fields bytes rest at indent)
    format_fields bytes (struct_field f off n t rest) at indent =
        then_rest (label indent f) rest
          (below_label (format_message bytes t (at + off) (indent + 1)))
          (format_fields bytes rest at indent)
    format_fields bytes (struct_array f off count n t rest) at indent =
        then_rest (label indent f) rest
          (below_label (
            joined (b'\n' ∷ []) count 0
              (λ j. numbered indent j (format_message bytes t (at + off + j * n) (indent + 2)))))
          (format_fields bytes rest at indent)
