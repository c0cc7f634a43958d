-- ===== src/StdMsgs/Std.antt =====
-- The structs of std_msgs, and the primitives of wire.hpp, of cpp/include/relink/standard_msgs.hpp.
use relink_com.Base.{ℕ, [], ◌∷◌}
use relink_com.StdMsgs.{Struct, sizeof, one, array}

abbrev pub msg_bool : Struct
msg_bool = one "data" 1 ∷ []

abbrev pub msg_byte : Struct
msg_byte = one "data" 1 ∷ []

abbrev pub msg_char : Struct
msg_char = one "data" 1 ∷ []

abbrev pub msg_int8 : Struct
msg_int8 = one "data" 1 ∷ []

abbrev pub msg_int16 : Struct
msg_int16 = one "data" 2 ∷ []

abbrev pub msg_int32 : Struct
msg_int32 = one "data" 4 ∷ []

abbrev pub msg_int64 : Struct
msg_int64 = one "data" 8 ∷ []

abbrev pub msg_uint8 : Struct
msg_uint8 = one "data" 1 ∷ []

abbrev pub msg_uint16 : Struct
msg_uint16 = one "data" 2 ∷ []

abbrev pub msg_uint32 : Struct
msg_uint32 = one "data" 4 ∷ []

abbrev pub msg_uint64 : Struct
msg_uint64 = one "data" 8 ∷ []

abbrev pub msg_float32 : Struct
msg_float32 = one "data" 4 ∷ []

abbrev pub msg_float64 : Struct
msg_float64 = one "data" 8 ∷ []

abbrev pub msg_time : Struct
msg_time = one "sec" 4 ∷ one "nsec" 4 ∷ []

abbrev pub msg_duration : Struct
msg_duration = one "sec" 4 ∷ one "nsec" 4 ∷ []

abbrev pub msg_color_rgba : Struct
msg_color_rgba = one "r" 4 ∷ one "g" 4 ∷ one "b" 4 ∷ one "a" 4 ∷ []

abbrev pub frame_id_max_len : ℕ
frame_id_max_len = 32

abbrev pub msg_header : Struct
msg_header = one "seq" 4 ∷ one "stamp" (sizeof msg_time) ∷ array "frame_id" 1 frame_id_max_len ∷ []

abbrev pub string_max_len : ℕ
string_max_len = 64

abbrev pub msg_string : Struct
msg_string = array "data" 1 string_max_len ∷ []
