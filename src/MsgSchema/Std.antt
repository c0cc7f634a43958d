-- ===== src/MsgSchema/Std.antt =====
-- The descriptions of std_msgs, and the primitives of wire.hpp, of cpp/tools/msg_schema.hpp.
use relink_com.StdMsgs.Std.{
  msg_bool, msg_byte, msg_char, msg_color_rgba, msg_duration, msg_float32, msg_float64, msg_header,
  msg_int16, msg_int32, msg_int64, msg_int8, msg_string, msg_time, msg_uint16, msg_uint32,
  msg_uint64, msg_uint8,
}
use relink_com.MsgSchema.{
  TypeDesc, no_fields, rms_type, f32, f64, i16, i32, i64, i8, rms_scalar, rms_str, rms_struct, u16,
  u32, u64, u8,
}

abbrev pub k_bool : TypeDesc
k_bool = rms_type "Bool" msg_bool (rms_scalar msg_bool "data" u8 (no_fields))

abbrev pub k_byte : TypeDesc
k_byte = rms_type "Byte" msg_byte (rms_scalar msg_byte "data" u8 (no_fields))

abbrev pub k_char : TypeDesc
k_char = rms_type "Char" msg_char (rms_scalar msg_char "data" u8 (no_fields))

abbrev pub k_int8 : TypeDesc
k_int8 = rms_type "Int8" msg_int8 (rms_scalar msg_int8 "data" i8 (no_fields))

abbrev pub k_int16 : TypeDesc
k_int16 = rms_type "Int16" msg_int16 (rms_scalar msg_int16 "data" i16 (no_fields))

abbrev pub k_int32 : TypeDesc
k_int32 = rms_type "Int32" msg_int32 (rms_scalar msg_int32 "data" i32 (no_fields))

abbrev pub k_int64 : TypeDesc
k_int64 = rms_type "Int64" msg_int64 (rms_scalar msg_int64 "data" i64 (no_fields))

abbrev pub k_uint8 : TypeDesc
k_uint8 = rms_type "UInt8" msg_uint8 (rms_scalar msg_uint8 "data" u8 (no_fields))

abbrev pub k_uint16 : TypeDesc
k_uint16 = rms_type "UInt16" msg_uint16 (rms_scalar msg_uint16 "data" u16 (no_fields))

abbrev pub k_uint32 : TypeDesc
k_uint32 = rms_type "UInt32" msg_uint32 (rms_scalar msg_uint32 "data" u32 (no_fields))

abbrev pub k_uint64 : TypeDesc
k_uint64 = rms_type "UInt64" msg_uint64 (rms_scalar msg_uint64 "data" u64 (no_fields))

abbrev pub k_float32 : TypeDesc
k_float32 = rms_type "Float32" msg_float32 (rms_scalar msg_float32 "data" f32 (no_fields))

abbrev pub k_float64 : TypeDesc
k_float64 = rms_type "Float64" msg_float64 (rms_scalar msg_float64 "data" f64 (no_fields))

abbrev pub k_time : TypeDesc
k_time =
    rms_type "Time" msg_time
      (rms_scalar msg_time "sec" u32 (rms_scalar msg_time "nsec" u32 (no_fields)))

abbrev pub k_duration : TypeDesc
k_duration =
    rms_type "Duration" msg_duration
      (rms_scalar msg_duration "sec" i32 (rms_scalar msg_duration "nsec" i32 (no_fields)))

abbrev pub k_color_rgba : TypeDesc
k_color_rgba = rms_type "ColorRGBA" msg_color_rgba (
    rms_scalar msg_color_rgba "r" f32 (
      rms_scalar msg_color_rgba "g" f32
        (rms_scalar msg_color_rgba "b" f32 (rms_scalar msg_color_rgba "a" f32 (no_fields)))))

abbrev pub k_header : TypeDesc
k_header = rms_type "Header" msg_header (
    rms_scalar msg_header "seq" u32
      (rms_struct msg_header "stamp" k_time (rms_str msg_header "frame_id" (no_fields))))

abbrev pub k_string : TypeDesc
k_string = rms_type "String" msg_string (rms_str msg_string "data" (no_fields))
