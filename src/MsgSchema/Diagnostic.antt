-- ===== src/MsgSchema/Diagnostic.antt =====
-- The descriptions of diagnostic_msgs, of cpp/tools/msg_schema.hpp.
use relink_com.StdMsgs.Diagnostic.{msg_diagnostic_array, msg_diagnostic_status, msg_key_value}
use relink_com.MsgSchema.{
  TypeDesc, no_fields, rms_type, i8, rms_scalar, rms_str, rms_struct, rms_structarr, u32,
}
use relink_com.MsgSchema.Std.{k_header}

abbrev pub k_key_value : TypeDesc
k_key_value =
    rms_type "KeyValue" msg_key_value
      (rms_str msg_key_value "key" (rms_str msg_key_value "value" (no_fields)))

abbrev pub k_diagnostic_status : TypeDesc
k_diagnostic_status = rms_type "DiagnosticStatus" msg_diagnostic_status (
    rms_scalar msg_diagnostic_status "level" i8 (
      rms_str msg_diagnostic_status "name" (
        rms_str msg_diagnostic_status "message" (
          rms_str msg_diagnostic_status "hardware_id" (
            rms_scalar msg_diagnostic_status "values_count" u32
              (rms_structarr msg_diagnostic_status "values" k_key_value (no_fields)))))))

abbrev pub k_diagnostic_array : TypeDesc
k_diagnostic_array = rms_type "DiagnosticArray" msg_diagnostic_array (
    rms_struct msg_diagnostic_array "header" k_header (
      rms_scalar msg_diagnostic_array "status_count" u32
        (rms_structarr msg_diagnostic_array "status" k_diagnostic_status (no_fields))))
