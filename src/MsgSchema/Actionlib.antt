-- ===== src/MsgSchema/Actionlib.antt =====
-- The descriptions of actionlib_msgs, of cpp/tools/msg_schema.hpp.
use relink_com.StdMsgs.Actionlib.{msg_goal_id, msg_goal_status, msg_goal_status_array}
use relink_com.MsgSchema.{
  TypeDesc, no_fields, rms_type, rms_scalar, rms_str, rms_struct, rms_structarr, u32, u8,
}
use relink_com.MsgSchema.Std.{k_header, k_time}

abbrev pub k_goal_id : TypeDesc
k_goal_id =
    rms_type "GoalID" msg_goal_id
      (rms_struct msg_goal_id "stamp" k_time (rms_str msg_goal_id "id" (no_fields)))

abbrev pub k_goal_status : TypeDesc
k_goal_status = rms_type "GoalStatus" msg_goal_status (
    rms_struct msg_goal_status "goal_id" k_goal_id
      (rms_scalar msg_goal_status "status" u8 (rms_str msg_goal_status "text" (no_fields))))

abbrev pub k_goal_status_array : TypeDesc
k_goal_status_array = rms_type "GoalStatusArray" msg_goal_status_array (
    rms_struct msg_goal_status_array "header" k_header (
      rms_scalar msg_goal_status_array "status_list_count" u32
        (rms_structarr msg_goal_status_array "status_list" k_goal_status (no_fields))))
