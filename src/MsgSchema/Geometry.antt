-- ===== src/MsgSchema/Geometry.antt =====
-- The descriptions of geometry_msgs, of cpp/tools/msg_schema.hpp.
use relink_com.StdMsgs.Geometry.{
  msg_accel, msg_point, msg_point32, msg_polygon, msg_pose, msg_pose_array, msg_pose_stamped,
  msg_pose_with_covariance, msg_quaternion, msg_transform, msg_transform_stamped, msg_twist,
  msg_twist_stamped, msg_twist_with_covariance, msg_vector3, msg_wrench,
}
use relink_com.MsgSchema.{
  TypeDesc, no_fields, rms_type, f32, rms_numarr, rms_scalar, rms_str, rms_struct, rms_structarr,
  u32,
}
use relink_com.MsgSchema.Std.{k_header}

abbrev pub k_vector3 : TypeDesc
k_vector3 = rms_type "Vector3" msg_vector3 (
    rms_scalar msg_vector3 "x" f32
      (rms_scalar msg_vector3 "y" f32 (rms_scalar msg_vector3 "z" f32 (no_fields))))

abbrev pub k_point : TypeDesc
k_point = rms_type "Point" msg_point (
    rms_scalar msg_point "x" f32
      (rms_scalar msg_point "y" f32 (rms_scalar msg_point "z" f32 (no_fields))))

abbrev pub k_point32 : TypeDesc
k_point32 = rms_type "Point32" msg_point32 (
    rms_scalar msg_point32 "x" f32
      (rms_scalar msg_point32 "y" f32 (rms_scalar msg_point32 "z" f32 (no_fields))))

abbrev pub k_quaternion : TypeDesc
k_quaternion = rms_type "Quaternion" msg_quaternion (
    rms_scalar msg_quaternion "x" f32 (
      rms_scalar msg_quaternion "y" f32
        (rms_scalar msg_quaternion "z" f32 (rms_scalar msg_quaternion "w" f32 (no_fields)))))

abbrev pub k_pose : TypeDesc
k_pose = rms_type "Pose" msg_pose (
    rms_struct msg_pose "position" k_point
      (rms_struct msg_pose "orientation" k_quaternion (no_fields)))

abbrev pub k_twist : TypeDesc
k_twist =
    rms_type "Twist" msg_twist (
      rms_struct msg_twist "linear" k_vector3
        (rms_struct msg_twist "angular" k_vector3 (no_fields)))

abbrev pub k_accel : TypeDesc
k_accel =
    rms_type "Accel" msg_accel (
      rms_struct msg_accel "linear" k_vector3
        (rms_struct msg_accel "angular" k_vector3 (no_fields)))

abbrev pub k_wrench : TypeDesc
k_wrench =
    rms_type "Wrench" msg_wrench (
      rms_struct msg_wrench "force" k_vector3
        (rms_struct msg_wrench "torque" k_vector3 (no_fields)))

abbrev pub k_pose_stamped : TypeDesc
k_pose_stamped = rms_type "PoseStamped" msg_pose_stamped (
    rms_struct msg_pose_stamped "header" k_header
      (rms_struct msg_pose_stamped "pose" k_pose (no_fields)))

abbrev pub k_twist_stamped : TypeDesc
k_twist_stamped = rms_type "TwistStamped" msg_twist_stamped (
    rms_struct msg_twist_stamped "header" k_header
      (rms_struct msg_twist_stamped "twist" k_twist (no_fields)))

abbrev pub k_transform : TypeDesc
k_transform = rms_type "Transform" msg_transform (
    rms_struct msg_transform "translation" k_vector3
      (rms_struct msg_transform "rotation" k_quaternion (no_fields)))

abbrev pub k_transform_stamped : TypeDesc
k_transform_stamped = rms_type "TransformStamped" msg_transform_stamped (
    rms_struct msg_transform_stamped "header" k_header (
      rms_str msg_transform_stamped "child_frame_id"
        (rms_struct msg_transform_stamped "transform" k_transform (no_fields))))

abbrev pub k_pose_with_covariance : TypeDesc
k_pose_with_covariance = rms_type "PoseWithCovariance" msg_pose_with_covariance (
    rms_struct msg_pose_with_covariance "pose" k_pose
      (rms_numarr msg_pose_with_covariance "covariance" f32 (no_fields)))

abbrev pub k_twist_with_covariance : TypeDesc
k_twist_with_covariance = rms_type "TwistWithCovariance" msg_twist_with_covariance (
    rms_struct msg_twist_with_covariance "twist" k_twist
      (rms_numarr msg_twist_with_covariance "covariance" f32 (no_fields)))

abbrev pub k_pose_array : TypeDesc
k_pose_array = rms_type "PoseArray" msg_pose_array (
    rms_struct msg_pose_array "header" k_header (
      rms_scalar msg_pose_array "count" u32
        (rms_structarr msg_pose_array "poses" k_pose (no_fields))))

abbrev pub k_polygon : TypeDesc
k_polygon =
    rms_type "Polygon" msg_polygon (
      rms_scalar msg_polygon "count" u32 (rms_structarr msg_polygon "points" k_point32 (no_fields)))
