-- ===== src/MsgSchema/Trajectory.antt =====
-- The descriptions of trajectory_msgs, of cpp/tools/msg_schema.hpp.
use relink_com.StdMsgs.Trajectory.{
  msg_joint_trajectory, msg_joint_trajectory_point, msg_multi_dof_joint_trajectory,
  msg_multi_dof_joint_trajectory_point,
}
use relink_com.MsgSchema.{
  TypeDesc, no_fields, rms_type, f64, rms_numarr, rms_scalar, rms_strarr, rms_struct, rms_structarr,
  u32,
}
use relink_com.MsgSchema.Std.{k_duration, k_header}
use relink_com.MsgSchema.Geometry.{k_transform, k_twist}

abbrev pub k_joint_trajectory_point : TypeDesc
k_joint_trajectory_point = rms_type "JointTrajectoryPoint" msg_joint_trajectory_point (
    rms_scalar msg_joint_trajectory_point "count" u32 (
      rms_numarr msg_joint_trajectory_point "positions" f64 (
        rms_numarr msg_joint_trajectory_point "velocities" f64 (
          rms_numarr msg_joint_trajectory_point "accelerations" f64 (
            rms_numarr msg_joint_trajectory_point "effort" f64
              (rms_struct msg_joint_trajectory_point "time_from_start" k_duration (no_fields)))))))

abbrev pub k_joint_trajectory : TypeDesc
k_joint_trajectory = rms_type "JointTrajectory" msg_joint_trajectory (
    rms_struct msg_joint_trajectory "header" k_header (
      rms_scalar msg_joint_trajectory "joint_names_count" u32 (
        rms_strarr msg_joint_trajectory "joint_names" (
          rms_scalar msg_joint_trajectory "points_count" u32
            (rms_structarr msg_joint_trajectory "points" k_joint_trajectory_point (no_fields))))))

abbrev pub k_multi_dof_joint_trajectory_point : TypeDesc
k_multi_dof_joint_trajectory_point =
    rms_type "MultiDOFJointTrajectoryPoint" msg_multi_dof_joint_trajectory_point (
      rms_scalar msg_multi_dof_joint_trajectory_point "count" u32 (
        rms_structarr msg_multi_dof_joint_trajectory_point "transforms" k_transform (
          rms_structarr msg_multi_dof_joint_trajectory_point "velocities" k_twist (
            rms_structarr msg_multi_dof_joint_trajectory_point "accelerations" k_twist (
              rms_struct msg_multi_dof_joint_trajectory_point "time_from_start" k_duration
                (no_fields))))))

abbrev pub k_multi_dof_joint_trajectory : TypeDesc
k_multi_dof_joint_trajectory = rms_type "MultiDOFJointTrajectory" msg_multi_dof_joint_trajectory (
    rms_struct msg_multi_dof_joint_trajectory "header" k_header (
      rms_scalar msg_multi_dof_joint_trajectory "joint_names_count" u32 (
        rms_strarr msg_multi_dof_joint_trajectory "joint_names" (
          rms_scalar msg_multi_dof_joint_trajectory "points_count" u32 (
            rms_structarr msg_multi_dof_joint_trajectory "points" k_multi_dof_joint_trajectory_point
              (no_fields))))))
