-- ===== src/MsgSchema/Registry.antt =====
-- The registry of cpp/tools/msg_schema.hpp, and its look-ups.
use Prim.Native.String.{String}
use text.Mathlib.Text.{◌==◌ as str_eq}
use relink_com.Base.{ℕ, Option, none, some, List, [], ◌∷◌, ◌==◌, if◌then◌else◌}
use relink_com.MsgSchema.{TypeDesc, type_name, type_size}
use relink_com.MsgSchema.Std.{
  k_bool, k_byte, k_char, k_int8, k_int16, k_int32, k_int64, k_uint8, k_uint16, k_uint32, k_uint64,
  k_float32, k_float64, k_time, k_duration, k_color_rgba, k_header, k_string,
}
use relink_com.MsgSchema.Geometry.{
  k_vector3, k_point, k_point32, k_quaternion, k_pose, k_twist, k_accel, k_wrench, k_pose_stamped,
  k_twist_stamped, k_transform, k_transform_stamped, k_pose_with_covariance,
  k_twist_with_covariance, k_pose_array, k_polygon,
}
use relink_com.MsgSchema.Sensor.{
  k_imu, k_nav_sat_status, k_nav_sat_fix, k_magnetic_field, k_temperature, k_range,
  k_region_of_interest, k_camera_info, k_point_field, k_point_cloud2, k_laser_scan, k_joint_state,
}
use relink_com.MsgSchema.Nav.{k_odometry, k_map_meta_data, k_path, k_occupancy_grid, k_grid_cells}
use relink_com.MsgSchema.Diagnostic.{k_key_value, k_diagnostic_status, k_diagnostic_array}
use relink_com.MsgSchema.Trajectory.{
  k_joint_trajectory_point, k_joint_trajectory, k_multi_dof_joint_trajectory_point,
  k_multi_dof_joint_trajectory,
}
use relink_com.MsgSchema.Actionlib.{k_goal_id, k_goal_status, k_goal_status_array}

abbrev pub all_types : List TypeDesc
all_types =
    k_bool ∷ k_byte ∷ k_char ∷ k_int8 ∷ k_int16 ∷ k_int32 ∷ k_int64 ∷ k_uint8 ∷ k_uint16 ∷ k_uint32
    ∷ k_uint64 ∷ k_float32 ∷ k_float64 ∷ k_time ∷ k_duration ∷ k_color_rgba ∷ k_header ∷ k_string
    ∷ k_vector3 ∷ k_point ∷ k_point32 ∷ k_quaternion ∷ k_pose ∷ k_twist ∷ k_accel ∷ k_wrench
    ∷ k_pose_stamped ∷ k_twist_stamped ∷ k_transform ∷ k_transform_stamped ∷ k_pose_with_covariance
    ∷ k_twist_with_covariance ∷ k_pose_array ∷ k_polygon ∷ k_imu ∷ k_nav_sat_status ∷ k_nav_sat_fix
    ∷ k_magnetic_field ∷ k_temperature ∷ k_range ∷ k_region_of_interest ∷ k_camera_info
    ∷ k_point_field ∷ k_point_cloud2 ∷ k_laser_scan ∷ k_joint_state ∷ k_odometry ∷ k_map_meta_data
    ∷ k_path ∷ k_occupancy_grid ∷ k_grid_cells ∷ k_key_value ∷ k_diagnostic_status
    ∷ k_diagnostic_array ∷ k_joint_trajectory_point ∷ k_joint_trajectory
    ∷ k_multi_dof_joint_trajectory_point ∷ k_multi_dof_joint_trajectory ∷ k_goal_id ∷ k_goal_status
    ∷ k_goal_status_array ∷ []

-- The first type of the list with the name.
unfoldable pub named_in : String → List TypeDesc → Option TypeDesc
named_in name [] = none
named_in name (t ∷ ts) =
    let rest = named_in name ts in if str_eq name (type_name t) then some t else rest

unfoldable pub find_type_by_name : String → Option TypeDesc
find_type_by_name name = named_in name all_types

unfoldable pub of_size : ℕ → List TypeDesc → List TypeDesc
of_size size [] = []
of_size size (t ∷ ts) = let rest = of_size size ts in if type_size t == size then t ∷ rest else rest

unfoldable pub find_types_by_size : ℕ → List TypeDesc
find_types_by_size size = of_size size all_types
