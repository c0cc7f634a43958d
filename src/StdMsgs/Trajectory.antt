-- ===== src/StdMsgs/Trajectory.antt =====
-- The structs of trajectory_msgs, of cpp/include/relink/standard_msgs.hpp.
use relink_com.Base.{ℕ, [], ◌∷◌}
use relink_com.StdMsgs.{Struct, sizeof, one, array}
use relink_com.StdMsgs.Std.{msg_duration, msg_header, string_max_len}
use relink_com.StdMsgs.Geometry.{msg_transform, msg_twist}

abbrev pub max_dof : ℕ
max_dof = 4

abbrev pub msg_joint_trajectory_point : Struct
msg_joint_trajectory_point =
    one "count" 4
    ∷ array "positions" 8 max_dof
    ∷ array "velocities" 8 max_dof
    ∷ array "accelerations" 8 max_dof
    ∷ array "effort" 8 max_dof
    ∷ one "time_from_start" (sizeof msg_duration)
    ∷ []

abbrev pub max_trajectory_points : ℕ
max_trajectory_points = 6

abbrev pub msg_joint_trajectory : Struct
msg_joint_trajectory =
    one "header" (sizeof msg_header)
    ∷ one "joint_names_count" 4
    ∷ array "joint_names" string_max_len max_dof
    ∷ one "points_count" 4
    ∷ array "points" (sizeof msg_joint_trajectory_point) max_trajectory_points
    ∷ []

abbrev pub msg_multi_dof_joint_trajectory_point : Struct
msg_multi_dof_joint_trajectory_point =
    one "count" 4
    ∷ array "transforms" (sizeof msg_transform) max_dof
    ∷ array "velocities" (sizeof msg_twist) max_dof
    ∷ array "accelerations" (sizeof msg_twist) max_dof
    ∷ one "time_from_start" (sizeof msg_duration)
    ∷ []

abbrev pub max_multi_dof_trajectory_points : ℕ
max_multi_dof_trajectory_points = 3

abbrev pub msg_multi_dof_joint_trajectory : Struct
msg_multi_dof_joint_trajectory =
    one "header" (sizeof msg_header)
    ∷ one "joint_names_count" 4
    ∷ array "joint_names" string_max_len max_dof
    ∷ one "points_count" 4
    ∷ array "points" (sizeof msg_multi_dof_joint_trajectory_point) max_multi_dof_trajectory_points
    ∷ []
