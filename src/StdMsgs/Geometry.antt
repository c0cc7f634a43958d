-- ===== src/StdMsgs/Geometry.antt =====
-- The structs of geometry_msgs, of cpp/include/relink/standard_msgs.hpp.
use relink_com.Base.{ℕ, [], ◌∷◌}
use relink_com.StdMsgs.{Struct, sizeof, one, array}
use relink_com.StdMsgs.Std.{frame_id_max_len, msg_header}

abbrev pub msg_vector3 : Struct
msg_vector3 = one "x" 4 ∷ one "y" 4 ∷ one "z" 4 ∷ []

abbrev pub msg_point : Struct
msg_point = one "x" 4 ∷ one "y" 4 ∷ one "z" 4 ∷ []

abbrev pub msg_quaternion : Struct
msg_quaternion = one "x" 4 ∷ one "y" 4 ∷ one "z" 4 ∷ one "w" 4 ∷ []

abbrev pub msg_pose : Struct
msg_pose = one "position" (sizeof msg_point) ∷ one "orientation" (sizeof msg_quaternion) ∷ []

abbrev pub msg_twist : Struct
msg_twist = one "linear" (sizeof msg_vector3) ∷ one "angular" (sizeof msg_vector3) ∷ []

abbrev pub msg_accel : Struct
msg_accel = one "linear" (sizeof msg_vector3) ∷ one "angular" (sizeof msg_vector3) ∷ []

abbrev pub msg_wrench : Struct
msg_wrench = one "force" (sizeof msg_vector3) ∷ one "torque" (sizeof msg_vector3) ∷ []

abbrev pub msg_pose_stamped : Struct
msg_pose_stamped = one "header" (sizeof msg_header) ∷ one "pose" (sizeof msg_pose) ∷ []

abbrev pub msg_twist_stamped : Struct
msg_twist_stamped = one "header" (sizeof msg_header) ∷ one "twist" (sizeof msg_twist) ∷ []

abbrev pub msg_point32 : Struct
msg_point32 = one "x" 4 ∷ one "y" 4 ∷ one "z" 4 ∷ []

abbrev pub msg_transform : Struct
msg_transform = one "translation" (sizeof msg_vector3) ∷ one "rotation" (sizeof msg_quaternion) ∷ []

abbrev pub msg_transform_stamped : Struct
msg_transform_stamped =
    one "header" (sizeof msg_header)
    ∷ array "child_frame_id" 1 frame_id_max_len
    ∷ one "transform" (sizeof msg_transform)
    ∷ []

abbrev pub msg_pose_with_covariance : Struct
msg_pose_with_covariance = one "pose" (sizeof msg_pose) ∷ array "covariance" 4 36 ∷ []

abbrev pub msg_twist_with_covariance : Struct
msg_twist_with_covariance = one "twist" (sizeof msg_twist) ∷ array "covariance" 4 36 ∷ []

abbrev pub max_poses_in_array : ℕ
max_poses_in_array = 16

abbrev pub msg_pose_array : Struct
msg_pose_array =
    one "header" (sizeof msg_header)
    ∷ one "count" 4
    ∷ array "poses" (sizeof msg_pose) max_poses_in_array
    ∷ []

abbrev pub max_polygon_points : ℕ
max_polygon_points = 16

abbrev pub msg_polygon : Struct
msg_polygon = one "count" 4 ∷ array "points" (sizeof msg_point32) max_polygon_points ∷ []
