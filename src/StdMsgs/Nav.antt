-- ===== src/StdMsgs/Nav.antt =====
-- The structs of nav_msgs, of cpp/include/relink/standard_msgs.hpp.
use relink_com.Base.{ℕ, [], ◌∷◌}
use relink_com.StdMsgs.{Struct, sizeof, one, array}
use relink_com.StdMsgs.Geometry.{msg_point, msg_pose, msg_pose_stamped, msg_twist}
use relink_com.StdMsgs.Std.{frame_id_max_len, msg_header, msg_time}

abbrev pub msg_odometry : Struct
msg_odometry =
    one "header" (sizeof msg_header)
    ∷ array "child_frame_id" 1 frame_id_max_len
    ∷ one "pose" (sizeof msg_pose)
    ∷ array "pose_covariance" 4 36
    ∷ one "twist" (sizeof msg_twist)
    ∷ array "twist_covariance" 4 36
    ∷ []

abbrev pub msg_map_meta_data : Struct
msg_map_meta_data =
    one "map_load_time" (sizeof msg_time)
    ∷ one "resolution" 4
    ∷ one "width" 4
    ∷ one "height" 4
    ∷ one "origin" (sizeof msg_pose)
    ∷ []

abbrev pub max_path_poses : ℕ
max_path_poses = 16

abbrev pub msg_path : Struct
msg_path =
    one "header" (sizeof msg_header)
    ∷ one "count" 4
    ∷ array "poses" (sizeof msg_pose_stamped) max_path_poses
    ∷ []

abbrev pub max_occupancy_grid_cells : ℕ
max_occupancy_grid_cells = 1024

abbrev pub msg_occupancy_grid : Struct
msg_occupancy_grid =
    one "header" (sizeof msg_header)
    ∷ one "info" (sizeof msg_map_meta_data)
    ∷ one "data_len" 4
    ∷ array "data" 1 max_occupancy_grid_cells
    ∷ []

abbrev pub max_grid_cells : ℕ
max_grid_cells = 64

abbrev pub msg_grid_cells : Struct
msg_grid_cells =
    one "header" (sizeof msg_header)
    ∷ one "cell_width" 4
    ∷ one "cell_height" 4
    ∷ one "count" 4
    ∷ array "cells" (sizeof msg_point) max_grid_cells
    ∷ []
