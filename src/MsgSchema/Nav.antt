-- ===== src/MsgSchema/Nav.antt =====
-- The descriptions of nav_msgs, of cpp/tools/msg_schema.hpp.
use relink_com.StdMsgs.Nav.{
  msg_grid_cells, msg_map_meta_data, msg_occupancy_grid, msg_odometry, msg_path,
}
use relink_com.MsgSchema.{
  TypeDesc, no_fields, rms_type, f32, i8, rms_numarr, rms_scalar, rms_str, rms_struct,
  rms_structarr, u32,
}
use relink_com.MsgSchema.Std.{k_header, k_time}
use relink_com.MsgSchema.Geometry.{k_point, k_pose, k_pose_stamped, k_twist}

abbrev pub k_odometry : TypeDesc
k_odometry = rms_type "Odometry" msg_odometry (
    rms_struct msg_odometry "header" k_header (
      rms_str msg_odometry "child_frame_id" (
        rms_struct msg_odometry "pose" k_pose (
          rms_numarr msg_odometry "pose_covariance" f32 (
            rms_struct msg_odometry "twist" k_twist
              (rms_numarr msg_odometry "twist_covariance" f32 (no_fields)))))))

abbrev pub k_map_meta_data : TypeDesc
k_map_meta_data = rms_type "MapMetaData" msg_map_meta_data (
    rms_struct msg_map_meta_data "map_load_time" k_time (
      rms_scalar msg_map_meta_data "resolution" f32 (
        rms_scalar msg_map_meta_data "width" u32 (
          rms_scalar msg_map_meta_data "height" u32
            (rms_struct msg_map_meta_data "origin" k_pose (no_fields))))))

abbrev pub k_path : TypeDesc
k_path = rms_type "Path" msg_path (
    rms_struct msg_path "header" k_header
      (rms_scalar msg_path "count" u32 (rms_structarr msg_path "poses" k_pose_stamped (no_fields))))

abbrev pub k_occupancy_grid : TypeDesc
k_occupancy_grid = rms_type "OccupancyGrid" msg_occupancy_grid (
    rms_struct msg_occupancy_grid "header" k_header (
      rms_struct msg_occupancy_grid "info" k_map_meta_data (
        rms_scalar msg_occupancy_grid "data_len" u32
          (rms_numarr msg_occupancy_grid "data" i8 (no_fields)))))

abbrev pub k_grid_cells : TypeDesc
k_grid_cells = rms_type "GridCells" msg_grid_cells (
    rms_struct msg_grid_cells "header" k_header (
      rms_scalar msg_grid_cells "cell_width" f32 (
        rms_scalar msg_grid_cells "cell_height" f32 (
          rms_scalar msg_grid_cells "count" u32
            (rms_structarr msg_grid_cells "cells" k_point (no_fields))))))
