-- ===== src/MsgSchema/Sensor.antt =====
-- The descriptions of sensor_msgs, of cpp/tools/msg_schema.hpp.
use relink_com.StdMsgs.Sensor.{
  msg_camera_info, msg_imu, msg_joint_state, msg_laser_scan, msg_magnetic_field, msg_nav_sat_fix,
  msg_nav_sat_status, msg_point_cloud2, msg_point_field, msg_range, msg_region_of_interest,
  msg_temperature,
}
use relink_com.MsgSchema.{
  TypeDesc, no_fields, rms_type, f32, f64, i8, rms_numarr, rms_scalar, rms_str, rms_strarr,
  rms_struct, rms_structarr, u16, u32, u8,
}
use relink_com.MsgSchema.Std.{k_header}
use relink_com.MsgSchema.Geometry.{k_quaternion, k_vector3}

abbrev pub k_imu : TypeDesc
k_imu = rms_type "Imu" msg_imu (
    rms_struct msg_imu "header" k_header (
      rms_struct msg_imu "orientation" k_quaternion (
        rms_numarr msg_imu "orientation_covariance" f32 (
          rms_struct msg_imu "angular_velocity" k_vector3 (
            rms_numarr msg_imu "angular_velocity_covariance" f32 (
              rms_struct msg_imu "linear_acceleration" k_vector3
                (rms_numarr msg_imu "linear_acceleration_covariance" f32 (no_fields))))))))

abbrev pub k_nav_sat_status : TypeDesc
k_nav_sat_status = rms_type "NavSatStatus" msg_nav_sat_status (
    rms_scalar msg_nav_sat_status "status" i8
      (rms_scalar msg_nav_sat_status "service" u16 (no_fields)))

abbrev pub k_nav_sat_fix : TypeDesc
k_nav_sat_fix = rms_type "NavSatFix" msg_nav_sat_fix (
    rms_struct msg_nav_sat_fix "header" k_header (
      rms_struct msg_nav_sat_fix "status" k_nav_sat_status (
        rms_scalar msg_nav_sat_fix "latitude" f64 (
          rms_scalar msg_nav_sat_fix "longitude" f64 (
            rms_scalar msg_nav_sat_fix "altitude" f64 (
              rms_numarr msg_nav_sat_fix "position_covariance" f64
                (rms_scalar msg_nav_sat_fix "position_covariance_type" u8 (no_fields))))))))

abbrev pub k_magnetic_field : TypeDesc
k_magnetic_field = rms_type "MagneticField" msg_magnetic_field (
    rms_struct msg_magnetic_field "header" k_header (
      rms_struct msg_magnetic_field "magnetic_field" k_vector3
        (rms_numarr msg_magnetic_field "magnetic_field_covariance" f32 (no_fields))))

abbrev pub k_temperature : TypeDesc
k_temperature = rms_type "Temperature" msg_temperature (
    rms_struct msg_temperature "header" k_header (
      rms_scalar msg_temperature "temperature" f64
        (rms_scalar msg_temperature "variance" f64 (no_fields))))

abbrev pub k_range : TypeDesc
k_range = rms_type "Range" msg_range (
    rms_struct msg_range "header" k_header (
      rms_scalar msg_range "radiation_type" u8 (
        rms_scalar msg_range "field_of_view" f32 (
          rms_scalar msg_range "min_range" f32 (
            rms_scalar msg_range "max_range" f32 (rms_scalar msg_range "range" f32 (no_fields)))))))

abbrev pub k_region_of_interest : TypeDesc
k_region_of_interest = rms_type "RegionOfInterest" msg_region_of_interest (
    rms_scalar msg_region_of_interest "x_offset" u32 (
      rms_scalar msg_region_of_interest "y_offset" u32 (
        rms_scalar msg_region_of_interest "height" u32 (
          rms_scalar msg_region_of_interest "width" u32
            (rms_scalar msg_region_of_interest "do_rectify" u8 (no_fields))))))

abbrev pub k_camera_info : TypeDesc
k_camera_info = rms_type "CameraInfo" msg_camera_info (
    rms_struct msg_camera_info "header" k_header (
      rms_scalar msg_camera_info "height" u32 (
        rms_scalar msg_camera_info "width" u32 (
          rms_str msg_camera_info "distortion_model" (
            rms_scalar msg_camera_info "d_count" u32 (
              rms_numarr msg_camera_info "D" f64 (
                rms_numarr msg_camera_info "K" f64 (
                  rms_numarr msg_camera_info "R" f64 (
                    rms_numarr msg_camera_info "P" f64 (
                      rms_scalar msg_camera_info "binning_x" u32 (
                        rms_scalar msg_camera_info "binning_y" u32 (
                          rms_struct msg_camera_info "roi" k_region_of_interest
                            (no_fields)))))))))))))

abbrev pub k_point_field : TypeDesc
k_point_field = rms_type "PointField" msg_point_field (
    rms_str msg_point_field "name" (
      rms_scalar msg_point_field "offset" u32 (
        rms_scalar msg_point_field "datatype" u8
          (rms_scalar msg_point_field "count" u32 (no_fields)))))

abbrev pub k_point_cloud2 : TypeDesc
k_point_cloud2 = rms_type "PointCloud2" msg_point_cloud2 (
    rms_struct msg_point_cloud2 "header" k_header (
      rms_scalar msg_point_cloud2 "height" u32 (
        rms_scalar msg_point_cloud2 "width" u32 (
          rms_scalar msg_point_cloud2 "fields_count" u32 (
            rms_structarr msg_point_cloud2 "fields" k_point_field (
              rms_scalar msg_point_cloud2 "is_bigendian" u8 (
                rms_scalar msg_point_cloud2 "point_step" u32 (
                  rms_scalar msg_point_cloud2 "row_step" u32 (
                    rms_scalar msg_point_cloud2 "data_len" u32 (
                      rms_numarr msg_point_cloud2 "data" u8
                        (rms_scalar msg_point_cloud2 "is_dense" u8 (no_fields))))))))))))

abbrev pub k_laser_scan : TypeDesc
k_laser_scan = rms_type "LaserScan" msg_laser_scan (
    rms_struct msg_laser_scan "header" k_header (
      rms_scalar msg_laser_scan "angle_min" f32 (
        rms_scalar msg_laser_scan "angle_max" f32 (
          rms_scalar msg_laser_scan "angle_increment" f32 (
            rms_scalar msg_laser_scan "time_increment" f32 (
              rms_scalar msg_laser_scan "scan_time" f32 (
                rms_scalar msg_laser_scan "range_min" f32 (
                  rms_scalar msg_laser_scan "range_max" f32 (
                    rms_scalar msg_laser_scan "ranges_count" u32 (
                      rms_numarr msg_laser_scan "ranges" f32 (
                        rms_scalar msg_laser_scan "intensities_count" u32
                          (rms_numarr msg_laser_scan "intensities" f32 (no_fields)))))))))))))

abbrev pub k_joint_state : TypeDesc
k_joint_state = rms_type "JointState" msg_joint_state (
    rms_struct msg_joint_state "header" k_header (
      rms_scalar msg_joint_state "count" u32 (
        rms_strarr msg_joint_state "name" (
          rms_numarr msg_joint_state "position" f64 (
            rms_numarr msg_joint_state "velocity" f64
              (rms_numarr msg_joint_state "effort" f64 (no_fields)))))))
