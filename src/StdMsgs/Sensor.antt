-- ===== src/StdMsgs/Sensor.antt =====
-- The structs of sensor_msgs, of cpp/include/relink/standard_msgs.hpp.
use relink_com.Base.{ℕ, [], ◌∷◌}
use relink_com.StdMsgs.{Struct, sizeof, one, array}
use relink_com.StdMsgs.Geometry.{msg_quaternion, msg_vector3}
use relink_com.StdMsgs.Std.{msg_header, string_max_len}

abbrev pub msg_imu : Struct
msg_imu =
    one "header" (sizeof msg_header)
    ∷ one "orientation" (sizeof msg_quaternion)
    ∷ array "orientation_covariance" 4 9
    ∷ one "angular_velocity" (sizeof msg_vector3)
    ∷ array "angular_velocity_covariance" 4 9
    ∷ one "linear_acceleration" (sizeof msg_vector3)
    ∷ array "linear_acceleration_covariance" 4 9
    ∷ []

abbrev pub msg_nav_sat_status : Struct
msg_nav_sat_status = one "status" 1 ∷ one "service" 2 ∷ []

abbrev pub msg_nav_sat_fix : Struct
msg_nav_sat_fix =
    one "header" (sizeof msg_header)
    ∷ one "status" (sizeof msg_nav_sat_status)
    ∷ one "latitude" 8
    ∷ one "longitude" 8
    ∷ one "altitude" 8
    ∷ array "position_covariance" 8 9
    ∷ one "position_covariance_type" 1
    ∷ []

abbrev pub msg_magnetic_field : Struct
msg_magnetic_field =
    one "header" (sizeof msg_header)
    ∷ one "magnetic_field" (sizeof msg_vector3)
    ∷ array "magnetic_field_covariance" 4 9
    ∷ []

abbrev pub msg_temperature : Struct
msg_temperature = one "header" (sizeof msg_header) ∷ one "temperature" 8 ∷ one "variance" 8 ∷ []

abbrev pub msg_range : Struct
msg_range =
    one "header" (sizeof msg_header)
    ∷ one "radiation_type" 1
    ∷ one "field_of_view" 4
    ∷ one "min_range" 4
    ∷ one "max_range" 4
    ∷ one "range" 4
    ∷ []

abbrev pub msg_region_of_interest : Struct
msg_region_of_interest =
    one "x_offset" 4 ∷ one "y_offset" 4 ∷ one "height" 4 ∷ one "width" 4 ∷ one "do_rectify" 1 ∷ []

abbrev pub max_distortion_coeffs : ℕ
max_distortion_coeffs = 8

abbrev pub msg_camera_info : Struct
msg_camera_info =
    one "header" (sizeof msg_header)
    ∷ one "height" 4
    ∷ one "width" 4
    ∷ array "distortion_model" 1 string_max_len
    ∷ one "d_count" 4
    ∷ array "D" 8 max_distortion_coeffs
    ∷ array "K" 8 9
    ∷ array "R" 8 9
    ∷ array "P" 8 12
    ∷ one "binning_x" 4
    ∷ one "binning_y" 4
    ∷ one "roi" (sizeof msg_region_of_interest)
    ∷ []

abbrev pub msg_point_field : Struct
msg_point_field =
    array "name" 1 string_max_len ∷ one "offset" 4 ∷ one "datatype" 1 ∷ one "count" 4 ∷ []

abbrev pub max_point_fields : ℕ
max_point_fields = 4

abbrev pub max_point_cloud_bytes : ℕ
max_point_cloud_bytes = 900

abbrev pub msg_point_cloud2 : Struct
msg_point_cloud2 =
    one "header" (sizeof msg_header)
    ∷ one "height" 4
    ∷ one "width" 4
    ∷ one "fields_count" 4
    ∷ array "fields" (sizeof msg_point_field) max_point_fields
    ∷ one "is_bigendian" 1
    ∷ one "point_step" 4
    ∷ one "row_step" 4
    ∷ one "data_len" 4
    ∷ array "data" 1 max_point_cloud_bytes
    ∷ one "is_dense" 1
    ∷ []

abbrev pub max_laser_scan_points : ℕ
max_laser_scan_points = 120

abbrev pub msg_laser_scan : Struct
msg_laser_scan =
    one "header" (sizeof msg_header)
    ∷ one "angle_min" 4
    ∷ one "angle_max" 4
    ∷ one "angle_increment" 4
    ∷ one "time_increment" 4
    ∷ one "scan_time" 4
    ∷ one "range_min" 4
    ∷ one "range_max" 4
    ∷ one "ranges_count" 4
    ∷ array "ranges" 4 max_laser_scan_points
    ∷ one "intensities_count" 4
    ∷ array "intensities" 4 max_laser_scan_points
    ∷ []

abbrev pub max_joints : ℕ
max_joints = 8

abbrev pub msg_joint_state : Struct
msg_joint_state =
    one "header" (sizeof msg_header)
    ∷ one "count" 4
    ∷ array "name" string_max_len max_joints
    ∷ array "position" 8 max_joints
    ∷ array "velocity" 8 max_joints
    ∷ array "effort" 8 max_joints
    ∷ []
