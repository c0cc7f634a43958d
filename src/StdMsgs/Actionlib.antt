-- ===== src/StdMsgs/Actionlib.antt =====
-- The structs of actionlib_msgs, of cpp/include/relink/standard_msgs.hpp.
use relink_com.Base.{ℕ, [], ◌∷◌}
use relink_com.StdMsgs.{Struct, sizeof, one, array}
use relink_com.StdMsgs.Std.{msg_header, msg_time, string_max_len}

abbrev pub msg_goal_id : Struct
msg_goal_id = one "stamp" (sizeof msg_time) ∷ array "id" 1 string_max_len ∷ []

abbrev pub msg_goal_status : Struct
msg_goal_status =
    one "goal_id" (sizeof msg_goal_id) ∷ one "status" 1 ∷ array "text" 1 string_max_len ∷ []

abbrev pub max_goal_statuses : ℕ
max_goal_statuses = 8

abbrev pub msg_goal_status_array : Struct
msg_goal_status_array =
    one "header" (sizeof msg_header)
    ∷ one "status_list_count" 4
    ∷ array "status_list" (sizeof msg_goal_status) max_goal_statuses
    ∷ []
