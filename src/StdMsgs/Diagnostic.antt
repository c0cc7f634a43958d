-- ===== src/StdMsgs/Diagnostic.antt =====
-- The structs of diagnostic_msgs, of cpp/include/relink/standard_msgs.hpp.
use relink_com.Base.{ℕ, [], ◌∷◌}
use relink_com.StdMsgs.{Struct, sizeof, one, array}
use relink_com.StdMsgs.Std.{msg_header, string_max_len}

abbrev pub kv_max_len : ℕ
kv_max_len = 32

abbrev pub msg_key_value : Struct
msg_key_value = array "key" 1 kv_max_len ∷ array "value" 1 kv_max_len ∷ []

abbrev pub max_key_values : ℕ
max_key_values = 3

abbrev pub msg_diagnostic_status : Struct
msg_diagnostic_status =
    one "level" 1
    ∷ array "name" 1 string_max_len
    ∷ array "message" 1 string_max_len
    ∷ array "hardware_id" 1 string_max_len
    ∷ one "values_count" 4
    ∷ array "values" (sizeof msg_key_value) max_key_values
    ∷ []

abbrev pub max_diagnostic_statuses : ℕ
max_diagnostic_statuses = 3

abbrev pub msg_diagnostic_array : Struct
msg_diagnostic_array =
    one "header" (sizeof msg_header)
    ∷ one "status_count" 4
    ∷ array "status" (sizeof msg_diagnostic_status) max_diagnostic_statuses
    ∷ []
