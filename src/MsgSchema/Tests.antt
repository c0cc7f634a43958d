-- ===== src/MsgSchema/Tests.antt =====
-- A duration is found and printed.
use relink_com.Base.{ℕ, ◌≡◌, ◌≤◌, refl, true, some, List, [], ◌∷◌, length}
use relink_com.Frame.{max_payload_bytes}
use relink_com.StdMsgs.{sizeof, offset_of, member_size}
use relink_com.MsgSchema.{
  type_name, type_size, rms_type, rms_scalar, num_size, read, le_value, digits, decimal, signed,
  label, newline_unless_last, then_rest, to_string, number_text, assigned, format_message, codes,
}
use relink_com.MsgSchema.Std.{k_duration}
use relink_com.MsgSchema.Registry.{named_in, find_type_by_name}
use relink_com.MsgSchema.Layout.{tiles, find_type_by_name_layout}
use relink_com.MsgSchema.Printing.{Printed, format_message-find_type}

-- -1 seconds and 7 nanoseconds
abbrev duration : List ℕ
duration = 255 ∷ 255 ∷ 255 ∷ 255 ∷ 7 ∷ 0 ∷ 0 ∷ 0 ∷ []

duration_printed :
    format_message (λ bytes. bytes) duration k_duration 0 0 ≡ some (codes "  sec = -1\n  nsec = 7")
unfolding format_message then_rest assigned number_text to_string signed decimal digits le_value
    read label newline_unless_last rms_type rms_scalar num_size sizeof offset_of member_size
duration_printed = refl

duration_found : find_type_by_name "Duration" ≡ some k_duration
unfolding find_type_by_name named_in type_name rms_type
duration_found = refl

duration_size : length duration ≡ type_size k_duration
unfolding type_size rms_type sizeof member_size
duration_size = refl

format_message-find_type_example : Printed (format_message (λ bytes. bytes) duration k_duration 0 0)
format_message-find_type_example =
    format_message-find_type (λ bytes. bytes) "Duration" k_duration duration 0 duration_found
      duration_size

find_type_by_name_layout_example :
    (type_name k_duration ≡ "Duration")
    × ((tiles k_duration ≡ true) × (type_size k_duration ≤ max_payload_bytes))
find_type_by_name_layout_example = find_type_by_name_layout "Duration" k_duration duration_found
