-- ===== src/Name.antt =====
-- FName and the paths of slots, as far as the plugin's code relies on them.
use save_extension.Base.{String, Bool, ◌==◌, string_eq, if◌then◌else◌}

-- FName. The name "None" is the empty name; upper and lower case are told apart here.
abbrev pub Name : Type 0
Name = String

abbrev pub name_none : Name
name_none = "None"

abbrev pub is_none : Name → Bool
is_none n = n == "None"

-- FName{FString}: the empty text gives the empty name.
abbrev pub to_name : String → Name
to_name s = if s == "" then "None" else s
