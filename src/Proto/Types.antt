-- ===== src/Proto/Types.antt =====
-- The generated names of `proto.CommandType` (internal/proto/teamx.pb.go), an open enum over int32,
-- and how the store writes and reads them (internal/server/store/command.go).
pub mod Names
use team_x.Base.{
  ℕ, zero, suc, ◌+◌, ◌/◌, ◌%◌, ◌≡◌, refl, Bool, true, false, List, [], ◌∷◌, ◌++◌, Text, codes,
  digits, text_eq, Option, none, some, if◌then◌else◌, ◌==◌, ℤ, pos, negsuc,
}

abbrev pub CommandType : Type 0
CommandType = ℤ

abbrev pub unspecified : CommandType
unspecified = pos 0

abbrev pub collect_now : CommandType
collect_now = pos 1

abbrev pub run_script : CommandType
run_script = pos 2

abbrev pub restart : CommandType
restart = pos 6

abbrev pub shutdown : CommandType
shutdown = pos 7

-- `CommandType_name`, in the order of its keys.
unfoldable pub known_name : ℕ → Option Text
known_name n =
    if n == 0
    then some (codes "COMMAND_TYPE_UNSPECIFIED")
    else if n == 1
    then some (codes "COMMAND_TYPE_COLLECT_NOW")
    else if n == 2
    then some (codes "COMMAND_TYPE_RUN_SCRIPT")
    else if n == 3
    then some (codes "COMMAND_TYPE_KILL_PROCESS")
    else if n == 4
    then some (codes "COMMAND_TYPE_UPDATE_CONFIG")
    else if n == 5
    then some (codes "COMMAND_TYPE_UPGRADE")
    else if n == 6
    then some (codes "COMMAND_TYPE_RESTART")
    else if n == 7
    then some (codes "COMMAND_TYPE_SHUTDOWN")
    else none

-- Ten digits are enough for an int32.
unfoldable pub decimal : ℤ → Text
decimal (pos n) = digits 10 n []
decimal (negsuc n) = b'-' ∷ digits 10 (n + 1) []

abbrev unknown_name : CommandType → Text
unknown_name t = codes "COMMAND_TYPE_UNSPECIFIED_" ++ decimal t

abbrev name_or : CommandType → Option Text → Text
name_or t (some name) = name
name_or t none = unknown_name t

unfoldable pub command_type_name : CommandType → Text
command_type_name (pos n) = name_or (pos n) (known_name n)
command_type_name (negsuc n) = unknown_name (negsuc n)

-- `CommandType_value`, or 0 for a name that is not there.
unfoldable pub command_type_value : Text → CommandType
command_type_value name =
    if text_eq name (codes "COMMAND_TYPE_UNSPECIFIED")
    then pos 0
    else if text_eq name (codes "COMMAND_TYPE_COLLECT_NOW")
    then pos 1
    else if text_eq name (codes "COMMAND_TYPE_RUN_SCRIPT")
    then pos 2
    else if text_eq name (codes "COMMAND_TYPE_KILL_PROCESS")
    then pos 3
    else if text_eq name (codes "COMMAND_TYPE_UPDATE_CONFIG")
    then pos 4
    else if text_eq name (codes "COMMAND_TYPE_UPGRADE")
    then pos 5
    else if text_eq name (codes "COMMAND_TYPE_RESTART")
    then pos 6
    else if text_eq name (codes "COMMAND_TYPE_SHUTDOWN")
    then pos 7
    else pos 0

minus_seven : command_type_name (negsuc 6) ≡ codes "COMMAND_TYPE_UNSPECIFIED_-7"
unfolding command_type_name decimal digits
minus_seven = refl
