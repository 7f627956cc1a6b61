-- ===== src/Auth/Roles.antt =====
-- The roles of app/auth/roles.py.
use kvarteret_personal.Prelude.{Option, none, some, String, str_eq, if◌then◌else◌}

pub data UserRole : Type 0 where
  admin group_admin volunteer viewer : UserRole

-- The value of the enumeration.
abbrev pub role_value : UserRole → String
role_value admin = "Admin"
role_value group_admin = "Gruppeadmin"
role_value volunteer = "Frivillig"
role_value viewer = "Tilskuer"

-- `UserRole(role_name)`; `none` is the ValueError.
abbrev pub to_role : String → Option UserRole
to_role name =
    if str_eq name "Admin"
    then some admin
    else if str_eq name "Gruppeadmin"
    then some group_admin
    else if str_eq name "Frivillig"
    then some volunteer
    else if str_eq name "Tilskuer"
    then some viewer
    else none
