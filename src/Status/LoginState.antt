-- ===== src/Status/LoginState.antt =====
-- pkg/status/status.go: the constants and methods of `LoginState`.
use fw_id_agent.Prelude.{ℕ, String, Bool, ◌==◌, if◌then◌else◌}

abbrev pub unknown : ℕ
unknown = 0

abbrev pub logged_out : ℕ
logged_out = 1

abbrev pub logging_in : ℕ
logging_in = 2

abbrev pub logged_in : ℕ
logged_in = 3

abbrev pub logging_out : ℕ
logging_out = 4

-- `LoginState.LoggedIn`
abbrev pub is_logged_in : ℕ → Bool
is_logged_in l = l == logged_in

-- `LoginState.String`
pub to_string : ℕ → String
to_string l =
    if l == unknown
    then "unknown"
    else if l == logged_out
    then "logged out"
    else if l == logging_in
    then "logging in"
    else if l == logged_in
    then "logged in"
    else if l == logging_out
    then "logging out"
    else ""
