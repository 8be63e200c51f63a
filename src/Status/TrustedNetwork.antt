-- ===== src/Status/TrustedNetwork.antt =====
-- pkg/status/status.go: the constants and methods of `TrustedNetwork`.
use fw_id_agent.Prelude.{ℕ, String, Bool, ◌==◌, if◌then◌else◌}

abbrev pub unknown : ℕ
unknown = 0

abbrev pub not_trusted : ℕ
not_trusted = 1

abbrev pub trusted : ℕ
trusted = 2

-- `TrustedNetwork.Trusted`
abbrev pub is_trusted : ℕ → Bool
is_trusted t = t == trusted

-- `TrustedNetwork.String`
pub to_string : ℕ → String
to_string t =
    if t == unknown
    then "unknown"
    else if t == not_trusted
    then "not trusted"
    else if t == trusted
    then "trusted"
    else ""
