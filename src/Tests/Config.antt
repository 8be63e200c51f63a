-- ===== src/Tests/Config.antt =====
-- The configuration at concrete values.
use fw_id_agent.Prelude.{◌≡◌, ◌↔◌, refl, true, false, some, [], arith}
use fw_id_agent.Config.{valid}
use fw_id_agent.Config.Validity.{IsValid, valid_iff}
use fw_id_agent.Config.Durations.{AreExact, durations_exact}
use fw_id_agent.Tests.Data.{tnd, settings}

settings_valid : valid tnd (some settings) ≡ true
unfolding valid
settings_valid = refl

no_server :
    valid tnd (some (record settings { tnd = record { https_servers = []; config = some true } }))
    ≡ false
unfolding valid
no_server = refl

valid_iff_example : (valid tnd (some settings) ≡ true) ↔ IsValid tnd settings
valid_iff_example = valid_iff tnd settings

durations_exact_example : AreExact settings 5 15 5 15 0
durations_exact_example =
    durations_exact settings 5 15 5 15 0 refl refl refl refl refl (omega arith) (omega arith)
      (omega arith) (omega arith) (omega arith)
