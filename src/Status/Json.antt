-- ===== src/Status/Json.antt =====
-- pkg/status/status.go: `JSON`, `JSONIndent` and `NewFromJSON`, over encoding/json.
use fw_id_agent.Prelude.{String}
use fw_id_agent.Status.{Status, new}
use fw_id_agent.DbusClient.Update.{Try}

-- `json.Marshal` and `json.MarshalIndent` of a status, and `json.Unmarshal` into one.
pub record Json (C : Type 0) : Type 0 where
  pub marshal : Status C → Try String
  pub marshal_indent : Status C → Try String
  pub unmarshal : String → Status C → Try (Status C)

module _ {C : Type 0} (J : Json C) where
  -- `Status.JSON`
  abbrev pub json : Status C → Try String
  json s = J.marshal s

  -- `Status.JSONIndent`
  abbrev pub json_indent : Status C → Try String
  json_indent s = J.marshal_indent s

  -- `NewFromJSON`
  abbrev pub new_from_json : String → Try (Status C)
  new_from_json b = J.unmarshal b new
