-- ===== src/Tracking/Gaps.antt =====
-- `Subscribe` of pkg/client/client.go next to the agent, which goes on between its calls.
use fw_id_agent.Prelude.{Bool, true, false, Option, none, some, List, [], ◌∷◌, ◌++◌, if◌then◌else◌}
use fw_id_agent.Dbusapi.Service.{Update}
use fw_id_agent.Agent.State.{Effect}
use fw_id_agent.DbusClient.Subscription.{Call, query_all, add_match, register}
use fw_id_agent.Tracking.{updates_of}

-- The effects of the agent that the answer to `Query` tells, if there is an answer, whether the bus
-- routes the signals to the client and the connection passes them to its channel, and the updates that
-- have come as signals, oldest first.
pub record Seen : Type 0 where
  pub asked : Option (List Effect)
  pub matched : Bool
  pub registered : Bool
  pub signals : List Update

abbrev pub unseen : Seen
unseen = record { asked = none; matched = false; registered = false; signals = [] }

-- A call, when the agent has made these effects.
abbrev pub make : Call → List Effect → Seen → Seen
make query_all past d = record d { asked = some past }
make add_match past d = record d { matched = true }
make register past d = record d { registered = true }

-- The agent makes effects.
abbrev pub meanwhile : List Effect → Seen → Seen
meanwhile es d =
    if d.matched
    then if d.registered then record d { signals = d.signals ++ updates_of es } else d
    else d

-- The calls one after another, each with the effects that the agent makes between it and the next.
-- What the agent has done at the end comes first.
unfoldable pub join : List Call → List (List Effect) → List Effect → Seen → List Effect × Seen
join (c ∷ cs) (es ∷ gaps) past d = join cs gaps (es ++ past) (meanwhile es (make c past d))
join _ _ past d = (past, d)
