-- ===== src/DbusClient/Query.antt =====
-- pkg/client/client.go: `Query`.
use fw_id_agent.Prelude.{String, none, some, List}
use fw_id_agent.Status.{Status, new}
use fw_id_agent.DbusClient.Update.{Try, got, failed, Bus, update_status}

module _ {C : Type 0} (B : Bus C) where
  open B use {Variant}

  -- `Query`, over what `query` gets from the agent: an error or the properties, which the two rounds
  -- of the update visit in two orders.
  unfoldable pub query : Try (List (String × Variant) × List (String × Variant)) → Try (Status C)
  query (failed e) = failed e
  query (got (ps, qs)) =
      let (e, s) = update_status B ps qs new in elim e [ some m ↦ failed m | none ↦ got s ]
