-- ===== src/Tracking/Typed.antt =====
-- The types of the values that a D-Bus client stores.
use fw_id_agent.Prelude.{
  ◌≡◌, ◌⊎◌, inl, inr, refl, Option, none, List, [], ◌∷◌, ◌++◌, map, All, All-append, All-concat,
  arith,
}
use fw_id_agent.Config.{Tnd, Config}
use fw_id_agent.Status.{new}
use fw_id_agent.Krbmon.{Krb}
use fw_id_agent.Notify.{Notifier}
use fw_id_agent.Dbusapi.{Value, uint32, int64}
use fw_id_agent.Dbusapi.Service as Service
use fw_id_agent.Dbusapi.Service.{
  Update, Answers, start_updates, stop_updates, property_update, done, serve,
}
use fw_id_agent.Agent.State.{Agent, Effect, set_property}
use fw_id_agent.Agent.Loop.{Event, agent_of, run}
use fw_id_agent.Agent.Start.{Environment}
use fw_id_agent.Agent.Reach.{IsProper}
use fw_id_agent.Agent.Histories.{Starts}
use fw_id_agent.Agent.Typed.{HasType, AllTyped, run-IsTyped}
use fw_id_agent.DbusClient.Update.{
  got, Bus, Name, config, trusted_network, login_state, last_keep_alive, tgt_start, tgt_end,
  name_of, Change, decode,
}
use fw_id_agent.Tracking.{Carries, updates_of}
use fw_id_agent.Tracking.Fields.{decode-Fits}
use fw_id_agent.Tracking.Histories.{serve_updates_done, start_updates_lem}

module _ (T : Tnd) (B : Bus T.Conf) (w : Carries B) where
  -- The update is of the type of its property, and a client can decode it; only the JSON of a
  -- configuration may be refused.
  abbrev pub Decodes : Update → Type 0
  Decodes u =
      HasType (name_of u.name) u.value
      × (((c : Change T.Conf) × (decode B (name_of u.name) (w.variant u.value) ≡ got c))
          ⊎ (name_of u.name ≡ config))

  typed_decode :
      (q : Name) (v : Value)
      → HasType q v
      → ((c : Change T.Conf) × (decode B q (w.variant v) ≡ got c)) ⊎ (q ≡ config)
  typed_decode config v h = inr refl
  typed_decode trusted_network (uint32 n) h =
      let (c, e, _) = decode-Fits T B w trusted_network (uint32 n) new tt in inl (c, e)
  typed_decode login_state (uint32 n) h =
      let (c, e, _) = decode-Fits T B w login_state (uint32 n) new tt in inl (c, e)
  typed_decode last_keep_alive (int64 z) h =
      let (c, e, _) = decode-Fits T B w last_keep_alive (int64 z) new tt in inl (c, e)
  typed_decode tgt_start (int64 z) h =
      let (c, e, _) = decode-Fits T B w tgt_start (int64 z) new tt in inl (c, e)
  typed_decode tgt_end (int64 z) h =
      let (c, e, _) = decode-Fits T B w tgt_end (int64 z) new tt in inl (c, e)
  typed_decode _ _ h = absurd h

  Typed-Decodes : (u : Update) → HasType (name_of u.name) u.value → Decodes u
  Typed-Decodes u h = (h, typed_decode (name_of u.name) u.value h)

  updates_of-Decodes : (es : List Effect) → AllTyped es → All Decodes (updates_of es)
  updates_of-Decodes [] h = tt
  updates_of-Decodes (set_property p v ∷ es) h =
      All-append Decodes (updates_of es) _ (updates_of-Decodes es h.1)
        (Typed-Decodes (record { name = p; value = v }) h.0)
  updates_of-Decodes (e ∷ es) h = updates_of-Decodes es h

  All-Decodes : (us : List Update) → All (λ u. HasType (name_of u.name) u.value) us → All Decodes us
  All-Decodes [] h = tt
  All-Decodes (u ∷ us) h = (Typed-Decodes u h.0, All-Decodes us h.1)

  start-Decodes : All Decodes start_updates
  start-Decodes = All-Decodes start_updates (ground arith)

  stop-Decodes : All Decodes stop_updates
  stop-Decodes = All-Decodes stop_updates (ground arith)

  -- Every property that is ever set has a value of the type with which it is exported: by the service
  -- at its start, by an agent that has started with no error and taken any events without empty
  -- updates, be it that its loop still runs or that it has returned, with what the agent has set on
  -- its way out, and by the service when it is stopped. A D-Bus client can decode the value, unless it
  -- is the text of a configuration, which may be no JSON.
  pub served_types :
      {K : Krb} (env : Environment T.Conf) (conf : Config T.Conf) (n : Option Notifier)
      (a : Agent K T.Conf)
      → Starts env conf n a
      → (es : List (Event K)) → All IsProper es
      → (ws : Answers) → (Service.start ws).0 ≡ none
      → All Decodes (
          (Service.start ws).1
          ++ serve (map property_update (updates_of (agent_of (run a es)).trace) ++ (done ∷ [])))
  served_types env conf n a ok es proper ws started =
      let set = updates_of (agent_of (run a es)).trace in
      let typed : AllTyped (agent_of (run a es)).trace = run-IsTyped env conf n a ok es proper in
      rw (start_updates_lem ws started, serve_updates_done set)
        (All-concat Decodes start_updates (set ++ stop_updates) start-Decodes (
          All-concat Decodes set stop_updates (updates_of-Decodes (agent_of (run a es)).trace typed)
            stop-Decodes))
