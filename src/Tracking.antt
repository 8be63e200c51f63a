-- ===== src/Tracking.antt =====
-- How the agent, the D-Bus service and the D-Bus client of another process work together
-- (internal/agent/agent.go, internal/dbusapi/service.go, pkg/client/client.go).
pub mod Fields
pub mod Follow
pub mod Properties
pub mod Shown
pub mod Query
pub mod Gaps
pub mod Joining
pub mod Reader
pub mod EndToEnd
pub mod Displayed
pub mod Configured
pub mod Histories
pub mod Relogin
pub mod Command
pub mod Typed
use fw_id_agent.Prelude.{ℕ, ℤ, String, ◌≡◌, List, [], ◌∷◌, ◌++◌, map}
use fw_id_agent.Config.{Tnd}
use fw_id_agent.Status.{Status, copy}
use fw_id_agent.Dbusapi.{Value, text, uint32, int64, path, interface}
use fw_id_agent.Dbusapi.Service.{Update}
use fw_id_agent.Agent.State.{Effect, set_property}
use fw_id_agent.DbusClient.Update.{Try, got, failed, Bus, name_of, apply, decode}
use fw_id_agent.DbusClient.Signal.{Signal, text_item, map_item, names_item}

-- A value is stored as what it was when it was sent: a string, a uint32 or an int64, each as itself.
pub record Carries {C : Type 0} (B : Bus C) : Type 0 where
  pub variant : Value → B.Variant
  pub carries_string : (s : String) → B.store_string (variant (text s)) ≡ got s
  pub carries_uint32 : (n : ℕ) → B.store_uint32 (variant (uint32 n)) ≡ got n
  pub carries_int64 : (z : ℤ) → B.store_int64 (variant (int64 z)) ≡ got z

-- The property updates among the effects of the agent, oldest first.
abbrev pub updates_of : List Effect → List Update
updates_of [] = []
updates_of (set_property p v ∷ es) = updates_of es ++ (record { name = p; value = v } ∷ [])
updates_of (e ∷ es) = updates_of es

module _ (T : Tnd) (B : Bus T.Conf) (w : Carries B) where
  open B use {Variant}

  -- The signal that `SetMust` emits for a property that is exported with `EmitTrue`: the interface,
  -- the property with its value, and no invalidated property.
  abbrev pub signal_of : Update → Signal Variant
  signal_of u =
      let ps = (u.name, w.variant u.value) ∷ [] in
      record {
        path = path;
        name = "org.freedesktop.DBus.Properties.PropertiesChanged";
        body = text_item interface ∷ map_item ps ps ∷ names_item [] ∷ [];
      }

  -- The status of a client behind one such signal, and behind several.
  unfoldable pub see : Status T.Conf → Update → Status T.Conf
  see s u = elim (decode B (name_of u.name) (w.variant u.value)) [
    | failed e ↦ s
    | got c ↦ copy T (apply c (copy T s))
  ]

  unfoldable pub see_all : Status T.Conf → List Update → Status T.Conf
  see_all s [] = s
  see_all s (u ∷ us) = see_all (see s u) us
