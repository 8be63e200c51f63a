-- ===== src/DbusTool.antt =====
-- tools/dbusclient/main.go: an example program that follows the D-Bus properties of the agent. What
-- it prints are the values that it holds.
pub mod Agreement
pub mod Following
use fw_id_agent.Prelude.{ℕ, ℤ, String, str_eq, not, ◌||◌, List, [], ◌∷◌, if◌then◌else◌}
use fw_id_agent.Status.TrustedNetwork
use fw_id_agent.Status.LoginState
use fw_id_agent.Dbusapi.{
  path, interface, config_invalid, last_keep_alive_at_invalid, kerberos_tgt_start_time_invalid,
  kerberos_tgt_end_time_invalid,
}
use fw_id_agent.DbusClient.Update.{
  Try, got, failed, map_try, Bus, Name, config, trusted_network, login_state, last_keep_alive,
  tgt_start, tgt_end, other, name_of,
}
use fw_id_agent.DbusClient.Signal.{Item, text_item, map_item, names_item, other_item, Signal}

-- The local variables.
pub record Values : Type 0 where
  pub config : String
  pub trusted_network : ℕ
  pub login_state : ℕ
  pub last_keep_alive_at : ℤ
  pub kerberos_tgt_start_time : ℤ
  pub kerberos_tgt_end_time : ℤ

abbrev pub invalid : Values
invalid = record {
  config = config_invalid;
  trusted_network = TrustedNetwork.unknown;
  login_state = LoginState.unknown;
  last_keep_alive_at = last_keep_alive_at_invalid;
  kerberos_tgt_start_time = kerberos_tgt_start_time_invalid;
  kerberos_tgt_end_time = kerberos_tgt_end_time_invalid;
}

-- The case of the `switch` on the name of an invalidated property.
abbrev pub reset : Name → Values → Values
reset config v = record v { config = config_invalid }
reset trusted_network v = record v { trusted_network = TrustedNetwork.unknown }
reset login_state v = record v { login_state = LoginState.unknown }
reset last_keep_alive v = record v { last_keep_alive_at = last_keep_alive_at_invalid }
reset tgt_start v = record v { kerberos_tgt_start_time = kerberos_tgt_start_time_invalid }
reset tgt_end v = record v { kerberos_tgt_end_time = kerberos_tgt_end_time_invalid }
reset other v = v

unfoldable pub reset_all : List String → Values → Values
reset_all [] v = v
reset_all (k ∷ ks) v = reset_all ks (reset (name_of k) v)

-- The program goes on with these values, exits with an error, or panics.
pub data Tool : Type 0 where
  holds : Values → Tool
  exited : String → Tool
  crashed : Tool

module _ {C : Type 0} (B : Bus C) where
  open B use {Variant, store_string, store_uint32, store_int64}

  -- `value.Store`, by the name of the property.
  abbrev pub store : Name → Variant → Values → Try Values
  store config x v = map_try (λ s. record v { config = s }) (store_string x)
  store trusted_network x v = map_try (λ n. record v { trusted_network = n }) (store_uint32 x)
  store login_state x v = map_try (λ n. record v { login_state = n }) (store_uint32 x)
  store last_keep_alive x v = map_try (λ z. record v { last_keep_alive_at = z }) (store_int64 x)
  store tgt_start x v = map_try (λ z. record v { kerberos_tgt_start_time = z }) (store_int64 x)
  store tgt_end x v = map_try (λ z. record v { kerberos_tgt_end_time = z }) (store_int64 x)
  store other x v = got v

  -- The loop over the changed properties, in the order in which it visits them.
  unfoldable pub store_all : List (String × Variant) → Values → Try Values
  store_all [] v = got v
  store_all ((k, x) ∷ ps) v = elim (store (name_of k) x v) [
    | failed e ↦ failed e
    | got u ↦ store_all ps u
  ]

  -- `getProperty`, with the answer of the D-Bus library.
  abbrev pub get_property : Name → (Name → Try Variant) → Try Values → Try Values
  get_property q answer (failed e) = failed e
  get_property q answer (got v) = elim (answer q) [ failed e ↦ failed e | got x ↦ store q x v ]

  -- The initial values.
  unfoldable pub get_properties : (Name → Try Variant) → Try Values
  get_properties answer = get_property tgt_end answer (
      get_property tgt_start answer (
        get_property last_keep_alive answer (
          get_property login_state answer
            (get_property trusted_network answer (get_property config answer (got invalid))))))

  -- `s.Body[2]`; a value of another type is logged, and the loop over the names has none.
  abbrev pub end_signal : List (Item Variant) → Values → Tool
  end_signal [] v = crashed
  end_signal (names_item ks ∷ _) v = holds (reset_all ks v)
  end_signal (_ ∷ _) v = holds v

  abbrev pub stored : Try Values → List (Item Variant) → Tool
  stored (failed e) rest = exited e
  stored (got u) rest = end_signal rest u

  -- `s.Body[1]`; the program has one loop over the map, which visits it in the first order of the
  -- program's own signal.
  unfoldable pub change_values : List (Item Variant) → Values → Tool
  change_values [] v = crashed
  change_values (map_item ps qs ∷ rest) v = stored (store_all ps v) rest
  change_values (_ ∷ _) v = holds v

  -- `s.Body[0]`
  unfoldable pub check_interface : List (Item Variant) → Values → Tool
  check_interface [] v = crashed
  check_interface (text_item t ∷ rest) v =
      if not (str_eq t interface) then holds v else change_values rest v
  check_interface (_ ∷ _) v = holds v

  -- A round of the loop over the signals.
  unfoldable pub visit_signal : Signal Variant → Values → Tool
  visit_signal s v =
      if not (str_eq s.path path)
        || not (str_eq s.name "org.freedesktop.DBus.Properties.PropertiesChanged")
      then holds v
      else check_interface s.body v

  -- The loop, over the signals that come.
  unfoldable pub follow_signals : List (Signal Variant) → Values → Tool
  follow_signals [] v = holds v
  follow_signals (s ∷ ss) v = elim (visit_signal s v) [
    | crashed ↦ crashed
    | exited e ↦ exited e
    | holds u ↦ follow_signals ss u
  ]
