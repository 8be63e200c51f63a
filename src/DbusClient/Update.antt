-- ===== src/DbusClient/Update.antt =====
-- pkg/client/client.go: `updateStatusFromProperties`.
pub mod Atomic
pub mod Order
use fw_id_agent.Prelude.{ℕ, ℤ, String, str_eq, Option, none, some, List, [], ◌∷◌, if◌then◌else◌}
use fw_id_agent.Config.{Config}
use fw_id_agent.Status.{Status, KerberosTicket, new}
use fw_id_agent.Dbusapi.Property
use fw_id_agent.Dbusapi.{config_invalid}

-- A value or an error of a library.
pub data Try (A : Type 0) : Type 0 where
  got : A → Try A
  failed : String → Try A

-- What the source uses of the D-Bus and JSON libraries: `Variant.Store` into a string, a uint32 and
-- an int64, which leaves its target alone when it fails and never reads it, and
-- `config.NewFromJSON`, which parses into a configuration of its own.
pub record Bus (C : Type 0) : Type 1 where
  pub Variant : Type 0
  pub store_string : Variant → Try String
  pub store_uint32 : Variant → Try ℕ
  pub store_int64 : Variant → Try ℤ
  pub config_from_json : String → Try (Config C)

-- The cases of the `switch` on the name of a property.
pub data Name : Type 0 where
  config trusted_network login_state last_keep_alive tgt_start tgt_end other : Name

abbrev pub name_of : String → Name
name_of k =
    if str_eq k Property.config
    then config
    else if str_eq k Property.trusted_network
    then trusted_network
    else if str_eq k Property.login_state
    then login_state
    else if str_eq k Property.last_keep_alive_at
    then last_keep_alive
    else if str_eq k Property.kerberos_tgt_start_time
    then tgt_start
    else if str_eq k Property.kerberos_tgt_end_time
    then tgt_end
    else other

-- The assignment that a case makes.
pub data Change (C : Type 0) : Type 0 where
  set_config : Option (Config C) → Change C
  set_trusted_network set_login_state : ℕ → Change C
  set_last_keep_alive set_tgt_start set_tgt_end : ℤ → Change C
  nothing : Change C

abbrev pub apply : {C : Type 0} → Change C → Status C → Status C
apply (set_config c) s = record s { config = c }
apply (set_trusted_network t) s = record s { trusted_network = t }
apply (set_login_state l) s = record s { login_state = l }
apply (set_last_keep_alive t) s = record s { last_keep_alive = t }
apply (set_tgt_start t) s = record s {
  kerberos_tgt = record { start_time = t; end_time = s.kerberos_tgt.end_time };
}
apply (set_tgt_end t) s = record s {
  kerberos_tgt = record { start_time = s.kerberos_tgt.start_time; end_time = t };
}
apply nothing s = s

abbrev pub map_try : {A B : Type 0} → (A → B) → Try A → Try B
map_try f (got a) = got (f a)
map_try f (failed e) = failed e

module _ {C : Type 0} (B : Bus C) where
  open B use {Variant, store_string, store_uint32, store_int64, config_from_json}

  -- The case of the configuration, behind the `Store`.
  unfoldable pub decode_config : String → Try (Change C)
  decode_config s =
      if str_eq s config_invalid
      then got (set_config none)
      else map_try (λ c. set_config (some c)) (config_from_json s)

  decode_text : Try String → Try (Change C)
  unfolding decode_config
  decode_text (got s) = decode_config s
  decode_text (failed e) = failed e

  -- What a case of the `switch` assigns, or the error with which the function returns.
  unfoldable pub decode : Name → Variant → Try (Change C)
  unfolding decode_text
  decode config v = decode_text (store_string v)
  decode trusted_network v = map_try set_trusted_network (store_uint32 v)
  decode login_state v = map_try set_login_state (store_uint32 v)
  decode last_keep_alive v = map_try set_last_keep_alive (store_int64 v)
  decode tgt_start v = map_try set_tgt_start (store_int64 v)
  decode tgt_end v = map_try set_tgt_end (store_int64 v)
  decode other v = got nothing

  -- The inner loop over the properties in some order: the error, if any, and `dest`.
  unfoldable pub apply_all : List (String × Variant) → Status C → Option String × Status C
  apply_all [] dest = (none, dest)
  apply_all ((k, v) ∷ ps) dest = elim (decode (name_of k) v) [
    | failed e ↦ (some e, dest)
    | got c ↦ apply_all ps (apply c dest)
  ]

  -- `updateStatusFromProperties`. A Go map is visited in an order of its own in each round, so the
  -- properties come twice: `ps` for the temporary status, `qs` for the real one.
  unfoldable pub update_status :
      List (String × Variant) → List (String × Variant) → Status C → Option String × Status C
  update_status ps qs s = elim (apply_all ps new).0 [ some e ↦ (some e, s) | none ↦ apply_all qs s ]
