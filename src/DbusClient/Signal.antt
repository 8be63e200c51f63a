-- ===== src/DbusClient/Signal.antt =====
-- pkg/client/client.go: `handlePropertiesChanged` and the goroutine of `Subscribe`.
pub mod Following
use fw_id_agent.Prelude.{
  ℕ, ℤ, String, str_eq, Bool, not, ◌||◌, Option, none, some, List, [], ◌∷◌, ◌++◌, if◌then◌else◌,
}
use fw_id_agent.Config.{Tnd}
use fw_id_agent.Status.TrustedNetwork
use fw_id_agent.Status.LoginState
use fw_id_agent.Status.{Status, copy}
use fw_id_agent.Dbusapi.{
  path, interface, last_keep_alive_at_invalid, kerberos_tgt_start_time_invalid,
  kerberos_tgt_end_time_invalid,
}
use fw_id_agent.DbusClient.Update.{
  Bus, Name, config, trusted_network, login_state, last_keep_alive, tgt_start, tgt_end, other,
  name_of, Change, set_config, set_trusted_network, set_login_state, set_last_keep_alive,
  set_tgt_start, set_tgt_end, nothing, apply, update_status,
}

-- A value in the body of a signal, by the types that the source asks for. A map comes with the two
-- orders in which the update visits it.
pub data Item (V : Type 0) : Type 0 where
  text_item : String → Item V
  map_item : List (String × V) → List (String × V) → Item V
  names_item : List String → Item V
  other_item : Item V

-- `dbus.Signal`
pub record Signal (V : Type 0) : Type 0 where
  pub path : String
  pub name : String
  pub body : List (Item V)

-- What `handlePropertiesChanged` does: it panics on an index out of range, returns nil, or returns
-- the new status.
pub data Handled (C : Type 0) : Type 0 where
  panicked : Handled C
  ignored : Handled C
  updated : Status C → Handled C

-- The `switch` on the name of an invalidated property.
abbrev pub invalidation : {C : Type 0} → Name → Change C
invalidation config = set_config none
invalidation trusted_network = set_trusted_network TrustedNetwork.unknown
invalidation login_state = set_login_state LoginState.unknown
invalidation last_keep_alive = set_last_keep_alive last_keep_alive_at_invalid
invalidation tgt_start = set_tgt_start kerberos_tgt_start_time_invalid
invalidation tgt_end = set_tgt_end kerberos_tgt_end_time_invalid
invalidation other = nothing

module _ {C : Type 0} where
  -- The loop over the invalidated properties.
  unfoldable pub invalidate : List String → Status C → Status C
  invalidate [] s = s
  invalidate (k ∷ ks) s = invalidate ks (apply (invalidation (name_of k)) s)

module _ {C : Type 0} (B : Bus C) where
  open B use {Variant}

  -- `s.Body[2]`, behind the update of the status.
  invalidated : List (Item Variant) → Status C → Handled C
  unfolding invalidate
  invalidated [] s = panicked
  invalidated (names_item ks ∷ _) s = updated (invalidate ks s)
  invalidated (_ ∷ _) s = ignored

  -- `s.Body[1]`
  changed : List (Item Variant) → Status C → Handled C
  unfolding invalidated
  changed [] s = panicked
  changed (map_item ps qs ∷ rest) s =
      let (e, s') = update_status B ps qs s in
      elim e [ some _ ↦ ignored | none ↦ invalidated rest s' ]
  changed (_ ∷ _) s = ignored

  -- `s.Body[0]`
  addressed : List (Item Variant) → Status C → Handled C
  unfolding changed
  addressed [] s = panicked
  addressed (text_item v ∷ rest) s = if not (str_eq v interface) then ignored else changed rest s
  addressed (_ ∷ _) s = ignored

  -- `handlePropertiesChanged`
  unfoldable pub handle_properties_changed : Signal Variant → Status C → Handled C
  unfolding addressed
  handle_properties_changed s stat =
      if not (str_eq s.path path)
        || not (str_eq s.name "org.freedesktop.DBus.Properties.PropertiesChanged")
      then ignored
      else addressed s.body stat

-- What the goroutine of `Subscribe` has sent when it has read all signals, oldest first, with its
-- current status, or the panic that ends the program.
pub data Followed (C : Type 0) : Type 0 where
  follows : List (Status C) → Status C → Followed C
  crashed : List (Status C) → Followed C

module _ (T : Tnd) (B : Bus T.Conf) where
  open B use {Variant}

  -- The loop over the signals, with what was sent before.
  unfoldable pub follow :
      List (Signal Variant) → List (Status T.Conf) → Status T.Conf → Followed T.Conf
  follow [] sent status = follows sent status
  follow (s ∷ ss) sent status = elim (handle_properties_changed B s (copy T status)) [
    | panicked ↦ crashed sent
    | ignored ↦ follow ss sent status
    | updated u ↦ follow ss (sent ++ (u ∷ [])) (copy T u)
  ]

  -- The goroutine: it sends the initial status first.
  unfoldable pub subscription : Status T.Conf → List (Signal Variant) → Followed T.Conf
  unfolding follow
  subscription status ss = follow ss (copy T status ∷ []) status
