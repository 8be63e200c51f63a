-- ===== src/Tests/Tool.antt =====
-- The example program at concrete signals.
use mathlib.Core.List.{Nodup-cons, Nodup-nil, not-mem-nil}
use mathlib.Core.List.Permᴰ
use fw_id_agent.Prelude.{String, ◌≡◌, refl, Bool, some, pos, List, [], ◌∷◌}
use fw_id_agent.Status.{Status, new}
use fw_id_agent.Dbusapi.{Value, text, path, interface}
use fw_id_agent.DbusClient.Update.{decode, apply_all, update_status}
use fw_id_agent.DbusClient.Signal.{
  text_item, map_item, names_item, Signal, invalidate, handle_properties_changed,
}
use fw_id_agent.DbusTool.{Values, invalid, holds, follow_signals}
use fw_id_agent.DbusTool.Agreement.{Agrees}
use fw_id_agent.DbusTool.Following.{AllReceived, Takes, follow_signals-Agrees}
use fw_id_agent.Tests.Bus.{bus, there, back, there-back, there-Nodup}
use fw_id_agent.Tests.Data.{settings}

abbrev signal : List (String × Value) → List (String × Value) → List String → Signal Value
signal ps qs ks = record {
  path = path;
  name = "org.freedesktop.DBus.Properties.PropertiesChanged";
  body = text_item interface ∷ map_item ps qs ∷ names_item ks ∷ [];
}

abbrev config_only : List (String × Value)
config_only = ("Config", text "{}") ∷ []

-- The signals in the client, and in the example program, which visits the first map in the other
-- order.
abbrev signals : List (Signal Value)
signals = signal there there [] ∷ signal config_only config_only ("LoginState" ∷ []) ∷ []

abbrev copies : List (Signal Value)
copies = signal back there [] ∷ signal config_only config_only ("LoginState" ∷ []) ∷ []

copies-AllReceived : AllReceived bus signals copies
copies-AllReceived = (
  record {
    path = refl;
    name = refl;
    body = (refl, ((there-Nodup, Permᴰ.refl there, there-back), (refl, tt)));
  },
  (
    record {
      path = refl;
      name = refl;
      body = (
        refl,
        (
          (Nodup-cons.1 (not-mem-nil, Nodup-nil), Permᴰ.refl config_only, Permᴰ.refl config_only),
          (refl, tt),
        ),
      );
    },
    tt,
  ),
)

-- What the client knows and the program holds at first.
abbrev known : Status Bool
known = record new { last_keep_alive = pos 7 }

abbrev held : Values
held = record invalid {
  last_keep_alive_at = pos 7;
  kerberos_tgt_start_time = pos 0;
  kerberos_tgt_end_time = pos 0;
}

held-Agrees : Agrees bus held known
held-Agrees = record {
  config = refl;
  network = refl;
  login = refl;
  keep_alive = refl;
  tgt_start = refl;
  tgt_end = refl;
}

abbrev final : Status Bool
final = record known { config = some settings; trusted_network = 2 }

signals-Takes : Takes bus signals known final
unfolding handle_properties_changed update_status apply_all decode invalidate
signals-Takes = (record known { trusted_network = 2; login_state = 3 }, refl, (final, refl, refl))

follow_signals-Agrees_example :
    (u : Values) × (follow_signals bus copies held ≡ holds u) × Agrees bus u final
follow_signals-Agrees_example =
    follow_signals-Agrees bus signals copies held known final copies-AllReceived signals-Takes
      held-Agrees
