-- ===== src/Tests/Bus.antt =====
-- The D-Bus client at concrete signals.
use mathlib.Core.List.{Permᴰ, Nodup, Nodup-cons, Nodup-nil, mem-cons, not-mem-nil}
use mathlib.Core.List.Permᴰ
use mathlib.Core.Logic.{∥∥₁_elim}
use fw_id_agent.Prelude.{
  String, eq_iff, ◌≡◌, ◌≢◌, refl, inl, inr, Bool, true, false, Option, none, some, List, [], ◌∷◌,
  arith, All,
}
use fw_id_agent.Status.{new}
use fw_id_agent.Dbusapi.{Value, text, uint32, int64, path, interface}
use fw_id_agent.DbusClient.Update.{got, failed, Bus, update_status, decode, apply_all}
use fw_id_agent.DbusClient.Update.Atomic.{IsStorable, update_atomic}
use fw_id_agent.DbusClient.Update.Order.{key, keys, update_any_order}
use fw_id_agent.DbusClient.Signal.{text_item, map_item, names_item, Signal}
use fw_id_agent.DbusClient.Signal.Following.{properties_changed}
use fw_id_agent.DbusClient.Subscription.{DbusClient, absent, subscribe, blocks, close}
use fw_id_agent.DbusClient.Subscription.Closing.{IsFresh, failed_subscription_blocks}
use fw_id_agent.Tests.Data.{settings}

-- Variants are the values themselves, and no text is a configuration but one.
abbrev pub bus : Bus Bool
bus = record {
  Variant = Value;
  store_string = λ v. elim v [ text s ↦ got s | _ ↦ failed "not a string" ];
  store_uint32 = λ v. elim v [ uint32 n ↦ got n | _ ↦ failed "not a uint32" ];
  store_int64 = λ v. elim v [ int64 z ↦ got z | _ ↦ failed "not an int64" ];
  config_from_json = λ s. got settings;
}

abbrev first : String × Value
first = ("TrustedNetwork", uint32 2)

abbrev second : String × Value
second = ("LoginState", uint32 3)

abbrev pub there : List (String × Value)
there = first ∷ second ∷ []

abbrev pub back : List (String × Value)
back = second ∷ first ∷ []

pub there-back : Permᴰ there back
there-back = Permᴰ.swap refl refl

update_atomic_example :
    ((e : String)
      → (update_status bus there back new).0 ≡ some e
      → (update_status bus there back new).1 ≡ new)
    × (((update_status bus there back new).0 ≡ none → All (IsStorable bus) there)
        × (All (IsStorable bus) there → (update_status bus there back new).0 ≡ none))
update_atomic_example = update_atomic bus there back new there-back

there_stores : (update_status bus there back new).0 ≡ none
unfolding update_status apply_all decode
there_stores = refl

names_differ : key bus first ≢ key bus second
names_differ e = ground (arith, eq_iff "TrustedNetwork" "LoginState")

pub there-Nodup : Nodup (keys bus there)
there-Nodup = Nodup-cons.1 (
  (λ m.
      ∥∥₁_elim (mem-cons.0 m) (λ a b. absurd a)
        (λ o. elim o [ inl e ↦ names_differ e | inr n ↦ not-mem-nil n ])),
  Nodup-cons.1 (not-mem-nil, Nodup-nil),
)

update_any_order_example : update_status bus back there new ≡ update_status bus there back new
update_any_order_example =
    update_any_order bus there back back there new there-Nodup there-back there-back
      (Permᴰ.refl there) there_stores

abbrev client : DbusClient
client = record {
  connected = true;
  subscribed = false;
  worker = absent;
  done_closed = false;
  closed_closed = false;
  updates_closed = false;
}

client-IsFresh : IsFresh client
client-IsFresh = record {
  unsubscribed = refl;
  no_worker = refl;
  open_done = refl;
  open_closed = refl;
}

failed_subscription_blocks_example :
    ((conn_error : Option String)
      → (c : DbusClient) × (close conn_error (subscribe (some "no agent") none client).1
          ≡ blocks c))
    × ((q m : Option String)
        → subscribe q m (subscribe (some "no agent") none client).1
          ≡ (some "already subscribed", (subscribe (some "no agent") none client).1))
unfolding subscribe
failed_subscription_blocks_example =
    failed_subscription_blocks client client-IsFresh (some "no agent") none "no agent" refl

abbrev pub signals : List (Signal Value)
signals =
    record {
      path = path;
      name = properties_changed;
      body = text_item interface ∷ map_item there back ∷ names_item [] ∷ [];
    }
    ∷ record {
      path = path;
      name = properties_changed;
      body = text_item interface ∷ map_item [] [] ∷ names_item ("LoginState" ∷ []) ∷ [];
    }
    ∷ []
