-- ===== src/Notify.antt =====
-- internal/notify/notify.go: desktop notifications over D-Bus.
use Prim.Native.Nat.{◌%◌}
use fw_id_agent.Prelude.{ℕ, ◌^◌, String, Option, none, some, List, [], ◌∷◌}

-- `Notifier`: the connection is the D-Bus library's; the random identifier makes a notification
-- replace the one before it.
pub record Notifier : Type 0 where
  pub notification_id : ℕ

-- `NewNotifier` with the error of the session bus, if there is one, and the random identifier: the
-- error and the notifier, which is nil on an error.
abbrev pub new_notifier : Option String → ℕ → Option String × Option Notifier
new_notifier (some e) id = (some e, none)
new_notifier none id = (none, some (record { notification_id = id % 2 ^ 32 }))

-- `Notifier.Close`: how many connections it closes. A nil notifier has none.
abbrev pub close : Option Notifier → ℕ
close none = 0
close (some n) = 1

-- The arguments of the D-Bus call `org.freedesktop.Notifications.Notify` that vary.
pub record Notification : Type 0 where
  pub replaces_id : ℕ
  pub title : String
  pub message : String
  pub expire_timeout : ℕ

-- `Notifier.Notify`: the calls that it makes. A nil notifier makes none; an error of the call is
-- only logged.
unfoldable pub notify : Option Notifier → String → String → List Notification
notify none title message = []
notify (some n) title message =
    record { replaces_id = n.notification_id; title = title; message = message; expire_timeout = 5 }
    ∷ []
