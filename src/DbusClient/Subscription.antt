-- ===== src/DbusClient/Subscription.antt =====
-- pkg/client/client.go: when a client may subscribe, and how it is closed.
pub mod Closing
use fw_id_agent.Prelude.{
  String, Bool, true, false, Option, none, some, List, [], ◌∷◌, if◌then◌else◌,
}

-- The goroutine of `Subscribe`.
pub data Worker : Type 0 where
  absent at_work ended : Worker

-- `DBusClient`, as far as `Subscribe` and `Close` go: whether there is a connection, the flag
-- `subscribed`, the goroutine, and whether the channels `done`, `closed` and `updates` are closed.
pub record DbusClient : Type 0 where
  pub connected : Bool
  pub subscribed : Bool
  pub worker : Worker
  pub done_closed : Bool
  pub closed_closed : Bool
  pub updates_closed : Bool

-- `NewDBusClient`, with the error of the connection if there is one.
abbrev pub new_client : Option String → Option DbusClient
new_client (some e) = none
new_client none = some (record {
  connected = true;
  subscribed = false;
  worker = absent;
  done_closed = false;
  closed_closed = false;
  updates_closed = false;
})

-- `setSubscribed`: whether the flag was set, and the client. The mutex makes it one step.
unfoldable pub set_subscribed : DbusClient → Bool × DbusClient
set_subscribed d = if d.subscribed then (false, d) else (true, record d { subscribed = true })

-- `Subscribe` with the errors of `Query` and of `AddMatchSignal`: its own error, and the client.
unfoldable pub subscribe : Option String → Option String → DbusClient → Option String × DbusClient
unfolding set_subscribed
subscribe query_error match_error d =
    let (fresh, d') = set_subscribed d in
    if fresh
    then elim query_error [
      | some e ↦ (some e, d')
      | none ↦ elim match_error [
        | some e ↦ (some e, d')
        | none ↦ (none, record d' { worker = at_work })
      ]
    ]
    else (some "already subscribed", d')

-- The calls of the D-Bus library on which it depends what `Subscribe` sees of the agent: that of
-- `Query`, the match rule, and the registration of the channel for signals.
pub data Call : Type 0 where
  query_all add_match register : Call

-- The calls of `Subscribe`, in its order, when none fails.
abbrev pub subscribe_calls : List Call
subscribe_calls = query_all ∷ add_match ∷ register ∷ []

-- How a call of `Close` ends.
pub data Outcome : Type 0 where
  returns : Option String → DbusClient → Outcome
  blocks : DbusClient → Outcome
  panics : Outcome

-- `<-d.closed` behind `close(d.done)`. The goroutine ends on `done` or on the end of the signals,
-- which closing the connection brings about, and closes both channels. Without it a channel that is
-- not closed is waited for without end.
unfoldable pub await_closed : Option String → DbusClient → Outcome
await_closed err d = elim d.worker [
  | at_work ↦ returns err (record d { worker = ended; closed_closed = true; updates_closed = true })
  | absent ↦ if d.closed_closed then returns err d else blocks d
  | ended ↦ if d.closed_closed then returns err d else blocks d
]

-- `Close` with the error of closing the connection. Closing a closed channel panics.
unfoldable pub close : Option String → DbusClient → Outcome
unfolding await_closed
close conn_error d =
    let err = if d.connected then conn_error else none in
    if d.subscribed
    then if d.done_closed then panics else await_closed err (record d { done_closed = true })
    else returns err d
