-- ===== src/Tracking/Histories.antt =====
-- A D-Bus client that is subscribed from the start of the agent on.
use fw_id_agent.Prelude.{
  ◌≡◌, ◌≢◌, refl, ◌∙◌, ap, Option, none, List, [], ◌∷◌, ◌++◌, map, arith, All,
}
use fw_id_agent.Config.{Tnd, Config}
use fw_id_agent.Status.{Status, copy}
use fw_id_agent.Status.TrustedNetwork
use fw_id_agent.Status.LoginState
use fw_id_agent.Krbmon.{Krb}
use fw_id_agent.Notify.{Notifier}
use fw_id_agent.Dbusapi.{
  config_invalid, last_keep_alive_at_invalid, kerberos_tgt_start_time_invalid,
  kerberos_tgt_end_time_invalid,
}
use fw_id_agent.Dbusapi.Service as Service
use fw_id_agent.Dbusapi.Service.{
  Update, Answers, start_updates, stop_updates, property_update, done, serve,
}
use fw_id_agent.Agent.State.{Agent, Effect, set_property, latest}
use fw_id_agent.Agent.Loop.{Event, running, run}
use fw_id_agent.Agent.Start.{Environment}
use fw_id_agent.Agent.Mirror.{Mirrors}
use fw_id_agent.Agent.Reach.{IsProper, WhileRunning}
use fw_id_agent.Agent.Histories.{Starts, run-Mirrors}
use fw_id_agent.DbusClient.Update.{
  Bus, Name, config, trusted_network, login_state, last_keep_alive, tgt_start, tgt_end, other,
  decode,
}
use fw_id_agent.DbusClient.Update.Order.{text_of}
use fw_id_agent.DbusClient.Signal.{follows, subscription}
use fw_id_agent.Tracking.{Carries, updates_of, signal_of, see, see_all}
use fw_id_agent.Tracking.Properties.{start_value, current}
use fw_id_agent.Tracking.Shown.{IsField, Holds, AllFit, Shows, agent-AllFit, Holds-Shows}
use fw_id_agent.Tracking.Fields.{field}
use fw_id_agent.Tracking.Follow.{FitsIf, or_else, follow-signal_of, see_all-append, field-see_all}

-- The updates at the start of the service, as effects.
abbrev effects_of : List Update → List Effect
effects_of [] = []
effects_of (u ∷ us) = effects_of us ++ (set_property u.name u.value ∷ [])

pub serve_updates : (us : List Update) → serve (map property_update us) ≡ us
unfolding serve
serve_updates [] = refl
serve_updates (u ∷ us) = ap (λ l. u ∷ l) (serve_updates us)

pub serve_updates_done :
    (us : List Update) → serve (map property_update us ++ (done ∷ [])) ≡ us ++ stop_updates
unfolding serve
serve_updates_done [] = refl
serve_updates_done (u ∷ us) = ap (λ l. u ∷ l) (serve_updates_done us)

pub start_updates_lem :
    (ws : Answers) → (Service.start ws).0 ≡ none → (Service.start ws).1 ≡ start_updates
unfolding Service.start
start_updates_lem ws h = ground arith

module _ (T : Tnd) (B : Bus T.Conf) (w : Carries B) where
  started_field :
      (q : Name)
      → q ≢ other
      → (s : Status T.Conf) → FitsIf q (latest (text_of q) (effects_of start_updates))
      → field q (see_all T B w s start_updates)
        ≡ or_else (field q s) (latest (text_of q) (effects_of start_updates))
  started_field q named s h = field-see_all T B w q named s (effects_of start_updates) h

  fresh : Status T.Conf → Status T.Conf
  fresh s = see_all T B w s start_updates

  field-fresh : (q : Name) (s : Status T.Conf) → IsField q → field q (fresh s) ≡ start_value q
  unfolding fresh
  field-fresh config s h = absurd h
  field-fresh other s h = absurd h
  field-fresh trusted_network s h = started_field trusted_network (λ e. cc) s tt
  field-fresh login_state s h = started_field login_state (λ e. cc) s tt
  field-fresh last_keep_alive s h = started_field last_keep_alive (λ e. cc) s tt
  field-fresh tgt_start s h = started_field tgt_start (λ e. cc) s tt
  field-fresh tgt_end s h = started_field tgt_end (λ e. cc) s tt

  -- After the updates of an agent, each field holds the value of its property.
  pub follow-Holds :
      (es later : List Effect) (s : Status T.Conf)
      → AllFit later
      → ((q : Name)
          → IsField q
          → FitsIf q (latest (text_of q) later)
          → or_else (field q s) (latest (text_of q) later) ≡ current es q)
      → Holds es (see_all T B w s (updates_of later))
  follow-Holds es later s fit same q h =
      field-see_all T B w q (λ e. rw e at h) s later (fit q h) ∙ same q h (fit q h)

  agent-Shows :
      {K : Krb} (b : Agent K T.Conf) (s : Status T.Conf)
      → Mirrors b
      → Shows b (see_all T B w (fresh s) (updates_of b.trace))
  agent-Shows b s m = Holds-Shows b m _ (
      follow-Holds b.trace b.trace (fresh s) (agent-AllFit b m)
        (λ q h f. ap (λ d. or_else d (latest (text_of q) b.trace)) (field-fresh q s h)))

  -- A client that follows the signals of the service from its start on, and of all updates that the
  -- agent has made after any events, without empty updates: while the agent's loop runs, the client
  -- holds the agent's trusted network, login state, last keep-alive and TGT times, where a time that
  -- was never set is -1 for the client and 0 for the agent. The agent and the service have started
  -- with no error.
  pub client_tracks :
      {K : Krb} (env : Environment T.Conf) (conf : Config T.Conf) (n : Option Notifier)
      (a : Agent K T.Conf) (ws : Answers)
      → Starts env conf n a
      → (Service.start ws).0 ≡ none
      → (es : List (Event K)) → All IsProper es
      → (b : Agent K T.Conf) → run a es ≡ running b
      → (s : Status T.Conf)
      → let updates = (Service.start ws).1 ++ serve (map property_update (updates_of b.trace)) in
        (sent : List (Status T.Conf)) × (t : Status T.Conf) × (subscription T B s
            (map (signal_of T B w) updates)
          ≡ follows sent t)
        × Shows b t
  unfolding subscription fresh
  client_tracks env conf n a ws ok up es proper b ran s =
      let updates = start_updates ++ updates_of b.trace in
      let (l, followed) = follow-signal_of T B w updates (copy T s ∷ []) s in
      let held : WhileRunning Mirrors (run a es) = run-Mirrors env conf n a ok es proper in
      let m : Mirrors b = rw ran at held in
      (
        l,
        see_all T B w (fresh s) (updates_of b.trace),
        rw (start_updates_lem ws up, serve_updates (updates_of b.trace))
            (followed ∙ ap (follows l) (see_all-append T B w start_updates (updates_of b.trace) s)),
        agent-Shows b s m,
      )

  -- What a client holds when the service has said goodbye.
  abbrev pub farewell : Status T.Conf
  farewell = record {
    config = none;
    trusted_network = TrustedNetwork.unknown;
    login_state = LoginState.unknown;
    last_keep_alive = last_keep_alive_at_invalid;
    kerberos_tgt = record {
      start_time = kerberos_tgt_start_time_invalid;
      end_time = kerberos_tgt_end_time_invalid;
    };
  }

  see_stop : (s : Status T.Conf) → see_all T B w s stop_updates ≡ farewell
  unfolding see_all see decode
  see_stop s = ground (
    arith,
    w.carries_string config_invalid,
    w.carries_uint32 0,
    w.carries_int64 last_keep_alive_at_invalid,
  )

  -- A client that follows the signals of the service ends, when the service is stopped, with no
  -- configuration, with both states unknown and with every time invalid, whatever updates came before
  -- and whatever it held at first.
  pub stop_resets :
      (us : List Update) (s : Status T.Conf)
      → (sent : List (Status T.Conf)) × (subscription T B s
            (map (signal_of T B w) (serve (map property_update us ++ (done ∷ []))))
          ≡ follows sent farewell)
  unfolding subscription
  stop_resets us s =
      let (l, followed) = follow-signal_of T B w (us ++ stop_updates) (copy T s ∷ []) s in
      (
        l,
        rw (serve_updates_done us) (
            followed
            ∙ ap (follows l)
                (see_all-append T B w us stop_updates s ∙ see_stop (see_all T B w s us))),
      )
