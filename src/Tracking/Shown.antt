-- ===== src/Tracking/Shown.antt =====
-- When a client's status shows the state of the agent.
use fw_id_agent.Prelude.{ℕ, ℤ, pos, ◌≡◌, ◌⊎◌, inl, inr, Option, none, some, List, refl, arith}
use fw_id_agent.Status.{Status}
use fw_id_agent.Krbmon.{Krb}
use fw_id_agent.Dbusapi.Property
use fw_id_agent.Dbusapi.{Value, uint32, int64, last_keep_alive_at_invalid}
use fw_id_agent.Agent.State.{Agent, Effect, latest}
use fw_id_agent.Agent.Mirror.{Mirrors, or_zero}
use fw_id_agent.DbusClient.Update.{
  Name, config, trusted_network, login_state, last_keep_alive, tgt_start, tgt_end, other,
}
use fw_id_agent.DbusClient.Update.Order.{text_of}
use fw_id_agent.Tracking.Fields.{field, Fits}
use fw_id_agent.Tracking.Follow.{FitsIf, or_else}
use fw_id_agent.Tracking.Properties.{current}

-- The names that stand for a field other than the configuration.
abbrev pub IsField : Name → Type 0
IsField config = ⊥
IsField other = ⊥
IsField q = Unit {0}

-- Each of these fields is of the value to which the effects have brought its property.
abbrev pub Holds : {C : Type 0} → List Effect → Status C → Type 0
Holds es t = (q : Name) → IsField q → field q t ≡ current es q

-- Each property other than the configuration has a value of its type.
abbrev pub AllFit : List Effect → Type 0
AllFit es = (q : Name) → IsField q → FitsIf q (latest (text_of q) es)

-- The time of a property that was never set is invalid for the client, and 0 for the agent.
abbrev pub ShowsTime : ℤ → ℤ → Type 0
ShowsTime t a = (t ≡ a) ⊎ ((t ≡ last_keep_alive_at_invalid) × (a ≡ pos 0))

-- The client's status shows the state of the agent.
pub record Shows {K : Krb} {C : Type 0} (a : Agent K C) (t : Status C) : Type 0 where
  pub network : t.trusted_network ≡ a.trusted_network
  pub login : t.login_state ≡ a.login_state
  pub keep_alive : ShowsTime t.last_keep_alive a.last_keep_alive
  pub tgt_start : ShowsTime t.kerberos_tgt.start_time a.kerberos_tgt.start_time
  pub tgt_end : ShowsTime t.kerberos_tgt.end_time a.kerberos_tgt.end_time

shows_time :
    (o : Option Value) (a t d : ℤ)
    → d ≡ last_keep_alive_at_invalid
    → or_zero o ≡ int64 a
    → int64 t ≡ or_else (int64 d) o
    → ShowsTime t a
shows_time none a t d e z h = inr (ground arith, ground arith)
shows_time (some v) a t d e z h = inl (ground arith)

time-FitsIf :
    (q : Name) (o : Option Value) (a : ℤ)
    → ((v : ℤ) → Fits q (int64 v))
    → or_zero o ≡ int64 a
    → FitsIf q o
time-FitsIf q none a h z = tt
time-FitsIf q (some v) a h z = rw z (h a)

state-FitsIf :
    (q : Name) (o : Option Value) (n : ℕ)
    → ((m : ℕ) → Fits q (uint32 m))
    → o ≡ some (uint32 n)
    → FitsIf q o
state-FitsIf q o n h z = rw z (h n)

module _ {K : Krb} {C : Type 0} (b : Agent K C) (m : Mirrors b) where
  pub agent-AllFit : AllFit b.trace
  agent-AllFit config h = absurd h
  agent-AllFit other h = absurd h
  agent-AllFit trusted_network h =
      state-FitsIf trusted_network _ b.trusted_network (λ n. tt) m.network
  agent-AllFit login_state h = state-FitsIf login_state _ b.login_state (λ n. tt) m.login
  agent-AllFit last_keep_alive h =
      time-FitsIf last_keep_alive _ b.last_keep_alive (λ z. tt) m.keep_alive
  agent-AllFit tgt_start h = time-FitsIf tgt_start _ b.kerberos_tgt.start_time (λ z. tt) m.tgt_start
  agent-AllFit tgt_end h = time-FitsIf tgt_end _ b.kerberos_tgt.end_time (λ z. tt) m.tgt_end

  -- A status with the values of the properties shows the agent that has set them.
  pub Holds-Shows : (t : Status C) → Holds b.trace t → Shows b t
  Holds-Shows t h = record {
    network = ground (arith, h trusted_network tt, m.network);
    login = ground (arith, h login_state tt, m.login);
    keep_alive =
        shows_time (latest Property.last_keep_alive_at b.trace) _ _ _ refl m.keep_alive
          (h last_keep_alive tt);
    tgt_start =
        shows_time (latest Property.kerberos_tgt_start_time b.trace) _ _ _ refl m.tgt_start
          (h tgt_start tt);
    tgt_end =
        shows_time (latest Property.kerberos_tgt_end_time b.trace) _ _ _ refl m.tgt_end
          (h tgt_end tt);
  }
