-- ===== src/Krbmon.antt =====
-- internal/krbmon: what the Kerberos monitors send to the agent, over the types of the gokrb5
-- library, which are parameters.
pub mod Monitor
pub mod Files
pub mod Start
pub mod Starting
pub mod Updates
pub mod Sending
use fw_id_agent.Prelude.{ℕ, ℤ, String, ◌<>◌, Option}

-- What the source uses of gokrb5: `types.NewPrincipalName`, `CCache.GetEntry`, which is called on a
-- pointer that may be nil, and the two times of a credential in Unix seconds.
pub record Krb : Type 1 where
  pub CCache : Type 0
  pub Conf : Type 0
  pub PrincipalName : Type 0
  pub Credential : Type 0
  pub nt_srv_inst : ℕ
  pub new_principal_name : ℕ → String → PrincipalName
  pub get_entry : Option CCache → PrincipalName → Option Credential
  pub start_unix : Credential → ℤ
  pub end_unix : Credential → ℤ

-- `CCacheUpdate`; a nil `CCache` is `none`.
pub record CCacheUpdate (K : Krb) : Type 0 where
  pub ccache : Option K.CCache

-- `ConfUpdate`; a nil `Config` is `none`.
pub record ConfUpdate (K : Krb) : Type 0 where
  pub config : Option K.Conf

-- `CCacheUpdate.GetTGT`
unfoldable pub get_tgt : (K : Krb) → CCacheUpdate K → String → Option K.Credential
get_tgt K u realm = K.get_entry u.ccache (K.new_principal_name K.nt_srv_inst ("krbtgt/" <> realm))
