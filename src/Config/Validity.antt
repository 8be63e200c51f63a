-- ===== src/Config/Validity.antt =====
-- What a valid configuration is, apart from the order in which config.go tests for it.
use fw_id_agent.Prelude.{
  is_neg, ◌≡◌, ◌≢◌, ◌↔◌, refl, true, false, List, [], ◌∷◌, some, arith, eq_iff, All,
}
use fw_id_agent.Config.{
  Tnd, TndHttpsConfig, TndConfig, Config, https_valid, servers_valid, tnd_valid, valid,
}

-- A server is usable when neither its URL nor its hash is empty.
pub record IsUsable (t : TndHttpsConfig) : Type 0 where
  pub has_url : t.url ≢ ""
  pub has_hash : t.hash ≢ ""

pub record IsValid (T : Tnd) (c : Config T.Conf) : Type 0 where
  pub has_service : c.service_url ≢ ""
  pub has_realm : c.realm ≢ ""
  pub keep_alive_nonneg : is_neg c.keep_alive ≡ false
  pub login_timeout_nonneg : is_neg c.login_timeout ≡ false
  pub logout_timeout_nonneg : is_neg c.logout_timeout ≡ false
  pub retry_timer_nonneg : is_neg c.retry_timer ≡ false
  pub has_servers : c.tnd.https_servers ≢ []
  pub servers_usable : All IsUsable c.tnd.https_servers
  pub tnd_accepts : T.valid c.tnd.config ≡ true
  pub start_delay_nonneg : is_neg c.start_delay ≡ false

https_valid_iff : (t : TndHttpsConfig) → (https_valid t ≡ true) ↔ IsUsable t
unfolding https_valid
https_valid_iff t = (
  λ h. record {
    has_url = ground (arith, eq_iff t.url "");
    has_hash = ground (arith, eq_iff t.hash "");
  },
  λ u. ground (arith, eq_iff t.url "", eq_iff t.hash "", u.has_url, u.has_hash),
)

servers_valid_iff : (ss : List TndHttpsConfig) → (servers_valid ss ≡ true) ↔ All IsUsable ss
unfolding servers_valid
servers_valid_iff [] = (λ _. tt, λ _. refl)
servers_valid_iff (s ∷ ss) = (
  λ h. ((https_valid_iff s).0 (ground arith), (servers_valid_iff ss).0 (ground arith)),
  λ u. ground (arith, (https_valid_iff s).1 u.0, (servers_valid_iff ss).1 u.1),
)

tnd_valid_iff :
    (T : Tnd) (t : TndConfig T.Conf) (ss : List TndHttpsConfig)
    → t.https_servers ≡ ss
    → (tnd_valid T t ≡ true)
      ↔ ((t.https_servers ≢ []) × All IsUsable t.https_servers × (T.valid t.config ≡ true))
unfolding tnd_valid
tnd_valid_iff T t [] e = (λ h. ground arith, λ u. absurd (u.0 e))
tnd_valid_iff T t (s ∷ ss) e = (
  λ h. (ground arith, rw e ((servers_valid_iff (s ∷ ss)).0 (ground arith)), ground arith),
  λ u.
      let usable : All IsUsable (s ∷ ss) = rw e at u.1 in
      ground (arith, (servers_valid_iff (s ∷ ss)).1 usable, u.2),
)

-- `Config.Valid` accepts exactly the configurations with a service URL, a realm, no negative time,
-- at least one server, a URL and a hash for every server, and a detection configuration that the
-- tnd library accepts.
pub valid_iff : (T : Tnd) (c : Config T.Conf) → (valid T (some c) ≡ true) ↔ IsValid T c
unfolding valid
valid_iff T c = (
  λ h.
      let net = (tnd_valid_iff T c.tnd c.tnd.https_servers refl).0 (ground arith) in
      record {
        has_service = ground (arith, eq_iff c.service_url "");
        has_realm = ground (arith, eq_iff c.realm "");
        keep_alive_nonneg = ground arith;
        login_timeout_nonneg = ground arith;
        logout_timeout_nonneg = ground arith;
        retry_timer_nonneg = ground arith;
        has_servers = net.0;
        servers_usable = net.1;
        tnd_accepts = net.2;
        start_delay_nonneg = ground arith;
      },
  λ v.
      let net =
        (tnd_valid_iff T c.tnd c.tnd.https_servers refl).1
          (v.has_servers, v.servers_usable, v.tnd_accepts) in
      ground (arith, net, eq_iff c.service_url "", eq_iff c.realm "", v.has_service, v.has_realm),
)
