-- ===== src/Krbmon/Files.antt =====
-- internal/krbmon/ccachemon.go and confmon.go: how the two monitors load their files.
use fw_id_agent.Prelude.{ℕ, ltb, String, Bool, Option, none, some, List, map, length, if◌then◌else◌}
use fw_id_agent.Krbmon.{Krb, CCacheUpdate, ConfUpdate}
use fw_id_agent.Krbmon.Monitor.{Input, start}

-- What the source uses of the Kerberos library and of reflect: `CCache.Unmarshal` of the bytes of a
-- file, which may fail, `config.Load`, and `DeepEqual` of a pointer that is not nil and another.
pub record Loader (K : Krb) : Type 0 where
  pub unmarshal : List ℕ → Option K.CCache
  pub same_ccache : K.CCache → Option K.CCache → Bool
  pub same_conf : K.Conf → Option K.Conf → Bool

module _ (K : Krb) (l : Loader K) where
  -- The part of `handleCCacheFileEvent` between its two tests, over what `os.ReadFile` gives.
  unfoldable pub load_ccache : Option (List ℕ) → Option K.CCache
  load_ccache none = none
  load_ccache (some b) = if ltb (length b) 69 then none else l.unmarshal b

  -- `CCacheMon`: the updates of a monitor of the file.
  unfoldable pub ccache_updates :
      String → Option (List ℕ) → List (Input (Option (List ℕ))) → List (CCacheUpdate K)
  ccache_updates file b is =
      map (λ c. record { ccache = some c }) (start l.same_ccache load_ccache file b is).sent

  -- `ConfMon`, over what `config.Load` gives.
  unfoldable pub conf_updates :
      String → Option K.Conf → List (Input (Option K.Conf)) → List (ConfUpdate K)
  conf_updates file c is =
      map (λ d. record { config = some d }) (start l.same_conf (λ o. o) file c is).sent
