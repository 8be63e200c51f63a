-- ===== src/Krbmon/Start.antt =====
-- internal/krbmon: the name of the ccache file, and `Start` of both monitors with the watcher, which
-- belongs to the fsnotify library.
use text.Mathlib.Text.{starts_with}
use Prim.Native.String.{len, slice}
use fw_id_agent.Prelude.{ℕ, String, ◌<>◌, str_eq, not, Option, none, some, List, if◌then◌else◌}
use fw_id_agent.Krbmon.{Krb}
use fw_id_agent.Krbmon.Monitor.{Monitor, Input, start}
use fw_id_agent.Krbmon.Files.{Loader, load_ccache}

-- `strings.TrimPrefix`
abbrev pub trim_prefix : String → String → String
trim_prefix s p = if starts_with s p then slice s (len p) (len s) else s

-- `createCredentialCacheEnvVar`, over the ID that `user.Current` gives, if it gives one.
unfoldable pub create_env_var : Option String → String
create_env_var none = ""
create_env_var (some uid) = "FILE:/tmp/krb5cc_" <> uid

-- The end of `getCredentialCacheFilename`.
unfoldable pub filename_of : String → Option String
filename_of env = if str_eq env "" then none else some (trim_prefix env "FILE:")

-- `getCredentialCacheFilename`, over the value of KRB5CCNAME, which is empty if it is not set; its
-- error is `none`.
unfoldable pub credential_cache_filename : String → Option String → Option String
unfolding create_env_var filename_of
credential_cache_filename env uid =
    let env' = if str_eq env "" then create_env_var uid else env in
    let env'' = if not (starts_with env' "FILE:") then create_env_var uid else env' in
    filename_of env''

-- What fsnotify answers: the error of `NewWatcher`, and that of `Add` of a directory.
pub record Watcher : Type 0 where
  pub new_error : Option String
  pub add_error : String → Option String

-- What a call of `Start` and the goroutine that it may start do: the error, the goroutine's monitor,
-- and how many watchers `Start` has opened.
pub record Started (V : Type 0) : Type 0 where
  pub error : Option String
  pub monitor : Option (Monitor V)
  pub opened : ℕ

module _ {V : Type 0} where
  abbrev refused : String → ℕ → Started V
  refused e n = record { error = some e; monitor = none; opened = n }

  abbrev watching : Monitor V → Started V
  watching m = record { error = none; monitor = some m; opened = 1 }

  -- The part of `Start` from the watcher on, which both monitors share.
  unfoldable pub open_watcher : Watcher → String → Monitor V → Started V
  open_watcher w dir m = elim w.new_error [
    | some e ↦ refused e 0
    | none ↦ elim (w.add_error dir) [ some e ↦ refused e 1 | none ↦ watching m ]
  ]

-- `filepath.Dir` is a parameter.
module _ (K : Krb) (l : Loader K) (dir_of : String → String) where
  -- `CCacheMon.Start`
  unfoldable pub start_ccache :
      Watcher
      → String
      → Option String
      → Option (List ℕ)
      → List (Input (Option (List ℕ)))
      → Started K.CCache
  unfolding credential_cache_filename open_watcher
  start_ccache w env uid b is = elim (credential_cache_filename env uid) [
    | none ↦ refused "environment variable KRB5CCNAME is not set" 0
    | some file ↦ open_watcher w (dir_of file) (start l.same_ccache (load_ccache K l) file b is)
  ]

  -- `ConfMon.Start`, for the file that `NewConfMon` names.
  unfoldable pub start_conf :
      Watcher → String → Option K.Conf → List (Input (Option K.Conf)) → Started K.Conf
  unfolding open_watcher
  start_conf w file c is = open_watcher w (dir_of file) (start l.same_conf (λ o. o) file c is)
