-- ===== src/AgentCmd.antt =====
-- internal/agent/cmd.go: the configuration of the agent from its file and its command line.
pub mod Servers
pub mod Precedence
pub mod Arguments
pub mod Written
pub mod Loading
pub mod Layers
pub mod Lifecycle
pub mod Ending
use Prim.Native.Char.{Char, code}
use text.Mathlib.TextBridge.{to_list, of_list}
use fw_id_agent.Prelude.{
  ℕ, ℤ, String, ◌==◌, str_eq, Bool, not, Option, none, some, List, [], ◌∷◌, if◌then◌else◌,
}
use fw_id_agent.Config.{Tnd, TndHttpsConfig, Config, valid, default}

abbrev pub comma : ℕ
comma = 44

abbrev pub colon : ℕ
colon = 58

abbrev prepend : Char → List (List Char) → List (List Char)
prepend c [] = (c ∷ []) ∷ []
prepend c (w ∷ ws) = (c ∷ w) ∷ ws

-- `strings.Split` at one character.
unfoldable pub split : ℕ → List Char → List (List Char)
split n [] = [] ∷ []
split n (c ∷ cs) = let rest = split n cs in if code c == n then [] ∷ rest else prepend c rest

-- `strings.LastIndex` with the two slices that the source takes around it.
unfoldable pub cut_last : ℕ → List Char → Option (List Char × List Char)
cut_last n [] = none
cut_last n (c ∷ cs) = elim (cut_last n cs) [
  | some (before, behind) ↦ some (c ∷ before, behind)
  | none ↦ if code c == n then some ([], cs) else none
]

module _ (to_lower : String → String) where
  abbrev pub server_of : List Char → List Char → TndHttpsConfig
  server_of url hash = record { url = of_list url; hash = to_lower (of_list hash) }

  -- A round of the loop of `parseTNDServers`: a server, or none where it returns.
  unfoldable pub parse_server : List Char → Option TndHttpsConfig
  parse_server w = elim (cut_last colon w) [
    | none ↦ none
    | some (url, []) ↦ none
    | some (url, c ∷ cs) ↦ some (server_of url (c ∷ cs))
  ]

  unfoldable pub parse_all : List (List Char) → Option (List TndHttpsConfig)
  parse_all [] = some []
  parse_all (w ∷ ws) = elim (parse_server w) [
    | none ↦ none
    | some s ↦ elim (parse_all ws) [ none ↦ none | some ss ↦ some (s ∷ ss) ]
  ]

  -- `parseTNDServers`; `strings.ToLower` is a parameter.
  unfoldable pub parse_tnd_servers : String → Option (List TndHttpsConfig)
  parse_tnd_servers servers =
      if str_eq servers "" then none else parse_all (split comma (to_list servers))

-- The command line, as package flag parses it: a flag that is not set is `none`.
pub record Flags : Type 0 where
  pub config_file : Option String
  pub version : Bool
  pub service_url : Option String
  pub realm : Option String
  pub keep_alive : Option ℤ
  pub login_timeout : Option ℤ
  pub logout_timeout : Option ℤ
  pub retry_timer : Option ℤ
  pub tnd_servers : Option String
  pub verbose : Option Bool
  pub start_delay : Option ℤ
  pub notifications : Option Bool

-- The ways in which `getConfig` returns.
pub data Outcome (C : Type 0) : Type 0 where
  configured : Config C → Outcome C
  help : Outcome C
  not_loaded : String → Outcome C
  bad_servers : String → Outcome C
  not_valid : Outcome C
  not_parsed : String → Outcome C

-- `flagIsSet` with the assignment behind it.
abbrev pub given : {A : Type 0} → Option A → A → A
given none a = a
given (some b) a = b

module _ {C : Type 0} where
  -- The assignments before and behind that of the servers. Each flag has a field of its own.
  abbrev pub overwrite : Flags → Config C → Config C
  overwrite f c = record c {
    service_url = given f.service_url c.service_url;
    realm = given f.realm c.realm;
    keep_alive = given f.keep_alive c.keep_alive;
    login_timeout = given f.login_timeout c.login_timeout;
    logout_timeout = given f.logout_timeout c.logout_timeout;
    retry_timer = given f.retry_timer c.retry_timer;
    verbose = given f.verbose c.verbose;
    start_delay = given f.start_delay c.start_delay;
    notifications = given f.notifications c.notifications;
  }

  abbrev pub set_servers : List TndHttpsConfig → Config C → Config C
  set_servers ss c = record c { tnd = record { https_servers = ss; config = c.tnd.config } }

-- `config.Load`: a configuration or an error.
pub data Loaded (C : Type 0) : Type 0 where
  loaded : Config C → Loaded C
  load_error : String → Loaded C

module _ (T : Tnd) (to_lower : String → String) (load : String → Loaded T.Conf) where
  -- The end of `getConfig`.
  unfoldable pub check : Config T.Conf → Outcome T.Conf
  check c = if not (valid T (some c)) then not_valid else configured c

  -- From the assignments on, over the loaded or default configuration.
  unfoldable pub configure : Flags → Config T.Conf → Outcome T.Conf
  unfolding check
  configure f c = elim f.tnd_servers [
    | none ↦ check (overwrite f c)
    | some text ↦ elim (parse_tnd_servers to_lower text) [
      | none ↦ bad_servers text
      | some ss ↦ check (set_servers ss (overwrite f c))
    ]
  ]

  -- `getConfig` behind `flags.Parse`.
  unfoldable pub get_config : Flags → Outcome T.Conf
  unfolding configure
  get_config f = if f.version then help else elim f.config_file [
    | none ↦ configure f (default T)
    | some file ↦ elim (load file) [ load_error e ↦ not_loaded e | loaded c ↦ configure f c ]
  ]
