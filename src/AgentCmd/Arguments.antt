-- ===== src/AgentCmd/Arguments.antt =====
-- internal/agent/cmd.go: `getConfig` from the arguments on, with its flags.
use fw_id_agent.Prelude.{
  ℤ, String, str_eq, Bool, false, Option, none, some, List, [], ◌∷◌, if◌then◌else◌,
}
use fw_id_agent.Config.{Tnd}
use fw_id_agent.Flags.{
  Kind, boolean, valued, FlagSet, Parsed, parsed, help_asked, refused, parse, parse_bool,
}
use fw_id_agent.AgentCmd.{Flags, Outcome, help, not_parsed, Loaded, get_config}

-- The flags by the type of their values.
pub data TextFlag : Type 0 where
  config_file service_url realm tnd_servers : TextFlag

pub data IntFlag : Type 0 where
  keep_alive login_timeout logout_timeout retry_timer start_delay : IntFlag

pub data BoolFlag : Type 0 where
  version verbose notifications : BoolFlag

pub data Argument : Type 0 where
  text_flag : TextFlag → Argument
  int_flag : IntFlag → Argument
  bool_flag : BoolFlag → Argument

-- The names of the flags.
abbrev pub text_name : TextFlag → String
text_name config_file = "config"
text_name service_url = "serviceurl"
text_name realm = "realm"
text_name tnd_servers = "tndservers"

abbrev pub int_name : IntFlag → String
int_name keep_alive = "keepalive"
int_name login_timeout = "logintimeout"
int_name logout_timeout = "logouttimeout"
int_name retry_timer = "retrytimer"
int_name start_delay = "startdelay"

abbrev pub bool_name : BoolFlag → String
bool_name version = "version"
bool_name verbose = "verbose"
bool_name notifications = "notifications"

abbrev pub name_of : Argument → String
name_of (text_flag t) = text_name t
name_of (int_flag i) = int_name i
name_of (bool_flag b) = bool_name b

abbrev pub arguments : List Argument
arguments =
    text_flag config_file
    ∷ bool_flag version
    ∷ text_flag service_url
    ∷ text_flag realm
    ∷ int_flag keep_alive
    ∷ int_flag login_timeout
    ∷ int_flag logout_timeout
    ∷ int_flag retry_timer
    ∷ text_flag tnd_servers
    ∷ bool_flag verbose
    ∷ int_flag start_delay
    ∷ bool_flag notifications
    ∷ []

abbrev pub find_argument : String → List Argument → Option Argument
find_argument name [] = none
find_argument name (x ∷ xs) =
    let rest = find_argument name xs in if str_eq (name_of x) name then some x else rest

abbrev pub set_text : TextFlag → String → Flags → Flags
set_text config_file v f = record f { config_file = some v }
set_text service_url v f = record f { service_url = some v }
set_text realm v f = record f { realm = some v }
set_text tnd_servers v f = record f { tnd_servers = some v }

abbrev pub set_int : IntFlag → ℤ → Flags → Flags
set_int keep_alive v f = record f { keep_alive = some v }
set_int login_timeout v f = record f { login_timeout = some v }
set_int logout_timeout v f = record f { logout_timeout = some v }
set_int retry_timer v f = record f { retry_timer = some v }
set_int start_delay v f = record f { start_delay = some v }

abbrev pub set_bool : BoolFlag → Bool → Flags → Flags
set_bool version v f = record f { version = v }
set_bool verbose v f = record f { verbose = some v }
set_bool notifications v f = record f { notifications = some v }

-- No flag is set.
abbrev pub unset : Flags
unset = record {
  config_file = none;
  version = false;
  service_url = none;
  realm = none;
  keep_alive = none;
  login_timeout = none;
  logout_timeout = none;
  retry_timer = none;
  tnd_servers = none;
  verbose = none;
  start_delay = none;
  notifications = none;
}

abbrev pub kind_of : Argument → Kind
kind_of (text_flag t) = valued
kind_of (int_flag i) = valued
kind_of (bool_flag b) = boolean

-- `strconv.ParseInt` of package flag, to the width of an int, is a parameter.
module _ (parse_int : String → Option ℤ) where
  abbrev pub set_argument : String → Flags → Argument → Option Flags
  set_argument v f (text_flag t) = some (set_text t v f)
  set_argument v f (int_flag i) = elim (parse_int v) [ none ↦ none | some z ↦ some (set_int i z f) ]
  set_argument v f (bool_flag b) = elim (parse_bool v) [
    | none ↦ none
    | some x ↦ some (set_bool b x f)
  ]

  -- `flags`
  abbrev pub agent_flags : FlagSet Flags
  agent_flags = record {
    kind = λ name. elim (find_argument name arguments) [ none ↦ none | some x ↦ some (kind_of x) ];
    set = λ name v f. elim (find_argument name arguments) [
      | none ↦ none
      | some x ↦ set_argument v f x
    ];
  }

  module _ (T : Tnd) (to_lower : String → String) (load : String → Loaded T.Conf) where
    abbrev pub config_of : Parsed Flags → Outcome T.Conf
    config_of (refused e) = not_parsed e
    config_of help_asked = help
    config_of (parsed f left) = get_config T to_lower load f

    -- `getConfig` of the arguments behind the name of the program. What is left behind the flags is
    -- not looked at.
    unfoldable pub config_from : List String → Outcome T.Conf
    config_from args = config_of (parse agent_flags args unset)
