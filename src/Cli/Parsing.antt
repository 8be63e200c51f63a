-- ===== src/Cli/Parsing.antt =====
-- internal/cli/cmd.go: `parseCommandLine`.
use fw_id_agent.Prelude.{
  String, str_eq, Bool, false, ◌||◌, Option, none, some, List, [], ◌∷◌, if◌then◌else◌,
}
use fw_id_agent.Flags.{boolean, FlagSet, Parsed, parsed, help_asked, refused, parse, parse_bool}

-- The variables `verbose` and `json`.
pub record Options : Type 0 where
  pub verbose : Bool
  pub json : Bool

abbrev pub initial : Options
initial = record { verbose = false; json = false }

abbrev set_verbose : Options → Option Bool → Option Options
set_verbose o none = none
set_verbose o (some b) = some (record o { verbose = b })

abbrev set_json : Options → Option Bool → Option Options
set_json o none = none
set_json o (some b) = some (record o { json = b })

-- `flags`, over the variable `ver`.
abbrev pub main_flags : FlagSet Bool
main_flags = record {
  kind = λ name. if str_eq name "version" then some boolean else none;
  set = λ name value ver. parse_bool value;
}

-- `statusCmd`
abbrev pub status_flags : FlagSet Options
status_flags = record {
  kind = λ name. if str_eq name "verbose" || str_eq name "json" then some boolean else none;
  set = λ name value o.
      if str_eq name "verbose"
      then set_verbose o (parse_bool value)
      else set_json o (parse_bool value);
}

-- The ways in which `parseCommandLine` returns: the variables `command`, `verbose` and `json`,
-- `ErrHelp` with the lines that it has printed, or an error.
pub data Line : Type 0 where
  accepted : String → Options → Line
  help : List String → Line
  rejected : String → Line

-- `flags.Arg(0)`
abbrev pub first : List String → String
first [] = ""
first (a ∷ args) = a

abbrev pub tail : List String → List String
tail [] = []
tail (a ∷ args) = args

-- The case of "status".
abbrev pub accept_status : Parsed Options → Line
accept_status (parsed o left) = accepted "status" o
accept_status help_asked = help []
accept_status (refused e) = rejected e

-- The switch on the command. `args` are all arguments behind the name of the program.
unfoldable pub select_command : List String → String → Options → Line
select_command args command o =
    if str_eq command "status"
    then accept_status (parse status_flags (tail args) o)
    else if str_eq command "monitor" || str_eq command "relogin"
    then accepted command o
    else rejected "unknown command"

-- Behind `flags.Parse`.
abbrev pub after_flags : String → List String → Options → Parsed Bool → Line
after_flags version args o (refused e) = rejected e
after_flags version args o help_asked = help []
after_flags version args o (parsed ver left) =
    if ver then help (version ∷ []) else select_command args (first left) o

-- `parseCommandLine` of the arguments behind the name of the program. The usage text, which goes to
-- the standard error, is left out.
unfoldable pub parse_command_line : String → List String → Options → Line
parse_command_line version args o = after_flags version args o (parse main_flags args false)
