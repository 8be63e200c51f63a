-- ===== src/Flags.antt =====
-- What the commands use of Go's package flag: `FlagSet.Parse` with `ContinueOnError`.
use Prim.Native.Char.{Char, code}
use text.Mathlib.TextBridge.{of_list}
use fw_id_agent.Prelude.{
  String, ◌<>◌, ◌==◌, str_eq, Bool, true, false, not, ◌||◌, Option, none, some, List, [], ◌∷◌,
  if◌then◌else◌,
}

-- The characters of a text.
abbrev pub chars : String → List Char
chars String.[] = []
chars (String.◌∷◌ c s) = c ∷ chars s

-- What an argument is for `parseOne`: no flag, "--", no valid flag, or the name of a flag with the
-- value behind "=", if it has one.
pub data Shape : Type 0 where
  plain terminator malformed : Shape
  flag : String → Option String → Shape

abbrev pub cons_name : Char → List Char × Option String → List Char × Option String
cons_name c (name, value) = (c ∷ name, value)

-- The loop of `parseOne` that looks for "=".
abbrev pub cut_value : List Char → List Char × Option String
cut_value [] = ([], none)
cut_value (c ∷ cs) =
    let rest = cut_value cs in if code c == b'=' then ([], some (of_list cs)) else cons_name c rest

abbrev pub named : List Char → Shape
named [] = malformed
named (c ∷ cs) =
    if code c == b'-' || code c == b'='
    then malformed
    else (let rest = cons_name c (cut_value cs) in flag (of_list rest.0) rest.1)

abbrev pub shape_of : List Char → Shape
shape_of [] = plain
shape_of (c ∷ []) = plain
shape_of (c ∷ d ∷ []) =
    if not (code c == b'-') then plain else if code d == b'-' then terminator else named (d ∷ [])
shape_of (c ∷ d ∷ e ∷ cs) =
    if not (code c == b'-')
    then plain
    else if code d == b'-'
    then named (e ∷ cs)
    else named (d ∷ e ∷ cs)

-- A defined flag needs a value or, if it is Boolean, none.
pub data Kind : Type 0 where
  boolean valued : Kind

-- A flag set over the variables `S`: the kind of each flag that is defined, and `Value.Set`, which
-- fails on a text that is no value of the flag.
pub record FlagSet (S : Type 0) : Type 0 where
  pub kind : String → Option Kind
  pub set : String → String → S → Option S

-- The ways in which `Parse` returns: the variables with the arguments left, `ErrHelp`, or an error.
pub data Parsed (S : Type 0) : Type 0 where
  parsed : S → List String → Parsed S
  help_asked : Parsed S
  refused : String → Parsed S

-- The action that a flag asks for: set the variable and go on, or wait for the next argument.
pub data Action (S : Type 0) : Type 0 where
  go : S → Action S
  wait : Action S
  stop : Parsed S → Action S

module _ {S : Type 0} (F : FlagSet S) where
  abbrev pub assign : String → String → S → Action S
  assign name value s = elim (F.set name value s) [
    | none ↦ stop (refused ("invalid value for flag -" <> name))
    | some t ↦ go t
  ]

  abbrev pub act : String → Option String → S → Action S
  act name value s = elim (F.kind name) [
    | none ↦
        if str_eq name "help" || str_eq name "h"
        then stop help_asked
        else stop (refused ("flag provided but not defined: -" <> name))
    | some boolean ↦ elim value [ some v ↦ assign name v s | none ↦ assign name "true" s ]
    | some valued ↦ elim value [ some v ↦ assign name v s | none ↦ wait ]
  ]

  -- The loop of `Parse`. A flag that still needs its value is passed on to the next argument.
  unfoldable pub parse_from : Option String → List String → S → Parsed S
  parse_from none [] s = parsed s []
  parse_from (some name) [] s = refused ("flag needs an argument: -" <> name)
  parse_from (some name) (a ∷ args) s = elim (assign name a s) [
    | go t ↦ parse_from none args t
    | wait ↦ refused ""
    | stop r ↦ r
  ]
  parse_from none (a ∷ args) s = elim (shape_of (chars a)) [
    | plain ↦ parsed s (a ∷ args)
    | terminator ↦ parsed s args
    | malformed ↦ refused ("bad flag syntax: " <> a)
    | flag name value ↦ elim (act name value s) [
      | go t ↦ parse_from none args t
      | wait ↦ parse_from (some name) args s
      | stop r ↦ r
    ]
  ]

  -- `Parse`
  unfoldable pub parse : List String → S → Parsed S
  unfolding parse_from
  parse args s = parse_from none args s

-- `strconv.ParseBool`
unfoldable pub parse_bool : String → Option Bool
parse_bool v =
    if str_eq v "1"
      || str_eq v "t"
      || str_eq v "T"
      || str_eq v "true"
      || str_eq v "TRUE"
      || str_eq v "True"
    then some true
    else if str_eq v "0"
        || str_eq v "f"
        || str_eq v "F"
        || str_eq v "false"
        || str_eq v "FALSE"
        || str_eq v "False"
    then some false
    else none
