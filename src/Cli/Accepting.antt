-- ===== src/Cli/Accepting.antt =====
-- The command lines that `parseCommandLine` accepts.
use fw_id_agent.Prelude.{
  String, ◌<>◌, ap, some, All, ◌≡◌, refl, ◌∙◌, ◌⊎◌, inl, inr, str_eq, eq_iff, Bool, true, false,
  Bool-cases, none, List, [], ◌∷◌, ◌++◌, map, arith,
}
use Prim.Native.String.append
use text.Mathlib.TextBridge.{of_list}
use fw_id_agent.Flags.{
  chars, shape_of, flag, act, go, Parsed, parsed, help_asked, refused, parse, parse_from,
  parse_bool,
}
use fw_id_agent.Cli.Parsing.{
  tail, first, after_flags, Options, accepted, main_flags, status_flags, accept_status,
  select_command, parse_command_line,
}

-- The two options of the status command.
pub data Name : Type 0 where
  verbose json : Name

-- An option as it is written, with one dash or two: alone, or with a text that stands for a Boolean.
pub data Dashes : Type 0 where
  one two : Dashes

pub data Setting : Type 0 where
  alone : Dashes → Name → Setting
  given : Dashes → Name → String → Bool → Setting

abbrev pub flag_text : Dashes → Name → String
flag_text one verbose = "-verbose"
flag_text two verbose = "--verbose"
flag_text one json = "-json"
flag_text two json = "--json"

abbrev pub write : Setting → String
write (alone d n) = flag_text d n
write (given d n v b) = flag_text d n <> ("=" <> v)

-- `strconv.ParseBool` reads the text as the Boolean.
abbrev pub IsReadable : Setting → Type 0
IsReadable (alone d n) = Unit {0}
IsReadable (given d n v b) = parse_bool v ≡ some b

abbrev pub assign : Name → Bool → Options → Options
assign verbose b o = record o { verbose = b }
assign json b o = record o { json = b }

abbrev pub set : Setting → Options → Options
set (alone d n) o = assign n true o
set (given d n v b) o = assign n b o

abbrev pub set_all : List Setting → Options → Options
set_all [] o = o
set_all (s ∷ ss) o = set_all ss (set s o)

of_list-chars : (v : String) → of_list (chars v) ≡ v
of_list-chars String.[] = refl
of_list-chars (String.◌∷◌ c s) = ap (String.◌∷◌ c) (of_list-chars s)

chars-append : (s t : String) → chars (s <> t) ≡ chars s ++ chars t
chars-append String.[] t = ap chars (append.nil t)
chars-append (String.◌∷◌ c s) t = ap chars (append.cons c s t) ∙ ap (λ l. c ∷ l) (chars-append s t)

abbrev name_text : Name → String
name_text verbose = "verbose"
name_text json = "json"

shape_given :
    (d : Dashes) (n : Name) (v : String) (b : Bool)
    → shape_of (chars (write (given d n v b))) ≡ flag (name_text n) (some v)
shape_given one verbose v b =
    rw (chars-append "-verbose" ("=" <> v), chars-append "=" v, of_list-chars v) refl
shape_given two verbose v b =
    rw (chars-append "--verbose" ("=" <> v), chars-append "=" v, of_list-chars v) refl
shape_given one json v b =
    rw (chars-append "-json" ("=" <> v), chars-append "=" v, of_list-chars v) refl
shape_given two json v b =
    rw (chars-append "--json" ("=" <> v), chars-append "=" v, of_list-chars v) refl

assign_given :
    (n : Name) (v : String) (b : Bool) (o : Options)
    → parse_bool v ≡ some b
    → act status_flags (name_text n) (some v) o ≡ go (assign n b o)
assign_given verbose v b o h = ground arith
assign_given json v b o h = ground arith

parse-given :
    (d : Dashes) (n : Name) (v : String) (b : Bool) (args : List String) (o : Options)
    → parse_bool v ≡ some b
    → parse_from status_flags none (write (given d n v b) ∷ args) o
      ≡ parse_from status_flags none args (assign n b o)
unfolding parse_from
parse-given d n v b args o h = rw (parse_from, shape_given d n v b, assign_given n v b o h) refl

parse-alone :
    (d : Dashes) (n : Name) (args : List String) (o : Options)
    → parse_from status_flags none (write (alone d n) ∷ args) o
      ≡ parse_from status_flags none args (assign n true o)
unfolding parse_from parse_bool
parse-alone one verbose args o = refl
parse-alone two verbose args o = refl
parse-alone one json args o = refl
parse-alone two json args o = refl

parse_settings :
    (ss : List Setting) (o : Options)
    → All IsReadable ss
    → parse_from status_flags none (map write ss) o ≡ parsed (set_all ss o) []
unfolding parse_from
parse_settings [] o h = refl
parse_settings (alone d n ∷ ss) o h =
    parse-alone d n (map write ss) o ∙ parse_settings ss (assign n true o) h.1
parse_settings (given d n v b ∷ ss) o h =
    parse-given d n v b (map write ss) o h.0 ∙ parse_settings ss (assign n b o) h.1

-- The command "status" is accepted with its options "verbose" and "json" behind it, any number of them
-- in any order, each with one dash or two, and alone or with "=" and a text that `strconv.ParseBool`
-- reads; and each variable has the value that the last option for it gives, where one that stands
-- alone gives true, or its value before.
pub settings_taken :
    (version : String) (ss : List Setting) (o : Options)
    → All IsReadable ss
    → parse_command_line version ("status" ∷ map write ss) o ≡ accepted "status" (set_all ss o)
unfolding parse_command_line select_command parse parse_from
settings_taken version ss o h = rw (parse_settings ss o h) refl

-- Whether an argument alone is no command and asks for nothing.
abbrev pub IsIdle : String → Type 0
IsIdle p = parse main_flags (p ∷ []) false ≡ parsed false []

idle_parse :
    (p : String) (args : List String)
    → IsIdle p
    → parse_from main_flags none (p ∷ "status" ∷ args) false ≡ parsed false ("status" ∷ args)
unfolding parse parse_from
idle_parse p args h = ground arith

-- Behind an argument that is idle, such as "-version=false" or "--", the command "status" is
-- accepted with all that follows, and no option has an effect.
pub settings_lost :
    (version p : String) (args : List String) (o : Options)
    → IsIdle p
    → parse_command_line version (p ∷ "status" ∷ args) o ≡ accepted "status" o
unfolding parse_command_line select_command parse parse_from
settings_lost version p args o h = rw (parse_command_line, parse, idle_parse p args h) refl

-- One of the three commands, where only the command "status" takes options.
abbrev pub IsCommand : Options → String → Options → Type 0
IsCommand o command p =
    (command ≡ "status") ⊎ ((command ≡ "monitor") ⊎ (command ≡ "relogin")) × (p ≡ o)

accept_status-accepted :
    (r : Parsed Options) (command : String) (p : Options)
    → accept_status r ≡ accepted command p
    → command ≡ "status"
accept_status-accepted (parsed o left) command p h = ground arith
accept_status-accepted help_asked command p h = ground arith
accept_status-accepted (refused e) command p h = ground arith

select-IsCommand :
    (args : List String) (name : String) (o p : Options) (command : String)
    → select_command args name o ≡ accepted command p
    → IsCommand o command p
unfolding select_command
select-IsCommand args name o p command h = elim (Bool-cases (str_eq name "status")) [
  | inl e ↦
      let taken : accept_status (parse status_flags (tail args) o) ≡ accepted command p =
        rw e at h in
      inl (accept_status-accepted _ command p taken)
  | inr e ↦ ground (arith, eq_iff name "monitor", eq_iff name "relogin")
]

-- What is accepted is one of the three commands, and only the command "status" takes options.
pub parse_command_line-IsCommand :
    (version : String) (args : List String) (o p : Options) (command : String)
    → parse_command_line version args o ≡ accepted command p
    → IsCommand o command p
unfolding parse_command_line
parse_command_line-IsCommand version args o p command h = by_line (parse main_flags args false) h
  where
    by_line :
        (r : Parsed Bool)
        → after_flags version args o r ≡ accepted command p
        → IsCommand o command p
    by_line (parsed true left) e = ground arith
    by_line (parsed false left) e = select-IsCommand args (first left) o p command e
    by_line help_asked e = ground arith
    by_line (refused m) e = ground arith
