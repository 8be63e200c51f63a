-- ===== src/AgentCmd/Written.antt =====
-- Arguments that are written out, and what `getConfig` makes of them.
use fw_id_agent.Prelude.{
  ℤ, String, ◌<>◌, ◌≡◌, refl, ◌∙◌, ap, Bool, true, false, Option, none, some, List, [], ◌∷◌, ◌++◌,
  All, str_eq, if◌then◌else◌,
}
use fw_id_agent.Config.{Tnd}
use fw_id_agent.Flags.{parsed, parse, parse_from, parse_bool}
use fw_id_agent.AgentCmd.{Flags, Loaded, get_config}
use fw_id_agent.AgentCmd.Arguments.{
  TextFlag, config_file, service_url, realm, tnd_servers, IntFlag, keep_alive, login_timeout,
  logout_timeout, retry_timer, start_delay, BoolFlag, version, verbose, notifications, text_name,
  int_name, bool_name, set_text, set_int, set_bool, unset, agent_flags, config_from,
}

-- A flag with its value: any text, an integer with its text, or a Boolean.
pub data Written : Type 0 where
  text : TextFlag → String → Written
  int : IntFlag → String → ℤ → Written
  bool : BoolFlag → Bool → Written

abbrev pub bool_text : Bool → String
bool_text true = "=true"
bool_text false = "=false"

abbrev pub write : Written → List String
write (text t v) = ("-" <> text_name t) ∷ v ∷ []
write (int i v z) = ("-" <> int_name i) ∷ v ∷ []
write (bool b x) = ("--" <> (bool_name b <> bool_text x)) ∷ []

abbrev pub write_all : List Written → List String
write_all [] = []
write_all (g ∷ gs) = write g ++ write_all gs

-- The last value that is written for a flag, or the one before.
abbrev pub last_text : TextFlag → List Written → Option String → Option String
last_text t [] o = o
last_text t (text u v ∷ gs) o =
    last_text t gs (if str_eq (text_name u) (text_name t) then some v else o)
last_text t (_ ∷ gs) o = last_text t gs o

abbrev pub last_int : IntFlag → List Written → Option ℤ → Option ℤ
last_int i [] o = o
last_int i (int k v z ∷ gs) o =
    last_int i gs (if str_eq (int_name k) (int_name i) then some z else o)
last_int i (_ ∷ gs) o = last_int i gs o

abbrev pub last_bool : {A : Type 0} → (Bool → A) → BoolFlag → List Written → A → A
last_bool f b [] o = o
last_bool f b (bool c x ∷ gs) o =
    last_bool f b gs (if str_eq (bool_name c) (bool_name b) then f x else o)
last_bool f b (_ ∷ gs) o = last_bool f b gs o

-- The flags with the values that are written.
abbrev pub given_flags : List Written → Flags → Flags
given_flags gs f = record {
  config_file = last_text config_file gs f.config_file;
  version = last_bool (λ x. x) version gs f.version;
  service_url = last_text service_url gs f.service_url;
  realm = last_text realm gs f.realm;
  keep_alive = last_int keep_alive gs f.keep_alive;
  login_timeout = last_int login_timeout gs f.login_timeout;
  logout_timeout = last_int logout_timeout gs f.logout_timeout;
  retry_timer = last_int retry_timer gs f.retry_timer;
  tnd_servers = last_text tnd_servers gs f.tnd_servers;
  verbose = last_bool some verbose gs f.verbose;
  start_delay = last_int start_delay gs f.start_delay;
  notifications = last_bool some notifications gs f.notifications;
}

module _ (parse_int : String → Option ℤ) where
  -- The text of an integer is read as the integer.
  abbrev pub IsReadable : Written → Type 0
  IsReadable (int i v z) = parse_int v ≡ some z
  IsReadable g = Unit {0}

  parse-text :
      (t : TextFlag) (v : String) (args : List String) (f : Flags)
      → parse_from (agent_flags parse_int) none (write (text t v) ++ args) f
        ≡ parse_from (agent_flags parse_int) none args (set_text t v f)
  unfolding parse_from
  parse-text config_file v args f = refl
  parse-text service_url v args f = refl
  parse-text realm v args f = refl
  parse-text tnd_servers v args f = refl

  parse-int :
      (i : IntFlag) (v : String) (z : ℤ) (args : List String) (f : Flags)
      → parse_int v ≡ some z
      → parse_from (agent_flags parse_int) none (write (int i v z) ++ args) f
        ≡ parse_from (agent_flags parse_int) none args (set_int i z f)
  unfolding parse_from
  parse-int keep_alive v z args f h = rw (parse_from, h) refl
  parse-int login_timeout v z args f h = rw (parse_from, h) refl
  parse-int logout_timeout v z args f h = rw (parse_from, h) refl
  parse-int retry_timer v z args f h = rw (parse_from, h) refl
  parse-int start_delay v z args f h = rw (parse_from, h) refl

  parse-bool :
      (b : BoolFlag) (x : Bool) (args : List String) (f : Flags)
      → parse_from (agent_flags parse_int) none (write (bool b x) ++ args) f
        ≡ parse_from (agent_flags parse_int) none args (set_bool b x f)
  unfolding parse_from parse_bool
  parse-bool version true args f = refl
  parse-bool version false args f = refl
  parse-bool verbose true args f = refl
  parse-bool verbose false args f = refl
  parse-bool notifications true args f = refl
  parse-bool notifications false args f = refl

  parse-write_all :
      (gs : List Written) (f : Flags)
      → All IsReadable gs
      → parse_from (agent_flags parse_int) none (write_all gs) f ≡ parsed (given_flags gs f) []
  unfolding parse_from
  parse-write_all [] f h = refl
  parse-write_all (text t v ∷ gs) f (h, hs) =
      parse-text t v (write_all gs) f
      ∙ (parse-write_all gs (set_text t v f) hs ∙ ap (λ g. parsed g []) (given-text t))
    where
      given-text : (u : TextFlag) → given_flags gs (set_text u v f) ≡ given_flags (text u v ∷ gs) f
      given-text config_file = refl
      given-text service_url = refl
      given-text realm = refl
      given-text tnd_servers = refl
  parse-write_all (int i v z ∷ gs) f (h, hs) =
      parse-int i v z (write_all gs) f h
      ∙ (parse-write_all gs (set_int i z f) hs ∙ ap (λ g. parsed g []) (given-int i))
    where
      given-int : (k : IntFlag) → given_flags gs (set_int k z f) ≡ given_flags (int k v z ∷ gs) f
      given-int keep_alive = refl
      given-int login_timeout = refl
      given-int logout_timeout = refl
      given-int retry_timer = refl
      given-int start_delay = refl
  parse-write_all (bool b x ∷ gs) f (h, hs) =
      parse-bool b x (write_all gs) f
      ∙ (parse-write_all gs (set_bool b x f) hs ∙ ap (λ g. parsed g []) (given-bool b))
    where
      given-bool : (c : BoolFlag) → given_flags gs (set_bool c x f) ≡ given_flags (bool c x ∷ gs) f
      given-bool version = refl
      given-bool verbose = refl
      given-bool notifications = refl

  -- Flags that are written in any order, where an argument behind its flag may be any text and that
  -- of an integer flag can be read, reach `getConfig` with their values, the last one if a flag is
  -- written again; a flag that is not written counts as not set.
  pub config_from-write_all :
      (T : Tnd) (to_lower : String → String) (load : String → Loaded T.Conf) (gs : List Written)
      → All IsReadable gs
      → config_from parse_int T to_lower load (write_all gs)
        ≡ get_config T to_lower load (given_flags gs unset)
  unfolding config_from parse
  config_from-write_all T to_lower load gs h = rw (parse-write_all gs unset h) refl
