-- ===== src/AgentCmd/Servers.antt =====
-- The servers on the command line are read as they are written.
use Prim.Native.Char.{Char, code}
use text.Mathlib.TextBridge.{to_list, of_list, to_list-of_list}
use fw_id_agent.Prelude.{
  ℕ, String, eq_iff, str_eq, ◌==◌, ◌≡◌, ◌≢◌, refl, ◌∙◌, ap, sym, true, false, none, some, List, [],
  ◌∷◌, ◌++◌, map, arith, Bool-cases, inl, inr,
}
use fw_id_agent.Config.{TndHttpsConfig}
use fw_id_agent.AgentCmd.{
  comma, colon, split, cut_last, server_of, parse_server, parse_all, parse_tnd_servers,
}

-- No character is the one with the code `n`.
abbrev pub Lacks : ℕ → List Char → Type 0
Lacks n [] = Unit {0}
Lacks n (c ∷ cs) = ((code c == n) ≡ false) × Lacks n cs

Lacks-append : (n : ℕ) (l m : List Char) → Lacks n l → Lacks n m → Lacks n (l ++ m)
Lacks-append n [] m h k = k
Lacks-append n (c ∷ cs) m h k = (h.0, Lacks-append n cs m h.1 k)

split_lacking : (n : ℕ) (w : List Char) → Lacks n w → split n w ≡ w ∷ []
unfolding split
split_lacking n [] h = refl
split_lacking n (c ∷ cs) h = ground (arith, split_lacking n cs h.1)

split-append :
    (n : ℕ) (w : List Char) (c : Char) (rest : List Char)
    → Lacks n w
    → (code c == n) ≡ true
    → split n (w ++ (c ∷ rest)) ≡ w ∷ split n rest
unfolding split
split-append n [] c rest h k = ground arith
split-append n (x ∷ xs) c rest h k = ground (arith, split-append n xs c rest h.1 k)

cut_last_lacking : (n : ℕ) (w : List Char) → Lacks n w → cut_last n w ≡ none
unfolding cut_last
cut_last_lacking n [] h = refl
cut_last_lacking n (c ∷ cs) h = ground (arith, cut_last_lacking n cs h.1)

cut_last-append :
    (n : ℕ) (u : List Char) (c : Char) (w : List Char)
    → (code c == n) ≡ true
    → Lacks n w
    → cut_last n (u ++ (c ∷ w)) ≡ some (u, w)
unfolding cut_last
cut_last-append n [] c w k h = ground (arith, cut_last_lacking n w h)
cut_last-append n (x ∷ xs) c w k h = ground (arith, cut_last-append n xs c w k h)

append-nonempty : (l : List Char) (c : Char) (m : List Char) → l ++ (c ∷ m) ≢ []
append-nonempty [] c m e = cc
append-nonempty (x ∷ xs) c m e = cc

of_list-nonempty : (l : List Char) → l ≢ [] → str_eq (of_list l) "" ≡ false
of_list-nonempty l h = elim (Bool-cases (str_eq (of_list l) "")) [
  | inl e ↦
      let same = ap to_list ((eq_iff (of_list l) "").0 e) in
      absurd (h (sym (to_list-of_list l) ∙ (same ∙ to_list-of_list [])))
  | inr e ↦ e
]

-- A server as it is written: no comma, no colon in the hash, and a hash that is not empty.
pub record Written : Type 0 where
  pub url : List Char
  pub first : Char
  pub others : List Char
  pub url_lacks : Lacks comma url
  pub hash_lacks : Lacks comma (first ∷ others)
  pub hash_plain : Lacks colon (first ∷ others)

abbrev pub comma_char : Char
comma_char = ","

abbrev pub colon_char : Char
colon_char = ":"

module _ (to_lower : String → String) where
  abbrev pub write : Written → List Char
  write w = w.url ++ (colon_char ∷ w.first ∷ w.others)

  -- The servers in one text, separated by commas.
  abbrev pub write_all : Written → List Written → List Char
  write_all w [] = write w
  write_all w (v ∷ vs) = write w ++ (comma_char ∷ write_all v vs)

  abbrev pub server : Written → TndHttpsConfig
  server w = server_of to_lower w.url (w.first ∷ w.others)

  write-Lacks : (w : Written) → Lacks comma (write w)
  write-Lacks w = Lacks-append comma w.url _ w.url_lacks (refl, w.hash_lacks)

  parse-write : (w : Written) → parse_server to_lower (write w) ≡ some (server w)
  unfolding parse_server
  parse-write w =
      ground (arith, cut_last-append colon w.url colon_char (w.first ∷ w.others) refl w.hash_plain)

  parse_all-write_all :
      (w : Written) (vs : List Written)
      → parse_all to_lower (split comma (write_all w vs)) ≡ some (map server (w ∷ vs))
  unfolding parse_all
  parse_all-write_all w [] =
      rw (split_lacking comma (write w) (write-Lacks w)) (ground (arith, parse-write w))
  parse_all-write_all w (v ∷ vs) =
      rw (split-append comma (write w) comma_char (write_all v vs) (write-Lacks w) refl)
        (ground (arith, parse-write w, parse_all-write_all v vs))

  write_all-nonempty : (w : Written) (vs : List Written) → write_all w vs ≢ []
  write_all-nonempty w [] = append-nonempty w.url colon_char _
  write_all-nonempty w (v ∷ vs) = append-nonempty (write w) comma_char _

  -- Any servers that are written with a colon before the hash and a comma between two servers, where
  -- no URL has a comma and no hash is empty or has a comma or a colon, are read as these servers, in
  -- order, each hash in lower case.
  pub parse-written :
      (w : Written) (vs : List Written)
      → parse_tnd_servers to_lower (of_list (write_all w vs)) ≡ some (map server (w ∷ vs))
  unfolding parse_tnd_servers
  parse-written w vs =
      rw (of_list-nonempty (write_all w vs) (write_all-nonempty w vs), to_list-of_list)
        (parse_all-write_all w vs)
