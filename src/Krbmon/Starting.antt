-- ===== src/Krbmon/Starting.antt =====
-- Which ccache file is watched, and what becomes of the watcher.
use text.Mathlib.Text.{starts_with}
use text.Mathlib.TextLemmas.{append_assoc}
use text.Mathlib.TextPositions.{len-append, slice-append_right, starts_with-append}
use Prim.Native.String.{len, slice}
use fw_id_agent.Prelude.{
  ℕ, ◌+◌, ◌↔◌, ◌∙◌, if◌then◌else◌, String, ◌<>◌, str_eq, eq_iff, ◌≡◌, refl, ap, true, not, Option,
  none, some, List, [], ◌∷◌, arith, Bool, false, is_some, ◌⊎◌, inl, inr, Bool-cases,
}
use fw_id_agent.Krbmon.{Krb}
use fw_id_agent.Krbmon.Monitor.{
  Monitor, new_monitor, Input, file_event, file_error, events_closed, errors_closed, done, adopt,
  handle_file_event, watch, start,
}
use fw_id_agent.Krbmon.Files.{Loader, load_ccache}
use fw_id_agent.Krbmon.Start.{
  filename_of, create_env_var, credential_cache_filename, Watcher, Started, open_watcher,
  start_ccache, start_conf,
}

module _ (x : String) where
  file_starts : starts_with ("FILE:" <> x) "FILE:" ≡ true
  file_starts = starts_with-append "FILE:" x

  file_nonempty : str_eq ("FILE:" <> x) "" ≡ false
  file_nonempty = elim (Bool-cases (str_eq ("FILE:" <> x) "")) [
    | inl e ↦
        let empty : "FILE:" <> x ≡ "" = (eq_iff ("FILE:" <> x) "").0 e in
        let starts : starts_with "" "FILE:" ≡ true = rw empty at file_starts in cc
    | inr e ↦ e
  ]

  trim-append : slice ("FILE:" <> x) (len "FILE:") (len ("FILE:" <> x)) ≡ x
  trim-append = rw (len-append "FILE:" x) (slice-append_right "FILE:" x)

  filename_of-append : filename_of ("FILE:" <> x) ≡ some x
  unfolding filename_of
  filename_of-append = rw (file_nonempty, file_starts, trim-append) refl

filename_of_unset :
    (env v : String)
    → starts_with env "FILE:" ≡ false
    → (let env' = if str_eq env "" then v else env in
        filename_of (if not (starts_with env' "FILE:") then v else env'))
      ≡ filename_of v
filename_of_unset env v h = elim (Bool-cases (str_eq env "")) [
  | inl e ↦
      rw e (elim (Bool-cases (starts_with v "FILE:")) [ inl t ↦ rw t refl | inr t ↦ rw t refl ])
  | inr e ↦ rw (e, h) refl
]

-- The file of a variable KRB5CCNAME that begins with "FILE:" is what follows, also where nothing
-- follows; for any other value, and for none, it is that of the user's ID in /tmp or, where the ID is
-- not known, there is no file.
credential_cache_filename_lem :
    (env x u : String) (uid : Option String)
    → starts_with env "FILE:" ≡ false
    → (credential_cache_filename ("FILE:" <> x) uid ≡ some x)
      × (credential_cache_filename env (some u) ≡ some ("/tmp/krb5cc_" <> u))
      × (credential_cache_filename env none ≡ none)
unfolding credential_cache_filename filename_of create_env_var
credential_cache_filename_lem env x u uid h = (
  rw (file_nonempty x, file_starts x) (filename_of-append x),
  filename_of_unset env _ h
      ∙ (ap filename_of (append_assoc "FILE:" "/tmp/krb5cc_" u)
          ∙ filename_of-append ("/tmp/krb5cc_" <> u)),
  filename_of_unset env _ h ∙ refl,
)

-- The first of two errors.
abbrev pub first_error : Option String → Option String → Option String
first_error (some e) b = some e
first_error none b = b

-- How often a watcher was closed, by the goroutine or by none.
abbrev pub closings : {V : Type 0} → Option (Monitor V) → ℕ
closings none = 0
closings (some m) = m.watcher_closings

-- An input on which the loop returns.
abbrev pub exits : {F : Type 0} → List (Input F) → Bool
exits [] = false
exits (file_event name f ∷ is) = exits is
exits (file_error ∷ is) = exits is
exits (_ ∷ is) = true

-- With these answers to `NewWatcher` and to `Add`, and with the goroutine `m` over these inputs: the
-- first error is that of `Start`, the goroutine runs if and only if there is none, and every watcher
-- that was opened has been closed if and only if none was, or `Add` has succeeded and the loop has
-- returned.
pub record Outcome {F V : Type 0} (new_error add_error : Option String) (is : List (Input F))
    (m : Monitor V) (s : Started V) : Type 0 where
  pub fails : s.error ≡ first_error new_error add_error
  pub monitors : s.monitor ≡ (if is_some s.error then none else some m)
  pub balanced :
      (s.opened ≡ closings s.monitor)
      ↔ ((is_some new_error ≡ true) ⊎ (is_some add_error ≡ false) × (exits is ≡ true))

module _ {F V : Type 0} (deep_equal : V → Option V → Bool) (load : F → Option V) where
  handle-watcher_closings :
      (name : String) (f : F) (m : Monitor V)
      → (handle_file_event deep_equal load name f m).watcher_closings ≡ m.watcher_closings
  unfolding handle_file_event adopt
  handle-watcher_closings name f m = ground arith

  watch-watcher_closings :
      (is : List (Input F)) (m : Monitor V)
      → (watch deep_equal load is m).watcher_closings
        ≡ m.watcher_closings + (if exits is then 1 else 0)
  unfolding watch
  watch-watcher_closings [] m = ground arith
  watch-watcher_closings (file_event name f ∷ is) m =
      rw (watch, watch-watcher_closings is _, handle-watcher_closings name f m) refl
  watch-watcher_closings (file_error ∷ is) m = watch-watcher_closings is m
  watch-watcher_closings (events_closed ∷ is) m = refl
  watch-watcher_closings (errors_closed ∷ is) m = refl
  watch-watcher_closings (done ∷ is) m = refl

  start-watcher_closings :
      (file : String) (f : F) (is : List (Input F))
      → (start deep_equal load file f is).watcher_closings ≡ (if exits is then 1 else 0)
  unfolding start
  start-watcher_closings file f is =
      rw
        (
          start,
          watch-watcher_closings is (handle_file_event deep_equal load file f (new_monitor file)),
          handle-watcher_closings file f (new_monitor file),
        )
        (omega arith)

module _ {F V : Type 0} (w : Watcher) (dir : String) (is : List (Input F)) (m : Monitor V)
    (h : m.watcher_closings ≡ (if exits is then 1 else 0)) where
  open_watcher-Outcome : Outcome w.new_error (w.add_error dir) is m (open_watcher w dir m)
  unfolding open_watcher
  open_watcher-Outcome = record {
    fails = ground arith;
    monitors = ground arith;
    balanced = ground arith;
  }

module _ (K : Krb) (l : Loader K) (dir_of : String → String) (w : Watcher) where
  -- `Start` of each monitor returns the first error of `NewWatcher` and of `Add`, and its goroutine
  -- runs if and only if there is none. Behind it and any inputs, every watcher that was opened has
  -- been closed if and only if none was opened, or `Add` has succeeded and the loop has returned: what
  -- is opened before a failing `Add` stays open. The ccache monitor takes the file of the environment,
  -- if there is one.
  pub start_watches :
      (env file conf : String) (uid : Option String)
      → credential_cache_filename env uid ≡ some file
      → (b : Option (List ℕ)) (is : List (Input (Option (List ℕ)))) (c : Option K.Conf)
        (js : List (Input (Option K.Conf)))
      → Outcome w.new_error
          (w.add_error (dir_of file))
          is
          (start l.same_ccache (load_ccache K l) file b is)
          (start_ccache K l dir_of w env uid b is)
        × Outcome w.new_error
            (w.add_error (dir_of conf))
            js
            (start l.same_conf (λ o. o) conf c js)
            (start_conf K l dir_of w conf c js)
  unfolding start_ccache start_conf
  start_watches env file conf uid found b is c js = (
    rw (start_ccache, found)
        (open_watcher-Outcome w (dir_of file) is _
          (start-watcher_closings l.same_ccache (load_ccache K l) file b is)),
    open_watcher-Outcome w (dir_of conf) js _
        (start-watcher_closings l.same_conf (λ o. o) conf c js),
  )
