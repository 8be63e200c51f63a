-- ===== src/Krbmon/Updates.antt =====
-- Which updates the Kerberos monitors send.
use fw_id_agent.Prelude.{
  ℕ, String, str_eq, ◌≡◌, inl, inr, refl, sym, Bool, false, Option, none, some, List, [], ◌∷◌, ◌++◌,
  map, length, ltb, arith, All, All-append, Bool-cases, Option-cases,
}
use fw_id_agent.Krbmon.{Krb}
use fw_id_agent.Krbmon.Monitor.{
  Monitor, new_monitor, Input, file_event, file_error, events_closed, errors_closed, done, adopt,
  handle_file_event, watch, start,
}
use fw_id_agent.Krbmon.Files.{Loader, load_ccache, ccache_updates, conf_updates}

-- The last value of a list, or what was there before.
abbrev pub last_of : {V : Type 0} → Option V → List V → Option V
last_of o [] = o
last_of o (v ∷ vs) = last_of (some v) vs

-- Each value differs from the one before it; the first from what was there before.
abbrev pub Changes : {V : Type 0} → (V → Option V → Bool) → Option V → List V → Type 0
Changes same o [] = Unit {0}
Changes same o (v ∷ vs) = (same v o ≡ false) × Changes same (some v) vs

Changes-append :
    {V : Type 0} (same : V → Option V → Bool) (o : Option V) (vs : List V) (v : V)
    → Changes same o vs
    → same v (last_of o vs) ≡ false
    → Changes same o (vs ++ (v ∷ []))
Changes-append same o [] v h e = (e, tt)
Changes-append same o (x ∷ xs) v h e = (h.0, Changes-append same (some x) xs v h.1 e)

last_of-append :
    {V : Type 0} (o : Option V) (vs : List V) (v : V) → last_of o (vs ++ (v ∷ [])) ≡ some v
last_of-append o [] v = refl
last_of-append o (x ∷ xs) v = last_of-append (some x) xs v

module _ {F V : Type 0} (same : V → Option V → Bool) (load : F → Option V) where
  -- The values sent so far change each time, the monitor holds the last, and each was loaded.
  pub record IsSteady (m : Monitor V) : Type 0 where
    pub changing : Changes same none m.sent
    pub holds_last : m.held ≡ last_of none m.sent
    pub loaded : All (λ v. (f : F) × (load f ≡ some v)) m.sent

  adopt-IsSteady :
      (f : F) (v : V) (m : Monitor V) → load f ≡ some v → IsSteady m → IsSteady (adopt same v m)
  unfolding adopt
  adopt-IsSteady f v m e h = elim (Bool-cases (same v m.held)) [
    | inl s ↦ rw s h
    | inr d ↦ rw d (record {
      changing = Changes-append same none m.sent v h.changing (rw h.holds_last at d);
      holds_last = sym (last_of-append none m.sent v);
      loaded = All-append _ m.sent v h.loaded (f, e);
    })
  ]

  handle-IsSteady :
      (name : String) (f : F) (m : Monitor V)
      → IsSteady m
      → IsSteady (handle_file_event same load name f m)
  unfolding handle_file_event
  handle-IsSteady name f m h = elim (Bool-cases (str_eq name m.file)) [
    | inr n ↦ rw n h
    | inl y ↦ rw y (elim (Option-cases (load f)) [
      | inl e ↦ rw e h
      | inr (v, e) ↦ rw e (adopt-IsSteady f v m e h)
    ])
  ]

  pub watch-IsSteady :
      (is : List (Input F)) (m : Monitor V) → IsSteady m → IsSteady (watch same load is m)
  unfolding watch
  watch-IsSteady [] m h = h
  watch-IsSteady (file_event name f ∷ is) m h =
      watch-IsSteady is (handle_file_event same load name f m) (handle-IsSteady name f m h)
  watch-IsSteady (file_error ∷ is) m h = watch-IsSteady is m h
  watch-IsSteady (events_closed ∷ is) m h = record {
    changing = h.changing;
    holds_last = h.holds_last;
    loaded = h.loaded;
  }
  watch-IsSteady (errors_closed ∷ is) m h = record {
    changing = h.changing;
    holds_last = h.holds_last;
    loaded = h.loaded;
  }
  watch-IsSteady (done ∷ is) m h = record {
    changing = h.changing;
    holds_last = h.holds_last;
    loaded = h.loaded;
  }

  -- A monitor sends only values that could be loaded, and never one that deeply equals the value
  -- sent before; it holds the last value that it sent. This holds after any events, errors of the
  -- watcher and closings of its channels.
  pub start-IsSteady :
      (file : String) (f : F) (is : List (Input F)) → IsSteady (start same load file f is)
  unfolding start
  start-IsSteady file f is = watch-IsSteady is _ (
      handle-IsSteady file f (new_monitor file)
        (record { changing = tt; holds_last = refl; loaded = tt }))

All-map :
    {A B : Type 0} (P : A → Type 0) (Q : B → Type 0) (g : A → B) (l : List A)
    → ((a : A) → P a → Q (g a))
    → All P l
    → All Q (map g l)
All-map P Q g [] h p = tt
All-map P Q g (a ∷ l) h p = (h a p.0, All-map P Q g l h p.1)

module _ (K : Krb) (l : Loader K) where
  -- A ccache that was unmarshalled from the bytes of a file, at least 69 of them.
  abbrev pub FromFile : K.CCache → Type 0
  FromFile c = (b : List ℕ) × (l.unmarshal b ≡ some c) × (ltb (length b) 69 ≡ false)

  load_ccache-FromFile :
      (f : Option (List ℕ)) (c : K.CCache) → load_ccache K l f ≡ some c → FromFile c
  unfolding load_ccache
  load_ccache-FromFile none c e = cc
  load_ccache-FromFile (some b) c e = (b, ground arith, ground arith)

  -- After any events, every update of the ccache monitor holds a ccache, which was unmarshalled from
  -- a file of at least 69 bytes; and every update of the Kerberos configuration monitor holds a
  -- configuration, which was loaded.
  updates_hold :
      (file conf : String) (b : Option (List ℕ)) (is : List (Input (Option (List ℕ))))
      (c : Option K.Conf) (js : List (Input (Option K.Conf)))
      → All (λ u. (x : K.CCache) × (u.ccache ≡ some x) × FromFile x) (ccache_updates K l file b is)
        × All (λ u. (x : K.Conf) × (u.config ≡ some x)) (conf_updates K l conf c js)
  unfolding ccache_updates conf_updates
  updates_hold file conf b is c js = (
    All-map (λ x. (f : Option (List ℕ)) × (load_ccache K l f ≡ some x)) _ _ _
        (λ x h. (x, refl, load_ccache-FromFile h.0 x h.1))
        (start-IsSteady l.same_ccache (load_ccache K l) file b is).loaded,
    All-map (λ x. (f : Option K.Conf) × (f ≡ some x)) _ _ _ (λ x h. (x, refl))
        (start-IsSteady l.same_conf (λ o. o) conf c js).loaded,
  )
