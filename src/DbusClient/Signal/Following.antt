-- ===== src/DbusClient/Signal/Following.antt =====
-- What the goroutine of `Subscribe` makes of the signals.
use mathlib.Core.List.{append-nil, append_assoc}
use fw_id_agent.Prelude.{
  String, ◌≡◌, ◌≢◌, ◌⊎◌, inl, inr, refl, ◌∙◌, ap, none, List, [], ◌∷◌, ◌++◌, arith, All,
}
use fw_id_agent.Config.{Tnd}
use fw_id_agent.Status.{Status, copy}
use fw_id_agent.Dbusapi.{path, interface}
use fw_id_agent.DbusClient.Update.{Bus, update_status}
use fw_id_agent.DbusClient.Signal.{
  Item, text_item, map_item, Signal, Handled, panicked, ignored, updated, handle_properties_changed,
  follows, follow, subscription,
}

-- The body has the three parts that the D-Bus specification gives a `PropertiesChanged` signal.
abbrev pub HasParts : {V : Type 0} → List (Item V) → Type 0
HasParts (x ∷ y ∷ z ∷ rest) = Unit {0}
HasParts _ = ⊥

abbrev pub properties_changed : String
properties_changed = "org.freedesktop.DBus.Properties.PropertiesChanged"

module _ {C : Type 0} (B : Bus C) where
  open B use {Variant}

  -- A signal of the right path and name whose body ends too early makes `handlePropertiesChanged`
  -- panic: with an empty body, with the interface alone, and with the interface and properties that
  -- can all be stored.
  pub short_body_panics :
      (s : Status C) (ps qs : List (String × Variant))
      → (update_status B ps qs s).0 ≡ none
      → let signal : List (Item Variant) → Signal Variant =
          λ b. record { path = path; name = properties_changed; body = b } in
        (handle_properties_changed B (signal []) s ≡ panicked)
        × (handle_properties_changed B (signal (text_item interface ∷ [])) s ≡ panicked)
        × (handle_properties_changed B (signal (text_item interface ∷ map_item ps qs ∷ [])) s
            ≡ panicked)
  unfolding handle_properties_changed
  short_body_panics s ps qs h = (refl, refl, ground arith)

  pub Handled-cases :
      (r : Handled C) → (r ≡ panicked) ⊎ ((r ≡ ignored) ⊎ ((u : Status C) × (r ≡ updated u)))
  Handled-cases panicked = inl refl
  Handled-cases ignored = inr (inl refl)
  Handled-cases (updated u) = inr (inr (u, refl))

  pub not_panicked :
      (s : Signal Variant) (t : Status C) (b : List (Item Variant))
      → s.body ≡ b
      → HasParts b
      → handle_properties_changed B s t ≢ panicked
  unfolding handle_properties_changed
  not_panicked s t [] e h p = h
  not_panicked s t (x ∷ []) e h p = h
  not_panicked s t (x ∷ y ∷ []) e h p = h
  not_panicked s t (x ∷ y ∷ z ∷ rest) e h p = ground arith

module _ (T : Tnd) where
  -- A copy of the last status of a list, or the one given.
  abbrev pub last_copy : Status T.Conf → List (Status T.Conf) → Status T.Conf
  last_copy s [] = s
  last_copy s (u ∷ us) = last_copy (copy T u) us

-- The signals in order, each either not taken, and then without effect on the current status, or
-- taken: the update made from a copy of the current status is sent, and a copy of it is current.
pub data Updates (T : Tnd) (B : Bus T.Conf)
    : List (Signal B.Variant) → Status T.Conf → List (Status T.Conf) → Type 0 where
  none_left : {s : Status T.Conf} → Updates T B [] s []
  skip :
      {x : Signal B.Variant} {ss : List (Signal B.Variant)} {s : Status T.Conf}
      {us : List (Status T.Conf)}
      → handle_properties_changed B x (copy T s) ≡ ignored
      → Updates T B ss s us
      → Updates T B (x ∷ ss) s us
  take :
      {x : Signal B.Variant} {ss : List (Signal B.Variant)} {s u : Status T.Conf}
      {us : List (Status T.Conf)}
      → handle_properties_changed B x (copy T s) ≡ updated u
      → Updates T B ss (copy T u) us
      → Updates T B (x ∷ ss) s (u ∷ us)

module _ (T : Tnd) (B : Bus T.Conf) where
  open B use {Variant}

  pub last_copy-append :
      (s u : Status T.Conf) (us : List (Status T.Conf)) → last_copy T s (us ++ (u ∷ [])) ≡ copy T u
  last_copy-append s u [] = refl
  last_copy-append s u (v ∷ us) = last_copy-append (copy T v) u us

  pub skip_last :
      {ss : List (Signal Variant)} {s : Status T.Conf} {us : List (Status T.Conf)}
      (x : Signal Variant)
      → Updates T B ss s us
      → handle_properties_changed B x (copy T (last_copy T s us)) ≡ ignored
      → Updates T B (ss ++ (x ∷ [])) s us
  skip_last x none_left h = skip h none_left
  skip_last x (skip e c) h = skip e (skip_last x c h)
  skip_last x (take e c) h = take e (skip_last x c h)

  pub take_last :
      {ss : List (Signal Variant)} {s : Status T.Conf} {us : List (Status T.Conf)}
      (x : Signal Variant) (u : Status T.Conf)
      → Updates T B ss s us
      → handle_properties_changed B x (copy T (last_copy T s us)) ≡ updated u
      → Updates T B (ss ++ (x ∷ [])) s (us ++ (u ∷ []))
  take_last x u none_left h = take h none_left
  take_last x u (skip e c) h = skip e (take_last x u c h)
  take_last x u (take e c) h = take e (take_last x u c h)

  follow_lem :
      (ss : List (Signal Variant)) (sent : List (Status T.Conf)) (s : Status T.Conf)
      → All (λ x. HasParts x.body) ss
      → (us : List (Status T.Conf)) × (follow T B ss sent s
          ≡ follows (sent ++ us) (last_copy T s us))
        × Updates T B ss s us
  unfolding follow
  follow_lem [] sent s h = ([], rw append-nil, none_left)
  follow_lem (x ∷ ss) sent s h = elim (Handled-cases B (handle_properties_changed B x (copy T s))) [
    | inl p ↦ absurd (not_panicked B x (copy T s) x.body refl h.0 p)
    | inr (inl i) ↦
        let (us, rest, chain) = follow_lem ss sent s h.1 in (us, rw (i, follow) rest, skip i chain)
    | inr (inr (u, e)) ↦
        let (us, rest, chain) = follow_lem ss (sent ++ (u ∷ [])) (copy T u) h.1 in
        (
          u ∷ us,
          rw (e, follow)
              (rest
                ∙ ap (λ l. follows l (last_copy T (copy T u) us)) (append_assoc sent (u ∷ []) us)),
          take e chain,
        )
  ]

  -- Over signals whose bodies have three parts the goroutine does not panic. It has sent a copy of
  -- the initial status and then one update for each signal that is taken, in order; each is made from
  -- a copy of the status current at that time, so that what a signal that is not taken did is
  -- forgotten; and its current status is a copy of the last update, if there is one.
  pub subscription_lem :
      (ss : List (Signal Variant)) (s : Status T.Conf)
      → All (λ x. HasParts x.body) ss
      → (us : List (Status T.Conf)) × (subscription T B s ss
          ≡ follows (copy T s ∷ us) (last_copy T s us))
        × Updates T B ss s us
  unfolding subscription
  subscription_lem ss s h = follow_lem ss (copy T s ∷ []) s h
