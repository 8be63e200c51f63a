-- ===== src/Tracking/Follow.antt =====
-- What a client's goroutine makes of the signals of many property updates.
use mathlib.Core.Path.{subst}
use fw_id_agent.Prelude.{
  String, str_eq, eq_iff, ◌≡◌, ◌≢◌, refl, inl, inr, ◌∙◌, sym, ap, Option, none, some, List, [], ◌∷◌,
  ◌++◌, map, arith, Bool-cases,
}
use fw_id_agent.Config.{Tnd}
use fw_id_agent.Status.{Status, copy}
use fw_id_agent.Dbusapi.{Value}
use fw_id_agent.Dbusapi.Service.{Update}
use fw_id_agent.Agent.State.{Effect, set_property, latest}
use fw_id_agent.DbusClient.Update.{
  got, failed, Bus, Name, config, trusted_network, login_state, last_keep_alive, tgt_start, tgt_end,
  other, name_of, Change, apply, decode, apply_all, update_status,
}
use fw_id_agent.DbusClient.Update.Atomic.{Try-cases}
use fw_id_agent.DbusClient.Update.Order.{text_of, text_of-name_of}
use fw_id_agent.DbusClient.Signal.{
  follows, ignored, updated, handle_properties_changed, invalidate, follow,
}
use fw_id_agent.Tracking.{Carries, updates_of, signal_of, see, see_all}
use fw_id_agent.Tracking.Fields.{field, Fits, field-see, field-see_other, see_got, see_failed}

module _ (T : Tnd) (B : Bus T.Conf) (w : Carries B) where
  open B use {Variant}

  handle-signal_of_got :
      (u : Update) (s : Status T.Conf) (c : Change T.Conf)
      → decode B (name_of u.name) (w.variant u.value) ≡ got c
      → handle_properties_changed B (signal_of T B w u) s ≡ updated (apply c s)
  unfolding handle_properties_changed update_status apply_all invalidate
  handle-signal_of_got u s c e = ground (arith, e)

  handle-signal_of_failed :
      (u : Update) (s : Status T.Conf) (m : String)
      → decode B (name_of u.name) (w.variant u.value) ≡ failed m
      → handle_properties_changed B (signal_of T B w u) s ≡ ignored
  unfolding handle_properties_changed update_status apply_all
  handle-signal_of_failed u s m e = ground (arith, e)

  -- The goroutine keeps the status that `see_all` gives.
  pub follow-signal_of :
      (us : List Update) (sent : List (Status T.Conf)) (s : Status T.Conf)
      → (l : List (Status T.Conf)) × (follow T B (map (signal_of T B w) us) sent s
          ≡ follows l (see_all T B w s us))
  unfolding follow see_all
  follow-signal_of [] sent s = (sent, refl)
  follow-signal_of (u ∷ us) sent s =
      elim (Try-cases (decode B (name_of u.name) (w.variant u.value))) [
        | inl (m, bad) ↦
            let (l, rest) = follow-signal_of us sent s in
            (
              l,
              rw (follow, handle-signal_of_failed u (copy T s) m bad, see_failed T B w u s m bad)
                  rest,
            )
        | inr (c, good) ↦
            let (l, rest) =
              follow-signal_of us (sent ++ (apply c (copy T s) ∷ []))
                (copy T (apply c (copy T s))) in
            (
              l,
              rw (follow, handle-signal_of_got u (copy T s) c good, see_got T B w u s c good) rest,
            )
      ]

  pub see_all-append :
      (us vs : List Update) (s : Status T.Conf)
      → see_all T B w s (us ++ vs) ≡ see_all T B w (see_all T B w s us) vs
  unfolding see_all
  see_all-append [] vs s = refl
  see_all-append (u ∷ us) vs s = see_all-append us vs (see T B w s u)

name_of-text_of : (q : Name) → name_of (text_of q) ≡ q
name_of-text_of config = refl
name_of-text_of trusted_network = refl
name_of-text_of login_state = refl
name_of-text_of last_keep_alive = refl
name_of-text_of tgt_start = refl
name_of-text_of tgt_end = refl
name_of-text_of other = refl

-- A value that fits, if there is one.
abbrev pub FitsIf : Name → Option Value → Type 0
FitsIf q none = Unit {0}
FitsIf q (some v) = Fits q v

abbrev pub or_else : Value → Option Value → Value
or_else d none = d
or_else d (some v) = v

module _ (T : Tnd) (B : Bus T.Conf) (w : Carries B) (q : Name) (named : q ≢ other)
    (s : Status T.Conf) where
  see_hit :
      (u : Update) (t : Status T.Conf)
      → name_of u.name ≡ q
      → Fits q u.value
      → field q (see T B w t u) ≡ u.value
  see_hit u t e h =
      subst (λ r. field r (see T B w t u) ≡ u.value) e
        (field-see T B w u t (subst (λ r. Fits r u.value) (sym e) h))

  -- The field shows the value to which its property was last set, or what it was before.
  pub field-see_all :
      (es : List Effect)
      → FitsIf q (latest (text_of q) es)
      → field q (see_all T B w s (updates_of es)) ≡ or_else (field q s) (latest (text_of q) es)
  unfolding see_all
  field-see_all [] h = refl
  field-see_all (set_property p v ∷ es) h =
      let u : Update = record { name = p; value = v } in
      let before = see_all T B w s (updates_of es) in
      let last = ap (field q) (see_all-append T B w (updates_of es) (u ∷ []) s) in
      elim (Bool-cases (str_eq p (text_of q))) [
        | inl hit ↦
            let named_so = ap name_of ((eq_iff p (text_of q)).0 hit) ∙ name_of-text_of q in
            rw hit (last ∙ see_hit u before named_so (rw hit at h))
        | inr miss ↦
            let apart : name_of p ≢ q = λ e.
              let same = text_of-name_of p (λ o. named (sym e ∙ o)) ∙ ap text_of e in
              let hit = (eq_iff p (text_of q)).1 same in cc in
            rw miss
              (last ∙ (field-see_other T B w q u before apart ∙ field-see_all es (rw miss at h)))
      ]
  field-see_all (_ ∷ es) h = field-see_all es h
