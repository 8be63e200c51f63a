-- ===== src/Tracking/Fields.antt =====
-- What one signal does to each field of a client's status.
use fw_id_agent.Prelude.{String, ◌≡◌, ◌≢◌, refl, inl, inr, ◌∙◌, sym, ap, arith}
use fw_id_agent.Config.{Tnd}
use fw_id_agent.Status.{Status, copy}
use fw_id_agent.Dbusapi.{Value, text, uint32, int64}
use fw_id_agent.Dbusapi.Service.{Update}
use fw_id_agent.DbusClient.Update.{
  got, failed, Bus, Name, config, trusted_network, login_state, last_keep_alive, tgt_start, tgt_end,
  other, name_of, Change, set_trusted_network, set_login_state, set_last_keep_alive, set_tgt_start,
  set_tgt_end, apply, decode,
}
use fw_id_agent.DbusClient.Update.Atomic.{Try-cases}
use fw_id_agent.DbusClient.Update.Order.{target, target-decode}
use fw_id_agent.Tracking.{Carries, see}

-- The field of a status that a name stands for, as the value that D-Bus carries.
abbrev pub field : {C : Type 0} → Name → Status C → Value
field trusted_network s = uint32 s.trusted_network
field login_state s = uint32 s.login_state
field last_keep_alive s = int64 s.last_keep_alive
field tgt_start s = int64 s.kerberos_tgt.start_time
field tgt_end s = int64 s.kerberos_tgt.end_time
field config s = text ""
field other s = text ""

-- A value of the type of the field.
abbrev pub Fits : Name → Value → Type 0
Fits trusted_network (uint32 n) = Unit {0}
Fits login_state (uint32 n) = Unit {0}
Fits last_keep_alive (int64 z) = Unit {0}
Fits tgt_start (int64 z) = Unit {0}
Fits tgt_end (int64 z) = Unit {0}
Fits p v = ⊥

pub field-apply :
    {C : Type 0} (c : Change C) (q : Name) (s : Status C)
    → target c ≢ q
    → field q (apply c s) ≡ field q s
field-apply c config s h = refl
field-apply c other s h = refl
field-apply c trusted_network s h = ground arith
field-apply c login_state s h = ground arith
field-apply c last_keep_alive s h = ground arith
field-apply c tgt_start s h = ground arith
field-apply c tgt_end s h = ground arith

field-copy : (T : Tnd) (q : Name) (s : Status T.Conf) → field q (copy T s) ≡ field q s
field-copy T config s = refl
field-copy T other s = refl
field-copy T trusted_network s = refl
field-copy T login_state s = refl
field-copy T last_keep_alive s = refl
field-copy T tgt_start s = refl
field-copy T tgt_end s = refl

module _ (T : Tnd) (B : Bus T.Conf) (w : Carries B) where
  pub decode-Fits :
      (q : Name) (v : Value) (s : Status T.Conf)
      → Fits q v
      → (c : Change T.Conf) × (decode B q (w.variant v) ≡ got c) × (field q (apply c s) ≡ v)
  unfolding decode
  decode-Fits trusted_network (uint32 n) s h =
      (set_trusted_network n, ground (arith, w.carries_uint32 n), refl)
  decode-Fits login_state (uint32 n) s h =
      (set_login_state n, ground (arith, w.carries_uint32 n), refl)
  decode-Fits last_keep_alive (int64 z) s h =
      (set_last_keep_alive z, ground (arith, w.carries_int64 z), refl)
  decode-Fits tgt_start (int64 z) s h = (set_tgt_start z, ground (arith, w.carries_int64 z), refl)
  decode-Fits tgt_end (int64 z) s h = (set_tgt_end z, ground (arith, w.carries_int64 z), refl)
  decode-Fits _ _ s h = absurd h

  pub see_got :
      (u : Update) (s : Status T.Conf) (c : Change T.Conf)
      → decode B (name_of u.name) (w.variant u.value) ≡ got c
      → see T B w s u ≡ copy T (apply c (copy T s))
  unfolding see
  see_got u s c e = rw (see, e) refl

  pub see_failed :
      (u : Update) (s : Status T.Conf) (m : String)
      → decode B (name_of u.name) (w.variant u.value) ≡ failed m
      → see T B w s u ≡ s
  unfolding see
  see_failed u s m e = rw (see, e) refl

  -- A property that fits is seen as it was sent.
  pub field-see :
      (u : Update) (s : Status T.Conf)
      → Fits (name_of u.name) u.value
      → field (name_of u.name) (see T B w s u) ≡ u.value
  field-see u s h =
      let (c, e, f) = decode-Fits (name_of u.name) u.value (copy T s) h in
      ap (field (name_of u.name)) (see_got u s c e)
      ∙ (field-copy T (name_of u.name) (apply c (copy T s)) ∙ f)

  -- Every other field stays as it is.
  pub field-see_other :
      (q : Name) (u : Update) (s : Status T.Conf)
      → name_of u.name ≢ q
      → field q (see T B w s u) ≡ field q s
  field-see_other q u s h = elim (Try-cases (decode B (name_of u.name) (w.variant u.value))) [
    | inl (m, bad) ↦ ap (field q) (see_failed u s m bad)
    | inr (c, good) ↦
        let t = target-decode B (name_of u.name) (w.variant u.value) c good in
        ap (field q) (see_got u s c good)
        ∙ (field-copy T q (apply c (copy T s))
            ∙ (field-apply c q (copy T s) (λ same. h (sym t ∙ same)) ∙ field-copy T q s))
  ]
