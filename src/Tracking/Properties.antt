-- ===== src/Tracking/Properties.antt =====
-- The properties that the service exports, and what a status made from all of them holds.
use mathlib.Core.List.{Permᴰ}
use fw_id_agent.Prelude.{String, ◌≡◌, ◌≢◌, ◌⊎◌, inl, inr, ◌∙◌, sym, List, [], ◌∷◌, All}
use fw_id_agent.Config.{Tnd}
use fw_id_agent.Status.{Status}
use fw_id_agent.Status.TrustedNetwork
use fw_id_agent.Status.LoginState
use fw_id_agent.Dbusapi.{
  Value, text, uint32, int64, config_invalid, last_keep_alive_at_invalid,
  kerberos_tgt_start_time_invalid, kerberos_tgt_end_time_invalid,
}
use fw_id_agent.Agent.State.{Effect, latest}
use fw_id_agent.DbusClient.Update.{
  got, Bus, Name, config, trusted_network, login_state, last_keep_alive, tgt_start, tgt_end, other,
  name_of, Change, apply, decode, apply_all,
}
use fw_id_agent.DbusClient.Update.Atomic.{IsStorable}
use fw_id_agent.DbusClient.Update.Order.{
  target, Name-discrete, text_of, target-decode, apply_all_cons,
}
use fw_id_agent.Tracking.{Carries}
use fw_id_agent.Tracking.Fields.{field, Fits, field-apply, decode-Fits}
use fw_id_agent.Tracking.Follow.{or_else}

-- The value of a property when the service has started.
abbrev pub start_value : Name → Value
start_value trusted_network = uint32 TrustedNetwork.not_trusted
start_value login_state = uint32 LoginState.logged_out
start_value last_keep_alive = int64 last_keep_alive_at_invalid
start_value tgt_start = int64 kerberos_tgt_start_time_invalid
start_value tgt_end = int64 kerberos_tgt_end_time_invalid
start_value config = text config_invalid
start_value other = text ""

-- The value to which the effects of an agent have brought a property.
abbrev pub current : List Effect → Name → Value
current es q = or_else (start_value q) (latest (text_of q) es)

module _ (T : Tnd) (B : Bus T.Conf) (w : Carries B) where
  open B use {Variant}

  abbrev pub exported : List Effect → Name → String × Variant
  exported es q = (text_of q, w.variant (current es q))

  -- What `GetAll` answers: every exported property with its current value.
  abbrev pub get_all : List Effect → List (String × Variant)
  get_all es =
      exported es config
      ∷ exported es trusted_network
      ∷ exported es login_state
      ∷ exported es last_keep_alive
      ∷ exported es tgt_start
      ∷ exported es tgt_end
      ∷ []

  -- A property of the name has the value.
  abbrev pub Agrees : Name → Value → String × Variant → Type 0
  Agrees q v kv = name_of kv.0 ≡ q → kv.1 ≡ w.variant v

  abbrev pub Has : Name → List (String × Variant) → Type 0
  Has q [] = ⊥
  Has q (kv ∷ ps) = (name_of kv.0 ≡ q) ⊎ Has q ps

  -- What is observed of a status, where only a property of the name changes it, and one with the
  -- value makes it `y`.
  module _ (q : Name) (v : Value) {Y : Type 0} (observe : Status T.Conf → Y) (y : Y)
      (hit : (c : Change T.Conf) (s : Status T.Conf)
        → decode B q (w.variant v) ≡ got c
        → observe (apply c s) ≡ y)
      (miss : (c : Change T.Conf) (s : Status T.Conf)
        → target c ≢ q
        → observe (apply c s) ≡ observe s) where
    apply-agreeing :
        (kv : String × Variant) (c : Change T.Conf) (s : Status T.Conf)
        → decode B (name_of kv.0) kv.1 ≡ got c
        → Agrees q v kv
        → name_of kv.0 ≡ q
        → observe (apply c s) ≡ y
    apply-agreeing (k, x) c s h agree e =
        let hc : decode B q (w.variant v) ≡ got c = rw (e, agree e) at h in hit c s hc

    -- What is observed stays.
    observe-kept :
        (ps : List (String × Variant)) (s : Status T.Conf)
        → All (IsStorable B) ps
        → All (Agrees q v) ps
        → observe s ≡ y
        → observe (apply_all B ps s).1 ≡ y
    unfolding apply_all
    observe-kept [] s able agree e = e
    observe-kept ((k, x) ∷ ps) s ((c, h), able) (a, agree) e =
        let step = apply_all_cons B (k, x) ps s c h in
        let next : observe (apply c s) ≡ y = elim (Name-discrete (name_of k) q) [
          | yes z ↦ apply-agreeing (k, x) c s h a z
          | no n ↦ miss c s (λ t. n (sym (target-decode B (name_of k) x c h) ∙ t)) ∙ e
        ] in
        rw step (observe-kept ps (apply c s) able agree next)

    pub observe-got :
        (ps : List (String × Variant)) (s : Status T.Conf)
        → All (IsStorable B) ps
        → All (Agrees q v) ps
        → Has q ps
        → observe (apply_all B ps s).1 ≡ y
    unfolding apply_all
    observe-got [] s able agree has = absurd has
    observe-got ((k, x) ∷ ps) s ((c, h), able) (a, agree) has =
        let step = apply_all_cons B (k, x) ps s c h in
        rw step (elim has [
          | inl here ↦ observe-kept ps (apply c s) able agree (apply-agreeing (k, x) c s h a here)
          | inr later ↦ observe-got ps (apply c s) able agree later
        ])

  -- A field is that of its property.
  pub field-got :
      (q : Name) (v : Value)
      → Fits q v
      → (ps : List (String × Variant)) (s : Status T.Conf) → All (IsStorable B) ps
      → All (Agrees q v) ps
      → Has q ps
      → field q (apply_all B ps s).1 ≡ v
  field-got q v fit =
      observe-got q v (field q) v
        (λ c s h.
          let (d, hd, f) = decode-Fits T B w q v s fit in
          let same : got c ≡ got d = sym h ∙ hd in let both : c ≡ d = cc in rw both f)
        (λ c s m. field-apply c q s m)

  pub All-perm_of :
      (P : String × Variant → Type 0) {ps qs : List (String × Variant)}
      → Permᴰ ps qs
      → All P ps
      → All P qs
  All-perm_of P Permᴰ.nil h = tt
  All-perm_of P (Permᴰ.cons e p) h = (rw e at h.0, All-perm_of P p h.1)
  All-perm_of P (Permᴰ.swap e f) h = (rw f at h.1.0, (rw e at h.0, h.1.1))
  All-perm_of P (Permᴰ.trans p q) h = All-perm_of P q (All-perm_of P p h)

  pub Has-perm : (q : Name) {ps qs : List (String × Variant)} → Permᴰ ps qs → Has q ps → Has q qs
  Has-perm q Permᴰ.nil h = h
  Has-perm q (Permᴰ.cons e p) (inl h) = inl (rw e at h)
  Has-perm q (Permᴰ.cons e p) (inr h) = inr (Has-perm q p h)
  Has-perm q (Permᴰ.swap e f) (inl h) = inr (inl (rw e at h))
  Has-perm q (Permᴰ.swap e f) (inr (inl h)) = inl (rw f at h)
  Has-perm q (Permᴰ.swap e f) (inr (inr h)) = inr (inr h)
  Has-perm q (Permᴰ.trans p r) h = Has-perm q r (Has-perm q p h)
