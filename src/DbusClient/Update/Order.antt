-- ===== src/DbusClient/Update/Order.antt =====
-- The order in which Go visits the map of the properties does not matter.
use mathlib.Core.List.{Permᴰ, Nodup, Nodup-cons, mem-cons_self}
use mathlib.Core.List.Perm
use fw_id_agent.Prelude.{
  String, ◌≡◌, ◌≢◌, refl, sym, ap, ◌∙◌, none, List, ◌∷◌, map, arith, All, eq_iff,
}
use fw_id_agent.Status.{Status, new}
use fw_id_agent.Dbusapi.Property
use fw_id_agent.DbusClient.Update.Atomic.{IsStorable, All-perm, apply_all_ok, update_atomic}
use fw_id_agent.DbusClient.Update.{
  got, Bus, Name, config, trusted_network, login_state, last_keep_alive, tgt_start, tgt_end, other,
  name_of, Change, set_config, set_trusted_network, set_login_state, set_last_keep_alive,
  set_tgt_start, set_tgt_end, nothing, apply, decode, apply_all, update_status,
}

-- The field that a change assigns.
abbrev pub target : {C : Type 0} → Change C → Name
target (set_config c) = config
target (set_trusted_network t) = trusted_network
target (set_login_state l) = login_state
target (set_last_keep_alive t) = last_keep_alive
target (set_tgt_start t) = tgt_start
target (set_tgt_end t) = tgt_end
target nothing = other

-- The name of each case of the `switch`.
abbrev pub text_of : Name → String
text_of config = Property.config
text_of trusted_network = Property.trusted_network
text_of login_state = Property.login_state
text_of last_keep_alive = Property.last_keep_alive_at
text_of tgt_start = Property.kerberos_tgt_start_time
text_of tgt_end = Property.kerberos_tgt_end_time
text_of other = ""

pub text_of-name_of : (k : String) → name_of k ≢ other → k ≡ text_of (name_of k)
text_of-name_of k h = ground (
  arith,
  eq_iff k Property.config,
  eq_iff k Property.trusted_network,
  eq_iff k Property.login_state,
  eq_iff k Property.last_keep_alive_at,
  eq_iff k Property.kerberos_tgt_start_time,
  eq_iff k Property.kerberos_tgt_end_time,
)

pub Name-discrete : Discrete Name
Name-discrete = hlevel

-- Two names of one case are the same name, but for those that have no case.
name_of-injective : (k j : String) → k ≢ j → name_of k ≡ name_of j → name_of k ≡ other
name_of-injective k j d h = elim (Name-discrete (name_of k) other) [
  | yes e ↦ e
  | no o ↦
      absurd (d (text_of-name_of k o ∙ (ap text_of h ∙ sym (text_of-name_of j (λ e. o (h ∙ e))))))
]

apply_comm :
    {C : Type 0} (c d : Change C) (s : Status C)
    → (target c ≡ target d → target c ≡ other)
    → apply c (apply d s) ≡ apply d (apply c s)
apply_comm (set_config c) d s h = ground arith
apply_comm (set_trusted_network c) d s h = ground arith
apply_comm (set_login_state c) d s h = ground arith
apply_comm (set_last_keep_alive c) d s h = ground arith
apply_comm (set_tgt_start c) d s h = ground arith
apply_comm (set_tgt_end c) d s h = ground arith
apply_comm nothing d s h = refl

module _ {C : Type 0} (B : Bus C) where
  open B use {Variant}

  pub target-decode : (p : Name) (v : Variant) (c : Change C) → decode B p v ≡ got c → target c ≡ p
  unfolding decode
  target-decode config v c h = ground arith
  target-decode trusted_network v c h = ground arith
  target-decode login_state v c h = ground arith
  target-decode last_keep_alive v c h = ground arith
  target-decode tgt_start v c h = ground arith
  target-decode tgt_end v c h = ground arith
  target-decode other v c h = ground arith

  abbrev pub key : String × Variant → String
  key kv = kv.0

  abbrev pub keys : List (String × Variant) → List String
  keys = map key

  pub apply_all_cons :
      (a : String × Variant) (l : List (String × Variant)) (s : Status C) (c : Change C)
      → decode B (name_of a.0) a.1 ≡ got c
      → apply_all B (a ∷ l) s ≡ apply_all B l (apply c s)
  unfolding apply_all
  apply_all_cons (k, v) l s c h = rw (h, apply_all)

  -- Two storable properties of different names can be stored in either order.
  apply_all_swap :
      (a b : String × Variant) (l : List (String × Variant)) (s : Status C)
      → a.0 ≢ b.0
      → IsStorable B a
      → IsStorable B b
      → apply_all B (a ∷ b ∷ l) s ≡ apply_all B (b ∷ a ∷ l) s
  apply_all_swap a b l s d (c, hc) (e, he) =
      let tc = target-decode (name_of a.0) a.1 c hc in
      let te = target-decode (name_of b.0) b.1 e he in
      let apart : target e ≡ target c → target e ≡ other =
        λ same. te ∙ name_of-injective b.0 a.0 (λ q. d (sym q)) (sym te ∙ (same ∙ tc)) in
      rw (apply_all_cons a _ s c hc, apply_all_cons b _ (apply c s) e he)
        (rw (apply_all_cons b _ s e he, apply_all_cons a _ (apply e s) c hc)
          (ap (apply_all B l) (apply_comm e c s apart)))

  keys-perm : {ps qs : List (String × Variant)} → Permᴰ ps qs → Nodup (keys ps) → Nodup (keys qs)
  keys-perm p = Perm.nodup (Perm.map key ∣ p ∣₁)

  -- Storing all properties of a map gives the same status in every order.
  apply_all-perm :
      {ps qs : List (String × Variant)}
      → Permᴰ ps qs
      → Nodup (keys ps)
      → All (IsStorable B) ps
      → (s : Status C) → apply_all B ps s ≡ apply_all B qs s
  apply_all-perm Permᴰ.nil n h s = refl
  apply_all-perm (Permᴰ.cons {a = a} {b = b} {l₁ = l} {l₂ = m} e p) n (ha, hl) s = rw (← e) (
      rw (apply_all_cons a l s ha.0 ha.1, apply_all_cons a m s ha.0 ha.1)
        (apply_all-perm p (Nodup-cons.0 n).1 hl (apply ha.0 s)))
  apply_all-perm (Permᴰ.swap {a = a} {b = b} {l = l} e f) n (ha, (hb, hl)) s =
      rw (← e, ← f) (apply_all_swap a b l s (λ q. (Nodup-cons.0 n).0 (rw q mem-cons_self)) ha hb)
  apply_all-perm (Permᴰ.trans p q) n h s =
      apply_all-perm p n h s ∙ apply_all-perm q (keys-perm p n) (All-perm B p h) s

  pub update_storable :
      (ps qs : List (String × Variant)) (s : Status C)
      → All (IsStorable B) ps
      → update_status B ps qs s ≡ apply_all B qs s
  unfolding update_status
  update_storable ps qs s able = rw (apply_all_ok B ps new able, update_status)

  -- An update that returns no error leaves the same status whatever the orders are in which the two
  -- rounds visit the properties, and so does the update with any two other orders; that one returns
  -- no error either. The names are those of a map, each once.
  pub update_any_order :
      (ps qs ps' qs' : List (String × Variant)) (s : Status C)
      → Nodup (keys ps)
      → Permᴰ ps qs
      → Permᴰ ps ps'
      → Permᴰ ps qs'
      → (update_status B ps qs s).0 ≡ none
      → update_status B ps' qs' s ≡ update_status B ps qs s
  update_any_order ps qs ps' qs' s n p p' q' h =
      let able = (update_atomic B ps qs s p).1.0 h in
      rw (update_storable ps qs s able, update_storable ps' qs' s (All-perm B p' able))
        (sym (apply_all-perm q' n able s) ∙ apply_all-perm p n able s)
