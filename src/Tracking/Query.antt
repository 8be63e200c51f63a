-- ===== src/Tracking/Query.antt =====
-- What `Query` gives of the properties that the service exports.
use mathlib.Core.List.{Permᴰ}
use fw_id_agent.Prelude.{
  String, ◌≡◌, refl, inl, inr, ap, Option, none, some, List, [], ◌∷◌, ◌++◌, arith, All,
  Option-cases,
}
use fw_id_agent.Config.{Tnd}
use fw_id_agent.Status.{Status, new}
use fw_id_agent.Dbusapi.{Value}
use fw_id_agent.Agent.State.{Effect, set_property, latest}
use fw_id_agent.DbusClient.Update.{
  got, Bus, Name, config, trusted_network, login_state, last_keep_alive, tgt_start, tgt_end, other,
  name_of, apply_all,
}
use fw_id_agent.DbusClient.Update.Atomic.{IsStorable, All-perm, apply_all_ok}
use fw_id_agent.DbusClient.Update.Order.{text_of, update_storable}
use fw_id_agent.DbusClient.Query.{query}
use fw_id_agent.Tracking.{Carries}
use fw_id_agent.Tracking.Fields.{Fits, decode-Fits}
use fw_id_agent.Tracking.Follow.{FitsIf, or_else}
use fw_id_agent.Tracking.Properties.{
  start_value, current, exported, get_all, Agrees, Has, field-got, All-perm_of, Has-perm,
}
use fw_id_agent.Tracking.Shown.{IsField, Holds, AllFit}

latest-append :
    (p : String) (l m : List Effect)
    → latest p (l ++ m) ≡ elim (latest p l) [ none ↦ latest p m | some v ↦ some v ]
latest-append p [] m = refl
latest-append p (set_property q v ∷ es) m = ground (arith, latest-append p es m)
latest-append p (_ ∷ es) m = latest-append p es m

pub current-append :
    (q : Name) (l m : List Effect)
    → or_else (current m q) (latest (text_of q) l) ≡ current (l ++ m) q
current-append q l m = ground (arith, latest-append (text_of q) l m)

pub later-FitsIf :
    (q : Name) (l m : List Effect)
    → FitsIf q (latest (text_of q) (l ++ m))
    → FitsIf q (latest (text_of q) l)
later-FitsIf q l m h = elim (Option-cases (latest (text_of q) l)) [
  | inl e ↦ rw e tt
  | inr (v, e) ↦
      let whole : latest (text_of q) (l ++ m) ≡ some v =
        ground (arith, latest-append (text_of q) l m) in
      rw e (rw whole at h)
]

current-Fits : (es : List Effect) (q : Name) → IsField q → AllFit es → Fits q (current es q)
current-Fits es q h fit = or_else-Fits q (latest (text_of q) es) h (fit q h)
  where
    or_else-Fits :
        (q : Name) (o : Option Value) → IsField q → FitsIf q o → Fits q (or_else (start_value q) o)
    or_else-Fits q (some v) h f = f
    or_else-Fits config none h f = h
    or_else-Fits other none h f = h
    or_else-Fits trusted_network none h f = tt
    or_else-Fits login_state none h f = tt
    or_else-Fits last_keep_alive none h f = tt
    or_else-Fits tgt_start none h f = tt
    or_else-Fits tgt_end none h f = tt

module _ (T : Tnd) (B : Bus T.Conf) (w : Carries B) where
  open B use {Variant}

  -- The configuration that the agent has published, or its empty text, can be read by the client.
  abbrev pub ConfigReadable : List Effect → Type 0
  ConfigReadable es = IsStorable B (exported T B w es config)

  module _ (es : List Effect) (fit : AllFit es) (readable : ConfigReadable es) where
    storable : (q : Name) → IsField q → name_of (text_of q) ≡ q → IsStorable B (exported T B w es q)
    storable q h e =
        let (c, d, _) = decode-Fits T B w q (current es q) new (current-Fits es q h fit) in
        (c, rw e d)

    pub get_all-IsStorable : All (IsStorable B) (get_all T B w es)
    get_all-IsStorable = (
      readable,
      (
        storable trusted_network tt refl,
        (
          storable login_state tt refl,
          (
            storable last_keep_alive tt refl,
            (storable tgt_start tt refl, (storable tgt_end tt refl, tt)),
          ),
        ),
      ),
    )

    pub agrees : (q : Name) → All (Agrees T B w q (current es q)) (get_all T B w es)
    agrees q = (value, (value, (value, (value, (value, (value, tt))))))
      where
        value : {r : Name} → r ≡ q → w.variant (current es r) ≡ w.variant (current es q)
        value e = ap (λ r. w.variant (current es r)) e

    has : (q : Name) → IsField q → Has T B w q (get_all T B w es)
    has config h = absurd h
    has other h = absurd h
    has trusted_network h = inr (inl refl)
    has login_state h = inr (inr (inl refl))
    has last_keep_alive h = inr (inr (inr (inl refl)))
    has tgt_start h = inr (inr (inr (inr (inl refl))))
    has tgt_end h = inr (inr (inr (inr (inr (inl refl)))))

    -- `Query` gives a status with the values of the properties, in whatever order it visits them.
    pub query-Holds :
        (ps qs : List (String × Variant))
        → Permᴰ (get_all T B w es) ps
        → Permᴰ (get_all T B w es) qs
        → (s : Status T.Conf) × (query B (got (ps, qs)) ≡ got s) × Holds es s
    unfolding query
    query-Holds ps qs p r =
        let able = All-perm B r get_all-IsStorable in
        let done = update_storable B ps qs new (All-perm B p get_all-IsStorable) in
        (
          (apply_all B qs new).1,
          rw (query, done, apply_all_ok B qs new able) (ap (λ u. got u.1) done),
          λ q h.
              field-got T B w q (current es q) (current-Fits es q h fit) qs new able
                (All-perm_of T B w (Agrees T B w q (current es q)) r (agrees q))
                (Has-perm T B w q r (has q h)),
        )
