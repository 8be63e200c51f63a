-- ===== src/DbusTool/Following.antt =====
-- The example program over signals that the client takes.
use fw_id_agent.Prelude.{
  String, str_eq, ◌≡◌, refl, ap, inl, inr, Bool-cases, Option-cases, eq_iff, true, Option, none,
  some, List, [], ◌∷◌, arith,
}
use fw_id_agent.Config.{Config}
use fw_id_agent.Status.{Status, new}
use fw_id_agent.Dbusapi.{interface, config_invalid}
use fw_id_agent.DbusClient.Update.{
  Try, got, failed, map_try, Bus, Name, config, trusted_network, login_state, last_keep_alive,
  tgt_start, tgt_end, other, name_of, Change, set_config, set_trusted_network, set_login_state,
  set_last_keep_alive, set_tgt_start, set_tgt_end, apply, decode, decode_config, nothing, apply_all,
  update_status,
}
use mathlib.Core.List.{Permᴰ, Nodup}
use mathlib.Core.List.Permᴰ
use fw_id_agent.DbusClient.Update.Atomic.{Try-cases}
use fw_id_agent.DbusClient.Update.Order.{keys, update_any_order}
use fw_id_agent.DbusClient.Signal.{
  Item, text_item, map_item, names_item, other_item, Signal, updated, invalidation, invalidate,
  handle_properties_changed,
}
use fw_id_agent.DbusTool.{
  Values, reset, reset_all, holds, store, store_all, change_values, check_interface, visit_signal,
  follow_signals,
}
use fw_id_agent.DbusTool.Agreement.{
  Reads, Agrees, set_config-Agrees, set_trusted_network-Agrees, set_login_state-Agrees,
  set_last_keep_alive-Agrees, set_tgt_start-Agrees, set_tgt_end-Agrees,
}

module _ {C : Type 0} (B : Bus C) where
  open B use {Variant, store_string, store_uint32, store_int64, config_from_json}

  map_try-got :
      {X Y : Type 0} (f : X → Y) (t : Try X) (y : Y)
      → map_try f t ≡ got y
      → (x : X) × (t ≡ got x) × (y ≡ f x)
  map_try-got f (got x) y h = (x, refl, ground arith)
  map_try-got f (failed e) y h = absurd (ground arith)

  decode-config :
      (text : String) (c : Change C)
      → decode_config B text ≡ got c
      → (o : Option (Config C)) × (c ≡ set_config o) × Reads B text o
  unfolding decode_config
  decode-config text c h = elim (Bool-cases (str_eq text config_invalid)) [
    | inl empty ↦ (none, ground arith, (eq_iff text config_invalid).0 empty)
    | inr full ↦ elim (Try-cases (config_from_json text)) [
      | inl (m, e) ↦ absurd (ground arith)
      | inr (d, e) ↦ (some d, ground arith, e)
    ]
  ]

  store-decode :
      (q : Name) (x : Variant) (c : Change C) (v : Values) (s : Status C)
      → decode B q x ≡ got c
      → Agrees B v s
      → (u : Values) × (store B q x v ≡ got u) × Agrees B u (apply c s)
  unfolding decode
  store-decode trusted_network x c v s h a =
      let (n, e, same) = map_try-got set_trusted_network (store_uint32 x) c h in
      (
        record v { trusted_network = n },
        ap (map_try _) e,
        rw same (set_trusted_network-Agrees B v s a n),
      )
  store-decode login_state x c v s h a =
      let (n, e, same) = map_try-got set_login_state (store_uint32 x) c h in
      (record v { login_state = n }, ap (map_try _) e, rw same (set_login_state-Agrees B v s a n))
  store-decode last_keep_alive x c v s h a =
      let (n, e, same) = map_try-got set_last_keep_alive (store_int64 x) c h in
      (
        record v { last_keep_alive_at = n },
        ap (map_try _) e,
        rw same (set_last_keep_alive-Agrees B v s a n),
      )
  store-decode tgt_start x c v s h a =
      let (n, e, same) = map_try-got set_tgt_start (store_int64 x) c h in
      (
        record v { kerberos_tgt_start_time = n },
        ap (map_try _) e,
        rw same (set_tgt_start-Agrees B v s a n),
      )
  store-decode tgt_end x c v s h a =
      let (n, e, same) = map_try-got set_tgt_end (store_int64 x) c h in
      (
        record v { kerberos_tgt_end_time = n },
        ap (map_try _) e,
        rw same (set_tgt_end-Agrees B v s a n),
      )
  store-decode other x c v s h a = let same : c ≡ nothing = ground arith in (v, refl, rw same a)
  store-decode config x c v s h a = elim (Try-cases (store_string x)) [
    | inl (m, e) ↦ absurd (ground arith)
    | inr (text, e) ↦
        let (o, same, reads) = decode-config text c (rw e at h) in
        (record v { config = text }, rw e refl, rw same (set_config-Agrees B v s a text o reads))
  ]

  store_all-apply_all :
      (ps : List (String × Variant)) (v : Values) (s t : Status C)
      → apply_all B ps s ≡ (none, t)
      → Agrees B v s
      → (u : Values) × (store_all B ps v ≡ got u) × Agrees B u t
  unfolding apply_all store_all
  store_all-apply_all [] v s t h a = (v, refl, rw (ap (λ r. r.1) h) at a)
  store_all-apply_all ((k, x) ∷ ps) v s t h a = elim (Try-cases (decode B (name_of k) x)) [
    | inl (m, e) ↦ absurd (ground arith)
    | inr (c, e) ↦
        let (w, stored, kept) = store-decode (name_of k) x c v s e a in
        let rest : apply_all B ps (apply c s) ≡ (none, t) = rw (apply_all, e) at h in
        let (u, done, last) = store_all-apply_all ps w (apply c s) t rest kept in
        (u, rw (store_all, stored) done, last)
  ]

  reset-invalidation :
      (q : Name) (v : Values) (s : Status C)
      → Agrees B v s
      → Agrees B (reset q v) (apply (invalidation q) s)
  reset-invalidation config v s a = set_config-Agrees B v s a config_invalid none refl
  reset-invalidation trusted_network v s a = set_trusted_network-Agrees B v s a _
  reset-invalidation login_state v s a = set_login_state-Agrees B v s a _
  reset-invalidation last_keep_alive v s a = set_last_keep_alive-Agrees B v s a _
  reset-invalidation tgt_start v s a = set_tgt_start-Agrees B v s a _
  reset-invalidation tgt_end v s a = set_tgt_end-Agrees B v s a _
  reset-invalidation other v s a = a

  reset_all-invalidate :
      (ks : List String) (v : Values) (s : Status C)
      → Agrees B v s
      → Agrees B (reset_all ks v) (invalidate ks s)
  unfolding reset_all invalidate
  reset_all-invalidate [] v s a = a
  reset_all-invalidate (k ∷ ks) v s a =
      reset_all-invalidate ks (reset (name_of k) v) (apply (invalidation (name_of k)) s)
        (reset-invalidation (name_of k) v s a)

  -- What the client has done with a signal that it takes.
  update_status-none :
      (ps qs : List (String × Variant)) (s : Status C)
      → (update_status B ps qs s).0 ≡ none
      → apply_all B qs s ≡ (none, (update_status B ps qs s).1)
  unfolding update_status
  update_status-none ps qs s h = elim (Option-cases (apply_all B ps new).0) [
    | inl e ↦
        let fine : (apply_all B qs s).0 ≡ none = ground arith in
        rw (e, update_status) (λ i. (fine i, (apply_all B qs s).1))
    | inr (m, e) ↦ absurd (ground arith)
  ]

  -- Two processes receive an item: the maps have the same entries, each name once, and each loop over
  -- a map has an order of its own.
  abbrev pub IsSame : Item Variant → Item Variant → Type 0
  IsSame (text_item i) (text_item j) = i ≡ j
  IsSame (map_item ps qs) (map_item os _) = Nodup (keys B ps) × Permᴰ ps qs × Permᴰ ps os
  IsSame (names_item ks) (names_item js) = ks ≡ js
  IsSame other_item other_item = Unit {0}
  IsSame _ _ = ⊥

  abbrev pub AreSame : List (Item Variant) → List (Item Variant) → Type 0
  AreSame [] [] = Unit {0}
  AreSame (a ∷ la) (b ∷ lb) = IsSame a b × AreSame la lb
  AreSame _ _ = ⊥

  -- Two processes receive a signal.
  pub record Received (x y : Signal Variant) : Type 0 where
    pub path : x.path ≡ y.path
    pub name : x.name ≡ y.name
    pub body : AreSame x.body y.body

  body-updated :
      (b c : List (Item Variant)) (x : Signal Variant) (v : Values) (s t : Status C)
      → AreSame b c
      → x.body ≡ b
      → handle_properties_changed B x s ≡ updated t
      → Agrees B v s
      → (u : Values) × (check_interface B c v ≡ holds u) × Agrees B u t
  unfolding handle_properties_changed check_interface change_values
  body-updated (text_item i ∷ map_item ps qs ∷ names_item ks ∷ rest)
        (text_item j ∷ map_item os os' ∷ names_item js ∷ rest') x v s t
        (same, ((n, p, o), (names, _))) e h a =
      let done : (update_status B ps qs s).0 ≡ none = ground arith in
      let last : t ≡ invalidate ks (update_status B ps qs s).1 = ground arith in
      let addressed : str_eq i interface ≡ true = ground arith in
      let order : update_status B ps os s ≡ update_status B ps qs s =
        update_any_order B ps qs ps os s n p (Permᴰ.refl ps) o done in
      let (u, stored, kept) =
        store_all-apply_all os v s (update_status B ps qs s).1
          (rw order at (update_status-none ps os s (rw order done))) a in
      (
        reset_all ks u,
        rw (← same, addressed, change_values, stored, ← names) refl,
        rw last (reset_all-invalidate ks u (update_status B ps qs s).1 kept),
      )
  body-updated _ _ x v s t same e h a = absurd (ground arith)

  visit_signal-updated :
      (x y : Signal Variant) (v : Values) (s t : Status C)
      → Received x y
      → handle_properties_changed B x s ≡ updated t
      → Agrees B v s
      → (u : Values) × (visit_signal B y v ≡ holds u) × Agrees B u t
  unfolding handle_properties_changed visit_signal
  visit_signal-updated x y v s t r h a =
      let path = r.path in
      let name = r.name in
      let (u, checked, kept) = body-updated x.body y.body x v s t r.body refl h a in
      (u, ground arith, kept)

  -- The client takes the signals one after another.
  abbrev pub Takes : List (Signal Variant) → Status C → Status C → Type 0
  Takes [] s t = s ≡ t
  Takes (x ∷ xs) s t = (u : Status C) × (handle_properties_changed B x s ≡ updated u) × Takes xs u t

  -- Each of two processes receives the same signals.
  abbrev pub AllReceived : List (Signal Variant) → List (Signal Variant) → Type 0
  AllReceived [] [] = Unit {0}
  AllReceived (x ∷ xs) (y ∷ ys) = Received x y × AllReceived xs ys
  AllReceived _ _ = ⊥

  -- Over the same signals as those that `handlePropertiesChanged` takes one after another in the
  -- client, the example program neither exits nor panics, whatever the orders are in which the loops of
  -- both visit a map, whose names are each there once. If at first it holds the values of the client's
  -- status, it holds those of the client's last status: the text of its configuration, both states and
  -- the three times.
  pub follow_signals-Agrees :
      (xs ys : List (Signal Variant)) (v : Values) (s t : Status C)
      → AllReceived xs ys
      → Takes xs s t
      → Agrees B v s
      → (u : Values) × (follow_signals B ys v ≡ holds u) × Agrees B u t
  unfolding follow_signals
  follow_signals-Agrees [] [] v s t r same a = (v, refl, rw same at a)
  follow_signals-Agrees (x ∷ xs) (y ∷ ys) v s t (r, others) (m, h, later) a =
      let (w, handled, kept) = visit_signal-updated x y v s m r h a in
      let (u, followed, last) = follow_signals-Agrees xs ys w m t others later kept in
      (u, rw (follow_signals, handled) followed, last)
  follow_signals-Agrees [] (y ∷ ys) v s t r same a = absurd r
  follow_signals-Agrees (x ∷ xs) [] v s t r same a = absurd r
