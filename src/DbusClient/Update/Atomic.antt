-- ===== src/DbusClient/Update/Atomic.antt =====
-- The update is all or nothing, although it writes field by field.
use mathlib.Core.List.{Permᴰ}
use fw_id_agent.Prelude.{
  String, ◌≡◌, ◌⊎◌, inl, inr, refl, none, some, List, [], ◌∷◌, arith, All, Option-cases,
}
use fw_id_agent.Status.{Status, new}
use fw_id_agent.DbusClient.Update.{
  Try, got, failed, Bus, name_of, Change, apply, decode, apply_all, update_status,
}

pub Try-cases : {A : Type 0} (t : Try A) → ((e : String) × (t ≡ failed e)) ⊎ ((a : A) × (t ≡ got a))
Try-cases (failed e) = inl (e, refl)
Try-cases (got a) = inr (a, refl)

module _ {C : Type 0} (B : Bus C) where
  open B use {Variant}

  -- The property can be stored, whatever the status is.
  abbrev pub IsStorable : String × Variant → Type 0
  IsStorable kv = (c : Change C) × (decode B (name_of kv.0) kv.1 ≡ got c)

  IsStorable-All :
      (ps : List (String × Variant)) (s : Status C)
      → (apply_all B ps s).0 ≡ none
      → All IsStorable ps
  unfolding apply_all
  IsStorable-All [] s h = tt
  IsStorable-All ((k, v) ∷ ps) s h = elim (Try-cases (decode B (name_of k) v)) [
    | inl (e, bad) ↦ absurd (ground arith)
    | inr (c, good) ↦ ((c, good), IsStorable-All ps (apply c s) (ground arith))
  ]

  pub apply_all_ok :
      (ps : List (String × Variant)) (s : Status C)
      → All IsStorable ps
      → (apply_all B ps s).0 ≡ none
  unfolding apply_all
  apply_all_ok [] s h = refl
  apply_all_ok ((k, v) ∷ ps) s ((c, good), rest) =
      rw (good, apply_all) (apply_all_ok ps (apply c s) rest)

  pub All-perm :
      {ps qs : List (String × Variant)} → Permᴰ ps qs → All IsStorable ps → All IsStorable qs
  All-perm Permᴰ.nil h = tt
  All-perm (Permᴰ.cons e p) h = (rw e at h.0, All-perm p h.1)
  All-perm (Permᴰ.swap e f) h = (rw f at h.1.0, (rw e at h.0, h.1.1))
  All-perm (Permᴰ.trans p q) h = All-perm q (All-perm p h)

  -- If the two rounds visit the same properties, in any two orders, then an update that returns an
  -- error leaves the status as it was, and it returns one if and only if some property cannot be
  -- stored: it returns none exactly when all can.
  pub update_atomic :
      (ps qs : List (String × Variant)) (s : Status C)
      → Permᴰ ps qs
      → ((e : String) → (update_status B ps qs s).0 ≡ some e → (update_status B ps qs s).1 ≡ s)
        × (((update_status B ps qs s).0 ≡ none → All IsStorable ps)
            × (All IsStorable ps → (update_status B ps qs s).0 ≡ none))
  unfolding update_status
  update_atomic ps qs s p = elim (Option-cases (apply_all B ps new).0) [
    | inl fine ↦
        let able = IsStorable-All ps new fine in
        let done = apply_all_ok qs s (All-perm p able) in
        ((λ e h. ground arith), ((λ _. able), (λ _. ground arith)))
    | inr (m, bad) ↦ (
      (λ e h. ground arith),
      ((λ h. ground arith), (λ able. ground (arith, apply_all_ok ps new able))),
    )
  ]
